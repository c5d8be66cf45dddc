-- ===== src/Bridge/Server/Isolation.antt =====
-- What a turn of a client's thread leaves of the other clients.
use eloquence.Base.{
  ℕ, ◌≤◌, ◌≡◌, ◌≢◌, refl, Bool, true, false, Option, none, some, List, [], ◌∷◌, arith, ◌==◌,
  Bool-cases, inl, inr, ◌∙◌,
}
use eloquence.Wire.Function.{msg_rpc_request}
use eloquence.Frame.{Message}
use eloquence.Bridge.Engine.{Outside}
use eloquence.Bridge.Client.{Client, unregister_client, find_client_by_id}
use eloquence.Bridge.Dispatch.Channels.{dispatch_rpc-SameClient}
use eloquence.Bridge.Server.{
  Server, arrived, set_client, disconnect, dispatched, client_turn, thread_turn, step,
}
use eloquence.Bridge.Server.Clients.{ClientsOk, find_client_by_id_lem}
use eloquence.Bridge.Server.Invariant.{ServerOk}

pub find_client_by_id-set_client :
    (cs : List Client) (c : Client) (other : ℕ)
    → other ≢ c.client_id
    → find_client_by_id (set_client c cs) other ≡ find_client_by_id cs other
unfolding find_client_by_id set_client
find_client_by_id-set_client [] c other ne = refl
find_client_by_id-set_client (x ∷ cs) c other ne =
    ground (arith, find_client_by_id-set_client cs c other ne)

find_client_by_id-unregister_client :
    (cs : List Client) (cid other : ℕ)
    → other ≢ cid
    → find_client_by_id (unregister_client cid cs) other ≡ find_client_by_id cs other
unfolding find_client_by_id unregister_client
find_client_by_id-unregister_client [] cid other ne = refl
find_client_by_id-unregister_client (x ∷ cs) cid other ne =
    ground (arith, find_client_by_id-unregister_client cs cid other ne)

-- The client of a thread that has ended is not found any more.
pub find_client_by_id-unregistered :
    (n b : ℕ) (cs : List Client) (cid : ℕ)
    → ClientsOk n b cs
    → find_client_by_id (unregister_client cid cs) cid ≡ none
unfolding find_client_by_id unregister_client
find_client_by_id-unregistered n b [] cid h = refl
find_client_by_id-unregistered n b (x ∷ cs) cid h = elim (Bool-cases (x.client_id == cid)) [
  | inl this ↦ rw this (below_none n x.client_id cs cid h.3 (ground arith))
  | inr other ↦ rw (other, other) (find_client_by_id-unregistered n x.client_id cs cid h.3)
]
  where
    below_none :
        (n b : ℕ) (cs : List Client) (cid : ℕ)
        → ClientsOk n b cs
        → b ≤ cid
        → find_client_by_id cs cid ≡ none
    below_none n b [] cid h l = refl
    below_none n b (x ∷ cs) cid h l =
        ground (arith, below_none n x.client_id cs cid h.3 (omega arith))

module _ {E : Type 0} (o : Outside E) where
  -- The clients behind a turn, seen from another client.
  abbrev Same : ℕ → Server E → Server E → Type 0
  Same other s s' = find_client_by_id s'.clients other ≡ find_client_by_id s.clients other

  dispatched_isolates :
      (written : Bool) (sent : Option (List ℕ)) (c : Client) (e : E) (s : Server E) (other : ℕ)
      → other ≢ c.client_id
      → Same other s (dispatched o written sent c e s).server
  unfolding dispatched disconnect
  dispatched_isolates false sent c e s other ne =
      find_client_by_id-unregister_client _ c.client_id other ne
      ∙ find_client_by_id-set_client s.clients c other ne
  dispatched_isolates true none c e s other ne =
      find_client_by_id-unregister_client _ c.client_id other ne
      ∙ find_client_by_id-set_client s.clients c other ne
  dispatched_isolates true (some bytes) c e s other ne =
      find_client_by_id-set_client s.clients c other ne

  client_turn_isolates :
      (m : Option Message) (written : Bool) (c : Client) (s : Server E) (other : ℕ)
      → other ≢ c.client_id
      → Same other s (client_turn o m written c s).server
  unfolding client_turn disconnect
  client_turn_isolates none written c s other ne =
      find_client_by_id-unregister_client s.clients c.client_id other ne
  client_turn_isolates (some m) written c s other ne =
      elim (Bool-cases (m.msg_type == msg_rpc_request)) [
        | inl request ↦
            let same = (dispatch_rpc-SameClient o m.payload c s.engine).client_id in
            rw request (dispatched_isolates written _ _ _ s other (rw same ne))
        | inr quiet ↦ rw quiet
      ]

  thread_turn_isolates :
      (m : Option Message) (written : Bool) (r : Option Client) (s : Server E) (cid other : ℕ)
      → ((c : Client) → r ≡ some c → c.client_id ≡ cid)
      → other ≢ cid
      → Same other s (thread_turn o m written r s).server
  unfolding thread_turn
  thread_turn_isolates m written none s cid other k ne = refl
  thread_turn_isolates m written (some c) s cid other k ne =
      client_turn_isolates m written c s other (rw (k c refl) ne)

  -- Whatever arrives for a client, and however its thread goes on or ends, every other client of a
  -- valid server is found with the same state as before.
  pub arrived_isolates :
      (n : ℕ) (s : Server E) (cid other : ℕ) (m : Option Message) (written : Bool)
      → ServerOk n s
      → other ≢ cid
      → find_client_by_id (step o (arrived cid m written) s).server.clients other
        ≡ find_client_by_id s.clients other
  unfolding step
  arrived_isolates n s cid other m written v ne =
      thread_turn_isolates m written (find_client_by_id s.clients cid) s cid other
        (λ c e. (find_client_by_id_lem n s.next_client_id s.clients cid c v.clients e).1) ne

  thread_turn_ends :
      (n : ℕ) (r : Option Client) (s : Server E) (cid : ℕ)
      → ServerOk n s
      → ((c : Client) → r ≡ some c → c.client_id ≡ cid)
      → (r ≡ none → find_client_by_id s.clients cid ≡ none)
      → find_client_by_id (thread_turn o none true r s).server.clients cid ≡ none
  unfolding thread_turn client_turn disconnect
  thread_turn_ends n none s cid v k gone = gone refl
  thread_turn_ends n (some c) s cid v k gone =
      rw (k c refl) (find_client_by_id-unregistered n s.next_client_id s.clients cid v.clients)

  -- When a client's connection ends, the client is gone from a valid server.
  pub arrived_ends :
      (n : ℕ) (s : Server E) (cid : ℕ)
      → ServerOk n s
      → find_client_by_id (step o (arrived cid none true) s).server.clients cid ≡ none
  unfolding step
  arrived_ends n s cid v =
      thread_turn_ends n (find_client_by_id s.clients cid) s cid v
        (λ c e. (find_client_by_id_lem n s.next_client_id s.clients cid c v.clients e).1) (λ e. e)
