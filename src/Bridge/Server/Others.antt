-- ===== src/Bridge/Server/Others.antt =====
-- What any run of the server leaves of a client for which nothing arrives in it.
use eloquence.Base.{
  ℕ, ◌+◌, ◌≤◌, ◌<◌, ◌≡◌, ◌≢◌, refl, ◌∙◌, Bool, true, false, ◌||◌, Option, none, some, List, [], ◌∷◌,
  length, arith, ◌==◌, Bool-cases, inl, inr, not, ltb, All,
}
use eloquence.Wire.Function.{msg_handshake, msg_rpc_request}
use eloquence.Frame.{Message, net_len}
use eloquence.Bridge.Engine.{Outside}
use eloquence.Bridge.Client.{Client, register_client, find_client_by_id}
use eloquence.Bridge.Server.{
  Server, Event, accepted, arrived, connect, attach, attached, accept_turn, disconnect, dispatched,
  client_turn, thread_turn, step, run,
}
use eloquence.Bridge.Server.Clients.{find_client_by_id_lem}
use eloquence.Bridge.Server.Invariant.{ServerOk, step-ServerOk}
use eloquence.Bridge.Server.Isolation.{arrived_isolates, find_client_by_id-set_client}

-- Neither a message of the client nor a handshake that names it.
abbrev pub Foreign : ℕ → Event → Type 0
Foreign other (accepted none fd) = Unit
Foreign other (accepted (some m) fd) = net_len m.payload ≢ other
Foreign other (arrived cid m written) = cid ≢ other

module _ {E : Type 0} (o : Outside E) where
  -- What a step leaves of the client, and of the ids that have been given out.
  record Keeps (other : ℕ) (s s' : Server E) : Type 0 where
    found : find_client_by_id s'.clients other ≡ find_client_by_id s.clients other
    ids : s.next_client_id ≤ s'.next_client_id

  same-Keeps : (other : ℕ) (s : Server E) → Keeps other s s
  same-Keeps other s = record { found = refl; ids = omega arith }

  connect-Keeps :
      (n fd other : ℕ) (s : Server E)
      → n < 4_294_967_294
      → ServerOk n s
      → other < s.next_client_id
      → Keeps other s (connect o fd s).server
  unfolding connect register_client find_client_by_id
  connect-Keeps n fd other s small v below = record {
    found = ground arith;
    ids = omega (arith, v.next_id);
  }

  attached-Keeps :
      (n cid fd other : ℕ) (r : Option Client) (s : Server E)
      → ((c : Client) → r ≡ some c → c.client_id ≡ cid)
      → cid ≢ other
      → Keeps other s (attached o cid fd r s).server
  unfolding attached
  attached-Keeps n cid fd other none s k ne = same-Keeps other s
  attached-Keeps n cid fd other (some c) s k ne = record {
    found =
        find_client_by_id-set_client s.clients (attach fd c) other
          (λ e. ne (ground (arith, k c refl)));
    ids = omega arith;
  }

  accept_turn-Keeps :
      (n fd other : ℕ) (m : Option Message) (s : Server E)
      → n < 4_294_967_294
      → ServerOk n s
      → other < s.next_client_id
      → Foreign other (accepted m fd)
      → Keeps other s (accept_turn o m fd s).server
  unfolding accept_turn
  accept_turn-Keeps n fd other none s small v below ne = same-Keeps other s
  accept_turn-Keeps n fd other (some m) s small v below ne =
      let cid = net_len m.payload in
      elim (Bool-cases (not (m.msg_type == msg_handshake) || ltb (length m.payload) 4)) [
        | inl bad ↦ rw bad (same-Keeps other s)
        | inr hand ↦ elim (Bool-cases (cid == 0)) [
          | inl new ↦ rw (hand, new) (connect-Keeps n fd other s small v below)
          | inr old ↦
              rw (hand, old)
                (attached-Keeps n cid fd other (find_client_by_id s.clients cid) s
                  (λ c e. (find_client_by_id_lem n s.next_client_id s.clients cid c v.clients e).1)
                  ne)
        ]
      ]

  dispatched-next :
      (written : Bool) (sent : Option (List ℕ)) (c : Client) (e : E) (s : Server E)
      → (dispatched o written sent c e s).server.next_client_id ≡ s.next_client_id
  unfolding dispatched disconnect
  dispatched-next false sent c e s = refl
  dispatched-next true none c e s = refl
  dispatched-next true (some bytes) c e s = refl

  client_turn-next :
      (m : Option Message) (written : Bool) (c : Client) (s : Server E)
      → (client_turn o m written c s).server.next_client_id ≡ s.next_client_id
  unfolding client_turn disconnect
  client_turn-next none written c s = refl
  client_turn-next (some m) written c s = elim (Bool-cases (m.msg_type == msg_rpc_request)) [
    | inl request ↦ rw request (dispatched-next written _ _ _ s)
    | inr other ↦ rw other
  ]

  thread_turn-next :
      (m : Option Message) (written : Bool) (r : Option Client) (s : Server E)
      → (thread_turn o m written r s).server.next_client_id ≡ s.next_client_id
  unfolding thread_turn
  thread_turn-next m written none s = refl
  thread_turn-next m written (some c) s = client_turn-next m written c s

  step-Keeps :
      (n other : ℕ) (ev : Event) (s : Server E)
      → n < 4_294_967_294
      → ServerOk n s
      → other < s.next_client_id
      → Foreign other ev
      → Keeps other s (step o ev s).server
  unfolding step
  step-Keeps n other (accepted m fd) s small v below ne =
      accept_turn-Keeps n fd other m s small v below ne
  step-Keeps n other (arrived cid m written) s small v below ne = record {
    found = arrived_isolates o n s cid other m written v (λ e. ne (ground (arith, e)));
    ids = rw (thread_turn-next m written (find_client_by_id s.clients cid) s) (omega arith);
  }

  -- In any run of fewer than 2 ^ 32 - 1 turns in which nothing arrives for a client of a valid server and no
  -- handshake names it, whatever the others send and however their threads end, it is found as before.
  pub run_isolates :
      (n other : ℕ) (evs : List Event) (s : Server E)
      → n + length evs < 4_294_967_295
      → ServerOk n s
      → other < s.next_client_id
      → All (Foreign other) evs
      → find_client_by_id (run o evs s).clients other ≡ find_client_by_id s.clients other
  unfolding run
  run_isolates n other [] s small v below f = refl
  run_isolates n other (ev ∷ evs) s small v below f =
      let k = step-Keeps n other ev s (omega arith) v below f.0 in
      run_isolates (1 + n) other evs (step o ev s).server (omega arith)
        (step-ServerOk o n ev s (omega arith) v) (omega (arith, k.ids)) f.1
      ∙ k.found
