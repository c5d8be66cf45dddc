-- ===== src/Bridge/Server/Invariant.antt =====
-- The invariant of the server over any run of its threads' turns.
use eloquence.Base.{
  ℕ, ◌+◌, ◌≤◌, ◌<◌, ◌≡◌, refl, Bool, true, false, ◌||◌, Option, none, some, List, [], ◌∷◌, length,
  arith, ◌==◌, Bool-cases, inl, inr, not, ltb, add32,
}
use eloquence.Wire.Function.{msg_handshake, msg_rpc_request}
use eloquence.Frame.{Message, net_len}
use eloquence.Bridge.Engine.{Outside}
use eloquence.Bridge.Client.{Client, register_client, find_client_by_id}
use eloquence.Bridge.Dispatch.{dispatch_rpc}
use eloquence.Bridge.Dispatch.Invariant.{dispatch_rpc-IsValid}
use eloquence.Bridge.Dispatch.Ids.{dispatch_rpc-Spends}
use eloquence.Bridge.Server.{
  Server, Event, accepted, arrived, set_client, connect, attached, accept_turn, disconnect,
  dispatched, client_turn, thread_turn, step, run, start,
}
use eloquence.Bridge.Server.Clients.{
  ClientOk, ClientsOk, ClientsOk-more, more-ClientOk, find_client_by_id_lem, set_client-ClientsOk,
  unregister_client-ClientsOk, attach-ClientOk, new_client-ClientOk,
}

pub record ServerOk {E : Type 0} (n : ℕ) (s : Server E) : Type 0 where
  pub some_id : 1 ≤ s.next_client_id
  pub next_id : s.next_client_id ≤ 1 + n
  pub clients : ClientsOk n s.next_client_id s.clients

module _ {E : Type 0} (o : Outside E) where
  same-ServerOk : (n : ℕ) (s : Server E) → ServerOk n s → ServerOk (1 + n) s
  same-ServerOk n s v = record {
    some_id = v.some_id;
    next_id = omega (arith, v.next_id);
    clients = ClientsOk-more n s.next_client_id s.clients v.clients;
  }

  set_client-ServerOk :
      (n : ℕ) (c : Client) (e : E) (s : Server E)
      → ServerOk n s
      → ClientOk (1 + n) c
      → ServerOk (1 + n) (record s { clients = set_client c s.clients; engine = e })
  set_client-ServerOk n c e s v k =
      let w = same-ServerOk n s v in
      record {
        some_id = w.some_id;
        next_id = w.next_id;
        clients = set_client-ClientsOk (1 + n) s.next_client_id s.clients c w.clients k;
      }

  connect-ServerOk :
      (n fd : ℕ) (s : Server E)
      → n < 4_294_967_294
      → ServerOk n s
      → ServerOk (1 + n) (connect o fd s).server
  unfolding connect register_client
  connect-ServerOk n fd s small v =
      let next : add32 s.next_client_id 1 ≡ 1 + s.next_client_id = omega (arith, v.next_id) in
      rw next (record {
        some_id = omega arith;
        next_id = omega (arith, v.next_id);
        clients = (
          new_client-ClientOk (1 + n) fd s.next_client_id,
          v.some_id,
          omega arith,
          ClientsOk-more n s.next_client_id s.clients v.clients,
        );
      })

  attached-ServerOk :
      (n cid fd : ℕ) (r : Option Client) (s : Server E)
      → ServerOk n s
      → ((c : Client) → r ≡ some c → ClientOk n c)
      → ServerOk (1 + n) (attached o cid fd r s).server
  unfolding attached
  attached-ServerOk n cid fd none s v k = same-ServerOk n s v
  attached-ServerOk n cid fd (some c) s v k =
      set_client-ServerOk n _ s.engine s v
        (attach-ClientOk (1 + n) fd c (more-ClientOk n c (k c refl)))

  accept_turn-ServerOk :
      (n fd : ℕ) (m : Option Message) (s : Server E)
      → n < 4_294_967_294
      → ServerOk n s
      → ServerOk (1 + n) (accept_turn o m fd s).server
  unfolding accept_turn
  accept_turn-ServerOk n fd none s small v = same-ServerOk n s v
  accept_turn-ServerOk n fd (some m) s small v =
      let cid = net_len m.payload in
      elim (Bool-cases (not (m.msg_type == msg_handshake) || ltb (length m.payload) 4)) [
        | inl other ↦ rw other (same-ServerOk n s v)
        | inr hand ↦ elim (Bool-cases (cid == 0)) [
          | inl new ↦ rw (hand, new) (connect-ServerOk n fd s small v)
          | inr old ↦
              rw (hand, old)
                (attached-ServerOk n cid fd (find_client_by_id s.clients cid) s v
                  (λ c e. (find_client_by_id_lem n s.next_client_id s.clients cid c v.clients e).0))
        ]
      ]

  disconnect-ServerOk :
      (n : ℕ) (c : Client) (s : Server E) → ServerOk n s → ServerOk n (disconnect o c s).server
  unfolding disconnect
  disconnect-ServerOk n c s v = record {
    some_id = v.some_id;
    next_id = v.next_id;
    clients = unregister_client-ClientsOk n s.next_client_id s.clients c.client_id v.clients;
  }

  dispatched-ServerOk :
      (n : ℕ) (written : Bool) (sent : Option (List ℕ)) (c : Client) (e : E) (s : Server E)
      → ServerOk n s
      → ClientOk (1 + n) c
      → ServerOk (1 + n) (dispatched o written sent c e s).server
  unfolding dispatched
  dispatched-ServerOk n false sent c e s v k =
      disconnect-ServerOk (1 + n) c _ (set_client-ServerOk n c e s v k)
  dispatched-ServerOk n true none c e s v k =
      disconnect-ServerOk (1 + n) c _ (set_client-ServerOk n c e s v k)
  dispatched-ServerOk n true (some bytes) c e s v k = set_client-ServerOk n c e s v k

  dispatch_rpc-ClientOk :
      (n : ℕ) (buf : List ℕ) (c : Client) (e : E)
      → n < 4_294_967_294
      → ClientOk n c
      → ClientOk (1 + n) (dispatch_rpc o buf c e).1
  dispatch_rpc-ClientOk n buf c e small k = record {
    valid = dispatch_rpc-IsValid o buf c e k.valid (record {
      eci = omega (arith, k.ids.eci);
      dict = omega (arith, k.ids.dict);
      filter = omega (arith, k.ids.filter);
    });
    ids = dispatch_rpc-Spends o buf c e (1 + n) k.ids;
  }

  client_turn-ServerOk :
      (n : ℕ) (m : Option Message) (written : Bool) (c : Client) (s : Server E)
      → n < 4_294_967_294
      → ServerOk n s
      → ClientOk n c
      → ServerOk (1 + n) (client_turn o m written c s).server
  unfolding client_turn
  client_turn-ServerOk n none written c s small v k =
      same-ServerOk n _ (disconnect-ServerOk n c s v)
  client_turn-ServerOk n (some m) written c s small v k =
      elim (Bool-cases (m.msg_type == msg_rpc_request)) [
        | inl request ↦ rw request (
            dispatched-ServerOk n written _ _ _ s v
              (dispatch_rpc-ClientOk n m.payload c s.engine small k))
        | inr other ↦ rw other (same-ServerOk n s v)
      ]

  thread_turn-ServerOk :
      (n : ℕ) (m : Option Message) (written : Bool) (r : Option Client) (s : Server E)
      → n < 4_294_967_294
      → ServerOk n s
      → ((c : Client) → r ≡ some c → ClientOk n c)
      → ServerOk (1 + n) (thread_turn o m written r s).server
  unfolding thread_turn
  thread_turn-ServerOk n m written none s small v k = same-ServerOk n s v
  thread_turn-ServerOk n m written (some c) s small v k =
      client_turn-ServerOk n m written c s small v (k c refl)

  pub step-ServerOk :
      (n : ℕ) (ev : Event) (s : Server E)
      → n < 4_294_967_294
      → ServerOk n s
      → ServerOk (1 + n) (step o ev s).server
  unfolding step
  step-ServerOk n (accepted m fd) s small v = accept_turn-ServerOk n fd m s small v
  step-ServerOk n (arrived cid m written) s small v =
      thread_turn-ServerOk n m written (find_client_by_id s.clients cid) s small v
        (λ c e. (find_client_by_id_lem n s.next_client_id s.clients cid c v.clients e).0)

  run-ServerOk :
      (n : ℕ) (evs : List Event) (s : Server E)
      → n + length evs < 4_294_967_295
      → ServerOk n s
      → ServerOk (n + length evs) (run o evs s)
  unfolding run
  run-ServerOk n [] s small v = let e : n + 0 ≡ n = omega arith in rw e v
  run-ServerOk n (ev ∷ evs) s small v =
      let e : n + length (ev ∷ evs) ≡ 1 + n + length evs = omega arith in
      rw e (run-ServerOk (1 + n) evs _ (omega arith) (step-ServerOk n ev s (omega arith) v))

  -- Whatever connections are accepted and messages arrive, in any interleaving of fewer than 2 ^ 32 - 1
  -- turns from the start of the daemon on, the clients have ids of their own, and each has a valid handle
  -- map and callback states in step with it, on its callback channel.
  pub run_start-ServerOk :
      (evs : List Event) (e : E)
      → length evs < 4_294_967_295
      → ServerOk (length evs) (run o evs (start e))
  run_start-ServerOk evs e small =
      let same : 0 + length evs ≡ length evs = omega arith in
      rw same at (
        run-ServerOk 0 evs (start e) (omega arith)
          (record { some_id = omega arith; next_id = omega arith; clients = tt }))
