-- ===== src/Bridge/Server.antt =====
-- arm/bridge_main.c: the handshake in `main`, and the loop of `client_thread`. The threads share the
-- clients and the engine; a turn of a loop is one step here, for one connection.
pub mod Clients
pub mod Invariant
pub mod Isolation
pub mod Others
use eloquence.Base.{
  ℕ, Bool, true, false, ◌&&◌, ◌||◌, Option, none, some, List, [], ◌∷◌, length, ◌==◌, ltb, not,
  if◌then◌else◌, add32, be32, map,
}
use eloquence.Wire.Function.{msg_handshake, msg_rpc_request}
use eloquence.Frame.{Message, net_len}
use eloquence.Handle.{HandleEntry}
use eloquence.Bridge.Engine.{EciFuncs, Outside}
use eloquence.Bridge.Client.{
  Client, CbState, new_client, register_client, unregister_client, find_client_by_id,
}
use eloquence.Bridge.Dispatch.{dispatch_rpc}

-- `g_clients` and `g_next_client_id`, with the state of the engine.
pub record Server (E : Type 0) : Type 0 where
  pub clients : List Client
  pub next_client_id : ℕ
  pub engine : E

-- A write through the pointer to a client.
unfoldable pub set_client : Client → List Client → List Client
set_client new [] = []
set_client new (c ∷ cs) = if c.client_id == new.client_id then new ∷ cs else c ∷ set_client new cs

abbrev pub attach_state : ℕ → CbState → CbState
attach_state fd s = if s.eci_handle_id == 0 then s else record s { cb_fd = fd }

-- The callback channel is noted in the client and in all its callback states that are in use.
abbrev pub attach : ℕ → Client → Client
attach fd c = record c { cb_fd = fd; cb_states = map (attach_state fd) c.cb_states }

-- What the server sends back on the connection, none for nothing, and whether it keeps it open.
pub record Outcome (E : Type 0) : Type 0 where
  pub sent : Option (List ℕ)
  pub open_ : Bool
  pub server : Server E

module _ {E : Type 0} (o : Outside E) where
  open o use {funcs as f}

  -- A new client, under the next id.
  unfoldable pub connect : ℕ → Server E → Outcome E
  unfolding new_client register_client
  connect fd s = record {
    sent = some (be32 s.next_client_id);
    open_ = true;
    server = record s {
      clients = register_client (new_client fd s.next_client_id) s.clients;
      next_client_id = add32 s.next_client_id 1;
    };
  }

  unfoldable pub attached : ℕ → ℕ → Option Client → Server E → Outcome E
  unfolding set_client
  attached cid fd none s = record { sent = some (be32 cid); open_ = false; server = s }
  attached cid fd (some c) s = record {
    sent = some (be32 cid);
    open_ = true;
    server = record s { clients = set_client (attach fd c) s.clients };
  }

  -- A turn of the loop in `main`, with the message that `rpc_read_msg` gave for the new connection.
  unfoldable pub accept_turn : Option Message → ℕ → Server E → Outcome E
  unfolding connect attached find_client_by_id
  accept_turn none fd s = record { sent = none; open_ = false; server = s }
  accept_turn (some m) fd s =
      let cid = net_len m.payload in
      if not (m.msg_type == msg_handshake) || ltb (length m.payload) 4
      then record { sent = none; open_ = false; server = s }
      else if cid == 0
      then connect fd s
      else attached cid fd (find_client_by_id s.clients cid) s

  -- The engine's handles that the client has left are deleted.
  pub delete_handles : List HandleEntry → E → E
  delete_handles [] e = e
  delete_handles (h ∷ hs) e =
      delete_handles hs (if h.in_use && not (h.ptr == 0) then f.eci_delete h.ptr e else e)

  -- The end of `client_thread`.
  unfoldable pub disconnect : Client → Server E → Outcome E
  unfolding unregister_client
  disconnect c s = record {
    sent = none;
    open_ = false;
    server = record s {
      clients = unregister_client c.client_id s.clients;
      engine = delete_handles c.handles.eci.entries s.engine;
    };
  }

  -- A dispatched request: -1 where its header is not readable or the response is not written.
  unfoldable pub dispatched : Bool → Option (List ℕ) → Client → E → Server E → Outcome E
  unfolding set_client disconnect
  dispatched written sent c e s =
      let s' : Server E = record s { clients = set_client c s.clients; engine = e } in
      let open_ : Outcome E = record { sent = sent; open_ = true; server = s' } in
      if written && is_some sent then open_ else record (disconnect c s') { sent = sent }
    where
      is_some : Option (List ℕ) → Bool
      is_some none = false
      is_some (some _) = true

  -- A turn of the loop in `client_thread` for the client, with the message that `rpc_read_msg` gave,
  -- and whether the response can be written.
  unfoldable pub client_turn : Option Message → Bool → Client → Server E → Outcome E
  unfolding dispatched disconnect
  client_turn none written c s = disconnect c s
  client_turn (some m) written c s =
      let r = dispatch_rpc o m.payload c s.engine in
      if m.msg_type == msg_rpc_request
      then dispatched written r.0 r.1 r.2 s
      else record { sent = none; open_ = true; server = s }

-- What happens to the server: a connection that is accepted, and a turn of a client's thread.
pub data Event : Type 0 where
  accepted : Option Message → ℕ → Event
  arrived : ℕ → Option Message → Bool → Event

module _ {E : Type 0} (o : Outside E) where
  -- The thread of a client that is registered.
  unfoldable pub thread_turn : Option Message → Bool → Option Client → Server E → Outcome E
  unfolding client_turn
  thread_turn m written none s = record { sent = none; open_ = false; server = s }
  thread_turn m written (some c) s = client_turn o m written c s

  unfoldable pub step : Event → Server E → Outcome E
  unfolding accept_turn thread_turn find_client_by_id
  step (accepted m fd) s = accept_turn o m fd s
  step (arrived cid m written) s = thread_turn m written (find_client_by_id s.clients cid) s

  unfoldable pub run : List Event → Server E → Server E
  run [] s = s
  run (ev ∷ evs) s = run evs (step ev s).server

abbrev pub start : {E : Type 0} → E → Server E
start e = record { clients = []; next_client_id = 1; engine = e }
