-- ===== src/Host/Connection/Threads.antt =====
-- The application's threads in `shim_get_conn` and `shim_rpc`, host/shim_connection.c, and the bridge, over one
-- connection. A message is the sequence number that it carries; what a thread does under the lock between two
-- transfers is one step, and so is the making of a connection.
pub mod Matching
use eloquence.Base.{
  ℕ, ◌≡◌, Bool, true, false, Option, none, some, List, [], ◌∷◌, ◌++◌, ◌==◌, if◌then◌else◌, add32,
}

-- Where a thread stands: outside; behind the test of `connected`; with the lock; with its request sent; with a
-- response, and with whether the connection was still intact at its receipt; or behind the unlocking after a
-- failure.
pub data Pc : Type 0 where
  outside : Pc
  ready : Pc
  locked : Pc
  sent : ℕ → Pc
  got : ℕ → ℕ → Bool → Pc
  failed : Pc

-- `g_conn`, with the owner of `rpc_lock`, the messages on the socket, and whether the connection is intact: no
-- call over it has failed. The code keeps no such flag, and goes on using the socket of a connection that is
-- not intact where a thread is past its test of `connected`.
pub record Shared : Type 0 where
  pub owner : Option ℕ
  pub connected : Bool
  pub intact : Bool
  pub next_seq : ℕ
  pub requests : List ℕ
  pub responses : List ℕ

-- A new connection.
abbrev pub fresh : Shared → Shared
fresh s = record s { connected = true; intact = true; next_seq = 1; requests = []; responses = [] }

-- A step of thread `i`. A failure of a call need not break the socket: the next thread that has passed the test
-- may send on it, and receive what is there; where a failure has left a part of a message, anything.
pub data Move (i : ℕ) (s : Shared) : Pc → Shared → Pc → Type 0 where
  enter : s.connected ≡ true → Move i s outside s ready
  reconnect : s.owner ≡ none → s.connected ≡ false → Move i s outside (fresh s) outside
  acquire : s.owner ≡ none → Move i s ready (record s { owner = some i }) locked
  send :
      Move i s locked
        (record s { requests = s.requests ++ s.next_seq ∷ []; next_seq = add32 s.next_seq 1 })
        (sent s.next_seq)
  send_fails :
      Move i s locked
        (record s { owner = none; intact = false; next_seq = add32 s.next_seq 1 })
        failed
  receive :
      {q r : ℕ} {rs : List ℕ}
      → s.responses ≡ r ∷ rs
      → Move i s (sent q) (record s { owner = none; responses = rs }) (got q r s.intact)
  receive_astray :
      {q : ℕ} (r : ℕ) (qs rs : List ℕ)
      → s.intact ≡ false
      → Move i s (sent q) (record s { owner = none; requests = qs; responses = rs }) (got q r false)
  receive_fails : {q : ℕ} → Move i s (sent q) (record s { owner = none; intact = false }) failed
  clear : Move i s failed (record s { connected = false }) outside
  finish : {q r : ℕ} {b : Bool} → Move i s (got q r b) s outside

pub record System : Type 0 where
  pub shared : Shared
  pub pc : ℕ → Pc

abbrev pub update : (ℕ → Pc) → ℕ → Pc → ℕ → Pc
update pc i p j = if i == j then p else pc j

-- A step of a thread, or of the bridge: it takes a request, and sends its response under the same number.
pub data Step (x : System) : System → Type 0 where
  pick :
      (i : ℕ) {s : Shared} {p : Pc}
      → Move i x.shared (x.pc i) s p
      → Step x (record { shared = s; pc = update x.pc i p })
  bridge :
      {q : ℕ} {qs : List ℕ}
      → x.shared.requests ≡ q ∷ qs
      → Step x (record x {
        shared = record (x.shared) { requests = qs; responses = x.shared.responses ++ q ∷ [] };
      })

-- At the start there is no connection.
abbrev pub init : System
init = record {
  shared = record {
    owner = none;
    connected = false;
    intact = false;
    next_seq = 1;
    requests = [];
    responses = [];
  };
  pc = λ _. outside;
}

pub data Reach : System → Type 0 where
  start : Reach init
  later : {x y : System} → Reach x → Step x y → Reach y
