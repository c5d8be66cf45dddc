-- ===== src/Host/Connection/Handshake.antt =====
-- How the host connects (host/shim_connection.c) and how the bridge takes the two connections
-- (arm/bridge_main.c).
use eloquence.Base.{
  ℕ, ◌+◌, ◌<◌, ◌≡◌, refl, true, false, ne→==, ==-refl, Option, some, List, [], ◌∷◌, ◌++◌, arith,
  length, be32, of_be32-be32, some_injective, All, ◌∙◌, ap, sym, subst,
}
use eloquence.Wire.Function.{msg_handshake, msg_handshake_ack}
use eloquence.Frame.{Message}
use eloquence.Frame.Exact.{stream, NoRefusal}
use eloquence.Frame.RoundTrip.{msg_bytes, write_msg_sends, write_msg_willing, read_msg_receives}
use eloquence.Bridge.Engine.{Outside}
use eloquence.Bridge.Callback.{Channel}
use eloquence.Bridge.Client.{Client, new_client, register_client, find_client_by_id}
use eloquence.Bridge.Server.{
  Server, Event, Outcome, accepted, set_client, attach, connect, attached, accept_turn, step, run,
}
use eloquence.Bridge.Server.Invariant.{ServerOk, step-ServerOk}
use eloquence.Bridge.Server.Others.{Foreign, run_isolates}
use eloquence.Host.Connection.{Conn, do_handshake, ack_id, shim_connect}

-- A handshake that names a client, 0 for a new one.
abbrev pub hello : ℕ → Option Message
hello id = some (record { msg_type = msg_handshake; payload = be32 id })

-- A channel behind a message that went out and one that came in.
pub record Exchanged (ch ch' : Channel) (id : ℕ) (more : List ℕ) : Type 0 where
  pub said : ch'.output.sent ≡ ch.output.sent ++ msg_bytes msg_handshake (be32 id)
  pub left : stream ch'.input ≡ more
  pub willing : NoRefusal ch'.output.uptakes

do_handshake_lem :
    (ch : Channel) (id ack : ℕ) (more : List ℕ)
    → NoRefusal ch.output.uptakes
    → stream ch.input ≡ msg_bytes msg_handshake_ack (be32 ack) ++ more
    → ((do_handshake ch id).0 ≡ some ack) × Exchanged ch (do_handshake ch id).1 id more
unfolding do_handshake ack_id
do_handshake_lem ch id ack more willing arrives =
    let (ok, sent) = write_msg_sends ch.output msg_handshake (be32 id) willing (omega arith) in
    let (got, left) =
      read_msg_receives ch.input msg_handshake_ack (be32 ack) more arrives (omega arith) in
    rw (ok, got)
      (
        ap some (of_be32-be32 ack),
        record {
          said = sent;
          left = left;
          willing = write_msg_willing ch.output msg_handshake (be32 id) willing;
        },
      )

find_client_by_id-set_self :
    (cs : List Client) (c c' : Client) (id : ℕ)
    → c'.client_id ≡ id
    → find_client_by_id cs id ≡ some c
    → find_client_by_id (set_client c' cs) id ≡ some c'
unfolding find_client_by_id set_client
find_client_by_id-set_self [] c c' id k h = cc
find_client_by_id-set_self (x ∷ cs) c c' id k h =
    ground (arith, find_client_by_id-set_self cs c c' id k)

module _ {E : Type 0} (o : Outside E) where
  -- A handshake of a new client registers it under the next id, which is sent back.
  accept_turn-new :
      (fd : ℕ) (s : Server E)
      → 0 < s.next_client_id
      → ((accept_turn o (hello 0) fd s).sent ≡ some (be32 s.next_client_id))
        × (find_client_by_id (accept_turn o (hello 0) fd s).server.clients s.next_client_id
            ≡ some (new_client fd s.next_client_id))
  unfolding accept_turn connect register_client find_client_by_id new_client
  accept_turn-new fd s pos = (refl, rw (==-refl s.next_client_id))

  -- A handshake that names a registered client attaches the connection to it, and sends the id back.
  accept_turn-named :
      (id fd : ℕ) (c : Client) (s : Server E)
      → 0 < id
      → c.client_id ≡ id
      → find_client_by_id s.clients id ≡ some c
      → ((accept_turn o (hello id) fd s).sent ≡ some (be32 id))
        × (find_client_by_id (accept_turn o (hello id) fd s).server.clients id ≡ some (attach fd c))
  unfolding accept_turn attached
  accept_turn-named id fd c s pos k h =
      rw (of_be32-be32 id, ne→== id 0 (λ e. absurd (omega (arith, e, pos))), h)
        (refl, find_client_by_id-set_self s.clients c (attach fd c) id k h)

  -- What connecting comes to: the host's connection, and the client in the server.
  pub record Joined (conn : Conn) (rpc cb : Channel) (rpc_fd cb_fd id : ℕ)
      (more_rpc more_cb : List ℕ) (t : Server E) : Type 0 where
    pub conn' : Conn
    pub rpc' : Channel
    pub cb' : Channel
    pub result : shim_connect conn true (some rpc) (some cb) ≡ (true, conn')
    pub connected : conn'.connected ≡ true
    pub client_id : conn'.client_id ≡ id
    pub next_seq : conn'.next_seq ≡ 1
    pub rpc_channel : conn'.rpc ≡ some rpc'
    pub cb_channel : conn'.cb ≡ some cb'
    pub on_rpc : Exchanged rpc rpc' 0 more_rpc
    pub on_cb : Exchanged cb cb' id more_cb
    pub registered : find_client_by_id t.clients id ≡ some (attach cb_fd (new_client rpc_fd id))

  -- The host's side, given what the bridge sends on the two channels.
  connects :
      (conn : Conn) (rpc cb : Channel) (rpc_fd cb_fd id : ℕ) (more_rpc more_cb : List ℕ)
      (t : Server E)
      → conn.connected ≡ false
      → NoRefusal rpc.output.uptakes
      → NoRefusal cb.output.uptakes
      → stream rpc.input ≡ msg_bytes msg_handshake_ack (be32 id) ++ more_rpc
      → stream cb.input ≡ msg_bytes msg_handshake_ack (be32 id) ++ more_cb
      → find_client_by_id t.clients id ≡ some (attach cb_fd (new_client rpc_fd id))
      → Joined conn rpc cb rpc_fd cb_fd id more_rpc more_cb t
  unfolding shim_connect
  connects conn rpc cb rpc_fd cb_fd id more_rpc more_cb t down w_rpc w_cb in_rpc in_cb here =
      let (got, on_rpc) = do_handshake_lem rpc 0 id more_rpc w_rpc in_rpc in
      let (got', on_cb) = do_handshake_lem cb id id more_cb w_cb in_cb in
      record {
        conn' = record conn {
          rpc = some (do_handshake rpc 0).1;
          cb = some (do_handshake cb id).1;
          client_id = id;
          connected = true;
          next_seq = 1;
        };
        rpc' = (do_handshake rpc 0).1;
        cb' = (do_handshake cb id).1;
        result = rw (down, got, got');
        connected = refl;
        client_id = refl;
        next_seq = refl;
        rpc_channel = refl;
        cb_channel = refl;
        on_rpc = on_rpc;
        on_cb = on_cb;
        registered = here;
      }

  -- The turns of the server for the two handshakes, with others in between.
  abbrev pub on_first : ℕ → Server E → Outcome E
  on_first rpc_fd s = step o (accepted (hello 0) rpc_fd) s

  abbrev pub on_second : ℕ → ℕ → List Event → Server E → Outcome E
  on_second rpc_fd cb_fd evs s =
      step o (accepted (hello s.next_client_id) cb_fd) (run o evs (on_first rpc_fd s).server)

  -- A host that connects to a valid server, on two channels on which the server's answers arrive, in whatever
  -- pieces, and on which writing does not fail: it is connected under the server's next id, with 1 as its next
  -- sequence number, and has sent the two handshakes that the server has taken; the server has it as a client
  -- with that id, an empty handle map and both channels, whatever the server does for others in between, in
  -- fewer than 2 ^ 32 - 2 turns in all.
  pub shim_connect-accept_turn :
      (n : ℕ) (evs : List Event) (s : Server E) (conn : Conn) (rpc cb : Channel) (rpc_fd cb_fd : ℕ)
      (ack_rpc ack_cb more_rpc more_cb : List ℕ)
      → n + length evs < 4_294_967_294
      → ServerOk n s
      → All (Foreign s.next_client_id) evs
      → conn.connected ≡ false
      → NoRefusal rpc.output.uptakes
      → NoRefusal cb.output.uptakes
      → (on_first rpc_fd s).sent ≡ some ack_rpc
      → stream rpc.input ≡ msg_bytes msg_handshake_ack ack_rpc ++ more_rpc
      → (on_second rpc_fd cb_fd evs s).sent ≡ some ack_cb
      → stream cb.input ≡ msg_bytes msg_handshake_ack ack_cb ++ more_cb
      → Joined conn rpc cb rpc_fd cb_fd s.next_client_id more_rpc more_cb
          (on_second rpc_fd cb_fd evs s).server
  unfolding step
  shim_connect-accept_turn n evs s conn rpc cb rpc_fd cb_fd ack_rpc ack_cb more_rpc more_cb small v
        foreign down w_rpc w_cb sent_rpc in_rpc sent_cb in_cb =
      let id = s.next_client_id in
      let first = step o (accepted (hello 0) rpc_fd) s in
      let t = run o evs first.server in
      let (said, new) = accept_turn-new rpc_fd s (omega (arith, v.some_id)) in
      let next : first.server.next_client_id ≡ 1 + id = omega (arith, v.next_id) in
      let kept =
        run_isolates o (1 + n) id evs first.server (omega arith)
          (step-ServerOk o n (accepted (hello 0) rpc_fd) s (omega arith) v) (rw next (omega arith))
          foreign in
      let (said', here) =
        accept_turn-named id cb_fd (new_client rpc_fd id) t (omega (arith, v.some_id)) refl
          (kept ∙ new) in
      let first_ack : be32 id ≡ ack_rpc = some_injective (rw said at sent_rpc) in
      let second_ack : be32 id ≡ ack_cb = some_injective (rw said' at sent_cb) in
      connects conn rpc cb rpc_fd cb_fd id more_rpc more_cb
        (accept_turn o (hello id) cb_fd t).server down w_rpc w_cb
        (subst (λ b. stream rpc.input ≡ msg_bytes msg_handshake_ack b ++ more_rpc) (sym first_ack)
          in_rpc)
        (subst (λ b. stream cb.input ≡ msg_bytes msg_handshake_ack b ++ more_cb) (sym second_ack)
          in_cb)
        here
