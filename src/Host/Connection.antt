-- ===== src/Host/Connection.antt =====
-- host/shim_connection.c: the host's connection to the bridge, its handshakes, and its remote calls. A
-- connection that is open is a `Channel`; the file descriptor -1 is `none`.
pub mod Remote
pub mod Handshake
pub mod Threads
use eloquence.Base.{
  ℕ, Bool, true, false, ◌&&◌, ◌||◌, Option, none, some, List, [], ◌∷◌, length, ◌==◌, ltb, not,
  if◌then◌else◌, be32, drop, add32,
}
use mathlib.Core.Option
use eloquence.Wire.Function.{msg_rpc_request, msg_rpc_response, msg_handshake, msg_handshake_ack}
use eloquence.Wire.Buffer.{Buf, rpc_buf_init, rpc_encode_raw}
use eloquence.Wire.Header.{ResponseHeader, rpc_encode_request_header, rpc_decode_response_header}
use eloquence.Frame.{Arrival, Message, net_len, rpc_read_msg, rpc_write_msg}
use eloquence.Bridge.Callback.{Channel, raw}
use eloquence.Bridge.Paths.{sun_path}

-- `connect_to_socket`, from whether socket(2) gives a descriptor, and what connect(2) opens at an address.
unfoldable pub connect_to_socket : Bool → (List ℕ → Option Channel) → List ℕ → Option Channel
connect_to_socket made connects path = if made then connects (sun_path path) else none

-- What an attempt to connect finds: whether the bridge runs or could be started, the path of its socket, and
-- what the system's calls give for the two channels.
pub record Attempt : Type 0 where
  pub launched : Bool
  pub path : List ℕ
  pub rpc_made : Bool
  pub rpc_connects : List ℕ → Option Channel
  pub cb_made : Bool
  pub cb_connects : List ℕ → Option Channel

abbrev pub rpc_opened : Attempt → Option Channel
rpc_opened a = connect_to_socket a.rpc_made a.rpc_connects a.path

abbrev pub cb_opened : Attempt → Option Channel
cb_opened a = connect_to_socket a.cb_made a.cb_connects a.path

-- `shim_conn_t`, with what the coming attempts to connect will find.
pub record Conn : Type 0 where
  pub rpc : Option Channel
  pub cb : Option Channel
  pub client_id : ℕ
  pub next_seq : ℕ
  pub connected : Bool
  pub attempts : List Attempt

-- `g_conn` at the start.
abbrev pub initial_conn : List Attempt → Conn
initial_conn attempts = record {
  rpc = none;
  cb = none;
  client_id = 0;
  next_seq = 1;
  connected = false;
  attempts = attempts;
}

-- The id in the answer to a handshake.
unfoldable pub ack_id : Option Message → Option ℕ
ack_id none = none
ack_id (some m) =
    if not (m.msg_type == msg_handshake_ack) || ltb (length m.payload) 4
    then none
    else some (net_len m.payload)

-- `do_handshake`: the assigned id, none for -1.
unfoldable pub do_handshake : Channel → ℕ → Option ℕ × Channel
unfolding ack_id
do_handshake ch client_id =
    let w = rpc_write_msg ch.output msg_handshake (be32 client_id) in
    let r = rpc_read_msg ch.input in
    if not w.0
    then (none, record { input = ch.input; output = w.1 })
    else (ack_id r.0, record { input = r.1; output = w.1 })

-- `shim_connect` from each handshake on. The channels are those that `connect_to_socket` opened; a
-- failure closes them.
abbrev pub shut : Conn → Conn
shut conn = record conn { rpc = none; cb = none }

abbrev pub on_cb_handshake : Conn → Option ℕ → Channel → Channel → Bool × Conn
on_cb_handshake conn none rpc cb = (false, shut conn)
on_cb_handshake conn (some _) rpc cb =
    (true, record conn { rpc = some rpc; cb = some cb; connected = true; next_seq = 1 })

abbrev pub on_cb_channel : Conn → Channel → Option Channel → Bool × Conn
on_cb_channel conn rpc none = (false, shut conn)
on_cb_channel conn rpc (some cb) =
    let r = do_handshake cb conn.client_id in on_cb_handshake conn r.0 rpc r.1

abbrev pub on_rpc_handshake : Conn → Option ℕ → Channel → Option Channel → Bool × Conn
on_rpc_handshake conn none rpc cb = (false, record conn { rpc = none })
on_rpc_handshake conn (some id) rpc cb = on_cb_channel (record conn { client_id = id }) rpc cb

abbrev pub on_rpc_channel : Conn → Option Channel → Option Channel → Bool × Conn
on_rpc_channel conn none cb = (false, record conn { rpc = none })
on_rpc_channel conn (some rpc) cb = let r = do_handshake rpc 0 in on_rpc_handshake conn r.0 r.1 cb

-- `shim_connect`: whether the bridge runs, and the two channels that could be opened to it.
unfoldable pub shim_connect : Conn → Bool → Option Channel → Option Channel → Bool × Conn
unfolding do_handshake
shim_connect conn launched rpc cb =
    if conn.connected
    then (true, conn)
    else if not launched
    then (false, conn)
    else on_rpc_channel conn rpc cb

-- `shim_get_conn`: a connection that is not open is made again; with no attempt left the bridge cannot be
-- started.
unfoldable pub attempt : Attempt → Conn → Bool × Conn
unfolding shim_connect
attempt a conn = shim_connect conn a.launched (rpc_opened a) (cb_opened a)

unfoldable pub attempted : List Attempt → Conn → Conn
unfolding attempt
attempted [] conn = conn
attempted (a ∷ rest) conn = (attempt a (record conn { attempts = rest })).1

unfoldable pub shim_get_conn : Conn → Conn
unfolding attempted
shim_get_conn conn = if conn.connected then conn else attempted conn.attempts conn

unfoldable pub shim_disconnect : Conn → Conn
shim_disconnect conn = record conn { rpc = none; cb = none; connected = false }

-- The request that `shim_rpc` builds.
unfoldable pub request_buf : ℕ → ℕ → List ℕ → Option Buf
request_buf seq func_id args =
    let header = rpc_encode_request_header rpc_buf_init seq func_id in
    if ltb 0 (length args) then raw header args else header

-- What `shim_rpc` hands back: the response's value, and the bytes behind its header.
pub record Reply : Type 0 where
  pub retval : ℕ
  pub extra : List ℕ

unfoldable pub reply_of : Option ResponseHeader → List ℕ → ℕ → Option Reply
reply_of none buf pos = none
reply_of (some h) buf pos = some (record { retval = h.retval; extra = drop pos buf })

-- `shim_rpc` from its read on: none for -1.
unfoldable pub on_response : Option Message → Conn → Option Reply × Conn
unfolding reply_of
on_response none conn = (none, record conn { connected = false })
on_response (some m) conn =
    let r = rpc_decode_response_header m.payload 0 in
    if not (m.msg_type == msg_rpc_response)
    then (none, record conn { connected = false })
    else (reply_of r.0 m.payload r.1, conn)

unfoldable pub on_sent : Bool → Conn → Channel → Option Reply × Conn
unfolding on_response
on_sent false conn ch = (none, record conn { rpc = some ch; connected = false })
on_sent true conn ch =
    let r = rpc_read_msg ch.input in
    on_response r.0 (record conn { rpc = some (record ch { input = r.1 }) })

unfoldable pub send_request : Option Buf → Conn → Channel → Option (Option Reply × Conn)
unfolding on_sent
send_request none conn ch = none
send_request (some b) conn ch =
    let w = rpc_write_msg ch.output msg_rpc_request b.bytes in
    some
      (on_sent w.0 (record conn { next_seq = add32 conn.next_seq 1 }) (record ch { output = w.1 }))

unfoldable pub rpc_on : Option Channel → Conn → ℕ → List ℕ → Option (Option Reply × Conn)
unfolding send_request request_buf
rpc_on none conn func_id args = some (none, conn)
rpc_on (some ch) conn func_id args = send_request (request_buf conn.next_seq func_id args) conn ch

-- `shim_rpc`; the outer `none` is a buffer whose growth does not end.
unfoldable pub shim_rpc : Conn → ℕ → List ℕ → Option (Option Reply × Conn)
unfolding rpc_on
shim_rpc conn func_id args =
    if not conn.connected then some (none, conn) else rpc_on conn.rpc conn func_id args
