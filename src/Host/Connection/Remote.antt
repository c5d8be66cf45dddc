-- ===== src/Host/Connection/Remote.antt =====
-- A remote call: what the host sends, what the bridge answers, and what the host makes of it.
use eloquence.Base.{
  ℕ, ◌+◌, ◌<◌, ◌≤◌, ◌≡◌, refl, true, some, List, [], ◌∷◌, ◌++◌, arith, length, lt→ltb, add32,
  some_injective, ap,
}
use eloquence.Wire.Function.{Function, fn_id, msg_rpc_response, msg_rpc_request, max_msg_size}
use eloquence.Wire.Buffer.{
  Appends, rpc_buf_init, rpc_encode_raw, ensure_append-Appends, init-IsValid,
}
use eloquence.Wire.Header.RoundTrip.{encode_request_header-Appends, decode_response_header_lem}
use eloquence.Wire.Decode.Position.{At-start}
use eloquence.Frame.{rpc_read_msg, rpc_write_msg}
use eloquence.Frame.Exact.{stream, NoRefusal}
use eloquence.Frame.RoundTrip.{msg_bytes, write_msg_sends, write_msg_willing, read_msg_receives}
use eloquence.Bridge.Engine.{Outside}
use eloquence.Bridge.Client.{Client}
use eloquence.Bridge.Callback.{Channel}
use eloquence.Bridge.Reply.{Response}
use eloquence.Bridge.Dispatch.{dispatch_rpc, serve, handler, response_bytes}
use eloquence.Bridge.Dispatch.Request.{request_bytes, dispatch_rpc-fn_id}
use eloquence.Host.Connection.{
  Conn, request_buf, on_response, reply_of, on_sent, send_request, rpc_on, shim_rpc,
}

-- A request of at most 2 ^ 31 bytes is built: the header with the sequence number and the function, and
-- the arguments behind it.
pub request_buf-Appends :
    (seq func_id : ℕ) (args : List ℕ)
    → length args + 6 ≤ 2_147_483_648
    → Appends rpc_buf_init (request_bytes seq func_id args) (request_buf seq func_id args)
unfolding request_buf rpc_buf_init rpc_encode_raw
request_buf-Appends seq func_id [] h =
    encode_request_header-Appends rpc_buf_init seq func_id init-IsValid (omega arith)
request_buf-Appends seq func_id (a ∷ as_) h =
    let (b, e, same, v) =
      encode_request_header-Appends rpc_buf_init seq func_id init-IsValid (omega arith) in
    let (b', e', same', v') =
      ensure_append-Appends b (a ∷ as_) (length (a ∷ as_)) v refl (rw same (omega (arith, h))) in
    rw (e, lt→ltb 0 (length (a ∷ as_)) (omega arith)) (b', e', rw (same', same), v')

-- A response is taken apart again: its value, and the bytes behind the header.
pub on_response-response :
    (seq : ℕ) (r : Response) (conn : Conn)
    → length r.extra + 10 < 4_294_967_296
    → on_response
        (some (record { msg_type = msg_rpc_response; payload = response_bytes seq r }))
        conn
      ≡ (some (record { retval = r.retval; extra = r.extra }), conn)
unfolding on_response reply_of
on_response-response seq r conn h =
    let at = At-start (response_bytes seq r) (omega (arith, h)) in
    rw (decode_response_header_lem (response_bytes seq r) r.extra 0 seq r.retval r.error at)

-- What a remote call comes to, given the answer: the reply, a connection that is still open, under its next
-- sequence number, and what stands behind the answer.
pub record Called (conn : Conn) (ch : Channel) (func_id : ℕ) (args more : List ℕ) (r : Response)
    : Type 0 where
  pub conn' : Conn
  pub ch' : Channel
  pub result :
      shim_rpc conn func_id args
      ≡ some (some (record { retval = r.retval; extra = r.extra }), conn')
  pub open_ : conn'.connected ≡ true
  pub rpc : conn'.rpc ≡ some ch'
  pub sent :
      ch'.output.sent
      ≡ ch.output.sent ++ msg_bytes msg_rpc_request (request_bytes conn.next_seq func_id args)
  pub next_seq : conn'.next_seq ≡ add32 conn.next_seq 1
  pub left : stream ch'.input ≡ more
  pub willing : NoRefusal ch'.output.uptakes

module _ {E : Type 0} (o : Outside E) where
  -- On an open connection a remote call sends one request, and where the bridge's response to that request
  -- comes back, in whatever pieces, the call hands back the value and the bytes that the case of the
  -- function in the bridge gave, if writing does not fail and the messages have at most 4 MiB.
  pub shim_rpc-dispatch_rpc :
      (fn : Function) (args more : List ℕ) (conn : Conn) (ch : Channel) (c : Client) (e : E)
      (answer : List ℕ)
      → conn.connected ≡ true
      → conn.rpc ≡ some ch
      → NoRefusal ch.output.uptakes
      → length args + 6 < max_msg_size
      → (dispatch_rpc o (request_bytes conn.next_seq (fn_id fn) args) c e).0 ≡ some answer
      → length answer < max_msg_size
      → stream ch.input ≡ msg_bytes msg_rpc_response answer ++ more
      → Called conn ch
          (fn_id fn)
          args
          more
          (serve o (handler o fn) (request_bytes conn.next_seq (fn_id fn) args) 6 c e).0
  unfolding shim_rpc rpc_on send_request on_sent on_response reply_of rpc_buf_init
  shim_rpc-dispatch_rpc fn args more conn ch c e answer up here willing small answered short
        arrives =
      let r = (serve o (handler o fn) (request_bytes conn.next_seq (fn_id fn) args) 6 c e).0 in
      let whole = dispatch_rpc-fn_id o fn conn.next_seq args c e (omega arith) in
      let same : response_bytes conn.next_seq r ≡ answer = some_injective (rw whole at answered) in
      let (b, built, bytes, v) = request_buf-Appends conn.next_seq (fn_id fn) args (omega arith) in
      let room : length r.extra + 10 < 4_294_967_296 =
        (let n : length (response_bytes conn.next_seq r) < max_msg_size = rw (← same) at short in
          omega (arith, n)) in
      let fits : length b.bytes < 4_294_967_295 = rw bytes (omega arith) in
      let (ok, sent) = write_msg_sends ch.output msg_rpc_request b.bytes willing fits in
      let (got, left) = read_msg_receives ch.input msg_rpc_response answer more arrives short in
      let w = (rpc_write_msg ch.output msg_rpc_request b.bytes).1 in
      let ch' : Channel = record { input = (rpc_read_msg ch.input).1; output = w } in
      record {
        conn' = record conn { rpc = some ch'; next_seq = add32 conn.next_seq 1 };
        ch' = ch';
        result =
            rw (up, here, built, ok, got, ← same)
              (ap some (
                on_response-response conn.next_seq r
                  (record conn {
                    rpc = some ch';
                    next_seq = add32 conn.next_seq 1;
                    connected = true;
                  })
                  room));
        open_ = up;
        rpc = refl;
        sent = rw sent (rw bytes);
        next_seq = refl;
        left = left;
        willing = write_msg_willing ch.output msg_rpc_request b.bytes willing;
      }
