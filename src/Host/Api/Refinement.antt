-- ===== src/Host/Api/Refinement.antt =====
-- The functions of host/shim_libeci.c against the bridge, arm/bridge_dispatch.c, over a connection on which
-- the bridge's response to the request arrives.
use eloquence.Base.{
  ℕ, ◌+◌, ◌<◌, ◌≡◌, refl, Bool, true, if◌then◌else◌, All, List, ◌++◌, some, arith, length,
}
use eloquence.Wire.Function.{Function, fn_id, max_msg_size, msg_rpc_response}
use eloquence.Wire.Encode.{Arg}
use eloquence.Wire.Buffer.{rpc_buf_init}
use eloquence.Wire.Decode.Position.{At-start, At-advance}
use eloquence.Wire.Decode.RoundTrip.{IsDecodable, args_bytes}
use eloquence.Wire.Header.{request_header_bytes}
use eloquence.Bridge.Engine.{Outside}
use eloquence.Bridge.Client.{Client}
use eloquence.Bridge.Reply.{Response, answer}
use eloquence.Bridge.Dispatch.{handler, serve, dispatch_rpc}
use eloquence.Bridge.Dispatch.Request.{request_bytes}
use eloquence.Bridge.Callback.{Channel}
use eloquence.Frame.Exact.{stream, NoRefusal}
use eloquence.Frame.RoundTrip.{msg_bytes}
use eloquence.Host.Connection.{Conn, shim_get_conn, shim_rpc}
use eloquence.Host.Connection.Remote.{Called, shim_rpc-dispatch_rpc}
use eloquence.Host.Api.{Call, function, arguments}
use eloquence.Host.Api.Remote.{ask, sent_with, do_rpc, answered, value_of}
use eloquence.Host.Api.Encoding.{args_buf-Appends}
use eloquence.Host.Api.Perform.{perform, perform_lem}
use eloquence.Host.Api.Served.{engine_call, served}

if_true {ℓ} : {A : Type ℓ} (b : Bool) (x y : A) → b ≡ true → (if b then x else y) ≡ x
if_true b x y e = rw e

-- An open connection is used as it is.
pub get_conn-connected : (conn : Conn) → conn.connected ≡ true → shim_get_conn conn ≡ conn
unfolding shim_get_conn
get_conn-connected conn up = if_true conn.connected _ _ up

-- On an open connection `do_rpc` makes the remote call.
do_rpc-connected :
    (func_id : ℕ) (args : List ℕ) (junk : ℕ) (conn : Conn)
    → conn.connected ≡ true
    → do_rpc func_id args junk conn ≡ answered (shim_rpc conn func_id args)
unfolding do_rpc
do_rpc-connected func_id args junk conn up =
    rw (get_conn-connected conn up) (if_true conn.connected _ _ up)

module _ {E : Type 0} (o : Outside E) where
  open o use {funcs as f}

  -- What the bridge does with the request that the host makes of a call is what the call of the engine does:
  -- the reply has the engine's value, the engine's state is what it leaves, and the client stays as it is, if
  -- a text has at most 64 KiB and the request less than 2 ^ 32 bytes.
  pub serve-engine_call :
      (call : Call) (seq : ℕ) (c : Client) (e : E)
      → All IsDecodable (arguments call)
      → length (args_bytes (arguments call)) + 6 < 4_294_967_296
      → serve o
          (handler o (function call))
          (request_bytes seq (fn_id (function call)) (args_bytes (arguments call)))
          6
          c
          e
        ≡ (answer (engine_call f call c e).0, c, (engine_call f call c e).1)
  serve-engine_call call seq c e k small =
      let buf = request_bytes seq (fn_id (function call)) (args_bytes (arguments call)) in
      served o call buf c e
        (At-advance buf (request_header_bytes seq (fn_id (function call))) _ 0 6
          (At-start buf (omega (arith, small))) refl)
        k

  -- What asking for a function comes to: the remote call, and what `do_rpc` leaves.
  pub record Asked (fn : Function) (args : List Arg) (more : List ℕ) (junk : ℕ) (conn : Conn)
      (ch : Channel) (r : Response) : Type 0 where
    pub called : Called conn ch (fn_id fn) (args_bytes args) more r
    pub result :
        ask fn args junk conn
        ≡ some (record { ok = true; rv = r.retval; extra = r.extra }, called.conn')

  -- Any function of the interface, on an open connection on which the bridge's response to its request
  -- arrives: it sends its arguments, and `do_rpc` leaves the value and the bytes that the case of the
  -- function in the bridge gave, if writing does not fail and the messages have at most 4 MiB.
  pub ask-Asked :
      (fn : Function) (args : List Arg) (more : List ℕ) (junk : ℕ) (conn : Conn) (ch : Channel)
      (c : Client) (e : E) (bytes : List ℕ)
      → conn.connected ≡ true
      → conn.rpc ≡ some ch
      → NoRefusal ch.output.uptakes
      → length (args_bytes args) + 6 < max_msg_size
      → (dispatch_rpc o (request_bytes conn.next_seq (fn_id fn) (args_bytes args)) c e).0
        ≡ some bytes
      → length bytes < max_msg_size
      → stream ch.input ≡ msg_bytes msg_rpc_response bytes ++ more
      → Asked fn args more junk conn ch
          (serve o
            (handler o fn)
            (request_bytes conn.next_seq (fn_id fn) (args_bytes args))
            6
            c
            e).0
  unfolding ask sent_with answered rpc_buf_init
  ask-Asked fn args more junk conn ch c e bytes up here willing small given short arrives =
      let (b, built, same, v) = args_buf-Appends args (omega arith) in
      let called =
        shim_rpc-dispatch_rpc o fn (args_bytes args) more conn ch c e bytes up here willing small
          given short arrives in
      record {
        called = called;
        result = rw (
          built,
          same,
          do_rpc-connected (fn_id fn) (args_bytes args) junk conn up,
          called.result,
        );
      }

  -- The same, with the connection behind it.
  pub ask-serve :
      (fn : Function) (args : List Arg) (more : List ℕ) (junk : ℕ) (conn : Conn) (ch : Channel)
      (c : Client) (e : E) (bytes : List ℕ)
      → conn.connected ≡ true
      → conn.rpc ≡ some ch
      → NoRefusal ch.output.uptakes
      → length (args_bytes args) + 6 < max_msg_size
      → (dispatch_rpc o (request_bytes conn.next_seq (fn_id fn) (args_bytes args)) c e).0
        ≡ some bytes
      → length bytes < max_msg_size
      → stream ch.input ≡ msg_bytes msg_rpc_response bytes ++ more
      → (conn' : Conn) × (conn'.connected ≡ true)
        × (ask fn args junk conn ≡ (
            let r =
              (serve o
                (handler o fn)
                (request_bytes conn.next_seq (fn_id fn) (args_bytes args))
                6
                c
                e).0 in
            some (record { ok = true; rv = r.retval; extra = r.extra }, conn')))
  ask-serve fn args more junk conn ch c e bytes up here willing small given short arrives =
      let a =
        ask-Asked fn args more junk conn ch c e bytes up here willing small given short arrives in
      (a.called.conn', a.called.open_, a.result)

  -- A call of the application on an open connection hands back the value that the engine's own function gives
  -- for the bridge's handles behind the ids, and the connection stays open, where the bridge's response to the
  -- request arrives, in whatever pieces, writing does not fail, texts have at most 64 KiB, and the messages at
  -- most 4 MiB.
  pub perform-engine_call :
      (call : Call) (more : List ℕ) (junk : ℕ) (conn : Conn) (ch : Channel) (c : Client) (e : E)
      (bytes : List ℕ)
      → All IsDecodable (arguments call)
      → conn.connected ≡ true
      → conn.rpc ≡ some ch
      → NoRefusal ch.output.uptakes
      → length (args_bytes (arguments call)) + 6 < max_msg_size
      → (dispatch_rpc o
          (request_bytes conn.next_seq (fn_id (function call)) (args_bytes (arguments call)))
          c
          e).0
        ≡ some bytes
      → length bytes < max_msg_size
      → stream ch.input ≡ msg_bytes msg_rpc_response bytes ++ more
      → (conn' : Conn) × (conn'.connected ≡ true)
        × (perform call junk conn ≡ some ((engine_call f call c e).0, conn'))
  unfolding value_of
  perform-engine_call call more junk conn ch c e bytes k up here willing small given short arrives =
      let same = serve-engine_call call conn.next_seq c e k (omega arith) in
      let (conn', open_, asked) =
        ask-serve (function call) (arguments call) more junk conn ch c e bytes up here willing small
          given short arrives in
      (conn', open_, rw (perform_lem call junk conn, asked, same))
