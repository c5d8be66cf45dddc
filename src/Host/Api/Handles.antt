-- ===== src/Host/Api/Handles.antt =====
-- The functions of host/shim_libeci.c that hand back a new handle, against the cases of the bridge.
use eloquence.Base.{
  ℕ, ◌<◌, ◌≡◌, refl, Bool, true, List, [], ◌∷◌, ◌++◌, Option, none, some, ◌≤◌, arith, length, ◌==◌,
  Bool-cases, inl, inr, ==→eq, map,
}
use eloquence.Handle.{hmap_add, htype_eci}
use eloquence.Wire.Function.{Function, fn_id, max_msg_size, msg_rpc_response, arg_handle}
use eloquence.Wire.Encode.{Arg, handle, arg_bytes}
use eloquence.Wire.Buffer.{rpc_buf_init}
use eloquence.Wire.Decode.{rpc_decode_handle}
use eloquence.Wire.Decode.Position.{At, At-start, At-advance}
use eloquence.Wire.Decode.RoundTrip.{decode_tag_i32-tagged, args_bytes}
use eloquence.Wire.Header.{request_header_bytes}
use eloquence.Bridge.Engine.{Outside}
use eloquence.Bridge.Client.{Client}
use eloquence.Bridge.Reply.{Response}
use eloquence.Bridge.Dispatch.{handler, serve, run_update, dispatch_rpc}
use eloquence.Bridge.Dispatch.Request.{request_bytes}
use eloquence.Bridge.Dispatch.Lifecycle
use eloquence.Bridge.Dispatch.Dict
use eloquence.Bridge.Dispatch.Filter
use eloquence.Bridge.Callback.{Channel}
use eloquence.Frame.Exact.{stream, NoRefusal}
use eloquence.Frame.RoundTrip.{msg_bytes}
use eloquence.Host.Connection.{Conn}
use eloquence.Host.Api.{Param, hand, word, uword, arg_of, args_buf, encode_all}
use eloquence.Host.Api.Remote.{Remote, Answer, ask, sent_with, do_rpc, handle_in}
use eloquence.Host.Api.Reading.{Read-params}
use eloquence.Host.Api.Lifecycle.{opened, eci_new, eci_new_ex}
use eloquence.Host.Api.Dict.{eci_new_dict, eci_get_dict}
use eloquence.Host.Api.Filter.{eci_new_filter}
use eloquence.Host.Api.Refinement.{ask-serve}

-- A call whose result is a handle, its function and its arguments.
pub data Maker : Type 0 where
  new : Maker
  new_ex : ℕ → Maker
  new_dict : ℕ → Maker
  get_dict : ℕ → Maker
  new_filter : ℕ → ℕ → ℕ → Maker

abbrev pub maker_function : Maker → Function
maker_function new = Function.eci_new
maker_function (new_ex lang) = Function.eci_new_ex
maker_function (new_dict h) = Function.eci_new_dict
maker_function (get_dict h) = Function.eci_get_dict
maker_function (new_filter h n g) = Function.eci_new_filter

abbrev pub maker_params : Maker → List Param
maker_params new = []
maker_params (new_ex lang) = word lang ∷ []
maker_params (new_dict h) = hand h ∷ []
maker_params (get_dict h) = hand h ∷ []
maker_params (new_filter h n g) = hand h ∷ uword n ∷ word g ∷ []

abbrev pub maker_args : Maker → List Arg
maker_args m = map arg_of (maker_params m)

-- The handle that the application gets.
abbrev the_handle : Option ((ℕ × Bool) × Conn) → Option (ℕ × Conn)
the_handle none = none
the_handle (some (r, conn)) = some (r.0, conn)

abbrev pub make : Maker → Remote ℕ
make new junk conn = the_handle (eci_new junk conn)
make (new_ex lang) junk conn = the_handle (eci_new_ex lang junk conn)
make (new_dict h) junk conn = eci_new_dict h junk conn
make (get_dict h) junk conn = eci_get_dict h junk conn
make (new_filter h n g) junk conn = eci_new_filter h n g junk conn

-- A handle in a reply is decoded again, and no bytes are the handle 0.
pub handle_in-handle : (hid : ℕ) → handle_in (arg_bytes (handle hid)) ≡ hid
unfolding handle_in rpc_decode_handle
handle_in-handle hid = rw (
    decode_tag_i32-tagged (arg_bytes (handle hid)) [] 0 arg_handle hid
      (At-start (arg_bytes (handle hid)) (omega arith)))

handle_in-nil : handle_in [] ≡ 0
unfolding handle_in
handle_in-nil = refl

abbrev Gives : Response → Type 0
Gives r = handle_in r.extra ≡ r.retval

few : (m : Maker) → length (args_bytes (maker_args m)) ≤ 15
few new = omega arith
few (new_ex lang) = omega arith
few (new_dict h) = omega arith
few (get_dict h) = omega arith
few (new_filter h n g) = omega arith

nothing_sent :
    (junk : ℕ) (conn : Conn) (fn : Function) → ask fn [] junk conn ≡ do_rpc (fn_id fn) [] junk conn
unfolding ask sent_with args_buf encode_all rpc_buf_init
nothing_sent junk conn fn = refl

-- The result of `eciNew` is the handle in the reply, whether it is 0 or not.
opened_lem :
    (a : Answer) (conn : Conn)
    → a.ok ≡ true
    → the_handle (opened (some (a, conn))) ≡ some (handle_in a.extra, conn)
unfolding opened
opened_lem a conn ok = elim (Bool-cases (handle_in a.extra == 0)) [
  | inl b ↦ rw (ok, b, ==→eq (handle_in a.extra) 0 b)
  | inr b ↦ rw (ok, b)
]

-- What `do_rpc` leaves of a response.
abbrev given : Response → Answer
given r = record { ok = true; rv = r.retval; extra = r.extra }

-- What a maker makes of a reply that carries its value as a handle.
make_lem :
    (m : Maker) (junk : ℕ) (conn conn' : Conn) (r : Response)
    → ask (maker_function m) (maker_args m) junk conn ≡ some (given r, conn')
    → Gives r
    → make m junk conn ≡ some (r.retval, conn')
unfolding eci_new eci_new_ex eci_new_dict eci_get_dict eci_new_filter
make_lem new junk conn conn' r e g =
    rw (← nothing_sent junk conn Function.eci_new, e, opened_lem (given r) conn' refl, g)
make_lem (new_ex lang) junk conn conn' r e g = rw (e, opened_lem (given r) conn' refl, g)
make_lem (new_dict h) junk conn conn' r e g = rw (e, g)
make_lem (get_dict h) junk conn conn' r e g = rw (e, g)
make_lem (new_filter h n k) junk conn conn' r e g = rw (e, g)

module _ {E : Type 0} (o : Outside E) where
  open o use {funcs as f}

  adopt-Gives : (h : ℕ) (c : Client) (e : E) → Gives (Lifecycle.adopt f h c e).0
  unfolding Lifecycle.adopt
  adopt-Gives h c e =
      let hid = (hmap_add c.handles htype_eci h).0 in
      elim (Bool-cases (hid == 0)) [
        | inl b ↦ rw b handle_in-nil
        | inr b ↦ rw b (handle_in-handle hid)
      ]

  made :
      (m : Maker) (buf : List ℕ) (c : Client) (e : E)
      → At buf 6 (args_bytes (maker_args m))
      → Gives (serve o (handler o (maker_function m)) buf 6 c e).0
  unfolding serve handler run_update Lifecycle.new Lifecycle.new_step Lifecycle.new_ex
      Lifecycle.new_ex_step Dict.new_dict Dict.new_dict_step Dict.get_dict Dict.get_dict_step
      Filter.new_filter Filter.new_filter_step
  made new buf c e a = adopt-Gives _ c _
  made (new_ex lang) buf c e a =
      let r = Read-params (maker_params (new_ex lang)) buf 6 a (tt, tt) in
      rw (r.0) (adopt-Gives _ c _)
  made (new_dict h) buf c e a =
      let r = Read-params (maker_params (new_dict h)) buf 6 a (tt, tt) in
      rw (r.0) (handle_in-handle _)
  made (get_dict h) buf c e a =
      let r = Read-params (maker_params (get_dict h)) buf 6 a (tt, tt) in
      rw (r.0) (handle_in-handle _)
  made (new_filter h n g) buf c e a =
      let r = Read-params (maker_params (new_filter h n g)) buf 6 a (tt, (tt, (tt, tt))) in
      rw (r.0, r.1.0, r.1.1.0) (handle_in-handle _)

  -- A call that makes a handle, on an open connection, hands back the value of the reply: the id that the
  -- bridge gave out, or 0 where it gave none, if the bridge's response to the request arrives, in whatever
  -- pieces, writing does not fail, and the messages have at most 4 MiB.
  pub make-serve :
      (m : Maker) (more : List ℕ) (junk : ℕ) (conn : Conn) (ch : Channel) (c : Client) (e : E)
      (bytes : List ℕ)
      → conn.connected ≡ true
      → conn.rpc ≡ some ch
      → NoRefusal ch.output.uptakes
      → (dispatch_rpc o
          (request_bytes conn.next_seq (fn_id (maker_function m)) (args_bytes (maker_args m)))
          c
          e).0
        ≡ some bytes
      → length bytes < max_msg_size
      → stream ch.input ≡ msg_bytes msg_rpc_response bytes ++ more
      → (conn' : Conn) × (conn'.connected ≡ true)
        × (make m junk conn
            ≡ some (
              (serve o
                  (handler o (maker_function m))
                  (request_bytes conn.next_seq
                    (fn_id (maker_function m))
                    (args_bytes (maker_args m)))
                  6
                  c
                  e).0.retval,
              conn',
            ))
  make-serve m more junk conn ch c e bytes up here willing given short arrives =
      let small : length (args_bytes (maker_args m)) ≤ 15 = few m in
      let buf =
        request_bytes conn.next_seq (fn_id (maker_function m)) (args_bytes (maker_args m)) in
      let (conn', open_, asked) =
        ask-serve o (maker_function m) (maker_args m) more junk conn ch c e bytes up here willing
          (omega (arith, small)) given short arrives in
      let r = (serve o (handler o (maker_function m)) buf 6 c e).0 in
      let gives = made m buf c e (
        At-advance buf (request_header_bytes conn.next_seq (fn_id (maker_function m))) _ 0 6
          (At-start buf (omega (arith, small))) refl) in
      (conn', open_, make_lem m junk conn conn' r asked gives)
