-- ===== src/Host/Api/Remote.antt =====
-- `do_rpc` of host/shim_libeci.c, and what its callers make of a reply.
use eloquence.Base.{
  ℕ, Bool, true, false, Option, none, some, List, [], ◌∷◌, ◌++◌, length, take, ltb, leb,
  if◌then◌else◌, ◌&&◌,
}
use mathlib.Core.Option
use eloquence.Wire.Function.{Function, fn_id}
use eloquence.Wire.Encode.{Arg}
use eloquence.Wire.Buffer.{Buf}
use eloquence.Wire.Decode.{rpc_decode_handle, rpc_decode_string}
use eloquence.Bridge.Callback.{Channel}
use eloquence.Host.Connection.{Conn, Reply, shim_get_conn, shim_rpc}
use eloquence.Host.Api.{args_buf}

-- What `do_rpc` leaves: whether it returned 0, and `*retval` and `*extra`, where no bytes are NULL.
pub record Answer : Type 0 where
  pub ok : Bool
  pub rv : ℕ
  pub extra : List ℕ

-- A function of the interface: from what its `int32_t rv` holds before it is written, and the connection,
-- to its result and the connection; `none` where it does not return, in the growth of the buffer.
abbrev pub Remote {ℓ} : Type ℓ → Type ℓ
Remote A = ℕ → Conn → Option (A × Conn)

unfoldable pub answered : Option (Option Reply × Conn) → Option (Answer × Conn)
answered none = none
answered (some (none, conn)) = some (record { ok = false; rv = 0; extra = [] }, conn)
answered (some (some r, conn)) = some (record { ok = true; rv = r.retval; extra = r.extra }, conn)

-- `do_rpc` from the connection that `shim_get_conn` gives on.
unfoldable pub rpc_over : ℕ → List ℕ → Remote Answer
unfolding answered
rpc_over func_id args junk conn =
    if conn.connected
    then answered (shim_rpc conn func_id args)
    else some (record { ok = false; rv = junk; extra = [] }, conn)

unfoldable pub do_rpc : ℕ → List ℕ → Remote Answer
unfolding rpc_over
do_rpc func_id args junk conn = rpc_over func_id args junk (shim_get_conn conn)

-- The arguments are encoded, the call is made, and the buffer is freed.
unfoldable pub sent_with : Option Buf → Function → Remote Answer
unfolding do_rpc
sent_with none fn junk conn = none
sent_with (some b) fn junk conn = do_rpc (fn_id fn) b.bytes junk conn

unfoldable pub ask : Function → List Arg → Remote Answer
unfolding sent_with
ask fn args junk conn = sent_with (args_buf args) fn junk conn

-- The result of a function, from what `do_rpc` left.
abbrev pub with_answer {ℓ} :
    {A : Type ℓ} → (Answer → A) → Option (Answer × Conn) → Option (A × Conn)
with_answer k none = none
with_answer k (some (a, conn)) = some (k a, conn)

-- `int32_t rv; do_rpc(fn, &args, &rv, NULL, NULL); return rv;`, which most functions end in.
unfoldable pub value_of : Function → List Arg → Remote ℕ
unfolding ask
value_of fn args junk conn = with_answer (λ a. a.rv) (ask fn args junk conn)

-- `do_rpc(fn, &args, NULL, NULL, NULL);`, and a result of the function's own.
unfoldable pub told {ℓ} : {A : Type ℓ} → Function → List Arg → A → Remote A
unfolding ask
told fn args result junk conn = with_answer (λ a. result) (ask fn args junk conn)

-- `conn->cb_fd >= 0`.
abbrev pub is_open : Option Channel → Bool
is_open none = false
is_open (some ch) = true

-- `if (extra && elen >= 5) { uint32_t pos = 0; rpc_decode_handle(extra, elen, &pos, &hid); }` on an id
-- that is 0.
abbrev pub or_zero : Option ℕ → ℕ
or_zero none = 0
or_zero (some v) = v

unfoldable pub handle_in : List ℕ → ℕ
handle_in extra = if leb 5 (length extra) then or_zero (rpc_decode_handle extra 0).0 else 0

-- `rpc_decode_string(extra, elen, &pos, &str, &slen) == 0 && str`: the text, and the position behind.
abbrev pub not_null : Option (Option (List ℕ)) → Option (List ℕ)
not_null none = none
not_null (some s) = s

unfoldable pub text_at : List ℕ → ℕ → Option (List ℕ) × ℕ
text_at extra pos = let r = rpc_decode_string extra pos in (not_null r.0, r.1)

-- `memcpy(buffer, str, count); buffer[count] = 0;`.
pub record Copy : Type 0 where
  pub source : List ℕ
  pub count : ℕ

-- The bytes that the copy leaves, where its source has them.
abbrev pub written : Copy → List ℕ
written w = take w.count w.source ++ (0 ∷ [])

-- The copy into the application's buffer, where there are a buffer and a text.
unfoldable pub copied : Bool → (List ℕ → Copy) → List ℕ → Option Copy
copied has_buffer copy extra =
    if has_buffer && ltb 0 (length extra) then Option.map copy (text_at extra 0).0 else none

-- `memcpy(buffer, str, slen)`.
abbrev pub whole_copy : List ℕ → Copy
whole_copy s = record { source = s; count = length s }

-- `slen < limit ? slen : limit`.
abbrev pub copy_upto : ℕ → List ℕ → Copy
copy_upto limit s = record { source = s; count = if ltb (length s) limit then length s else limit }
