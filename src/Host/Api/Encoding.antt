-- ===== src/Host/Api/Encoding.antt =====
-- The buffer that the host makes of the arguments of a call.
use eloquence.Base.{
  ℕ, ◌+◌, ◌≤◌, ◌≡◌, refl, List, [], ◌∷◌, ◌++◌, Option, some, arith, length, length-append,
  append_assoc, append-nil, subst,
}
use eloquence.Wire.Encode.{Arg, arg_bytes, encode_arg, encode_arg-Appends}
use eloquence.Wire.Buffer.{Buf, Appends, rpc_buf_init, init-IsValid}
use eloquence.Wire.Decode.RoundTrip.{args_bytes}
use eloquence.Host.Api.{encode_all, args_buf}

encode_all-Appends :
    (as_ : List Arg) (r : Option Buf) (b : Buf) (done : List ℕ)
    → Appends b done r
    → length b.bytes + length done + length (args_bytes as_) ≤ 2_147_483_648
    → Appends b (done ++ args_bytes as_) (encode_all r as_)
unfolding encode_all
encode_all-Appends [] r b done (b1, e, same, v) h = rw e (b1, refl, rw (same, append-nil), v)
encode_all-Appends (a ∷ as_) r b done (b1, e, same, v) h =
    let n = length-append (arg_bytes a) (args_bytes as_) in
    let len : length b1.bytes ≡ length b.bytes + length done =
      rw same (length-append b.bytes done) in
    let (b2, e2, same2, v2) = encode_arg-Appends b1 a v (omega arith) in
    rw e (
      subst (λ bs. Appends b bs (encode_all (encode_arg b1 a) as_))
        (append_assoc done (arg_bytes a) (args_bytes as_))
        (encode_all-Appends as_ (encode_arg b1 a) b (done ++ arg_bytes a)
          (b2, e2, rw (same2, same, append_assoc), v2)
          (omega (arith, length-append done (arg_bytes a)))))

-- The buffer that the host makes of a call's arguments has exactly their bytes, one behind the other, if
-- they have at most 2 ^ 31 bytes.
pub args_buf-Appends :
    (args : List Arg)
    → length (args_bytes args) ≤ 2_147_483_648
    → Appends rpc_buf_init (args_bytes args) (args_buf args)
unfolding args_buf rpc_buf_init
args_buf-Appends args h =
    encode_all-Appends args (some rpc_buf_init) rpc_buf_init []
      (rpc_buf_init, refl, refl, init-IsValid) (omega arith)
