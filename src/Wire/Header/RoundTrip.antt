-- ===== src/Wire/Header/RoundTrip.antt =====
-- The decoders of the headers in proto/rpc_msg.c against the encoders.
use eloquence.Base.{ℕ, ◌+◌, ◌≤◌, ◌≡◌, refl, List, ◌++◌, some, arith, length, add32, be32, be16}
use eloquence.Wire.Buffer.{
  Buf, IsValid, Appends, ensure_append-Appends, append_bytes_thrice, append_bytes_twice,
}
use eloquence.Wire.Decode.{load_be16}
use eloquence.Wire.Decode.Position.{At, At-advance, At-byte, At-load, At-check}
use eloquence.Wire.Header.{
  rpc_encode_request_header, rpc_encode_response_header, rpc_decode_request_header,
  rpc_decode_response_header, request_header_bytes, response_header_bytes,
}

-- The request header's encoder appends the header's bytes to a valid buffer with room below 2 ^ 31.
pub encode_request_header-Appends :
    (b : Buf) (seq func_id : ℕ)
    → IsValid b
    → length b.bytes + 6 ≤ 2_147_483_648
    → Appends b (request_header_bytes seq func_id) (rpc_encode_request_header b seq func_id)
unfolding rpc_encode_request_header
encode_request_header-Appends b seq func_id v h =
    rw append_bytes_twice (ensure_append-Appends b _ 6 v refl h)

-- The response header's encoder does so too.
pub encode_response_header-Appends :
    (b : Buf) (seq retval error : ℕ)
    → IsValid b
    → length b.bytes + 10 ≤ 2_147_483_648
    → Appends b
        (response_header_bytes seq retval error)
        (rpc_encode_response_header b seq retval error)
unfolding rpc_encode_response_header
encode_response_header-Appends b seq retval error v h =
    rw append_bytes_thrice (ensure_append-Appends b _ 10 v refl h)

pub At-load16 :
    (buf rest : List ℕ) (pos v : ℕ) → At buf pos (be16 v ++ rest) → load_be16 buf pos ≡ v
At-load16 buf rest pos v a =
    let e : pos + 0 ≡ pos = omega arith in
    omega (arith, rw e at (At-byte buf _ pos 0 a), At-byte buf _ pos 1 a)

-- A request header that stands at the position is read, and the position moves behind it.
pub decode_request_header_lem :
    (buf rest : List ℕ) (pos seq func_id : ℕ)
    → At buf pos (request_header_bytes seq func_id ++ rest)
    → rpc_decode_request_header buf pos ≡ (some (record { seq = seq; func_id = func_id }), pos + 6)
unfolding rpc_decode_request_header
decode_request_header_lem buf rest pos seq func_id a =
    let p4 : add32 pos 4 ≡ pos + 4 = (At-check buf _ pos 4 a (omega arith)).1 in
    let p6 : add32 (pos + 4) 2 ≡ pos + 6 = omega arith in
    rw (
      (At-check buf _ pos 6 a (omega arith)).0,
      p4,
      p6,
      At-load buf _ pos seq a,
      At-load16 buf rest (pos + 4) func_id (At-advance buf (be32 seq) _ pos 4 a refl),
    )

-- A response header that stands at the position is read, and the position moves behind it.
pub decode_response_header_lem :
    (buf rest : List ℕ) (pos seq retval error : ℕ)
    → At buf pos (response_header_bytes seq retval error ++ rest)
    → rpc_decode_response_header buf pos
      ≡ (some (record { seq = seq; retval = retval; error = error }), pos + 10)
unfolding rpc_decode_response_header
decode_response_header_lem buf rest pos seq retval error a =
    let p4 : add32 pos 4 ≡ pos + 4 = (At-check buf _ pos 4 a (omega arith)).1 in
    let b = At-advance buf (be32 seq) (be32 retval ++ (be16 error ++ rest)) pos 4 a refl in
    let c : At buf (pos + 4 + 4) (be16 error ++ rest) =
      At-advance buf (be32 retval) (be16 error ++ rest) (pos + 4) 4 b refl in
    let p8 : add32 (pos + 4) 4 ≡ pos + 4 + 4 = (At-check buf _ (pos + 4) 4 b (omega arith)).1 in
    let p10 : add32 (pos + 4 + 4) 2 ≡ pos + 10 = omega (arith, c.fits, c.small) in
    rw (
      (At-check buf _ pos 10 a (omega arith)).0,
      p4,
      p8,
      p10,
      At-load buf _ pos seq a,
      At-load buf _ (pos + 4) retval b,
      At-load16 buf rest (pos + 4 + 4) error c,
    )
