-- ===== src/Wire/Encode.antt =====
-- The encoders of proto/rpc_msg.c, and the bytes that each argument is on the wire.
use eloquence.Base.{
  ℕ, ◌+◌, ◌%◌, ◌≤◌, ◌≡◌, refl, List, [], ◌∷◌, ◌++◌, Option, none, some, arith, length, be32,
}
use eloquence.Wire.Function.{arg_int32, arg_uint32, arg_handle, arg_string, arg_buffer, arg_null}
use eloquence.Wire.Buffer.{
  Buf, rpc_buf_ensure, append_bytes, IsValid, Appends, ensure_append-Appends, append_bytes_thrice,
}

-- An argument of a call, as the encoders write it.
pub data Arg : Type 0 where
  int32 : ℕ → Arg
  uint32 : ℕ → Arg
  handle : ℕ → Arg
  string : List ℕ → Arg
  buffer : List ℕ → Arg
  null : Arg

-- `memcpy` of a tag and a word in network order.
abbrev pub tagged : ℕ → ℕ → List ℕ
tagged tag v = tag ∷ be32 v

-- The bytes of an argument.
abbrev pub arg_bytes : Arg → List ℕ
arg_bytes (int32 v) = tagged arg_int32 v
arg_bytes (uint32 v) = tagged arg_uint32 v
arg_bytes (handle v) = tagged arg_handle v
arg_bytes (string s) = tagged arg_string (length s) ++ s
arg_bytes (buffer d) = tagged arg_buffer (length d) ++ d
arg_bytes null = arg_null ∷ []

-- A `const char *` that may be NULL.
abbrev pub string_or_null : Option (List ℕ) → Arg
string_or_null none = null
string_or_null (some s) = string s

abbrev pub buffer_or_null : Option (List ℕ) → Arg
buffer_or_null none = null
buffer_or_null (some d) = buffer d

-- `none` below means that the buffer's growth does not end. `htonl` is of a value below 2 ^ 32.
pub encode_tag_i32 : Buf → ℕ → ℕ → Option Buf
encode_tag_i32 b tag val = append_bytes (rpc_buf_ensure b 5) (tag ∷ be32 val)

pub rpc_encode_int32 : Buf → ℕ → Option Buf
rpc_encode_int32 b val = encode_tag_i32 b arg_int32 val

pub rpc_encode_uint32 : Buf → ℕ → Option Buf
rpc_encode_uint32 b val = encode_tag_i32 b arg_uint32 val

pub rpc_encode_handle : Buf → ℕ → Option Buf
rpc_encode_handle b handle_id = encode_tag_i32 b arg_handle handle_id

pub rpc_encode_null : Buf → Option Buf
rpc_encode_null b = append_bytes (rpc_buf_ensure b 1) (arg_null ∷ [])

-- `5 + slen` is a `uint32_t`; the tag, the length and the text are copied one after the other.
pub rpc_encode_string : Buf → Option (List ℕ) → Option Buf
rpc_encode_string b none = rpc_encode_null b
rpc_encode_string b (some str) =
    let slen = length str % 4_294_967_296 in
    append_bytes
      (append_bytes (append_bytes (rpc_buf_ensure b ((5 + slen) % 4_294_967_296)) (arg_string ∷ []))
        (be32 slen))
      str

pub rpc_encode_buffer : Buf → Option (List ℕ) → Option Buf
rpc_encode_buffer b none = rpc_encode_null b
rpc_encode_buffer b (some d) =
    let len = length d % 4_294_967_296 in
    append_bytes
      (append_bytes (append_bytes (rpc_buf_ensure b ((5 + len) % 4_294_967_296)) (arg_buffer ∷ []))
        (be32 len))
      d

-- The encoder of each argument.
abbrev pub encode_arg : Buf → Arg → Option Buf
encode_arg b (int32 v) = rpc_encode_int32 b v
encode_arg b (uint32 v) = rpc_encode_uint32 b v
encode_arg b (handle v) = rpc_encode_handle b v
encode_arg b (string s) = rpc_encode_string b (some s)
encode_arg b (buffer d) = rpc_encode_buffer b (some d)
encode_arg b null = rpc_encode_null b

-- The three copies of a string or a buffer are one append.
counted_append-Appends :
    (b : Buf) (tag : ℕ) (d : List ℕ)
    → IsValid b
    → length b.bytes + (5 + length d) ≤ 2_147_483_648
    → let len = length d % 4_294_967_296 in
      Appends b (tagged tag (length d) ++ d) (
        append_bytes
          (append_bytes
            (append_bytes (rpc_buf_ensure b ((5 + len) % 4_294_967_296)) (tag ∷ []))
            (be32 len))
          d)
counted_append-Appends b tag d v h =
    rw (short, room, append_bytes_thrice)
      (ensure_append-Appends b (tagged tag (length d) ++ d) (5 + length d) v (omega arith) h)
  where
    short : length d % 4_294_967_296 ≡ length d
    short = omega arith

    room : (5 + length d) % 4_294_967_296 ≡ 5 + length d
    room = omega arith

-- Every encoder appends exactly the bytes of its argument to a valid buffer and keeps it valid, as
-- long as the message stays within 2 ^ 31 bytes.
pub encode_arg-Appends :
    (b : Buf) (a : Arg)
    → IsValid b
    → length b.bytes + length (arg_bytes a) ≤ 2_147_483_648
    → Appends b (arg_bytes a) (encode_arg b a)
unfolding rpc_encode_int32 rpc_encode_uint32 rpc_encode_handle rpc_encode_null rpc_encode_string
    rpc_encode_buffer encode_tag_i32
encode_arg-Appends b (int32 x) v h = ensure_append-Appends b _ 5 v refl h
encode_arg-Appends b (uint32 x) v h = ensure_append-Appends b _ 5 v refl h
encode_arg-Appends b (handle x) v h = ensure_append-Appends b _ 5 v refl h
encode_arg-Appends b (string s) v h = counted_append-Appends b arg_string s v (omega arith)
encode_arg-Appends b (buffer d) v h = counted_append-Appends b arg_buffer d v (omega arith)
encode_arg-Appends b null v h = ensure_append-Appends b _ 1 v refl h
