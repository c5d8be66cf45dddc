-- ===== src/Wire/Decode.antt =====
-- The decoders of proto/rpc_msg.c. They read the message `buf`, whose length is `buflen`, at
-- `*pos`; each returns its result, `none` for -1, and the position that it leaves behind.
pub mod Position
pub mod RoundTrip
pub mod Bounds
pub mod Skip
use eloquence.Base.{
  ℕ, ◌+◌, Bool, List, Option, none, some, length, get_or, take, drop, ltb, leb, ◌==◌, if◌then◌else◌,
  add32, sub32, of_be32, of_be16, ◌||◌,
}
use eloquence.Wire.Function.{
  arg_int32, arg_uint32, arg_handle, arg_string, arg_buffer, arg_null, max_string_len,
  max_buffer_size,
}

abbrev pub Parser {ℓ} : Type ℓ → Type ℓ
Parser A = List ℕ → ℕ → Option A × ℕ

-- The next step runs where the last one left the position; a failure ends the chain there.
abbrev pub proceed {ℓ κ} :
    {A : Type ℓ} {B : Type κ} → (A → Parser B) → List ℕ → Option A → ℕ → Option B × ℕ
proceed f buf none pos = (none, pos)
proceed f buf (some a) pos = f a buf pos

infixl 5 ◌>>=◌
abbrev pub ◌>>=◌ {ℓ κ} : {A : Type ℓ} {B : Type κ} → Parser A → (A → Parser B) → Parser B
◌>>=◌ p f buf pos = proceed f buf (p buf pos).0 (p buf pos).1

abbrev pub pure {ℓ} : {A : Type ℓ} → A → Parser A
pure a buf pos = (some a, pos)

abbrev pub byte_at : List ℕ → ℕ → ℕ
byte_at buf i = get_or buf i 0

-- `memcpy` of four bytes and `ntohl`; of two bytes and `ntohs`.
abbrev pub load_be32 : List ℕ → ℕ → ℕ
load_be32 buf i =
    of_be32 (byte_at buf i) (byte_at buf (i + 1)) (byte_at buf (i + 2)) (byte_at buf (i + 3))

abbrev pub load_be16 : List ℕ → ℕ → ℕ
load_be16 buf i = of_be16 (byte_at buf i) (byte_at buf (i + 1))

-- The sum is a `uint32_t`, and so may wrap.
unfoldable pub check_remaining : List ℕ → ℕ → ℕ → Bool
check_remaining buf pos need = leb (add32 pos need) (length buf)

unfoldable pub decode_tag_i32 : ℕ → Parser ℕ
decode_tag_i32 expected_tag buf pos =
    if check_remaining buf pos 5
    then if byte_at buf pos == expected_tag
      then (let p = add32 pos 1 in (some (load_be32 buf p), add32 p 4))
      else (none, pos)
    else (none, pos)

unfoldable pub rpc_decode_int32 : Parser ℕ
rpc_decode_int32 = decode_tag_i32 arg_int32

unfoldable pub rpc_decode_uint32 : Parser ℕ
rpc_decode_uint32 = decode_tag_i32 arg_uint32

unfoldable pub rpc_decode_handle : Parser ℕ
rpc_decode_handle = decode_tag_i32 arg_handle

-- `rpc_decode_string` and `rpc_decode_buffer` once the length `slen` has been read.
unfoldable pub take_counted : ℕ → ℕ → Parser (Option (List ℕ))
take_counted max_len slen buf pos =
    if ltb max_len slen
    then (none, pos)
    else if check_remaining buf pos slen
    then (some (some (take slen (drop pos buf))), add32 pos slen)
    else (none, pos)

-- The same from the length on, at the length's position.
unfoldable pub decode_counted : ℕ → Parser (Option (List ℕ))
decode_counted max_len buf pos = take_counted max_len (load_be32 buf pos) buf (add32 pos 4)

-- The result is `none` inside for a NULL string.
unfoldable pub rpc_decode_string : Parser (Option (List ℕ))
rpc_decode_string buf pos =
    if check_remaining buf pos 1
    then if byte_at buf pos == arg_null
      then (some none, add32 pos 1)
      else if byte_at buf pos == arg_string
      then if check_remaining buf pos 5
        then decode_counted max_string_len buf (add32 pos 1)
        else (none, pos)
      else (none, pos)
    else (none, pos)

unfoldable pub rpc_decode_buffer : Parser (Option (List ℕ))
rpc_decode_buffer buf pos =
    if check_remaining buf pos 1
    then if byte_at buf pos == arg_null
      then (some none, add32 pos 1)
      else if byte_at buf pos == arg_buffer
      then if check_remaining buf pos 5
        then decode_counted max_buffer_size buf (add32 pos 1)
        else (none, pos)
      else (none, pos)
    else (none, pos)

-- The position moves also where the check behind it fails.
pub rpc_decode_skip : Parser (Unit {0})
rpc_decode_skip buf pos =
    if check_remaining buf pos 1
    then (let tag = byte_at buf pos in
        if (tag == arg_int32) || (tag == arg_uint32) || (tag == arg_handle)
        then (let p = add32 pos 5 in
            (if check_remaining buf (sub32 p 4) 4 then some tt else none, p))
        else if tag == arg_null
        then (some tt, add32 pos 1)
        else if (tag == arg_string) || (tag == arg_buffer)
        then if check_remaining buf pos 5
          then (let dlen = load_be32 buf (pos + 1) in
              let p = add32 pos (add32 5 dlen) in
              (if check_remaining buf (sub32 p 1) 1 then some tt else none, p))
          else (none, pos)
        else (none, pos))
    else (none, pos)
