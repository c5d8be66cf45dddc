-- ===== src/Host/Api/Reading.antt =====
-- What the decoders of the bridge make of the arguments of a call, one behind the other.
use eloquence.Base.{
  ℕ, ◌+◌, ◌≡◌, refl, All, List, [], ◌∷◌, Option, none, some, arith, map, length, ◌++◌,
}
use eloquence.Wire.Function.{arg_handle, arg_int32, arg_uint32}
use eloquence.Wire.Encode.{int32, uint32, handle, string_or_null, arg_bytes}
use eloquence.Wire.Decode.{
  rpc_decode_int32, rpc_decode_uint32, rpc_decode_handle, rpc_decode_string,
}
use eloquence.Wire.Decode.Position.{At, At-advance}
use eloquence.Wire.Decode.RoundTrip.{
  decode_tag_i32-tagged, rpc_decode_string-string, rpc_decode_string-null, IsDecodable, args_bytes,
}
use eloquence.Host.Api.{Param, hand, word, uword, text, arg_of}

-- The position behind a text.
abbrev pub behind : ℕ → Option (List ℕ) → ℕ
behind pos s = pos + length (arg_bytes (string_or_null s))

-- Each decoder in turn gives its argument and moves behind it.
abbrev pub Read : List ℕ → ℕ → List Param → Type 0
Read buf pos [] = Unit
Read buf pos (hand h ∷ ps) = (rpc_decode_handle buf pos ≡ (some h, pos + 5)) × Read buf (pos + 5) ps
Read buf pos (word v ∷ ps) = (rpc_decode_int32 buf pos ≡ (some v, pos + 5)) × Read buf (pos + 5) ps
Read buf pos (uword v ∷ ps) =
    (rpc_decode_uint32 buf pos ≡ (some v, pos + 5)) × Read buf (pos + 5) ps
Read buf pos (text s ∷ ps) =
    (rpc_decode_string buf pos ≡ (some s, behind pos s)) × Read buf (behind pos s) ps

read_text :
    (buf rest : List ℕ) (s : Option (List ℕ)) (pos : ℕ)
    → At buf pos (arg_bytes (string_or_null s) ++ rest)
    → IsDecodable (string_or_null s)
    → rpc_decode_string buf pos ≡ (some s, behind pos s)
read_text buf rest none pos a k = rpc_decode_string-null buf rest pos a
read_text buf rest (some s) pos a k =
    rw (rpc_decode_string-string buf rest s pos a k) (ground arith)

-- The arguments of a call are read where they stand, if a text has at most 64 KiB.
pub Read-params :
    (ps : List Param) (buf : List ℕ) (pos : ℕ)
    → At buf pos (args_bytes (map arg_of ps))
    → All IsDecodable (map arg_of ps)
    → Read buf pos ps
unfolding rpc_decode_handle rpc_decode_int32 rpc_decode_uint32
Read-params [] buf pos a dec = tt
Read-params (hand h ∷ ps) buf pos a dec = (
  decode_tag_i32-tagged buf _ pos arg_handle h a,
  Read-params ps buf (pos + 5) (At-advance buf (arg_bytes (handle h)) _ pos 5 a refl) dec.1,
)
Read-params (word v ∷ ps) buf pos a dec = (
  decode_tag_i32-tagged buf _ pos arg_int32 v a,
  Read-params ps buf (pos + 5) (At-advance buf (arg_bytes (int32 v)) _ pos 5 a refl) dec.1,
)
Read-params (uword v ∷ ps) buf pos a dec = (
  decode_tag_i32-tagged buf _ pos arg_uint32 v a,
  Read-params ps buf (pos + 5) (At-advance buf (arg_bytes (uint32 v)) _ pos 5 a refl) dec.1,
)
Read-params (text s ∷ ps) buf pos a dec = (
  read_text buf _ s pos a dec.0,
  Read-params ps buf (behind pos s) (At-advance buf (arg_bytes (string_or_null s)) _ pos _ a refl)
      dec.1,
)
