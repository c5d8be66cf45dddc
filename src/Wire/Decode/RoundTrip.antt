-- ===== src/Wire/Decode/RoundTrip.antt =====
-- The decoders of proto/rpc_msg.c against the encoders.
use eloquence.Base.{
  ℕ, ◌+◌, ◌≤◌, ◌≡◌, ==-refl, refl, All, subst, append_assoc, List, ◌∷◌, ◌++◌, [], none, some, arith,
  length, length-append, take-append, add32, be32, ge→ltb,
}
use native.Mathlib.Nat.{add_assoc}
use eloquence.Wire.Function.{
  arg_int32, arg_uint32, arg_handle, arg_string, arg_null, max_string_len, max_buffer_size,
  arg_buffer,
}
use eloquence.Wire.Encode.{
  tagged, Arg, int32, uint32, handle, string, buffer, null, arg_bytes, string_or_null,
  buffer_or_null,
}
use eloquence.Wire.Decode.{
  decode_tag_i32, take_counted, rpc_decode_int32, rpc_decode_uint32, rpc_decode_handle,
  decode_counted, rpc_decode_string, rpc_decode_buffer, Parser, pure, ◌>>=◌,
}
use eloquence.Wire.Decode.Position.{At, At-advance, At-load, At-head, At-check}

-- The three decoders of a word share this.
pub decode_tag_i32-tagged :
    (buf rest : List ℕ) (pos tag v : ℕ)
    → At buf pos (tagged tag v ++ rest)
    → decode_tag_i32 tag buf pos ≡ (some v, pos + 5)
unfolding decode_tag_i32
decode_tag_i32-tagged buf rest pos tag v a =
    let p1 : add32 pos 1 ≡ pos + 1 = (At-check buf _ pos 1 a (omega arith)).1 in
    let p5 : add32 (pos + 1) 4 ≡ pos + 5 = omega arith in
    rw (
      (At-check buf _ pos 5 a (omega arith)).0,
      At-head buf _ pos tag a,
      ==-refl,
      p1,
      p5,
      At-load buf rest (pos + 1) v (At-advance buf (tag ∷ []) _ pos 1 a refl),
    )

-- A length and its bytes within the limit are read.
decode_counted_lem :
    (buf rest d : List ℕ) (max pos : ℕ)
    → At buf pos (be32 (length d) ++ (d ++ rest))
    → length d ≤ max
    → decode_counted max buf pos ≡ (some (some d), pos + (4 + length d))
unfolding decode_counted take_counted
decode_counted_lem buf rest d max pos a h =
    let p4 : add32 pos 4 ≡ pos + 4 = (At-check buf _ pos 4 a (omega arith)).1 in
    let b : At buf (pos + 4) (d ++ rest) = At-advance buf (be32 (length d)) _ pos 4 a refl in
    let room : length d ≤ length (d ++ rest) = omega (arith, length-append d rest) in
    let p : add32 (pos + 4) (length d) ≡ pos + 4 + length d =
      (At-check buf _ (pos + 4) (length d) b room).1 in
    rw (
      p4,
      At-load buf (d ++ rest) pos (length d) a,
      ge→ltb max (length d) h,
      (At-check buf _ (pos + 4) (length d) b room).0,
      b.rest,
      take-append d rest (length d) refl,
      p,
      add_assoc pos 4 (length d),
    )

counted-At :
    (buf rest d : List ℕ) (pos tag : ℕ)
    → At buf pos ((tagged tag (length d) ++ d) ++ rest)
    → At buf (pos + 1) (be32 (length d) ++ (d ++ rest))
counted-At buf rest d pos tag a = At-advance buf (tag ∷ []) _ pos 1 a refl

-- A NULL argument is one byte.
pub rpc_decode_string-null :
    (buf rest : List ℕ) (pos : ℕ)
    → At buf pos (arg_bytes null ++ rest)
    → rpc_decode_string buf pos ≡ (some none, pos + 1)
unfolding rpc_decode_string
rpc_decode_string-null buf rest pos a =
    let (room, p1) = At-check buf _ pos 1 a (omega arith) in
    rw (room, At-head buf _ pos arg_null a, p1)

pub rpc_decode_string-string :
    (buf rest s : List ℕ) (pos : ℕ)
    → At buf pos (arg_bytes (string s) ++ rest)
    → length s ≤ max_string_len
    → rpc_decode_string buf pos ≡ (some (some s), pos + (5 + length s))
unfolding rpc_decode_string
rpc_decode_string-string buf rest s pos a h =
    let (room, p1) = At-check buf _ pos 1 a (omega arith) in
    rw (
      room,
      At-head buf _ pos arg_string a,
      (At-check buf _ pos 5 a (omega arith)).0,
      p1,
      decode_counted_lem buf rest s max_string_len (pos + 1)
          (counted-At buf rest s pos arg_string a) h,
      add_assoc pos 1 (4 + length s),
      ← add_assoc 1 4 (length s),
    )

-- A NULL argument is one byte.
pub rpc_decode_buffer-null :
    (buf rest : List ℕ) (pos : ℕ)
    → At buf pos (arg_bytes null ++ rest)
    → rpc_decode_buffer buf pos ≡ (some none, pos + 1)
unfolding rpc_decode_buffer
rpc_decode_buffer-null buf rest pos a =
    let (room, p1) = At-check buf _ pos 1 a (omega arith) in
    rw (room, At-head buf _ pos arg_null a, p1)

pub rpc_decode_buffer-buffer :
    (buf rest d : List ℕ) (pos : ℕ)
    → At buf pos (arg_bytes (buffer d) ++ rest)
    → length d ≤ max_buffer_size
    → rpc_decode_buffer buf pos ≡ (some (some d), pos + (5 + length d))
unfolding rpc_decode_buffer
rpc_decode_buffer-buffer buf rest d pos a h =
    let (room, p1) = At-check buf _ pos 1 a (omega arith) in
    rw (
      room,
      At-head buf _ pos arg_buffer a,
      (At-check buf _ pos 5 a (omega arith)).0,
      p1,
      decode_counted_lem buf rest d max_buffer_size (pos + 1)
          (counted-At buf rest d pos arg_buffer a) h,
      add_assoc pos 1 (4 + length d),
      ← add_assoc 1 4 (length d),
    )

-- The decoder that goes with the kind of an argument, and the argument that it reads.
abbrev pub decode_as : Arg → Parser Arg
decode_as (int32 _) = do pure (int32 (← rpc_decode_int32))
decode_as (uint32 _) = do pure (uint32 (← rpc_decode_uint32))
decode_as (handle _) = do pure (handle (← rpc_decode_handle))
decode_as (string _) = do pure (string_or_null (← rpc_decode_string))
decode_as (buffer _) = do pure (buffer_or_null (← rpc_decode_buffer))
decode_as null = do pure (string_or_null (← rpc_decode_string))

-- What the decoders accept: strings up to 64 KiB and buffers up to 2 MiB.
abbrev pub IsDecodable : Arg → Type 0
IsDecodable (string s) = length s ≤ max_string_len
IsDecodable (buffer d) = length d ≤ max_buffer_size
IsDecodable _ = Unit

pub decode_as-arg_bytes :
    (buf rest : List ℕ) (pos : ℕ) (a : Arg)
    → At buf pos (arg_bytes a ++ rest)
    → IsDecodable a
    → decode_as a buf pos ≡ (some a, pos + length (arg_bytes a))
unfolding rpc_decode_int32 rpc_decode_uint32 rpc_decode_handle
decode_as-arg_bytes buf rest pos (int32 v) a h =
    rw (decode_tag_i32-tagged buf rest pos arg_int32 v a)
decode_as-arg_bytes buf rest pos (uint32 v) a h =
    rw (decode_tag_i32-tagged buf rest pos arg_uint32 v a)
decode_as-arg_bytes buf rest pos (handle v) a h =
    rw (decode_tag_i32-tagged buf rest pos arg_handle v a)
decode_as-arg_bytes buf rest pos (string s) a h =
    rw (rpc_decode_string-string buf rest s pos a h) (ground arith)
decode_as-arg_bytes buf rest pos (buffer d) a h =
    rw (rpc_decode_buffer-buffer buf rest d pos a h) (ground arith)
decode_as-arg_bytes buf rest pos null a h = rw (rpc_decode_string-null buf rest pos a)

-- The arguments of a message one behind the other, and their decoders one behind the other.
abbrev pub args_bytes : List Arg → List ℕ
args_bytes [] = []
args_bytes (a ∷ as_) = arg_bytes a ++ args_bytes as_

abbrev pub decode_all : List Arg → Parser (List Arg)
decode_all [] = pure []
decode_all (a ∷ as_) = do x ← decode_as a; xs ← decode_all as_; pure (x ∷ xs)

-- Decoders in the order of the encoders read back every argument that was encoded, whatever stands
-- before and behind them in the message, and end exactly behind the last, if no string is longer
-- than 64 KiB, no buffer longer than 2 MiB, and the message's length fits 32 bits.
pub decode_all-args_bytes :
    (xs : List Arg) (buf rest : List ℕ) (pos : ℕ)
    → At buf pos (args_bytes xs ++ rest)
    → All IsDecodable xs
    → decode_all xs buf pos ≡ (some xs, pos + length (args_bytes xs))
decode_all-args_bytes [] buf rest pos a h = ground arith
decode_all-args_bytes (x ∷ xs) buf rest pos a h =
    let here : At buf pos (arg_bytes x ++ (args_bytes xs ++ rest)) =
      subst (At buf pos) (append_assoc (arg_bytes x) (args_bytes xs) rest) a in
    let behind : At buf (pos + length (arg_bytes x)) (args_bytes xs ++ rest) =
      At-advance buf (arg_bytes x) _ pos _ here refl in
    rw
      (
        decode_as-arg_bytes buf (args_bytes xs ++ rest) pos x here h.0,
        decode_all-args_bytes xs buf rest (pos + length (arg_bytes x)) behind h.1,
      )
      (ground (arith, length-append (arg_bytes x) (args_bytes xs)))
