-- ===== src/Wire/Decode/Skip.antt =====
-- `rpc_decode_skip` against the encoders, and where its 32-bit position wraps.
use eloquence.Base.{
  ℕ, ◌+◌, ◌≤◌, ◌≡◌, refl, List, ◌∷◌, ◌++◌, some, arith, length, length-append, IsU32, ◌⊎◌, inl, inr,
  [],
}
use eloquence.Wire.Function.{arg_string, arg_buffer}
use eloquence.Wire.Encode.{Arg, arg_bytes, int32, uint32, handle, string, buffer, null}
use eloquence.Wire.Decode.{check_remaining, byte_at, load_be32, rpc_decode_skip}
use eloquence.Wire.Decode.Position.{At, At-advance, At-head, At-load}

-- An argument that an encoder wrote is skipped exactly, whatever its kind and length, where the
-- message's length fits 32 bits.
pub skip-arg_bytes :
    (buf rest : List ℕ) (pos : ℕ) (x : Arg)
    → At buf pos (arg_bytes x ++ rest)
    → rpc_decode_skip buf pos ≡ (some tt, pos + length (arg_bytes x))
unfolding rpc_decode_skip check_remaining
skip-arg_bytes buf rest pos (int32 v) a = rw (At-head buf _ pos _ a) (ground arith)
skip-arg_bytes buf rest pos (uint32 v) a = rw (At-head buf _ pos _ a) (ground arith)
skip-arg_bytes buf rest pos (handle v) a = rw (At-head buf _ pos _ a) (ground arith)
skip-arg_bytes buf rest pos (string s) a =
    rw
      (
        At-head buf _ pos _ a,
        At-load buf _ (pos + 1) (length s) (At-advance buf (arg_string ∷ []) _ pos 1 a refl),
      )
      (ground (arith, length-append s rest))
skip-arg_bytes buf rest pos (buffer d) a =
    rw
      (
        At-head buf _ pos _ a,
        At-load buf _ (pos + 1) (length d) (At-advance buf (arg_buffer ∷ []) _ pos 1 a refl),
      )
      (ground (arith, length-append d rest))
skip-arg_bytes buf rest pos null a = rw (At-head buf _ pos _ a) (ground arith)

-- A string or buffer whose length field is 2 ^ 32 - 5 is skipped with success and no progress.
pub skip_no_progress :
    (buf : List ℕ) (pos : ℕ)
    → (byte_at buf pos ≡ arg_string) ⊎ (byte_at buf pos ≡ arg_buffer)
    → pos + 5 ≤ length buf
    → IsU32 (length buf)
    → load_be32 buf (pos + 1) ≡ 4_294_967_291
    → rpc_decode_skip buf pos ≡ (some tt, pos)
unfolding rpc_decode_skip check_remaining
skip_no_progress buf pos (inl t) h u e = rw (t, e) (ground arith)
skip_no_progress buf pos (inr t) h u e = rw (t, e) (ground arith)
