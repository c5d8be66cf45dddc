-- ===== src/Wire/Decode/Position.antt =====
-- What stands in a message at the position of a decoder of proto/rpc_msg.c, and what the reads there give.
use eloquence.Base.{
  ℕ, ◌+◌, ◌≤◌, ◌≡◌, refl, true, List, ◌∷◌, ◌++◌, arith, length, drop, get_or, length-append,
  drop-drop, drop-append, get_or-drop, add32, be32, IsU32, le→leb,
}
use eloquence.Wire.Decode.{check_remaining, byte_at, load_be32}

-- The message `buf` ends, from `pos` on, with the bytes `bs`; its length is a `uint32_t`.
pub record At (buf : List ℕ) (pos : ℕ) (bs : List ℕ) : Type 0 where
  pub rest : drop pos buf ≡ bs
  pub fits : pos + length bs ≡ length buf
  pub small : IsU32 (length buf)

pub At-start : (buf : List ℕ) → IsU32 (length buf) → At buf 0 buf
At-start buf h = record { rest = refl; fits = omega arith; small = h }

-- Behind what has been read stands the rest.
pub At-advance :
    (buf xs ys : List ℕ) (pos n : ℕ) → At buf pos (xs ++ ys) → n ≡ length xs → At buf (pos + n) ys
At-advance buf xs ys pos n a e = record {
  rest = rw (← drop-drop n pos buf, a.rest, drop-append xs ys n e);
  fits = omega (arith, a.fits, length-append xs ys);
  small = a.small;
}

pub At-byte :
    (buf : List ℕ) (bs : List ℕ) (pos i : ℕ) → At buf pos bs → byte_at buf (pos + i) ≡ get_or bs i 0
At-byte buf bs pos i a = rw (← get_or-drop pos i buf 0, a.rest)

-- A word that stands at the position is loaded.
pub At-load : (buf rest : List ℕ) (pos v : ℕ) → At buf pos (be32 v ++ rest) → load_be32 buf pos ≡ v
At-load buf rest pos v a =
    let e : pos + 0 ≡ pos = omega arith in
    omega (
      arith,
      rw e at (At-byte buf _ pos 0 a),
      At-byte buf _ pos 1 a,
      At-byte buf _ pos 2 a,
      At-byte buf _ pos 3 a,
    )

-- The byte at the position itself.
pub At-head : (buf bs : List ℕ) (pos b : ℕ) → At buf pos (b ∷ bs) → byte_at buf pos ≡ b
At-head buf bs pos b a = let e : pos + 0 ≡ pos = omega arith in rw e at (At-byte buf _ pos 0 a)

-- Room for what is there is found, and the position behind it does not wrap.
pub At-check :
    (buf bs : List ℕ) (pos n : ℕ)
    → At buf pos bs
    → n ≤ length bs
    → (check_remaining buf pos n ≡ true) × (add32 pos n ≡ pos + n)
unfolding check_remaining
At-check buf bs pos n a h =
    let e : add32 pos n ≡ pos + n = omega arith in
    (rw e (le→leb (pos + n) (length buf) (omega arith)), e)
