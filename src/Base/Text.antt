-- ===== src/Base/Text.antt =====
-- Texts as lists of bytes without their NUL, and what the programs use of the C library on them: strcmp,
-- strcasecmp, strstr, atoi, and fgets. An `int` is its 32-bit pattern.
use Prim.Native.Nat.{ℕ, zero, suc, ◌+◌, ◌-◌, ◌*◌, ◌%◌, ◌/◌, ◌<◌, min}
use Prim.Native.Char.{code}
use Prim.Native.String.{String}
use mathlib.Core.Path.{◌≡◌, refl, ap}
use mathlib.Core.Bool.{Bool, true, false, ◌&&◌, ◌||◌}
use mathlib.Core.List.{List, [], ◌∷◌, ◌++◌, map}
use native.Mathlib.Omega.{arith}
use mathlib.Core.Logic.{inl, inr}
use eloquence.Base.Tests.{ltb, leb, ◌==◌, if◌then◌else◌, Bool-cases}
use eloquence.Base.Lists.{length, length-append}
use eloquence.Base.Words.{add32, sub32}

-- The bytes of an ASCII text.
abbrev pub codes : String → List ℕ
codes String.[] = []
codes (String.◌∷◌ c s) = code c ∷ codes s

-- `!strcmp(a, b)`.
unfoldable pub same : List ℕ → List ℕ → Bool
same [] [] = true
same [] (b ∷ bs) = false
same (a ∷ as_) [] = false
same (a ∷ as_) (b ∷ bs) = (a == b) && same as_ bs

pub same_refl : (a : List ℕ) → same a a ≡ true
unfolding same
same_refl [] = refl
same_refl (x ∷ xs) = rw (same_refl xs) (ground arith)

pub same-length : (a b : List ℕ) → same a b ≡ true → length a ≡ length b
unfolding same
same-length [] [] h = refl
same-length [] (b ∷ bs) h = cc
same-length (a ∷ as_) [] h = cc
same-length (a ∷ as_) (b ∷ bs) h = elim (Bool-cases (a == b)) [
  | inl e ↦ omega (arith, same-length as_ bs (rw e at h))
  | inr e ↦ cc (rw e at h)
]

-- `!strcasecmp(a, b)` in the C locale.
abbrev pub lower : ℕ → ℕ
lower c = if leb b'A' c && leb c b'Z' then c + 32 else c

unfoldable pub same_case : List ℕ → List ℕ → Bool
unfolding same
same_case a b = same (map lower a) (map lower b)

-- Whether the text begins with the pattern.
unfoldable pub starts : List ℕ → List ℕ → Bool
starts [] xs = true
starts (p ∷ ps) [] = false
starts (p ∷ ps) (x ∷ xs) = (p == x) && starts ps xs

-- `isspace` in the C locale.
abbrev pub is_space : ℕ → Bool
is_space c = (c == 32) || (leb 9 c && leb c 13)

unfoldable pub skip_space : List ℕ → List ℕ
skip_space [] = []
skip_space (c ∷ cs) = if is_space c then skip_space cs else c ∷ cs

-- The number that the digits at the front make, behind the one that was read.
abbrev pub is_digit : ℕ → Bool
is_digit c = leb b'0' c && leb c b'9'

unfoldable pub digits : ℕ → List ℕ → ℕ
digits acc [] = acc
digits acc (c ∷ cs) = if is_digit c then digits (acc * 10 + (c - b'0')) cs else acc

-- `(int)strtol(s, NULL, 10)`, as `atoi` is: the 64-bit value saturates, and its low 32 bits are left.
unfoldable pub signed_digits : List ℕ → ℕ
unfolding digits
signed_digits [] = 0
signed_digits (c ∷ cs) =
    if c == b'-'
    then sub32 0 (min (digits 0 cs) 9_223_372_036_854_775_808 % 4_294_967_296)
    else if c == b'+'
    then min (digits 0 cs) 9_223_372_036_854_775_807 % 4_294_967_296
    else min (digits 0 (c ∷ cs)) 9_223_372_036_854_775_807 % 4_294_967_296

unfoldable pub atoi : List ℕ → ℕ
unfolding signed_digits skip_space
atoi s = signed_digits (skip_space s)

-- `a < b` on an `int`.
abbrev pub less : ℕ → ℕ → Bool
less a b = ltb (add32 a 2_147_483_648) (add32 b 2_147_483_648)

-- `a / 2` on an `int`, towards 0.
abbrev pub half : ℕ → ℕ
half a = if ltb a 2_147_483_648 then a / 2 else sub32 0 (sub32 0 a / 2)

-- What `fgets` reads with room for `n` bytes and the NUL: up to the end of a line; and what is left.
unfoldable pub fgets : ℕ → List ℕ → List ℕ × List ℕ
fgets zero s = ([], s)
fgets (suc n) [] = ([], [])
fgets (suc n) (c ∷ cs) = let r = fgets n cs in if c == 10 then (c ∷ [], cs) else (c ∷ r.0, r.1)

signed_digits_bound : (t : List ℕ) → signed_digits t < 4_294_967_296
unfolding signed_digits
signed_digits_bound [] = omega arith
signed_digits_bound (c ∷ cs) = ground arith

pub atoi_bound : (s : List ℕ) → atoi s < 4_294_967_296
unfolding atoi
atoi_bound s = signed_digits_bound (skip_space s)

-- What is read and what is left are the text again, and with room and text something is read.
pub fgets-append : (n : ℕ) (s : List ℕ) → (fgets n s).0 ++ (fgets n s).1 ≡ s
unfolding fgets
fgets-append zero s = refl
fgets-append (suc n) [] = refl
fgets-append (suc n) (c ∷ cs) = elim (Bool-cases (c == 10)) [
  | inl b ↦ rw b
  | inr b ↦ rw b (ap (λ t. c ∷ t) (fgets-append n cs))
]

pub fgets_reads : (n c : ℕ) (cs : List ℕ) → length (fgets (suc n) (c ∷ cs)).1 < length (c ∷ cs)
unfolding fgets
fgets_reads n c cs = elim (Bool-cases (c == 10)) [
  | inl b ↦ rw b (omega arith)
  | inr b ↦
      rw b
        (omega (arith, ap length (fgets-append n cs), length-append (fgets n cs).0 (fgets n cs).1))
]
