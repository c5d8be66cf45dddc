-- ===== src/Base/Words.antt =====
-- Machine words as native numbers, and their bytes in network order (htonl, htons, ntohl, ntohs).
-- A byte is a number below 2 ^ 8; a signed word is the number of its bit pattern.
use Prim.Native.Nat.{ℕ, ◌+◌, ◌-◌, ◌*◌, ◌/◌, ◌%◌, ◌<◌}
use mathlib.Core.Path.{◌≡◌}
use mathlib.Core.List.{List, [], ◌∷◌}
use native.Mathlib.Omega.{arith}
use eloquence.Base.Lists.{All}

abbrev pub IsByte : ℕ → Type 0
IsByte b = b < 256

abbrev pub IsU16 : ℕ → Type 0
IsU16 v = v < 65_536

abbrev pub IsU32 : ℕ → Type 0
IsU32 v = v < 4_294_967_296

-- Addition of `uint32_t`.
abbrev pub add32 : ℕ → ℕ → ℕ
add32 a b = (a + b) % 4_294_967_296

-- Subtraction of `uint32_t`.
abbrev pub sub32 : ℕ → ℕ → ℕ
sub32 a b = (a + 4_294_967_296 - b) % 4_294_967_296

-- The pattern of the `int32_t` -1.
abbrev pub minus_one : ℕ
minus_one = 4_294_967_295

-- The bytes of `htonl(v)` and `htons(v)` in memory order.
abbrev pub be32 : ℕ → List ℕ
be32 v = (v / 16_777_216) ∷ (v / 65_536 % 256) ∷ (v / 256 % 256) ∷ (v % 256) ∷ []

abbrev pub be16 : ℕ → List ℕ
be16 v = (v / 256) ∷ (v % 256) ∷ []

-- What `ntohl` and `ntohs` make of bytes in memory order.
abbrev pub of_be32 : ℕ → ℕ → ℕ → ℕ → ℕ
of_be32 a b c d = a * 16_777_216 + b * 65_536 + c * 256 + d

abbrev pub of_be16 : ℕ → ℕ → ℕ
of_be16 a b = a * 256 + b

pub of_be32-be32 :
    (v : ℕ) → of_be32 (v / 16_777_216) (v / 65_536 % 256) (v / 256 % 256) (v % 256) ≡ v
of_be32-be32 v = omega arith

pub of_be16-be16 : (v : ℕ) → of_be16 (v / 256) (v % 256) ≡ v
of_be16-be16 v = omega arith

pub be32-IsByte : (v : ℕ) → IsU32 v → All IsByte (be32 v)
be32-IsByte v h = omega arith

pub be16-IsByte : (v : ℕ) → IsU16 v → All IsByte (be16 v)
be16-IsByte v h = omega arith

-- The word that four bytes make, and its bytes again.
pub of_be32-IsU32 :
    (a b c d : ℕ) → IsByte a → IsByte b → IsByte c → IsByte d → IsU32 (of_be32 a b c d)
of_be32-IsU32 a b c d ha hb hc hd = omega arith

pub be32_parts :
    (a b c d : ℕ)
    → IsByte a
    → IsByte b
    → IsByte c
    → IsByte d
    → (of_be32 a b c d / 16_777_216 ≡ a)
      × (of_be32 a b c d / 65_536 % 256 ≡ b)
      × (of_be32 a b c d / 256 % 256 ≡ c)
      × (of_be32 a b c d % 256 ≡ d)
be32_parts a b c d ha hb hc hd = omega arith
