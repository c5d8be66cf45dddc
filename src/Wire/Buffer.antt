-- ===== src/Wire/Buffer.antt =====
-- `rpc_buf_t` of proto/rpc_msg.c: a growable buffer. `bytes` are the `len` bytes written, so `len`
-- is their number. `realloc` is taken to succeed.
use mathlib.Core.Option
use native.Mathlib.Nat.{pow-suc}
use eloquence.Base.{
  ℕ, zero, suc, ◌+◌, ◌*◌, ◌%◌, ◌^◌, ◌≤◌, ◌<◌, ◌≡◌, refl, ◌⊎◌, inl, inr, List, [], ◌++◌, Option,
  none, some, arith, length, length-append, ltb, leb, ◌==◌, if◌then◌else◌, add32, lt→ltb,
  append_assoc, gt→leb, Bool-cases,
}

pub record Buf : Type 0 where
  pub bytes : List ℕ
  pub cap : ℕ

unfoldable pub rpc_buf_init : Buf
rpc_buf_init = record { bytes = []; cap = 0 }

-- `while (newcap < need) newcap *= 2` on `uint32_t`. `none` means that the fuel ran out.
pub grow : ℕ → ℕ → ℕ → Option ℕ
grow zero newcap need = none
grow (suc fuel) newcap need =
    let rest = grow fuel (newcap * 2 % 4_294_967_296) need in
    if ltb newcap need then rest else some newcap

-- Any capacity of 256 or more is doubled past 2 ^ 31 in fewer rounds.
abbrev pub growth_fuel : ℕ
growth_fuel = 33

-- `rpc_buf_ensure` with at most so many rounds of the growth loop; `none` means that more are needed.
pub ensure_within : ℕ → Buf → ℕ → Option Buf
ensure_within fuel b extra =
    let need = add32 (length b.bytes) extra in
    if leb need b.cap
    then some b
    else Option.map (λ c. record b { cap = c }) (grow fuel (if b.cap == 0 then 256 else b.cap) need)

-- `none` means that the growth loop does not end.
pub rpc_buf_ensure : Buf → ℕ → Option Buf
unfolding ensure_within
rpc_buf_ensure b extra = ensure_within growth_fuel b extra

-- `memcpy` behind the written bytes, once there is room.
pub append_bytes : Option Buf → List ℕ → Option Buf
append_bytes none bs = none
append_bytes (some b) bs = some (record b { bytes = b.bytes ++ bs })

unfoldable pub rpc_encode_raw : Buf → List ℕ → Option Buf
rpc_encode_raw b bs = append_bytes (rpc_buf_ensure b (length bs)) bs

-- The written bytes fit the capacity, which is 0 or at least 256 and fits 32 bits.
pub record IsValid (b : Buf) : Type 0 where
  pub within : length b.bytes ≤ b.cap
  pub small : b.cap < 4_294_967_296
  pub start : (b.cap ≡ 0) ⊎ (256 ≤ b.cap)

doubled : (a k : ℕ) → 4_294_967_296 ≤ a * 2 ^ suc k → 4_294_967_296 ≤ a * 2 * 2 ^ k
doubled a k h = omega (arith, rw pow-suc at h)

one-le-pow_two : (k : ℕ) → 1 ≤ 2 ^ k
one-le-pow_two zero = omega arith
one-le-pow_two (suc k) = rw pow-suc (omega (arith, one-le-pow_two k))

-- The doubling ends with room, if the fuel covers the doublings up to 2 ^ 32.
grow_total :
    (fuel newcap need : ℕ)
    → need ≤ 2_147_483_648
    → 256 ≤ newcap
    → newcap < 4_294_967_296
    → 4_294_967_296 ≤ newcap * 2 ^ fuel
    → (c : ℕ) × (grow fuel newcap need ≡ some c) × (need ≤ c) × (256 ≤ c) × (c < 4_294_967_296)
unfolding grow
grow_total zero newcap need hn lo hi enough = absurd (omega arith)
grow_total (suc fuel) newcap need hn lo hi enough = elim (Bool-cases (ltb newcap need)) [
  | inl less ↦ rw less (
      grow_total fuel (newcap * 2 % 4_294_967_296) need hn (ground arith) (ground arith) (
        let same : newcap * 2 % 4_294_967_296 ≡ newcap * 2 = ground arith in
        rw same (doubled newcap fuel enough)))
  | inr done ↦ rw done (newcap, refl, ground arith, lo, hi)
]

-- With room for all that is asked, at most 2 ^ 31 bytes, `ensure` ends, keeps the bytes, and the
-- buffer stays valid.
pub ensure_total :
    (b : Buf) (extra : ℕ)
    → IsValid b
    → length b.bytes + extra ≤ 2_147_483_648
    → (c : ℕ) × (rpc_buf_ensure b extra ≡ some (record b { cap = c }))
      × (length b.bytes + extra ≤ c)
      × (c < 4_294_967_296)
      × ((c ≡ 0) ⊎ (256 ≤ c))
unfolding rpc_buf_ensure
ensure_total b extra v h = elim (Bool-cases (leb (length b.bytes + extra) b.cap)) [
  | inl room ↦ (b.cap, rw (no_wrap, room), ground arith, v.small, v.start)
  | inr short ↦
      let (c, e, room, big, small) =
        grow_total growth_fuel (if b.cap == 0 then 256 else b.cap) (length b.bytes + extra) h
          (ground arith) (ground arith) (ground arith) in
      (c, rw (no_wrap, short, e), room, small, inr big)
]
  where
    no_wrap : add32 (length b.bytes) extra ≡ length b.bytes + extra
    no_wrap = omega arith

-- Once doubling has wrapped to 0 the loop goes on for ever.
grow_zero : (fuel need : ℕ) → 0 < need → grow fuel 0 need ≡ none
unfolding grow
grow_zero zero need h = refl
grow_zero (suc fuel) need h = rw (lt→ltb 0 need h) (grow_zero fuel need h)

-- From a power of two, `j` doublings below 2 ^ 31, a need beyond 2 ^ 31 is never met.
grow_endless :
    (j fuel newcap need : ℕ)
    → 2_147_483_648 < need
    → newcap * 2 ^ j ≡ 2_147_483_648
    → grow fuel newcap need ≡ none
unfolding grow
grow_endless j zero newcap need h e = refl
grow_endless zero (suc fuel) newcap need h e =
    let full : newcap ≡ 2_147_483_648 = omega arith in
    rw (full, lt→ltb 2_147_483_648 need h) (grow_zero fuel need (omega arith))
grow_endless (suc j) (suc fuel) newcap need h e =
    let e' : newcap * 2 * 2 ^ j ≡ 2_147_483_648 = omega (arith, rw pow-suc at e) in
    let small : newcap * 2 ≤ 2_147_483_648 = grind (arith, one-le-pow_two j) in
    let same : newcap * 2 % 4_294_967_296 ≡ newcap * 2 = omega arith in
    rw (lt→ltb newcap need (omega arith), same) (grow_endless j fuel (newcap * 2) need h e')

-- A fresh buffer cannot be given room for more than 2 ^ 31 bytes, in a `uint32_t`: however many rounds the
-- growth loop is given, it goes on, since the doubled capacity wraps to 0.
pub ensure_endless :
    (rounds extra : ℕ)
    → 2_147_483_648 < extra
    → extra < 4_294_967_296
    → ensure_within rounds rpc_buf_init extra ≡ none
unfolding ensure_within rpc_buf_init
ensure_endless rounds extra lo hi =
    let same : add32 0 extra ≡ extra = omega arith in
    rw (same, gt→leb extra 0 (omega arith), grow_endless 23 rounds 256 extra lo refl)

pub init-IsValid : IsValid rpc_buf_init
unfolding rpc_buf_init
init-IsValid = record { within = omega arith; small = omega arith; start = inl refl }

-- What an encoder has to do with the bytes of one argument: append them, and keep the buffer valid.
abbrev pub Appends : Buf → List ℕ → Option Buf → Type 0
Appends b bs r = (b' : Buf) × (r ≡ some b') × (b'.bytes ≡ b.bytes ++ bs) × IsValid b'

-- Room for the bytes, then the copy: the buffer has the bytes behind what it held.
pub ensure_append-Appends :
    (b : Buf) (bs : List ℕ) (n : ℕ)
    → IsValid b
    → n ≡ length bs
    → length b.bytes + n ≤ 2_147_483_648
    → Appends b bs (append_bytes (rpc_buf_ensure b n) bs)
unfolding append_bytes
ensure_append-Appends b bs n v e h =
    let (c, eq, room, small, start) = ensure_total b n v h in
    (
      record { bytes = b.bytes ++ bs; cap = c },
      rw eq,
      refl,
      record { within = omega (arith, length-append b.bytes bs); small = small; start = start },
    )

pub append_bytes_thrice :
    (r : Option Buf) (xs ys zs : List ℕ)
    → append_bytes (append_bytes (append_bytes r xs) ys) zs ≡ append_bytes r (xs ++ (ys ++ zs))
unfolding append_bytes
append_bytes_thrice none xs ys zs = refl
append_bytes_thrice (some b) xs ys zs = simp append_assoc

pub append_bytes_twice :
    (r : Option Buf) (xs ys : List ℕ)
    → append_bytes (append_bytes r xs) ys ≡ append_bytes r (xs ++ ys)
unfolding append_bytes
append_bytes_twice none xs ys = refl
append_bytes_twice (some b) xs ys = simp append_assoc
