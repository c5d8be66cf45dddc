-- ===== src/Handle/Scan.antt =====
-- The scans over one row of the handle map, entry by entry, and the invariant of a row.
use eloquence.Base.{
  ℕ, ◌+◌, ◌≤◌, ◌<◌, ◌≡◌, ◌≢◌, refl, Bool, true, false, ◌&&◌, ◌||◌, not, none, some, List, [], ◌∷◌,
  arith, length, ◌==◌, if◌then◌else◌, Bool-cases, Option-cases, inl, inr,
}
use eloquence.Handle.{HandleEntry, claim, find_id, release, find_ptr}

-- Whether an entry in use has the id.
abbrev pub has_id : List HandleEntry → ℕ → Bool
has_id [] i = false
has_id (e ∷ es) i = (e.in_use && (e.id == i)) || has_id es i

-- How many entries are in use.
abbrev pub used : List HandleEntry → ℕ
used [] = 0
used (e ∷ es) = if e.in_use then 1 + used es else used es

-- An entry in use has a pointer, an id between 1 and `n`, and no later entry has its id.
abbrev pub EntryOk : Bool → HandleEntry → List HandleEntry → ℕ → Type 0
EntryOk false e es n = Unit
EntryOk true e es n = (0 < e.ptr) × (1 ≤ e.id) × (e.id < n) × (has_id es e.id ≡ false)

abbrev pub RowOk : List HandleEntry → ℕ → Type 0
RowOk [] n = Unit
RowOk (e ∷ es) n = EntryOk e.in_use e es n × RowOk es n

-- Claiming succeeds exactly while an entry is free.
pub claim-none_iff : (es : List HandleEntry) (p i : ℕ) → (claim es p i ≡ none) → used es ≡ length es
unfolding claim
claim-none_iff [] p i h = refl
claim-none_iff (e ∷ es) p i h = ground (arith, claim-none_iff es p i)

pub length-claim :
    (es fs : List HandleEntry) (p i : ℕ) → claim es p i ≡ some fs → length fs ≡ length es
unfolding claim
length-claim [] fs p i h = cc
length-claim (e ∷ es) fs p i h = elim (Option-cases (claim es p i)) [
  | inl full ↦ ground arith
  | inr (gs, eq) ↦ ground (arith, length-claim es gs p i)
]

-- Claiming a fresh id adds it and nothing else.
pub has_id-claim :
    (es fs : List HandleEntry) (p n i : ℕ)
    → claim es p n ≡ some fs
    → has_id fs i ≡ (n == i) || has_id es i
unfolding claim
has_id-claim [] fs p n i h = cc
has_id-claim (e ∷ es) fs p n i h = elim (Option-cases (claim es p n)) [
  | inl full ↦ ground arith
  | inr (gs, eq) ↦ ground (arith, has_id-claim es gs p n i eq)
]

pub find_id-claim :
    (es fs : List HandleEntry) (p n i : ℕ)
    → RowOk es n
    → claim es p n ≡ some fs
    → find_id fs i ≡ (if n == i then p else find_id es i)
unfolding claim find_id
find_id-claim [] fs p n i v h = cc
find_id-claim (e ∷ es) fs p n i v h = elim (Option-cases (claim es p n)) [
  | inl full ↦ ground arith
  | inr (gs, eq) ↦ ground (arith, find_id-claim es gs p n i v.1 eq)
]

pub find_id-has_id : (es : List HandleEntry) (i : ℕ) → has_id es i ≡ false → find_id es i ≡ 0
unfolding find_id
find_id-has_id [] i h = refl
find_id-has_id (e ∷ es) i h = ground (arith, find_id-has_id es i)

pub find_id-release :
    (es : List HandleEntry) (n i j : ℕ)
    → RowOk es n
    → find_id (release es j) i ≡ (if j == i then 0 else find_id es i)
unfolding release find_id
find_id-release [] n i j v = ground arith
find_id-release (e ∷ es) n i j v =
    ground (arith, find_id-release es n i j v.1, find_id-has_id es e.id)

pub length-release : (es : List HandleEntry) (i : ℕ) → length (release es i) ≡ length es
unfolding release
length-release [] i = refl
length-release (e ∷ es) i = ground (arith, length-release es i)

pub has_id-release :
    (es : List HandleEntry) (n i j : ℕ)
    → RowOk es n
    → has_id (release es j) i ≡ (not (j == i) && has_id es i)
unfolding release
has_id-release [] n i j v = ground arith
has_id-release (e ∷ es) n i j v = ground (arith, has_id-release es n i j v.1)

pub RowOk-release : (es : List HandleEntry) (n j : ℕ) → RowOk es n → RowOk (release es j) n
unfolding release
RowOk-release [] n j v = tt
RowOk-release (e ∷ es) n j v =
    ground (arith, RowOk-release es n j v.1, has_id-release es n e.id j v.1)

pub RowOk-grow : (es : List HandleEntry) (n m : ℕ) → n ≤ m → RowOk es n → RowOk es m
RowOk-grow [] n m h v = tt
RowOk-grow (e ∷ es) n m h v = ground (arith, RowOk-grow es n m h v.1)

has_id-fresh : (es : List HandleEntry) (n : ℕ) → RowOk es n → has_id es n ≡ false
has_id-fresh [] n v = refl
has_id-fresh (e ∷ es) n v = ground (arith, has_id-fresh es n v.1)

-- With ids below `n`, claiming `n` for a pointer keeps the row valid for `n + 1`.
pub RowOk-claim :
    (es fs : List HandleEntry) (p n : ℕ)
    → RowOk es n
    → 0 < p
    → 1 ≤ n
    → claim es p n ≡ some fs
    → RowOk fs (n + 1)
unfolding claim
RowOk-claim [] fs p n v hp hn h = cc
RowOk-claim (e ∷ es) fs p n v hp hn h = elim (Bool-cases e.in_use) [
  | inl busy ↦ elim (Option-cases (claim es p n)) [
    | inl full ↦ ground arith
    | inr (gs, eq) ↦
        let same : e ∷ gs ≡ fs = ground arith in
        rw (← same)
          (ground (arith, RowOk-claim es gs p n v.1 hp hn eq, has_id-claim es gs p n e.id eq))
  ]
  | inr idle ↦
      let same : record { ptr = p; id = n; in_use = true } ∷ es ≡ fs = ground arith in
      rw (← same) (ground (arith, has_id-fresh es n v.1, RowOk-grow es n (n + 1) (omega arith) v.1))
]

has_id-find_ptr :
    (es : List HandleEntry) (p : ℕ) → find_ptr es p ≢ 0 → has_id es (find_ptr es p) ≡ true
unfolding find_ptr
has_id-find_ptr [] p h = absurd (h refl)
has_id-find_ptr (e ∷ es) p h = ground (arith, has_id-find_ptr es p)

-- What `hmap_find_by_ptr` finds is an id in use that `hmap_get` maps to the pointer.
pub find_id-find_ptr :
    (es : List HandleEntry) (n p : ℕ)
    → RowOk es n
    → find_ptr es p ≢ 0
    → find_id es (find_ptr es p) ≡ p
unfolding find_id find_ptr
find_id-find_ptr [] n p v h = absurd (h refl)
find_id-find_ptr (e ∷ es) n p v h =
    ground (arith, find_id-find_ptr es n p v.1, has_id-find_ptr es p)
