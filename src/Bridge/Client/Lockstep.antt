-- ===== src/Bridge/Client/Lockstep.antt =====
-- The callback states of a client go in step with its ECI handles: slot for slot, an entry in use has
-- the state of its id on the client's callback channel, and a free entry has a free state.
use eloquence.Base.{
  ℕ, zero, suc, ◌≤◌, ◌≡◌, ◌≢◌, refl, Bool, true, false, some, List, [], ◌∷◌, arith, ◌==◌,
  Bool-cases, Option-cases, inl, inr, replicate,
}
use eloquence.Handle.{HandleEntry, free_entry, claim, release}
use eloquence.Handle.Scan.{RowOk, has_id}
use eloquence.Bridge.Client.{
  CbState, zero_cb_state, alloc_cb_state, free_cb_state, get_cb_state, update_cb_state,
}

abbrev pub Slot : ℕ → Bool → HandleEntry → CbState → Type 0
Slot fd true e c = (c.eci_handle_id ≡ e.id) × (c.cb_fd ≡ fd)
Slot fd false e c = c.eci_handle_id ≡ 0

abbrev pub Lockstep : ℕ → List HandleEntry → List CbState → Type 0
Lockstep fd [] [] = Unit
Lockstep fd [] (c ∷ cs) = ⊥
Lockstep fd (e ∷ es) [] = ⊥
Lockstep fd (e ∷ es) (c ∷ cs) = Slot fd e.in_use e c × Lockstep fd es cs

pub replicate-Lockstep :
    (n fd : ℕ) → Lockstep fd (replicate n free_entry) (replicate n zero_cb_state)
replicate-Lockstep zero fd = tt
replicate-Lockstep (suc n) fd = (refl, replicate-Lockstep n fd)

-- A handle and its callback state take the same slot, so there is always one for it.
pub claim-Lockstep :
    (fd : ℕ) (es fs : List HandleEntry) (cs : List CbState) (p n m : ℕ)
    → RowOk es m
    → 1 ≤ n
    → Lockstep fd es cs
    → claim es p n ≡ some fs
    → Lockstep fd fs (alloc_cb_state fd cs n)
unfolding claim alloc_cb_state
claim-Lockstep fd [] fs cs p n m v h l e = cc
claim-Lockstep fd (x ∷ es) fs [] p n m v h l e = absurd l
claim-Lockstep fd (x ∷ es) fs (c ∷ cs) p n m v h l e = elim (Bool-cases x.in_use) [
  | inl busy ↦ elim (Option-cases (claim es p n)) [
    | inl full ↦ ground arith
    | inr (gs, eq) ↦
        let same : x ∷ gs ≡ fs = ground arith in
        rw (← same) (ground (arith, claim-Lockstep fd es gs cs p n m v.1 h l.1 eq))
  ]
  | inr idle ↦
      let same : record { ptr = p; id = n; in_use = true } ∷ es ≡ fs = ground arith in
      rw (← same) (ground arith)
]

pub release-Lockstep :
    (fd : ℕ) (es : List HandleEntry) (cs : List CbState) (i n : ℕ)
    → RowOk es n
    → i ≢ 0
    → Lockstep fd es cs
    → Lockstep fd (release es i) (free_cb_state cs i)
unfolding release free_cb_state
release-Lockstep fd [] [] i n v h l = tt
release-Lockstep fd [] (c ∷ cs) i n v h l = absurd l
release-Lockstep fd (x ∷ es) [] i n v h l = absurd l
release-Lockstep fd (x ∷ es) (c ∷ cs) i n v h l =
    ground (arith, release-Lockstep fd es cs i n v.1 h l.1)

-- A write that keeps the id and the channel of a state keeps the step.
pub update-Lockstep :
    (fd : ℕ) (f : CbState → CbState) (es : List HandleEntry) (cs : List CbState) (i : ℕ)
    → ((c : CbState) → ((f c).eci_handle_id ≡ c.eci_handle_id) × ((f c).cb_fd ≡ c.cb_fd))
    → Lockstep fd es cs
    → Lockstep fd es (update_cb_state f cs i)
unfolding update_cb_state
update-Lockstep fd f [] [] i k l = tt
update-Lockstep fd f [] (c ∷ cs) i k l = absurd l
update-Lockstep fd f (x ∷ es) [] i k l = absurd l
update-Lockstep fd f (x ∷ es) (c ∷ cs) i k l =
    let (kid, kfd) = k c in ground (arith, update-Lockstep fd f es cs i k l.1)

-- The state of a handle that is in use is there, with its id and on the client's channel.
pub get_cb_state-Lockstep :
    (fd : ℕ) (es : List HandleEntry) (cs : List CbState) (i n : ℕ)
    → RowOk es n
    → Lockstep fd es cs
    → i ≢ 0
    → has_id es i ≡ true
    → (c : CbState) × (get_cb_state cs i ≡ some c) × (c.eci_handle_id ≡ i) × (c.cb_fd ≡ fd)
unfolding get_cb_state
get_cb_state-Lockstep fd [] cs i n v l ne h = cc
get_cb_state-Lockstep fd (x ∷ es) [] i n v l ne h = absurd l
get_cb_state-Lockstep fd (x ∷ es) (c ∷ cs) i n v l ne h = elim (Bool-cases (c.eci_handle_id == i)) [
  | inl this ↦ (c, rw this, ground arith, ground arith)
  | inr other ↦ rw other (get_cb_state-Lockstep fd es cs i n v.1 l.1 ne (ground arith))
]
