-- ===== src/Bridge/Client/Owner.antt =====
-- Which callback state stands for an engine handle.
use eloquence.Base.{
  ℕ, ◌≡◌, ◌≢◌, refl, true, false, ◌&&◌, some, List, [], ◌∷◌, arith, ◌==◌, Bool-cases, Option-cases,
  inl, inr, some_injective,
}
use eloquence.Handle.{HandleEntry, htype_eci, hmap_get, find_id}
use eloquence.Handle.Scan.{RowOk, has_id, find_id-has_id}
use eloquence.Bridge.Client.{Client, CbState, get_cb_state, find_by_entry}
use eloquence.Bridge.Client.Lockstep.{get_cb_state-Lockstep}
use eloquence.Bridge.Client.Invariant.{IsValid}

pub has_id-find_id : (es : List HandleEntry) (i : ℕ) → find_id es i ≢ 0 → has_id es i ≡ true
has_id-find_id es i h = elim (Bool-cases (has_id es i)) [
  | inl here ↦ here
  | inr absent ↦ absurd (h (find_id-has_id es i absent))
]

-- In a valid client every id that stands for an ECI handle has a callback state of its own, on the
-- client's callback channel.
pub get_cb_state-hmap_get :
    (c : Client) (i : ℕ)
    → IsValid c
    → hmap_get c.handles htype_eci i ≢ 0
    → (s : CbState) × (get_cb_state c.cb_states i ≡ some s)
      × (s.eci_handle_id ≡ i)
      × (s.cb_fd ≡ c.cb_fd)
unfolding hmap_get
get_cb_state-hmap_get c i v h = elim (Bool-cases (i == 0)) [
  | inl null ↦ absurd (h (rw null))
  | inr id ↦
      get_cb_state-Lockstep c.cb_fd c.handles.eci.entries c.cb_states i c.handles.eci.next_id
        v.handles.eci.row v.states (ground arith)
        (has_id-find_id c.handles.eci.entries i (rw id at h))
]

get_cb_state_id :
    (cs : List CbState) (i : ℕ) (s : CbState) → get_cb_state cs i ≡ some s → s.eci_handle_id ≡ i
unfolding get_cb_state
get_cb_state_id [] i s e = cc
get_cb_state_id (c ∷ cs) i s e = elim (Bool-cases (c.eci_handle_id == i)) [
  | inl this ↦ let same : c ≡ s = ground arith in rw (← same) (ground arith)
  | inr other ↦ get_cb_state_id cs i s (ground arith)
]

-- An id that a later entry has stands for the pointer of that entry.
find_id-later :
    (x : HandleEntry) (es : List HandleEntry) (n i p : ℕ)
    → RowOk (x ∷ es) n
    → p ≢ 0
    → find_id es i ≡ p
    → find_id (x ∷ es) i ≡ p
unfolding find_id
find_id-later x es n i p v ne e = ground (arith, has_id-find_id es i (rw e ne))

find_id-head :
    (x : HandleEntry) (es : List HandleEntry) (p : ℕ)
    → x.in_use && (x.ptr == p) ≡ true
    → find_id (x ∷ es) x.id ≡ p
unfolding find_id
find_id-head x es p hit = ground arith

find_id-zero : (es : List HandleEntry) (n : ℕ) → RowOk es n → find_id es 0 ≡ 0
unfolding find_id
find_id-zero [] n v = refl
find_id-zero (x ∷ es) n v = ground (arith, find_id-zero es n v.1)

has_id-zero : (es : List HandleEntry) (n : ℕ) → RowOk es n → has_id es 0 ≡ false
has_id-zero [] n v = refl
has_id-zero (x ∷ es) n v = ground (arith, has_id-zero es n v.1)

-- The loop over the entries looks each id up in the states of the whole client.
find_by_entry_owner :
    (es : List HandleEntry) (cs : List CbState) (n p : ℕ) (s : CbState)
    → RowOk es n
    → p ≢ 0
    → find_by_entry es cs p ≡ some s
    → find_id es s.eci_handle_id ≡ p
unfolding find_by_entry
find_by_entry_owner [] cs n p s v ne h = cc
find_by_entry_owner (x ∷ es) cs n p s v ne h = elim (Bool-cases (x.in_use && (x.ptr == p))) [
  | inl hit ↦ elim (Option-cases (get_cb_state cs x.id)) [
    | inl missing ↦
        find_id-later x es n s.eci_handle_id p v ne
          (find_by_entry_owner es cs n p s v.1 ne (rw (hit, missing) at h))
    | inr (t, here) ↦
        let same : t ≡ s = some_injective (rw (hit, here) at h) in
        let id : s.eci_handle_id ≡ x.id = rw same at (get_cb_state_id cs x.id t here) in
        rw id (find_id-head x es p hit)
  ]
  | inr miss ↦
      find_id-later x es n s.eci_handle_id p v ne
        (find_by_entry_owner es cs n p s v.1 ne (rw miss at h))
]

-- The callback state that `bridge_internal_callback` finds for an engine handle of a valid client has
-- an id that stands for exactly that handle.
pub find_by_entry-hmap_get :
    (c : Client) (p : ℕ) (s : CbState)
    → IsValid c
    → p ≢ 0
    → find_by_entry c.handles.eci.entries c.cb_states p ≡ some s
    → hmap_get c.handles htype_eci s.eci_handle_id ≡ p
unfolding hmap_get
find_by_entry-hmap_get c p s v ne h =
    let owner =
      find_by_entry_owner c.handles.eci.entries c.cb_states c.handles.eci.next_id p s
        v.handles.eci.row ne h in
    ground
      (arith, find_id-zero c.handles.eci.entries c.handles.eci.next_id v.handles.eci.row, ne, owner)

find_by_entry_finds :
    (es : List HandleEntry) (cs : List CbState) (i p : ℕ)
    → ((j : ℕ) → has_id es j ≡ true → (s : CbState) × (get_cb_state cs j ≡ some s))
    → p ≢ 0
    → find_id es i ≡ p
    → (s : CbState) × (find_by_entry es cs p ≡ some s)
unfolding find_by_entry find_id
find_by_entry_finds [] cs i p k ne e = absurd (ground arith)
find_by_entry_finds (x ∷ es) cs i p k ne e = elim (Bool-cases (x.in_use && (x.ptr == p))) [
  | inl hit ↦ let (s, here) = k x.id (ground arith) in (s, rw (hit, here))
  | inr miss ↦ rw miss (find_by_entry_finds es cs i p (λ j h. k j (ground arith)) ne (ground arith))
]

-- In a valid client an engine handle that some id stands for has a callback state, which the callback
-- of the bridge finds.
pub find_by_entry_total :
    (c : Client) (i p : ℕ)
    → IsValid c
    → p ≢ 0
    → hmap_get c.handles htype_eci i ≡ p
    → (s : CbState) × (find_by_entry c.handles.eci.entries c.cb_states p ≡ some s)
unfolding hmap_get
find_by_entry_total c i p v ne e = elim (Bool-cases (i == 0)) [
  | inl null ↦ absurd (ground arith)
  | inr id ↦ find_by_entry_finds c.handles.eci.entries c.cb_states i p states ne (rw id at e)
]
  where
    states :
        (j : ℕ)
        → has_id c.handles.eci.entries j ≡ true
        → (s : CbState) × (get_cb_state c.cb_states j ≡ some s)
    states j h =
        let (s, here, _, _) =
          get_cb_state-Lockstep c.cb_fd c.handles.eci.entries c.cb_states j c.handles.eci.next_id
            v.handles.eci.row v.states
            (ground
              (arith, h, has_id-zero c.handles.eci.entries c.handles.eci.next_id v.handles.eci.row))
            h in
        (s, here)
