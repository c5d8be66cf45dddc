-- ===== src/Host/Callback/Table.antt =====
-- The callback table as a map from handles to entries.
use eloquence.Base.{
  ℕ, ◌≡◌, ◌≢◌, refl, true, none, some, [], ◌∷◌, arith, ◌==◌, Bool-cases, Option-cases, inl, inr,
  if◌then◌else◌,
}
use mathlib.Core.Option
use eloquence.Host.Callback.{
  CbEntry, Callbacks, serves, find_entry, change_entry, take_entry, set_entry,
}

-- A setter keeps which handle an entry is for.
abbrev Setter : (CbEntry → CbEntry) → Type 0
Setter f = (e : CbEntry) → ((f e).handle_id ≡ e.handle_id) × ((f e).active ≡ e.active)

find_entry-change_entry :
    (f : CbEntry → CbEntry) (es fs : Callbacks) (h i : ℕ)
    → Setter f
    → change_entry f es h ≡ some fs
    → find_entry fs i ≡ (if h == i then Option.map f (find_entry es h) else find_entry es i)
unfolding find_entry change_entry
find_entry-change_entry f [] fs h i k e = cc
find_entry-change_entry f (x ∷ es) fs h i k e = elim (Bool-cases (serves h x)) [
  | inl hit ↦
      let same : f x ∷ es ≡ fs = ground arith in let (id, on) = k x in rw (← same) (ground arith)
  | inr miss ↦ elim (Option-cases (change_entry f es h)) [
    | inl absent ↦ ground arith
    | inr (gs, eq) ↦
        let same : x ∷ gs ≡ fs = ground arith in
        rw (← same) (ground (arith, find_entry-change_entry f es gs h i k eq))
  ]
]

change_entry-none :
    (f : CbEntry → CbEntry) (es : Callbacks) (h : ℕ)
    → change_entry f es h ≡ none
    → find_entry es h ≡ none
unfolding find_entry change_entry
change_entry-none f [] h e = refl
change_entry-none f (x ∷ es) h e = ground (arith, change_entry-none f es h)

find_entry-take_entry :
    (f : CbEntry → CbEntry) (es : Callbacks) (h i : ℕ)
    → Setter f
    → h ≢ i
    → find_entry (take_entry f es h) i ≡ find_entry es i
unfolding find_entry take_entry
find_entry-take_entry f [] h i k ne = refl
find_entry-take_entry f (x ∷ es) h i k ne =
    let (id, on) = k (record x { handle_id = h; active = true }) in
    ground (arith, find_entry-take_entry f es h i k ne)

-- Whatever is set for a handle, the entries of all other handles stay what they were.
pub find_entry-set_entry_other :
    (f : CbEntry → CbEntry) (es : Callbacks) (h i : ℕ)
    → Setter f
    → h ≢ i
    → find_entry (set_entry f es h) i ≡ find_entry es i
unfolding set_entry
find_entry-set_entry_other f es h i k ne = elim (Option-cases (change_entry f es h)) [
  | inl absent ↦ rw absent (find_entry-take_entry f es h i k ne)
  | inr (fs, eq) ↦ rw eq (ground (arith, find_entry-change_entry f es fs h i k eq))
]

-- Where a handle has an entry, setting its callback or its buffer changes exactly that in it.
pub find_entry-set_entry_same :
    (f : CbEntry → CbEntry) (es : Callbacks) (h : ℕ) (e : CbEntry)
    → Setter f
    → find_entry es h ≡ some e
    → find_entry (set_entry f es h) h ≡ some (f e)
unfolding set_entry
find_entry-set_entry_same f es h e k here = elim (Option-cases (change_entry f es h)) [
  | inl absent ↦ absurd (ground (arith, change_entry-none f es h absent))
  | inr (fs, eq) ↦ rw eq (ground (arith, find_entry-change_entry f es fs h h k eq))
]
