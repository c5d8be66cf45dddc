-- ===== src/Bridge/Load/Symbols.antt =====
-- What `eci_load` of arm/bridge_dispatch.c leaves in `eci_funcs_t`, and when it succeeds.
use eloquence.Base.{
  ℕ, ◌<◌, ◌≡◌, ◌↔◌, refl, ap₂, Bool, true, false, ◌||◌, List, [], ◌∷◌, ◌==◌, ==→eq, codes, same,
  arith, Bool-cases, inl, inr, ne→==,
}
use eloquence.Bridge.Load.{symbols, pointer, load_symbols, eci_load}

abbrev pub listed : List ℕ → List (List ℕ) → Bool
listed name [] = false
listed name (n ∷ ns) = same name n || listed name ns

same→≡ : (a b : List ℕ) → same a b ≡ true → a ≡ b
unfolding same
same→≡ [] [] h = refl
same→≡ [] (b ∷ bs) h = cc
same→≡ (a ∷ as_) [] h = cc
same→≡ (a ∷ as_) (b ∷ bs) h = elim (Bool-cases (a == b)) [
  | inl e ↦ ap₂ ◌∷◌ (==→eq a b e) (same→≡ as_ bs (rw e at h))
  | inr e ↦ cc (rw e at h)
]

pointer-load_symbols :
    (dlsym : List ℕ → ℕ) (name : List ℕ) (ns : List (List ℕ))
    → listed name ns ≡ true
    → pointer name (load_symbols dlsym ns) ≡ dlsym name
unfolding pointer load_symbols
pointer-load_symbols dlsym name [] h = cc
pointer-load_symbols dlsym name (n ∷ ns) h = elim (Bool-cases (same name n)) [
  | inl e ↦ rw (e, same→≡ name n e) refl
  | inr e ↦ rw e (pointer-load_symbols dlsym name ns (rw e at h))
]

-- From a library that opens, the pointer of every symbol that is listed is what `dlsym` gives for it.
pub eci_load-pointer :
    (dlopen : List ℕ → ℕ) (dlsym : ℕ → List ℕ → ℕ) (libpath name : List ℕ)
    → 0 < dlopen libpath
    → listed name symbols ≡ true
    → pointer name (eci_load dlopen dlsym libpath).funcs.pointers ≡ dlsym (dlopen libpath) name
unfolding eci_load
eci_load-pointer dlopen dlsym libpath name opens there =
    rw (ne→== (dlopen libpath) 0 (λ e. absurd (omega (arith, e, opens))))
      (elim (Bool-cases
        (pointer (codes "eciNew") (load_symbols (dlsym (dlopen libpath)) symbols) == 0)) [
          | inl e ↦ rw e (pointer-load_symbols (dlsym (dlopen libpath)) name symbols there)
          | inr e ↦ rw e (pointer-load_symbols (dlsym (dlopen libpath)) name symbols there)
        ])

eci_new_listed : listed (codes "eciNew") symbols ≡ true
unfolding same
eci_new_listed = refl

-- Loading succeeds if and only if the library opens and has `eciNew`.
pub eci_load-succeeds :
    (dlopen : List ℕ → ℕ) (dlsym : ℕ → List ℕ → ℕ) (libpath : List ℕ)
    → ((eci_load dlopen dlsym libpath).result ≡ 0)
      ↔ ((0 < dlopen libpath) × (0 < dlsym (dlopen libpath) (codes "eciNew")))
unfolding eci_load
eci_load-succeeds dlopen dlsym libpath =
    let handle = dlopen libpath in
    let made = pointer (codes "eciNew") (load_symbols (dlsym handle) symbols) in
    let found : made ≡ dlsym handle (codes "eciNew") =
      pointer-load_symbols (dlsym handle) (codes "eciNew") symbols eci_new_listed in
    elim (Bool-cases (handle == 0)) [
      | inl c ↦ (
        λ h. absurd (omega (arith, rw c at h)),
        λ (o, s). absurd (omega (arith, ==→eq handle 0 c, o)),
      )
      | inr c ↦ elim (Bool-cases (made == 0)) [
        | inl e ↦ (
          λ h. absurd (omega (arith, rw (c, e) at h)),
          λ (o, s). absurd (omega (arith, ==→eq made 0 e, found, s)),
        )
        | inr e ↦ (λ h. (ground (arith, c), ground (arith, e, found)), λ (o, s). rw (c, e) refl)
      ]
    ]
