-- ===== src/Speech/Ssml/Passing.antt =====
-- Texts that the loops of `strip_ssml` pass over.
use eloquence.Base.{
  ℕ, zero, suc, ◌≡◌, ◌≢◌, refl, sym, false, All, Option, none, some, List, [], ◌∷◌, ◌++◌,
  Option-cases, inl, inr, starts, ne→==,
}
use eloquence.Speech.Ssml.{replace_first, replace_all, cons_to}

abbrev pub prefix : List ℕ → Option (List ℕ) → Option (List ℕ)
prefix [] o = o
prefix (x ∷ u) o = cons_to x (prefix u o)

pub prefix-some : (u ys : List ℕ) → prefix u (some ys) ≡ some (u ++ ys)
prefix-some [] ys = refl
prefix-some (x ∷ u) ys = rw (prefix-some u ys)

pub prefix-none : (u : List ℕ) → prefix u none ≡ none
prefix-none [] = refl
prefix-none (x ∷ u) = rw (prefix-none u)

-- The search for the pattern passes over the text, whatever stands behind it.
abbrev pub Passes : List ℕ → List ℕ → Type 0
Passes pat u =
    (c : ℕ) (ys : List ℕ) → replace_first pat c (u ++ ys) ≡ prefix u (replace_first pat c ys)

-- It passes over characters that are no ampersand,
pub plain-Passes : (ps u : List ℕ) → All (λ x. x ≢ b'&') u → Passes (b'&' ∷ ps) u
unfolding replace_first starts
plain-Passes ps [] h c ys = refl
plain-Passes ps (x ∷ u) h c ys = rw (ne→== b'&' x (λ e. h.0 (sym e)), plain-Passes ps u h.1 c ys)

-- and over an entity that is another.
pub entity-Passes :
    (ps us : List ℕ)
    → All (λ x. x ≢ b'&') us
    → ((ys : List ℕ) → starts ps (us ++ ys) ≡ false)
    → Passes (b'&' ∷ ps) (b'&' ∷ us)
unfolding replace_first starts
entity-Passes ps us h other c ys = rw (other ys, plain-Passes ps us h c ys)

-- So does the loop.
pub Passes-replace_all :
    (pat u : List ℕ)
    → Passes pat u
    → (fuel c : ℕ) (ys : List ℕ)
    → replace_all fuel pat c (u ++ ys) ≡ prefix u (replace_all fuel pat c ys)
unfolding replace_all
Passes-replace_all pat [] p fuel c ys = refl
Passes-replace_all pat (x ∷ u) p zero c ys = rw (prefix-none u)
Passes-replace_all pat (x ∷ u) p (suc fuel) c ys = elim (Option-cases (replace_first pat c ys)) [
  | inl e ↦ rw (p c ys, e, prefix-none u, prefix-some u ys)
  | inr (zs, e) ↦ rw (p c ys, e, prefix-some u zs) (Passes-replace_all pat (x ∷ u) p fuel c zs)
]
