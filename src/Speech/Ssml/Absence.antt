-- ===== src/Speech/Ssml/Absence.antt =====
-- Where a pattern does not occur in a text, and what one replacement does to that.
use eloquence.Base.{
  ℕ, ◌+◌, ◌<◌, ◌≡◌, refl, sym, ap, Bool, true, false, ◌&&◌, All, Option, none, some, List, [], ◌∷◌,
  ◌++◌, length, drop, arith, length-append, ◌==◌, starts, Bool-cases, Option-cases, inl, inr, ==→eq,
  some_injective, subst,
}
use eloquence.Speech.Ssml.{replace_first, cons_to}

-- The pattern begins nowhere in the text.
abbrev pub NoOcc : List ℕ → List ℕ → Type 0
NoOcc pat [] = Unit
NoOcc pat (x ∷ xs) = (starts pat (x ∷ xs) ≡ false) × NoOcc pat xs

-- The character is none of the pattern's, which is not empty.
abbrev pub Foreign : ℕ → List ℕ → Type 0
Foreign c pat = (0 < length pat) × All (λ p. (p == c) ≡ false) pat

-- One occurrence of the pattern is replaced.
pub record Replaced (pat : List ℕ) (c : ℕ) (xs ys : List ℕ) : Type 0 where
  pub before : List ℕ
  pub after : List ℕ
  pub was : xs ≡ before ++ (pat ++ after)
  pub is_ : ys ≡ before ++ (c ∷ after)

starts-drop : (pat xs : List ℕ) → starts pat xs ≡ true → xs ≡ pat ++ drop (length pat) xs
unfolding starts
starts-drop [] xs h = refl
starts-drop (p ∷ ps) [] h = cc
starts-drop (p ∷ ps) (x ∷ xs) h =
    let (e, rest) = both (p == x) (starts ps xs) h in
    rw (==→eq p x e) (ap (λ t. x ∷ t) (starts-drop ps xs rest))
  where
    both : (a b : Bool) → (a && b) ≡ true → (a ≡ true) × (b ≡ true)
    both true b h = (refl, h)
    both false b h = cc

Replaced-cons :
    (pat : List ℕ) (c x : ℕ) (xs ys zs : List ℕ)
    → Replaced pat c xs zs
    → x ∷ zs ≡ ys
    → Replaced pat c (x ∷ xs) ys
Replaced-cons pat c x xs ys zs r e = record {
  before = x ∷ r.before;
  after = r.after;
  was = ap (λ t. x ∷ t) r.was;
  is_ = rw (← e) (ap (λ t. x ∷ t) r.is_);
}

pub replace_first-Replaced :
    (pat : List ℕ) (c : ℕ) (xs ys : List ℕ)
    → replace_first pat c xs ≡ some ys
    → Replaced pat c xs ys
unfolding replace_first
replace_first-Replaced pat c [] ys h = cc
replace_first-Replaced pat c (x ∷ xs) ys h = elim (Bool-cases (starts pat (x ∷ xs))) [
  | inl b ↦ record {
    before = [];
    after = drop (length pat) (x ∷ xs);
    was = starts-drop pat (x ∷ xs) b;
    is_ = sym (some_injective (rw b at h));
  }
  | inr b ↦ elim (Option-cases (replace_first pat c xs)) [
    | inl e ↦ cc (rw (b, e) at h)
    | inr (zs, e) ↦
        Replaced-cons pat c x xs ys zs (replace_first-Replaced pat c xs zs e)
          (some_injective (rw (b, e) at h))
  ]
]

pub replace_first-NoOcc :
    (pat : List ℕ) (c : ℕ) (xs : List ℕ) → replace_first pat c xs ≡ none → NoOcc pat xs
unfolding replace_first
replace_first-NoOcc pat c [] h = tt
replace_first-NoOcc pat c (x ∷ xs) h = elim (Bool-cases (starts pat (x ∷ xs))) [
  | inl b ↦ cc (rw b at h)
  | inr b ↦ (b, replace_first-NoOcc pat c xs (later (replace_first pat c xs) (rw b at h)))
]
  where
    later : (o : Option (List ℕ)) → cons_to x o ≡ none → o ≡ none
    later none k = refl
    later (some zs) k = cc

NoOcc-append : (pat xs ys : List ℕ) → NoOcc pat (xs ++ ys) → NoOcc pat ys
NoOcc-append pat [] ys h = h
NoOcc-append pat (x ∷ xs) ys h = NoOcc-append pat xs ys h.1

-- A pattern without the character that begins in front of it ends in front of it.
starts-cut :
    (pat before after other : List ℕ) (c : ℕ)
    → All (λ p. (p == c) ≡ false) pat
    → starts pat (before ++ (c ∷ after)) ≡ true
    → starts pat (before ++ other) ≡ true
unfolding starts
starts-cut [] before after other c k h = refl
starts-cut (p ∷ ps) [] after other c k h = cc (rw (k.0) at h)
starts-cut (p ∷ ps) (x ∷ before) after other c k h = elim (Bool-cases (p == x)) [
  | inl b ↦ rw b (starts-cut ps before after other c k.1 (rw b at h))
  | inr b ↦ cc (rw b at h)
]

Foreign-start : (pat after : List ℕ) (c : ℕ) → Foreign c pat → starts pat (c ∷ after) ≡ false
unfolding starts
Foreign-start [] after c k = elim (k.0) [ ]
Foreign-start (p ∷ ps) after c k = rw (k.1.0)

-- Where a pattern does not occur, a replacement by a character that is foreign to it makes no occurrence.
NoOcc-kept :
    (pat other before after : List ℕ) (c : ℕ)
    → Foreign c pat
    → NoOcc pat (before ++ (other ++ after))
    → NoOcc pat (before ++ (c ∷ after))
NoOcc-kept pat other [] after c k h = (Foreign-start pat after c k, NoOcc-append pat other after h)
NoOcc-kept pat other (x ∷ before) after c k h = (
  elim (Bool-cases (starts pat (x ∷ (before ++ (c ∷ after))))) [
    | inl b ↦ cc (starts-cut pat (x ∷ before) after (other ++ after) c k.1 b, h.0)
    | inr b ↦ b
  ],
  NoOcc-kept pat other before after c k h.1,
)

pub Replaced-NoOcc :
    (pat other xs ys : List ℕ) (c : ℕ)
    → Foreign c pat
    → Replaced other c xs ys
    → NoOcc pat xs
    → NoOcc pat ys
Replaced-NoOcc pat other xs ys c k r h =
    subst (NoOcc pat) (sym r.is_)
      (NoOcc-kept pat other r.before r.after c k (subst (NoOcc pat) r.was h))

pub Replaced-length :
    (pat xs ys : List ℕ) (c : ℕ) → Replaced pat c xs ys → length ys + length pat ≡ length xs + 1
Replaced-length pat xs ys c r = omega (
  arith,
  ap length r.was,
  ap length r.is_,
  length-append r.before (pat ++ r.after),
  length-append pat r.after,
  length-append r.before (c ∷ r.after),
)
