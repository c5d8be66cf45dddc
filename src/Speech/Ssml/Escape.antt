-- ===== src/Speech/Ssml/Escape.antt =====
-- `strip_ssml` against the escaping of a text.
use eloquence.Base.{
  ℕ, zero, suc, ◌<◌, ◌≤◌, ◌≡◌, ◌≢◌, refl, ap, ◌∙◌, true, false, All, some, List, [], ◌∷◌, ◌++◌,
  length, drop-append, length-append, arith, ◌==◌, if◌then◌else◌, if-keeps, Bool-cases, inl, inr,
  codes, starts, ==→eq, ==-refl, All-append,
}
use eloquence.Speech.Ssml.{replace_first, replace_all, cons_to, entities, strip_ssml}
use eloquence.Speech.Ssml.Total.{decode_entities-cons, decode_entities-nil}
use eloquence.Speech.Ssml.Tags.{IsOutside, strip_tags_outside}
use eloquence.Speech.Ssml.Passing.{
  prefix, prefix-some, Passes, plain-Passes, entity-Passes, Passes-replace_all,
}

-- The character, or the entity that stands for it.
abbrev pub escaped : List (List ℕ × ℕ) → ℕ → List ℕ
escaped [] x = x ∷ []
escaped ((pat, c) ∷ es) x = if x == c then pat else escaped es x

pub escape : List (List ℕ × ℕ) → List ℕ → List ℕ
escape es [] = []
escape es (x ∷ t) = escaped es x ++ escape es t

-- All these entities are passed over.
abbrev AllPassed : List ℕ → List (List ℕ × ℕ) → Type 0
AllPassed pat es = All (λ e. Passes pat e.0) es

escaped-Passes :
    (ps : List ℕ) (es : List (List ℕ × ℕ)) (x : ℕ)
    → x ≢ b'&'
    → AllPassed (b'&' ∷ ps) es
    → Passes (b'&' ∷ ps) (escaped es x)
escaped-Passes ps [] x h k = plain-Passes ps (x ∷ []) (h, tt)
escaped-Passes ps ((pat, c) ∷ es) x h k =
    if-keeps (Passes (b'&' ∷ ps)) (x == c) pat (escaped es x) k.0 (escaped-Passes ps es x h k.1)

starts-append : (pat ys : List ℕ) → starts pat (pat ++ ys) ≡ true
unfolding starts
starts-append [] ys = refl
starts-append (p ∷ ps) ys = rw (==-refl p, starts-append ps ys)

done : (ps : List ℕ) (fuel c : ℕ) → replace_all (suc fuel) (b'&' ∷ ps) c [] ≡ some []
unfolding replace_all replace_first
done ps fuel c = refl

-- The pattern at the front is replaced.
replace_all-front :
    (ps : List ℕ) (fuel c : ℕ) (ys : List ℕ)
    → c ≢ b'&'
    → replace_all (suc fuel) (b'&' ∷ ps) c ((b'&' ∷ ps) ++ ys)
      ≡ cons_to c (replace_all fuel (b'&' ∷ ps) c ys)
unfolding replace_all replace_first
replace_all-front ps fuel c ys h =
    rw (starts-append (b'&' ∷ ps) ys, drop-append (b'&' ∷ ps) ys (length (b'&' ∷ ps)) refl)
      (Passes-replace_all (b'&' ∷ ps) (c ∷ []) (plain-Passes ps (c ∷ []) (h, tt)) fuel c ys)

-- A character that has none of the entities stands for itself.
escaped_self :
    (es : List (List ℕ × ℕ)) (c : ℕ) → All (λ e. (c == e.1) ≡ false) es → escaped es c ≡ c ∷ []
escaped_self [] c n = refl
escaped_self ((pat, d) ∷ es) c n = rw (n.0) (escaped_self es c n.1)

-- One loop takes one kind of entity away, if the others are passed over and the text has no ampersand.
unescape_one :
    (ps : List ℕ) (c : ℕ) (es : List (List ℕ × ℕ)) (t : List ℕ) (fuel : ℕ)
    → AllPassed (b'&' ∷ ps) es
    → All (λ e. (c == e.1) ≡ false) es
    → All (λ x. x ≢ b'&') t
    → length t < fuel
    → replace_all fuel (b'&' ∷ ps) c (escape ((b'&' ∷ ps, c) ∷ es) t) ≡ some (escape es t)
unfolding escape
unescape_one ps c es [] zero k n h l = elim l [ ]
unescape_one ps c es (x ∷ t) zero k n h l = elim l [ ]
unescape_one ps c es [] (suc fuel) k n h l = done ps fuel c
unescape_one ps c es (x ∷ t) (suc fuel) k n h l = elim (Bool-cases (x == c)) [
  | inl b ↦
      let same : x ≡ c = ==→eq x c b in
      rw (b, same, escaped_self es c n)
        (replace_all-front ps fuel c (escape ((b'&' ∷ ps, c) ∷ es) t) (λ e. h.0 (same ∙ e))
          ∙ ap (cons_to c) (unescape_one ps c es t fuel k n h.1 (omega arith)))
  | inr b ↦ rw b (
      Passes-replace_all (b'&' ∷ ps) (escaped es x) (escaped-Passes ps es x h.0 k) (suc fuel) c
        (escape ((b'&' ∷ ps, c) ∷ es) t)
      ∙ ap (prefix (escaped es x)) (unescape_one ps c es t (suc fuel) k n h.1 (omega arith))
      ∙ prefix-some (escaped es x) (escape es t))
]

escape_nil : (t : List ℕ) → escape [] t ≡ t
unfolding escape
escape_nil [] = refl
escape_nil (x ∷ t) = rw (escape_nil t)

-- An escaped text has no angle bracket.
escaped-IsOutside : (x : ℕ) → All IsOutside (escaped entities x)
escaped-IsOutside x = ground arith

escape-IsOutside : (t : List ℕ) → All IsOutside (escape entities t)
unfolding escape
escape-IsOutside [] = tt
escape-IsOutside (x ∷ t) =
    All-append IsOutside (escaped entities x) (escape entities t) (escaped-IsOutside x)
      (escape-IsOutside t)

abbrev lt_entity : List ℕ × ℕ
lt_entity = (codes "&lt;", b'<')

abbrev gt_entity : List ℕ × ℕ
gt_entity = (codes "&gt;", b'>')

abbrev quot_entity : List ℕ × ℕ
quot_entity = (codes "&quot;", b'"')

abbrev apos_entity : List ℕ × ℕ
apos_entity = (codes "&apos;", b'\'')

-- Every entity is passed over by the loops for those in front of it.
amp_passes : AllPassed (codes "&amp;") (lt_entity ∷ gt_entity ∷ quot_entity ∷ apos_entity ∷ [])
unfolding starts
amp_passes = (
  entity-Passes (codes "amp;") (codes "lt;") (ground arith) (λ ys. refl),
  (
    entity-Passes (codes "amp;") (codes "gt;") (ground arith) (λ ys. refl),
    (
      entity-Passes (codes "amp;") (codes "quot;") (ground arith) (λ ys. refl),
      (entity-Passes (codes "amp;") (codes "apos;") (ground arith) (λ ys. refl), tt),
    ),
  ),
)

lt_passes : AllPassed (codes "&lt;") (gt_entity ∷ quot_entity ∷ apos_entity ∷ [])
unfolding starts
lt_passes = (
  entity-Passes (codes "lt;") (codes "gt;") (ground arith) (λ ys. refl),
  (
    entity-Passes (codes "lt;") (codes "quot;") (ground arith) (λ ys. refl),
    (entity-Passes (codes "lt;") (codes "apos;") (ground arith) (λ ys. refl), tt),
  ),
)

gt_passes : AllPassed (codes "&gt;") (quot_entity ∷ apos_entity ∷ [])
unfolding starts
gt_passes = (
  entity-Passes (codes "gt;") (codes "quot;") (ground arith) (λ ys. refl),
  (entity-Passes (codes "gt;") (codes "apos;") (ground arith) (λ ys. refl), tt),
)

quot_passes : AllPassed (codes "&quot;") (apos_entity ∷ [])
unfolding starts
quot_passes = (entity-Passes (codes "quot;") (codes "apos;") (ground arith) (λ ys. refl), tt)

length-escaped :
    (es : List (List ℕ × ℕ)) (x : ℕ) → All (λ e. 0 < length e.0) es → 0 < length (escaped es x)
length-escaped [] x h = omega arith
length-escaped ((pat, c) ∷ es) x h =
    if-keeps (λ u. 0 < length u) (x == c) pat (escaped es x) h.0 (length-escaped es x h.1)

-- Escaping makes no text shorter.
length-escape :
    (es : List (List ℕ × ℕ)) (t : List ℕ)
    → All (λ e. 0 < length e.0) es
    → length t ≤ length (escape es t)
unfolding escape
length-escape es [] h = omega arith
length-escape es (x ∷ t) h =
    omega (
      arith,
      length-append (escaped es x) (escape es t),
      length-escape es t h,
      length-escaped es x h,
    )

longer :
    (es : List (List ℕ × ℕ)) (t : List ℕ)
    → All (λ e. 0 < length e.0) es
    → length t < suc (length (escape es t))
longer es t h = omega (arith, length-escape es t h)

-- A text without ampersands whose brackets and quotes are escaped is the text again behind `strip_ssml`.
pub strip_ssml-escape :
    (t : List ℕ) → All (λ x. x ≢ b'&') t → strip_ssml (escape entities t) ≡ some t
unfolding strip_ssml
strip_ssml-escape t h = rw (strip_tags_outside (escape entities t) (escape-IsOutside t)) (
    decode_entities-cons _ _ _ _ _ (
      unescape_one (codes "amp;") b'&' _ t _ amp_passes (ground arith) h
        (longer _ t (ground arith)))
    ∙ decode_entities-cons _ _ _ _ _ (
        unescape_one (codes "lt;") b'<' _ t _ lt_passes (ground arith) h
          (longer _ t (ground arith)))
    ∙ decode_entities-cons _ _ _ _ _ (
        unescape_one (codes "gt;") b'>' _ t _ gt_passes (ground arith) h
          (longer _ t (ground arith)))
    ∙ decode_entities-cons _ _ _ _ _ (
        unescape_one (codes "quot;") b'"' _ t _ quot_passes (ground arith) h
          (longer _ t (ground arith)))
    ∙ decode_entities-cons _ _ _ _ _
        (unescape_one (codes "apos;") b'\'' _ t _ tt tt h (longer _ t (ground arith)))
    ∙ decode_entities-nil (escape [] t)
    ∙ ap some (escape_nil t))
