-- ===== src/Speech/Ssml/Tags.antt =====
-- Texts that `strip_ssml` leaves as they are, and tags that it drops.
use eloquence.Base.{
  ℕ, suc, ◌≡◌, refl, sym, ap, ◌∙◌, true, false, All, none, some, List, [], ◌∷◌, ◌++◌, length, ◌==◌,
  Bool-cases, inl, inr, ◌≢◌, codes, starts, append-nil, ne→==,
}
use eloquence.Speech.Ssml.{strip_tags, replace_first, replace_all, strip_ssml}
use eloquence.Speech.Ssml.Total.{decode_entities-cons, decode_entities-nil}

-- No angle bracket and no ampersand.
abbrev pub IsPlain : ℕ → Type 0
IsPlain x = (x ≢ b'<') × (x ≢ b'>') × (x ≢ b'&')

abbrev pub IsOutside : ℕ → Type 0
IsOutside x = (x ≢ b'<') × (x ≢ b'>')

strip_tags-append :
    (xs ys : List ℕ) → All IsOutside xs → strip_tags false (xs ++ ys) ≡ xs ++ strip_tags false ys
unfolding strip_tags
strip_tags-append [] ys h = refl
strip_tags-append (x ∷ xs) ys h =
    rw (ne→== x b'<' h.0.0, ne→== x b'>' h.0.1) (ap (λ t. x ∷ t) (strip_tags-append xs ys h.1))

-- Inside a tag everything up to its end is dropped.
strip_tags-tag :
    (tag ys : List ℕ)
    → All (λ x. x ≢ b'>') tag
    → strip_tags true (tag ++ (b'>' ∷ ys)) ≡ strip_tags false ys
unfolding strip_tags
strip_tags-tag [] ys h = refl
strip_tags-tag (x ∷ xs) ys h = elim (Bool-cases (x == b'<')) [
  | inl b ↦ rw b (strip_tags-tag xs ys h.1)
  | inr b ↦ rw (b, ne→== x b'>' h.0) (strip_tags-tag xs ys h.1)
]

dropped_tag :
    (tag ys : List ℕ)
    → All (λ x. x ≢ b'>') tag
    → strip_tags false (b'<' ∷ (tag ++ (b'>' ∷ ys))) ≡ strip_tags false ys
unfolding strip_tags
dropped_tag tag ys h = strip_tags-tag tag ys h

-- A tag between a text without angle brackets and any other text makes no difference.
pub strip_ssml-tag :
    (before tag after : List ℕ)
    → All IsOutside before
    → All (λ x. x ≢ b'>') tag
    → strip_ssml (before ++ (b'<' ∷ (tag ++ (b'>' ∷ after)))) ≡ strip_ssml (before ++ after)
unfolding strip_ssml
strip_ssml-tag before tag after h k = rw (
  strip_tags-append before (b'<' ∷ (tag ++ (b'>' ∷ after))) h,
  dropped_tag tag after k,
  strip_tags-append before after h,
)

replace_first_plain :
    (ps : List ℕ) (c : ℕ) (xs : List ℕ) → All IsPlain xs → replace_first (b'&' ∷ ps) c xs ≡ none
unfolding replace_first starts
replace_first_plain ps c [] h = refl
replace_first_plain ps c (x ∷ xs) h =
    rw (ne→== b'&' x (λ e. h.0.2 (sym e)), replace_first_plain ps c xs h.1)

replace_all_plain :
    (ps : List ℕ) (fuel c : ℕ) (xs : List ℕ)
    → All IsPlain xs
    → replace_all (suc fuel) (b'&' ∷ ps) c xs ≡ some xs
unfolding replace_all
replace_all_plain ps fuel c xs h = rw (replace_first_plain ps c xs h)

outside : (x : ℕ) → IsPlain x → IsOutside x
outside x h = (h.0, h.1)

All-map {ℓ κ μ} :
    {A : Type ℓ} {P : A → Type κ} {Q : A → Type μ} (xs : List A)
    → ((x : A) → P x → Q x)
    → All P xs
    → All Q xs
All-map [] f h = tt
All-map (x ∷ xs) f h = (f x h.0, All-map xs f h.1)

pub strip_tags_outside : (xs : List ℕ) → All IsOutside xs → strip_tags false xs ≡ xs
unfolding strip_tags
strip_tags_outside xs h = let e = strip_tags-append xs [] h in rw (append-nil xs) at e

strip_tags_plain : (xs : List ℕ) → All IsPlain xs → strip_tags false xs ≡ xs
strip_tags_plain xs h = strip_tags_outside xs (All-map xs outside h)

-- A text without angle brackets and ampersands stays as it is.
pub strip_ssml_plain : (t : List ℕ) → All IsPlain t → strip_ssml t ≡ some t
unfolding strip_ssml
strip_ssml_plain t h =
    let amp = replace_all_plain (codes "amp;") (length t) b'&' t h in
    let lt_ = replace_all_plain (codes "lt;") (length t) b'<' t h in
    let gt_ = replace_all_plain (codes "gt;") (length t) b'>' t h in
    let quot = replace_all_plain (codes "quot;") (length t) b'"' t h in
    let apos = replace_all_plain (codes "apos;") (length t) b'\'' t h in
    rw (strip_tags_plain t h) (
      decode_entities-cons _ _ _ t t amp
      ∙ decode_entities-cons _ _ _ t t lt_
      ∙ decode_entities-cons _ _ _ t t gt_
      ∙ decode_entities-cons _ _ _ t t quot
      ∙ decode_entities-cons _ _ _ t t apos
      ∙ decode_entities-nil t)
