-- ===== src/Speech/Ssml/Total.antt =====
-- `strip_ssml` returns, and no entity is left in its result.
use eloquence.Base.{
  ℕ, zero, suc, ◌<◌, ◌≤◌, ◌≡◌, refl, ap, Bool, true, false, All, Option, some, List, [], ◌∷◌,
  length, arith, Option-cases, inl, inr, codes, ◌∙◌,
}
use eloquence.Speech.Ssml.{
  strip_tags, replace_first, replace_all, entities, decode_entities, strip_ssml,
}
use eloquence.Speech.Ssml.Absence.{
  NoOcc, Foreign, replace_first-Replaced, replace_first-NoOcc, Replaced-NoOcc, Replaced-length,
}

-- What a loop comes to: a text without the pattern, no longer than the one before, and without any pattern
-- that was absent from it and does not have the character.
record Decoded (pat : List ℕ) (c : ℕ) (xs : List ℕ) (r : Option (List ℕ)) : Type 0 where
  text : List ℕ
  result : r ≡ some text
  gone : NoOcc pat text
  shorter : length text ≤ length xs
  kept : (other : List ℕ) → Foreign c other → NoOcc other xs → NoOcc other text

replace_all-Decoded :
    (fuel : ℕ) (pat : List ℕ) (c : ℕ) (xs : List ℕ)
    → 1 < length pat
    → length xs < fuel
    → Decoded pat c xs (replace_all fuel pat c xs)
unfolding replace_all
replace_all-Decoded zero pat c xs long h = elim h [ ]
replace_all-Decoded (suc fuel) pat c xs long h = elim (Option-cases (replace_first pat c xs)) [
  | inl e ↦ record {
    text = xs;
    result = rw e;
    gone = replace_first-NoOcc pat c xs e;
    shorter = omega arith;
    kept = λ other k a. a;
  }
  | inr (ys, e) ↦
      let r = replace_first-Replaced pat c xs ys e in
      let d =
        replace_all-Decoded fuel pat c ys long (omega (arith, Replaced-length pat xs ys c r)) in
      record {
        text = d.text;
        result = rw e d.result;
        gone = d.gone;
        shorter = omega (arith, Replaced-length pat xs ys c r, d.shorter);
        kept = λ other k a. d.kept other k (Replaced-NoOcc other pat xs ys c k r a);
      }
]

-- Tags only take characters away.
pub length-strip_tags : (in_tag : Bool) (xs : List ℕ) → length (strip_tags in_tag xs) ≤ length xs
unfolding strip_tags
length-strip_tags in_tag [] = omega arith
length-strip_tags in_tag (x ∷ xs) =
    ground (arith, length-strip_tags true xs, length-strip_tags false xs)

-- One loop of the five.
pub decode_entities-cons :
    (pat : List ℕ) (c : ℕ) (es : List (List ℕ × ℕ)) (xs ys : List ℕ)
    → replace_all (suc (length xs)) pat c xs ≡ some ys
    → decode_entities ((pat, c) ∷ es) (some xs) ≡ decode_entities es (some ys)
unfolding decode_entities
decode_entities-cons pat c es xs ys h = ap (λ r. decode_entities es r) h

pub decode_entities-nil : (xs : List ℕ) → decode_entities [] (some xs) ≡ some xs
unfolding decode_entities
decode_entities-nil xs = refl

-- `strip_ssml` of any text returns: a text that is no longer, and in which none of the five entities occurs.
pub strip_ssml_total :
    (ssml : List ℕ)
    → (out : List ℕ) × (strip_ssml ssml ≡ some out)
      × (length out ≤ length ssml)
      × All (λ e. NoOcc e.0 out) entities
unfolding strip_ssml
strip_ssml_total ssml =
    let s = strip_tags false ssml in
    let a =
      replace_all-Decoded (suc (length s)) (codes "&amp;") b'&' s (omega arith) (omega arith) in
    let l =
      replace_all-Decoded (suc (length a.text)) (codes "&lt;") b'<' a.text (omega arith)
        (omega arith) in
    let g =
      replace_all-Decoded (suc (length l.text)) (codes "&gt;") b'>' l.text (omega arith)
        (omega arith) in
    let q =
      replace_all-Decoded (suc (length g.text)) (codes "&quot;") b'"' g.text (omega arith)
        (omega arith) in
    let p =
      replace_all-Decoded (suc (length q.text)) (codes "&apos;") b'\'' q.text (omega arith)
        (omega arith) in
    (
      p.text,
      decode_entities-cons _ _ _ s a.text a.result
          ∙ decode_entities-cons _ _ _ a.text l.text l.result
          ∙ decode_entities-cons _ _ _ l.text g.text g.result
          ∙ decode_entities-cons _ _ _ g.text q.text q.result
          ∙ decode_entities-cons _ _ _ q.text p.text p.result
          ∙ decode_entities-nil p.text,
      omega (
        arith,
        length-strip_tags false ssml,
        a.shorter,
        l.shorter,
        g.shorter,
        q.shorter,
        p.shorter,
      ),
      (
        p.kept (codes "&amp;") (ground arith) (
            q.kept (codes "&amp;") (ground arith) (
              g.kept (codes "&amp;") (ground arith)
                (l.kept (codes "&amp;") (ground arith) a.gone))),
        (
          p.kept (codes "&lt;") (ground arith)
              (q.kept (codes "&lt;") (ground arith) (g.kept (codes "&lt;") (ground arith) l.gone)),
          (
            p.kept (codes "&gt;") (ground arith) (q.kept (codes "&gt;") (ground arith) g.gone),
            (p.kept (codes "&quot;") (ground arith) q.gone, (p.gone, tt)),
          ),
        ),
      ),
    )
