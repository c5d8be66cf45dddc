-- ===== src/Speech/Ssml.antt =====
-- `strip_ssml` of spd/sd_eloquence.c: tags are dropped, and then five entities are decoded, one after the
-- other, each as often as it occurs.
pub mod Absence
pub mod Total
pub mod Tags
pub mod Passing
pub mod Escape
use eloquence.Base.{
  ℕ, zero, suc, Bool, true, false, Option, none, some, List, [], ◌∷◌, length, drop, ◌==◌,
  if◌then◌else◌, codes, starts,
}

-- The loop over the text, from whether it is inside a tag.
unfoldable pub strip_tags : Bool → List ℕ → List ℕ
strip_tags in_tag [] = []
strip_tags in_tag (x ∷ xs) =
    let inside = strip_tags true xs in
    let outside = strip_tags false xs in
    let same_as_before = strip_tags in_tag xs in
    if x == b'<'
    then inside
    else if x == b'>'
    then outside
    else if in_tag
    then same_as_before
    else x ∷ same_as_before

-- `strstr` of the pattern, and where it occurs, the text with the character in its place.
abbrev pub cons_to : ℕ → Option (List ℕ) → Option (List ℕ)
cons_to x none = none
cons_to x (some xs) = some (x ∷ xs)

unfoldable pub replace_first : List ℕ → ℕ → List ℕ → Option (List ℕ)
replace_first pat c [] = none
replace_first pat c (x ∷ xs) =
    let rest = replace_first pat c xs in
    if starts pat (x ∷ xs) then some (c ∷ drop (length pat) (x ∷ xs)) else cons_to x rest

-- The loop until there is no more occurrence; `none` where the fuel runs out.
abbrev pub until_none : (List ℕ → Option (List ℕ)) → List ℕ → Option (List ℕ) → Option (List ℕ)
until_none loop xs none = some xs
until_none loop xs (some ys) = loop ys

unfoldable pub replace_all : ℕ → List ℕ → ℕ → List ℕ → Option (List ℕ)
replace_all zero pat c xs = none
replace_all (suc fuel) pat c xs = until_none (replace_all fuel pat c) xs (replace_first pat c xs)

abbrev pub entities : List (List ℕ × ℕ)
entities =
    (codes "&amp;", b'&')
    ∷ (codes "&lt;", b'<')
    ∷ (codes "&gt;", b'>')
    ∷ (codes "&quot;", b'"')
    ∷ (codes "&apos;", b'\'')
    ∷ []

unfoldable pub decode_entities : List (List ℕ × ℕ) → Option (List ℕ) → Option (List ℕ)
decode_entities es none = none
decode_entities [] (some xs) = some xs
decode_entities ((pat, c) ∷ es) (some xs) =
    decode_entities es (replace_all (suc (length xs)) pat c xs)

unfoldable pub strip_ssml : List ℕ → Option (List ℕ)
strip_ssml ssml = decode_entities entities (some (strip_tags false ssml))
