-- ===== src/Cli/Input/Read.antt =====
-- What cli/eloquence.c reads from a file.
use eloquence.Base.{
  ℕ, ◌∙◌, zero, suc, ◌<◌, ◌≤◌, ◌≡◌, ◌≢◌, refl, ap, All, List, [], ◌∷◌, ◌++◌, length, ne→==,
  length-append, append_assoc, append-nil, sym, arith, fgets, fgets-append, fgets_reads, subst,
}
use eloquence.Cli.Input.{FileText, until_nul, take_line, read_lines, read_text}

IsText : ℕ → Type 0
IsText c = c ≢ 0

until_nul_text : (s : List ℕ) → All (λ c. c ≢ 0) s → until_nul s ≡ s
unfolding until_nul
until_nul_text [] h = refl
until_nul_text (c ∷ cs) h = rw (ne→== c 0 h.0) (ap (λ t. c ∷ t) (until_nul_text cs h.1))

All-front : (xs ys : List ℕ) → All (λ c. c ≢ 0) (xs ++ ys) → All (λ c. c ≢ 0) xs
All-front [] ys h = tt
All-front (x ∷ xs) ys h = (h.0, All-front xs ys h.1)

All-back : (xs ys : List ℕ) → All (λ c. c ≢ 0) (xs ++ ys) → All (λ c. c ≢ 0) ys
All-back [] ys h = h
All-back (x ∷ xs) ys h = All-back xs ys h.1

-- The text and a NUL fit the buffer, once there is one.
abbrev pub Terminated : FileText → Type 0
Terminated f = length f.text < f.cap

read_lines_lem :
    (fuel : ℕ) (file : List ℕ) (f : FileText)
    → length file ≤ fuel
    → All (λ c. c ≢ 0) file
    → (read_lines fuel file f).text ≡ f.text ++ file
unfolding read_lines take_line
read_lines_lem zero [] f h k = sym (append-nil f.text)
read_lines_lem zero (c ∷ cs) f h k = absurd (omega arith)
read_lines_lem (suc fuel) [] f h k = sym (append-nil f.text)
read_lines_lem (suc fuel) (c ∷ cs) f h k =
    let r = fgets 4095 (c ∷ cs) in
    let e = fgets-append 4095 (c ∷ cs) in
    let all = subst (All (λ c. c ≢ 0)) (sym e) k in
    let front = until_nul_text r.0 (All-front r.0 r.1 all) in
    read_lines_lem fuel r.1 (take_line r.0 f) (omega (arith, fgets_reads 4094 c cs))
      (All-back r.0 r.1 all)
    ∙ rw (front, append_assoc f.text r.0 r.1, e)

take_line-Terminated : (buf : List ℕ) (f : FileText) → Terminated (take_line buf f)
unfolding take_line
take_line-Terminated buf f = ground (arith, length-append f.text (until_nul buf))

read_lines-Terminated :
    (fuel : ℕ) (file : List ℕ) (f : FileText) → Terminated f → Terminated (read_lines fuel file f)
unfolding read_lines
read_lines-Terminated zero file f h = h
read_lines-Terminated (suc fuel) [] f h = h
read_lines-Terminated (suc fuel) (c ∷ cs) f h =
    let r = fgets 4095 (c ∷ cs) in
    read_lines-Terminated fuel r.1 (take_line r.0 f) (take_line-Terminated r.0 f)

-- A file without NUL is read whole, whatever its lines are, and where it is not empty the text has room for its
-- NUL.
pub read_text_lem :
    (c : ℕ) (cs : List ℕ)
    → All (λ b. b ≢ 0) (c ∷ cs)
    → ((read_text (c ∷ cs)).text ≡ c ∷ cs) × Terminated (read_text (c ∷ cs))
unfolding read_text read_lines
read_text_lem c cs h =
    let r = fgets 4095 (c ∷ cs) in
    (
      read_lines_lem (length (c ∷ cs)) (c ∷ cs) (record { text = []; cap = 0 }) (omega arith) h,
      read_lines-Terminated (length cs) r.1 (take_line r.0 (record { text = []; cap = 0 }))
          (take_line-Terminated r.0 (record { text = []; cap = 0 })),
    )
