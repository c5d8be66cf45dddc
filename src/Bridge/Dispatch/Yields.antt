-- ===== src/Bridge/Dispatch/Yields.antt =====
-- What holds of the value of a parser, whatever the message: a rule for each step of a `do` block.
use eloquence.Base.{ℕ, List, Option, none, some}
use eloquence.Wire.Decode.{Parser, ◌>>=◌, proceed}

abbrev pub Holds {ℓ κ} : {A : Type ℓ} → (A → Type κ) → Option A → Type κ
Holds Q none = Unit
Holds Q (some a) = Q a

abbrev pub Yields {ℓ κ} : {A : Type ℓ} → (A → Type κ) → Parser A → Type κ
Yields Q p = (buf : List ℕ) (pos : ℕ) → Holds Q (p buf pos).0

module _ {ℓ κ μ} {A : Type ℓ} {B : Type κ} (Q : B → Type μ) where
  proceed-Holds :
      (f : A → Parser B) (buf : List ℕ) (r : Option A) (pos : ℕ)
      → ((a : A) → Yields Q (f a))
      → Holds Q (proceed f buf r pos).0
  proceed-Holds f buf none pos h = tt
  proceed-Holds f buf (some a) pos h = h a buf pos

  pub bind-Yields :
      (p : Parser A) (f : A → Parser B) → ((a : A) → Yields Q (f a)) → Yields Q (p >>= f)
  bind-Yields p f h buf pos = proceed-Holds f buf (p buf pos).0 (p buf pos).1 h
