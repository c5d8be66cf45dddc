-- ===== src/Cli/Input.antt =====
-- How cli/eloquence.c gets its text: the remaining arguments joined, or a file or the standard input.
pub mod Join
pub mod Read
use eloquence.Base.{
  ℕ, zero, suc, ◌+◌, ◌-◌, ◌*◌, ◌%◌, Bool, true, false, Option, none, some, List, [], ◌∷◌, ◌++◌,
  length, take, ltb, ◌==◌, if◌then◌else◌, fgets,
}

abbrev pub joined_size : ℕ
joined_size = 65_536

-- `sizeof(joined) - strlen(joined) - 2`, a `size_t`.
abbrev pub room_left : List ℕ → ℕ
room_left joined =
    (joined_size + 18_446_744_073_709_551_616 - length joined - 2) % 18_446_744_073_709_551_616

-- The rounds of the loop behind the first: a blank, and the argument as far as `strncat` takes it. The result
-- is the text in the buffer, whether it fits or not.
unfoldable pub join_rest : List ℕ → List (List ℕ) → List ℕ
join_rest joined [] = joined
join_rest joined (arg ∷ args) =
    let j = joined ++ (b' ' ∷ []) in join_rest (j ++ take (room_left j) arg) args

unfoldable pub join_args : List (List ℕ) → List ℕ
unfolding join_rest
join_args [] = []
join_args (arg ∷ args) = join_rest (take (room_left []) arg) args

-- `file_text` up to `len`, and `cap`.
pub record FileText : Type 0 where
  pub text : List ℕ
  pub cap : ℕ

-- The part of a line that `strlen` sees.
unfoldable pub until_nul : List ℕ → List ℕ
until_nul [] = []
until_nul (c ∷ cs) = if c == 0 then [] else c ∷ until_nul cs

-- The capacity for a line; `realloc` is taken to succeed.
abbrev pub enlarged : ℕ → ℕ → ℕ
enlarged cap need =
    if ltb cap need
    then (let twice = if cap == 0 then 8192 else cap * 2 in if ltb twice need then need else twice)
    else cap

unfoldable pub take_line : List ℕ → FileText → FileText
unfolding until_nul
take_line buf f =
    let line = until_nul buf in
    record { text = f.text ++ line; cap = enlarged f.cap (length f.text + length line + 1) }

-- The loop by `fgets` into 4096 bytes; each round reads at least a byte.
unfoldable pub read_lines : ℕ → List ℕ → FileText → FileText
read_lines zero file f = f
read_lines (suc fuel) [] f = f
read_lines (suc fuel) (c ∷ cs) f =
    let r = fgets 4095 (c ∷ cs) in read_lines fuel r.1 (take_line r.0 f)

unfoldable pub read_text : List ℕ → FileText
read_text file = read_lines (length file) file (record { text = []; cap = 0 })
