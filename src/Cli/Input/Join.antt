-- ===== src/Cli/Input/Join.antt =====
-- The arguments that cli/eloquence.c joins, and where its buffer of 64 KiB ends.
use eloquence.Base.{
  ℕ, sym, append-nil, ◌+◌, ◌<◌, ◌≤◌, ◌≡◌, List, [], ◌∷◌, ◌++◌, length, take, take_short,
  length-append, length-take, append_assoc, arith,
}
use eloquence.Cli.Input.{joined_size, room_left, join_rest, join_args}

-- The arguments with a blank in front of each.
abbrev pub blank_each : List (List ℕ) → List ℕ
blank_each [] = []
blank_each (arg ∷ args) = (b' ' ∷ arg) ++ blank_each args

join_rest_lem :
    (args : List (List ℕ)) (joined : List ℕ)
    → length joined + length (blank_each args) ≤ 65_534
    → join_rest joined args ≡ joined ++ blank_each args
unfolding join_rest
join_rest_lem [] joined h = sym (append-nil joined)
join_rest_lem (arg ∷ args) joined h =
    let j = joined ++ (b' ' ∷ []) in
    let n = length-append joined (b' ' ∷ []) in
    let m = length-append arg (blank_each args) in
    let whole : take (room_left j) arg ≡ arg = take_short (room_left j) arg (omega (arith, n, m)) in
    let e = join_rest_lem args (j ++ arg) (omega (arith, n, m, length-append j arg)) in
    rw (
      whole,
      e,
      append_assoc j arg (blank_each args),
      append_assoc joined (b' ' ∷ []) (arg ++ blank_each args),
    )

-- Arguments that have at most 65534 bytes with the blanks between them are joined whole, which fits the buffer.
pub join_args_fits :
    (arg : List ℕ) (args : List (List ℕ))
    → length arg + length (blank_each args) ≤ 65_534
    → (join_args (arg ∷ args) ≡ arg ++ blank_each args)
      × (length (join_args (arg ∷ args)) < joined_size)
unfolding join_args
join_args_fits arg args h =
    let whole : take (room_left []) arg ≡ arg = take_short 65_534 arg (omega arith) in
    let e = join_rest_lem args arg h in
    (rw whole e, rw (whole, e) (omega (arith, length-append arg (blank_each args))))

-- Behind a first argument of 65534 bytes or more, the whole of the second is written behind the buffer's last
-- byte but one: the room left has wrapped.
pub join_args_overflows :
    (arg next : List ℕ)
    → 65_534 ≤ length arg
    → length next < 4_294_967_296
    → length (join_args (arg ∷ next ∷ [])) ≡ 65_535 + length next
unfolding join_args join_rest
join_args_overflows arg next h k =
    let first = take 65_534 arg in
    let n = length-take 65_534 arg in
    let m = length-append first (b' ' ∷ []) in
    let whole : take (room_left (first ++ (b' ' ∷ []))) next ≡ next =
      take_short (room_left (first ++ (b' ' ∷ []))) next (omega (arith, n, m)) in
    rw whole (omega (arith, n, m, length-append (first ++ (b' ' ∷ [])) next))
