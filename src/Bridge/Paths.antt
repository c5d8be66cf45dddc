-- ===== src/Bridge/Paths.antt =====
-- The paths of the daemon, arm/bridge_main.c: its socket and its PID file. What `getenv` gives is an argument.
use eloquence.Base.{
  ℕ, ◌≤◌, ◌≡◌, refl, ap, Option, none, some, List, [], ◌∷◌, ◌++◌, length, take, take_short,
  length-take, length-append, append_assoc, arith, ◌==◌, if◌then◌else◌, codes, Bool-cases,
  Option-cases, inl, inr, some_injective,
}

abbrev pub default_socket_name : List ℕ
default_socket_name = codes "eci-bridge.sock"

-- `snprintf` into a buffer of 256 bytes.
abbrev pub printed : List ℕ → List ℕ
printed s = take 255 s

-- `get_socket_path` from ECI_BRIDGE_SOCKET and XDG_RUNTIME_DIR.
abbrev pub get_socket_path : Option (List ℕ) → Option (List ℕ) → List ℕ
get_socket_path (some env) runtime = printed env
get_socket_path none (some runtime) = printed (runtime ++ (codes "/" ++ default_socket_name))
get_socket_path none none = printed (codes "/tmp/" ++ default_socket_name)

-- `strncpy` into `sun_path`, which has 108 bytes.
abbrev pub sun_path : List ℕ → List ℕ
sun_path s = take 107 s

-- What stands in front of the last dot, by `strrchr`.
abbrev pub cut_here : ℕ → Option (List ℕ) → Option (List ℕ)
cut_here c none = if c == b'.' then some [] else none
cut_here c (some before) = some (c ∷ before)

unfoldable pub before_dot : List ℕ → Option (List ℕ)
before_dot [] = none
before_dot (c ∷ cs) = cut_here c (before_dot cs)

-- What the buffer of the PID file's path is given, whether it fits its 256 bytes or not.
abbrev pub with_pid : List ℕ → Option (List ℕ) → List ℕ
with_pid s none = s ++ codes ".pid"
with_pid s (some before) = before ++ codes ".pid"

unfoldable pub pid_path : List ℕ → List ℕ
pid_path socket_path = with_pid (printed socket_path) (before_dot (printed socket_path))

length-before_dot : (s r : List ℕ) → before_dot s ≡ some r → length r ≤ length s
unfolding before_dot
length-before_dot [] r h = cc
length-before_dot (c ∷ cs) r h = elim (Option-cases (before_dot cs)) [
  | inr (t, e) ↦ omega (arith, length-before_dot cs t e, ap length (some_injective (rw e at h)))
  | inl e ↦ elim (Bool-cases (c == b'.')) [
    | inl b ↦ omega (arith, ap length (some_injective (rw (e, b) at h)))
    | inr b ↦ cc (rw (e, b) at h)
  ]
]

length-take_le : (n : ℕ) (s : List ℕ) → length (take n s) ≤ length s
length-take_le n s = omega (arith, length-take n s)

-- The PID file's path fits its 256 bytes with its NUL, if the socket's path has at most 251 bytes.
pub pid_path_fits : (s : List ℕ) → length s ≤ 251 → length (pid_path s) ≤ 255
unfolding pid_path
pid_path_fits s h = elim (Option-cases (before_dot (printed s))) [
  | inl e ↦ rw e (omega (arith, length-append (printed s) (codes ".pid"), length-take_le 255 s))
  | inr (r, e) ↦ rw e (
      omega (
        arith,
        length-append r (codes ".pid"),
        length-before_dot (printed s) r e,
        length-take_le 255 s,
      ))
]

before_dot-append :
    (xs cs r : List ℕ) → before_dot cs ≡ some r → before_dot (xs ++ cs) ≡ some (xs ++ r)
unfolding before_dot
before_dot-append [] cs r h = h
before_dot-append (x ∷ xs) cs r h = rw (before_dot-append xs cs r h)

-- In a run-time directory with a path of at most 239 bytes the PID file stands beside the socket.
pub pid_path-get_socket_path :
    (dir : List ℕ)
    → length dir ≤ 239
    → pid_path (get_socket_path none (some dir)) ≡ dir ++ codes "/eci-bridge.pid"
unfolding pid_path before_dot
pid_path-get_socket_path dir h =
    let name = codes "/" ++ default_socket_name in
    let whole : printed (dir ++ name) ≡ dir ++ name =
      take_short 255 (dir ++ name) (omega (arith, length-append dir name)) in
    rw (whole, whole, before_dot-append dir name (codes "/eci-bridge") refl)
      (append_assoc dir (codes "/eci-bridge") (codes ".pid"))
