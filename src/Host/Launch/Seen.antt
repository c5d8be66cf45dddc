-- ===== src/Host/Launch/Seen.antt =====
-- The start of the bridge by host/shim_launch.c, with the daemon that it starts, `main` of arm/bridge_main.c.
use eloquence.Base.{
  ℕ, ◌≤◌, ◌<◌, ◌≡◌, ◌↔◌, refl, Bool, true, false, not, ◌&&◌, Bool-cases, inl, inr, Option, none,
  some, List, [], ◌∷◌, ◌++◌, ◌==◌, if◌then◌else◌, length, length-take, take_short, arith, codes,
  same, same_refl, same-length,
}
use eloquence.Bridge.Engine.{Outside}
use eloquence.Bridge.Load.{Loading}
use eloquence.Bridge.Paths.{sun_path, get_socket_path, pid_path}
use eloquence.Bridge.Server.{Server}
use eloquence.Bridge.Daemon.{
  Deed, unlinked, bound, opened_to_owner, listened, closed, wrote_pid, Calls, write_pid_file, Wake,
  Loop, ended, waiting, reading, runs, behind_loop, main,
}
use eloquence.Bridge.Daemon.Exit.{socket_made}
use eloquence.Host.Launch.{
  shim_get_socket_path, check_socket_exists, check_bridge_running, wait_rounds, printed_long,
  shim_launch_bridge,
}
use eloquence.Host.Launch.Waiting.{shim_launch_bridge_lem}

-- The types of a file in `st_mode`.
abbrev pub socket_mode : ℕ
socket_mode = 49_152

abbrev pub regular_mode : ℕ
regular_mode = 32_768

-- The mode of the file at a path behind the deeds of the daemon, none where there is no file.
abbrev pub mode_behind : List ℕ → List Deed → Option ℕ → Option ℕ
mode_behind p [] m = m
mode_behind p (unlinked q ∷ ds) m = mode_behind p ds (if same p q then none else m)
mode_behind p (bound q ∷ ds) m = mode_behind p ds (if same p q then some socket_mode else m)
mode_behind p (wrote_pid q n ∷ ds) m = mode_behind p ds (if same p q then some regular_mode else m)
mode_behind p (opened_to_owner q ∷ ds) m = mode_behind p ds m
mode_behind p (listened ∷ ds) m = mode_behind p ds m
mode_behind p (closed ∷ ds) m = mode_behind p ds m

-- What stat(2) gives; there is no file at the empty path.
abbrev pub stat_behind : List ℕ → List Deed → Option ℕ → Option ℕ
stat_behind p ds m = if length p == 0 then none else mode_behind p ds m

-- Whether connect(2) to an address finds the daemon's socket there, and that it listens.
abbrev pub connects_behind : List ℕ → List Deed → Bool → Bool → Bool
connects_behind p [] there listens = there && listens
connects_behind p (unlinked q ∷ ds) there listens =
    connects_behind p ds (if same p q then false else there) listens
connects_behind p (bound q ∷ ds) there listens =
    connects_behind p ds (if same p q then true else there) listens
connects_behind p (listened ∷ ds) there listens = connects_behind p ds there true
connects_behind p (closed ∷ ds) there listens = connects_behind p ds false false
connects_behind p (wrote_pid q n ∷ ds) there listens = connects_behind p ds there listens
connects_behind p (opened_to_owner q ∷ ds) there listens = connects_behind p ds there listens

-- What `check_bridge_running` says of a daemon that has done its deeds or has not begun, with the files that
-- there were before it.
abbrev pub running_behind : (List ℕ → Option ℕ) → List Deed → List ℕ → Bool → Bool
running_behind before deeds sock up =
    let ds = if up then deeds else [] in
    check_bridge_running (λ p. stat_behind p ds (before p)) (λ p. connects_behind p ds false false)
      sock

and_false : (b : Bool) → (b && false) ≡ false
and_false true = refl
and_false false = refl

not_begun :
    (before : List ℕ → Option ℕ) (deeds : List Deed) (sock : List ℕ)
    → running_behind before deeds sock false ≡ false
unfolding check_bridge_running
not_begun before deeds sock = and_false _

-- The deeds of a daemon that waits for connections.
abbrev pub set_up : Calls → List ℕ → List Deed
set_up w s =
    (unlinked s ∷ bound (sun_path s) ∷ opened_to_owner s ∷ listened ∷ [])
    ++ write_pid_file w (pid_path s)

-- Whether a path is not empty, and an address as a whole.
abbrev pub whole : List ℕ → Bool
whole s = if length s == 0 then false else same s (sun_path s)

whole_fits : (s : List ℕ) → whole s ≡ true → (0 < length s) × (length s ≤ 107)
whole_fits s h = elim (Bool-cases (length s == 0)) [
  | inl z ↦ cc (rw z at h)
  | inr z ↦
      let e = same-length s (sun_path s) (rw z at h) in
      (ground (arith, z), omega (arith, e, length-take 107 s))
]

fits_whole : (s : List ℕ) → 0 < length s → length s ≤ 107 → whole s ≡ true
fits_whole s nonempty fits = rw (take_short 107 s fits, same_refl s) (ground arith)

-- The daemon is seen where its socket's whole path is the address.
set_up-running :
    (w : Calls) (before : List ℕ → Option ℕ) (s : List ℕ)
    → same s (pid_path s) ≡ false
    → running_behind before (set_up w s) s true ≡ whole s
unfolding check_bridge_running check_socket_exists write_pid_file
set_up-running w before s apart =
    let own = same_refl (sun_path s) in
    let all = same_refl s in
    elim (Bool-cases (length s == 0)) [
      | inl z ↦ rw z refl
      | inr z ↦ elim (Bool-cases (same s (sun_path s))) [
        | inl a ↦ elim (Bool-cases w.pid_file_ok) [
          | inl f ↦ rw (z, f, own, a, apart) refl
          | inr f ↦ rw (z, f, own, a) refl
        ]
        | inr a ↦ elim (Bool-cases w.pid_file_ok) [
          | inl f ↦ rw (z, f, own, a, apart, all) refl
          | inr f ↦ rw (z, f, own, a, all) refl
        ]
      ]
    ]

module _ {E : Type 0} (o : Outside E) where
  waits :
      (l : Loop E) (before deeds : List Deed) (s pid : List ℕ) (t : Server E)
      → behind_loop o before s pid l ≡ runs deeds t
      → before ≡ deeds
  waits (ended u) before deeds s pid t h = cc
  waits (waiting running u) before deeds s pid t h = cc
  waits (reading fd u) before deeds s pid t h = cc

  main-set_up :
      (loading : Loading) (w : Calls) (wakes : List Wake) (e : E) (deeds : List Deed) (t : Server E)
      → main o loading w wakes e ≡ runs deeds t
      → set_up w (get_socket_path w.env w.runtime) ≡ deeds
  unfolding main
  main-set_up loading w wakes e deeds t h =
      let s = get_socket_path w.env w.runtime in
      elim (Bool-cases (not (loading.result == 0))) [
        | inl bad ↦ cc (rw bad at h)
        | inr good ↦ elim (socket_made o w s) [
          | inl down ↦ cc (rw (good, down) at h)
          | inr up ↦ waits _ (set_up w s) deeds s (pid_path s) t (rw (good, up) at h)
        ]
      ]

  -- Where the daemon that the host starts with its socket's path in the environment comes to wait for
  -- connections, the start succeeds if and only if it has done so at the first look or in one of the 40 rounds,
  -- and the path has from 1 to 107 bytes; for a path of at most 251 bytes that is not the PID file's, where the
  -- bridge's file can be executed and `fork` succeeds.
  pub shim_launch_bridge-main :
      (held : List ℕ) (env runtime : Option (List ℕ)) (executable : List ℕ → Bool) (writable : Bool)
      (dir : List ℕ) (before : List ℕ → Option ℕ) (up : ℕ → Bool) (loading : Loading) (w : Calls)
      (wakes : List Wake) (e : E) (deeds : List Deed) (t : Server E) (sock : List ℕ)
      → sock ≡ shim_get_socket_path held env runtime
      → length sock ≤ 251
      → same sock (pid_path sock) ≡ false
      → w.env ≡ some sock
      → main o loading w wakes e ≡ runs deeds t
      → executable (printed_long (dir ++ codes "/eci-bridge")) ≡ true
      → ((shim_launch_bridge
            (λ i. running_behind before deeds sock (up i))
            executable
            true
            writable
            runtime
            dir
            sock).0
          ≡ 0)
        ↔ ((0 < length sock) × (length sock ≤ 107) × ((k : ℕ) × (k ≤ wait_rounds) × (up k ≡ true)))
  shim_launch_bridge-main held env runtime executable writable dir before up loading w wakes e deeds
        t sock made short apart env_is h there =
      let path : get_socket_path w.env w.runtime ≡ sock =
        rw env_is (take_short 255 sock (omega arith)) in
      let same_deeds : set_up w sock ≡ deeds =
        rw (← path) (main-set_up loading w wakes e deeds t h) in
      let at : (k : ℕ) → up k ≡ true → running_behind before deeds sock (up k) ≡ whole sock =
        λ k u. rw (u, ← same_deeds) (set_up-running w before sock apart) in
      let (to, from) =
        shim_launch_bridge_lem (λ i. running_behind before deeds sock (up i)) executable writable
          runtime dir sock there in
      (
        λ ok.
            let (k, l, seen) = to ok in
            elim (Bool-cases (up k)) [
              | inl u ↦
                  let (nonempty, fits) = whole_fits sock (cc (at k u, seen)) in
                  (nonempty, fits, (k, l, u))
              | inr u ↦ cc (rw u at seen, not_begun before deeds sock)
            ],
        λ (nonempty, fits, (k, l, u)). from (k, l, cc (at k u, fits_whole sock nonempty fits)),
      )
