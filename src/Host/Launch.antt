-- ===== src/Host/Launch.antt =====
-- host/shim_launch.c: where the bridge's socket and files are, and how the bridge is started. The environment,
-- the file system, `fork` and the waiting are arguments.
pub mod Waiting
pub mod Seen
use eloquence.Base.{
  ℕ, zero, suc, ◌+◌, ◌/◌, ◌%◌, ◌^◌, Bool, true, false, ◌&&◌, not, Option, none, some, List, [], ◌∷◌,
  ◌++◌, take, length, ltb, ◌==◌, if◌then◌else◌, codes, minus_one,
}
use eloquence.Bridge.Paths.{default_socket_name, printed, sun_path}

-- The path that `shim_get_socket_path` makes of ECI_BRIDGE_SOCKET and XDG_RUNTIME_DIR.
abbrev pub made_socket_path : Option (List ℕ) → Option (List ℕ) → List ℕ
made_socket_path (some env) runtime = printed env
made_socket_path none (some runtime) = printed (runtime ++ (codes "/" ++ default_socket_name))
made_socket_path none none = printed (codes "/tmp/" ++ default_socket_name)

-- `shim_get_socket_path`, which is also what `g_socket_path` holds behind it: what it held before, if that was
-- not empty.
unfoldable pub shim_get_socket_path : List ℕ → Option (List ℕ) → Option (List ℕ) → List ℕ
shim_get_socket_path held env runtime =
    if length held == 0 then made_socket_path env runtime else held

-- What stands in front of the last slash, by `strrchr`; "." where there is none.
abbrev pub cut_slash : ℕ → Option (List ℕ) → Option (List ℕ)
cut_slash c none = if c == b'/' then some [] else none
cut_slash c (some before) = some (c ∷ before)

unfoldable pub before_slash : List ℕ → Option (List ℕ)
before_slash [] = none
before_slash (c ∷ cs) = cut_slash c (before_slash cs)

abbrev pub or_here : Option (List ℕ) → List ℕ
or_here none = codes "."
or_here (some dir) = dir

-- The buffers of 512 bytes.
abbrev pub printed_long : List ℕ → List ℕ
printed_long s = take 511 s

abbrev pub system_dir : List ℕ
system_dir = codes "/usr/share/eloquence"

-- The second and the third tier of `get_bridge_dir`: the directory of the library that `dladdr` names, if the
-- bridge stands there, and the system's.
unfoldable pub beside_library : Option (List ℕ) → (List ℕ → Bool) → List ℕ
beside_library none executable = system_dir
beside_library (some fname) executable =
    let dir = or_here (before_slash (printed fname)) in
    if executable (printed_long (dir ++ codes "/eci-bridge")) then printed dir else system_dir

-- The first tier, ECI_BRIDGE_DIR, with the others behind it.
unfoldable pub found_dir : Option (List ℕ) → Option (List ℕ) → (List ℕ → Bool) → List ℕ
unfolding beside_library
found_dir none library executable = beside_library library executable
found_dir (some env) library executable =
    if length env == 0 then beside_library library executable else printed env

-- `get_bridge_dir`, which is also what `g_bridge_dir` holds behind it.
unfoldable pub get_bridge_dir :
    List ℕ → Option (List ℕ) → Option (List ℕ) → (List ℕ → Bool) → List ℕ
unfolding found_dir
get_bridge_dir held env library executable =
    if length held == 0 then found_dir env library executable else held

-- `check_socket_exists` from the `st_mode` that `stat` gives. S_IFSOCK is 0140000, the bits 14 and 15: the
-- test is not zero where one of them is set.
unfoldable pub check_socket_exists : Option ℕ → Bool
check_socket_exists none = false
check_socket_exists (some mode) = not ((mode / 2 ^ 14) % 4 == 0)

-- `check_bridge_running` from what `stat` gives for a path, and whether an address can be connected to.
unfoldable pub check_bridge_running : (List ℕ → Option ℕ) → (List ℕ → Bool) → List ℕ → Bool
unfolding check_socket_exists
check_bridge_running stat connects sock =
    check_socket_exists (stat sock) && connects (sun_path sock)

abbrev pub qemu_path : (List ℕ → Bool) → List ℕ
qemu_path executable =
    if executable (codes "/usr/bin/qemu-arm")
    then codes "/usr/bin/qemu-arm"
    else if executable (codes "/usr/local/bin/qemu-arm")
    then codes "/usr/local/bin/qemu-arm"
    else codes "qemu-arm"

-- What the launch does to the world: the socket's path is put into the environment, the bridge is executed
-- in a child with a log file, and a child that does not answer is killed.
pub data LaunchStep : Type 0 where
  setenv : List ℕ → LaunchStep
  exec : List ℕ → List (List ℕ) → List ℕ → LaunchStep
  kill : LaunchStep

-- The path of the log file, where the directory is writable, and where it is not.
abbrev pub log_path : List ℕ → Bool → Option (List ℕ) → List ℕ
log_path dir true runtime = printed_long (dir ++ codes "/eci-bridge.log")
log_path dir false (some runtime) = printed_long (runtime ++ codes "/eci-bridge.log")
log_path dir false none = codes "/tmp/eci-bridge.log"

abbrev pub bridge_command : (List ℕ → Bool) → List ℕ → List (List ℕ)
bridge_command executable dir =
    qemu_path executable
    ∷ codes "-L"
    ∷ printed_long (dir ++ codes "/sysroot/armhf")
    ∷ codes "-E"
    ∷ codes "LD_PRELOAD=/usr/lib/libsjlj_compat.so"
    ∷ codes "-E"
    ∷ codes "ECIINI=/etc/eci.ini"
    ∷ printed_long (dir ++ codes "/eci-bridge")
    ∷ []

-- The loop that waits: from the round `i` on, whether the bridge is seen in one of `n` rounds.
unfoldable pub wait : (ℕ → Bool) → ℕ → ℕ → Bool
wait running i zero = false
wait running i (suc n) = let rest = wait running (suc i) n in if running i then true else rest

abbrev pub wait_rounds : ℕ
wait_rounds = 40

-- `shim_launch_bridge`: `running 0` is the first check, and `running i` that of round `i` of the loop.
unfoldable pub shim_launch_bridge :
    (ℕ → Bool)
    → (List ℕ → Bool)
    → Bool
    → Bool
    → Option (List ℕ)
    → List ℕ
    → List ℕ
    → ℕ × List LaunchStep
shim_launch_bridge running executable forks writable runtime dir sock =
    let start =
      setenv sock
      ∷ exec (log_path dir writable runtime) (bridge_command executable dir) sock
      ∷ [] in
    if running 0
    then (0, [])
    else if not (executable (printed_long (dir ++ codes "/eci-bridge")))
    then (minus_one, [])
    else if not forks
    then (minus_one, setenv sock ∷ [])
    else if wait running 1 wait_rounds
    then (0, start)
    else (minus_one, start ++ (kill ∷ []))
