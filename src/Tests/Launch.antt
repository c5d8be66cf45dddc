-- ===== src/Tests/Launch.antt =====
-- Runs of the start of the bridge and of its paths.
use eloquence.Base.{
  ℕ, Bool, ◌≡◌, ◌≤◌, ◌<◌, ◌↔◌, refl, none, some, true, List, [], codes, length, arith, ltb, same,
}
use eloquence.Bridge.Paths.{pid_path, before_dot}
use eloquence.Bridge.Server.{start}
use eloquence.Bridge.Daemon.{runs, main, accept_loop, create_listen_socket, write_pid_file}
use eloquence.Host.Launch.{
  shim_get_socket_path, check_socket_exists, shim_launch_bridge, wait_rounds,
}
use eloquence.Host.Launch.Seen.{running_behind, set_up, regular_mode, shim_launch_bridge-main}
use eloquence.Tests.Daemon.{some_calls, loaded}
use eloquence.Tests.Sample.{small_outside}

-- The daemon listens from the third round on.
abbrev up : ℕ → Bool
up k = ltb 2 k

abbrev sock : List ℕ
sock = codes "/run/a.sock"

daemon_runs : main small_outside loaded some_calls [] 0 ≡ runs (set_up some_calls sock) (start 0)
unfolding main accept_loop create_listen_socket write_pid_file
daemon_runs = refl

own_pid_file : same sock (pid_path sock) ≡ Bool.false
unfolding same pid_path before_dot
own_pid_file = refl

host_path : sock ≡ shim_get_socket_path [] (some sock) none
unfolding shim_get_socket_path
host_path = refl

-- A regular file is taken for a socket.
regular_exists : check_socket_exists (some regular_mode) ≡ true
unfolding check_socket_exists
regular_exists = refl

shim_launch_bridge-main_example :
    ((shim_launch_bridge
        (λ i. running_behind (λ p. none) (set_up some_calls sock) sock (up i))
        (λ p. true)
        true
        true
        none
        (codes "/opt")
        sock).0
      ≡ 0)
    ↔ ((0 < length sock) × (length sock ≤ 107) × ((k : ℕ) × (k ≤ wait_rounds) × (up k ≡ true)))
shim_launch_bridge-main_example =
    shim_launch_bridge-main small_outside [] (some sock) none (λ p. true) true (codes "/opt")
      (λ p. none) up loaded some_calls [] 0 (set_up some_calls sock) (start 0) sock host_path
      (omega arith) own_pid_file refl daemon_runs refl
