-- ===== src/Tests/Daemon.antt =====
-- Runs of the daemon's `main`, and of the loading of its library.
use eloquence.Base.{◌<◌, ◌≡◌, ◌↔◌, refl, true, false, List, [], ◌∷◌, none, some, arith, codes}
use eloquence.Bridge.Load.{Loading, eci_load}
use eloquence.Bridge.Load.Symbols.{eci_load-succeeds}
use eloquence.Bridge.Paths.{pid_path, before_dot}
use eloquence.Bridge.Server.{start}
use eloquence.Bridge.Daemon.{
  Deed, unlinked, bound, opened_to_owner, listened, closed, wrote_pid, Calls, connection, read,
  silent, reading, interrupted, signalled, accept_loop, main, exited, create_listen_socket,
  write_pid_file,
}
use eloquence.Bridge.Daemon.Exit.{leaves, IsEnded, accept_loop-IsEnded, main-leaves}
use eloquence.Tests.Sample.{small_outside}

accept_loop-IsEnded_example : IsEnded small_outside (
    accept_loop small_outside true
      (connection (read false none) 5
        ∷ signalled
        ∷ connection (read false none) 6
        ∷ connection (read false none) 7
        ∷ [])
      (start 0))
accept_loop-IsEnded_example =
    accept_loop-IsEnded small_outside (connection (read false none) 5 ∷ []) true
      (connection (read false none) 6) (connection (read false none) 7 ∷ []) (start 0) (tt, tt) tt

-- A peer that sends nothing keeps the daemon from ending, whatever signals and connections come.
stuck :
    accept_loop small_outside true
      (connection silent 5 ∷ signalled ∷ connection (read false none) 6 ∷ [])
      (start 0)
    ≡ reading 5 (start 0)
unfolding accept_loop
stuck = refl

eci_load-succeeds_example :
    ((eci_load (λ p. 9) (λ h n. 5) (codes "/usr/lib/libeci.so")).result ≡ 0) ↔ ((0 < 9) × (0 < 5))
eci_load-succeeds_example = eci_load-succeeds (λ p. 9) (λ h n. 5) (codes "/usr/lib/libeci.so")

abbrev pub some_calls : Calls
some_calls = record {
  env = some (codes "/run/a.sock");
  runtime = none;
  socket_ok = true;
  bind_ok = true;
  listen_ok = true;
  pid_file_ok = true;
  pid = 77;
}

abbrev pub loaded : Loading
loaded = record { result = 0; funcs = record { handle = 9; pointers = [] }; closed = false }

abbrev all_deeds : List Deed
all_deeds =
    unlinked (codes "/run/a.sock")
    ∷ bound (codes "/run/a.sock")
    ∷ opened_to_owner (codes "/run/a.sock")
    ∷ listened
    ∷ wrote_pid (codes "/run/a.pid") 77
    ∷ closed
    ∷ unlinked (codes "/run/a.sock")
    ∷ unlinked (codes "/run/a.pid")
    ∷ []

exits : main small_outside loaded some_calls (signalled ∷ interrupted ∷ []) 0 ≡ exited 0 all_deeds
unfolding main accept_loop create_listen_socket write_pid_file pid_path before_dot
exits = refl

main-leaves_example : leaves (codes "/run/a.pid") all_deeds false ≡ false
main-leaves_example =
    main-leaves small_outside loaded some_calls (signalled ∷ interrupted ∷ []) 0 all_deeds
      (codes "/run/a.pid") (omega arith) exits
