-- ===== src/Bridge/Daemon/Exit.antt =====
-- When the daemon of arm/bridge_main.c ends, and what it leaves.
use eloquence.Base.{
  ℕ, ◌≤◌, ◌≡◌, ◌⊎◌, refl, Bool, true, false, Bool-cases, inl, inr, List, [], ◌∷◌, ◌++◌, ◌==◌,
  if◌then◌else◌, length, arith, same, not, take_short, All,
}
use eloquence.Bridge.Engine.{Outside}
use eloquence.Bridge.Load.{Loading}
use eloquence.Bridge.Paths.{get_socket_path, sun_path, pid_path}
use eloquence.Bridge.Server.{Server, Event, accepted, accept_turn, step, run}
use eloquence.Bridge.Daemon.{
  Deed, unlinked, bound, opened_to_owner, listened, closed, wrote_pid, Calls, create_listen_socket,
  write_pid_file, cleanup, Wake, connection, read, silent, interrupted, failing, signalled, Loop,
  ended, waiting, reading, accept_loop, exited, behind_loop, main,
}

-- Whether there is a file with the path behind the deeds.
abbrev pub leaves : List ℕ → List Deed → Bool → Bool
leaves p [] there = there
leaves p (unlinked q ∷ ds) there = leaves p ds (if same p q then false else there)
leaves p (bound q ∷ ds) there = leaves p ds (if same p q then true else there)
leaves p (wrote_pid q n ∷ ds) there = leaves p ds (if same p q then true else there)
leaves p (opened_to_owner q ∷ ds) there = leaves p ds there
leaves p (listened ∷ ds) there = leaves p ds there
leaves p (closed ∷ ds) there = leaves p ds there

-- What does not leave the daemon waiting for a handshake.
abbrev pub IsRead : Wake → Type 0
IsRead (connection silent fd) = ⊥
IsRead _ = Unit

-- accept(2) returns, and for a connection so does the reading of its handshake.
abbrev pub Returns : Wake → Type 0
Returns signalled = ⊥
Returns (connection silent fd) = ⊥
Returns _ = Unit

module _ {E : Type 0} (o : Outside E) where
  abbrev pub IsEnded : Loop E → Type 0
  IsEnded (ended s) = Unit
  IsEnded (waiting running s) = ⊥
  IsEnded (reading fd s) = ⊥

  -- A loop that is not to go on ends where accept returns.
  stopped-IsEnded :
      (w : Wake) (after : List Wake) (s : Server E)
      → Returns w
      → IsEnded (accept_loop o false (w ∷ after) s)
  unfolding accept_loop
  stopped-IsEnded (connection (read signal m) fd) after s h = tt
  stopped-IsEnded (connection silent fd) after s h = absurd h
  stopped-IsEnded interrupted after s h = tt
  stopped-IsEnded failing after s h = tt
  stopped-IsEnded signalled after s h = absurd h

  -- Behind a signal, where every handshake before it has been read, or has failed to be, the loop ends as soon as
  -- accept returns; where that is with a connection, as soon as its handshake has been read, or has failed to be.
  pub accept_loop-IsEnded :
      (before : List Wake) (running : Bool) (w : Wake) (after : List Wake) (s : Server E)
      → All IsRead before
      → Returns w
      → IsEnded (accept_loop o running (before ++ (signalled ∷ w ∷ after)) s)
  unfolding accept_loop
  accept_loop-IsEnded [] running w after s k h = stopped-IsEnded w after s h
  accept_loop-IsEnded (connection silent fd ∷ before) running w after s (k, ks) h = absurd k
  accept_loop-IsEnded (connection (read signal m) fd ∷ before) false w after s k h = tt
  accept_loop-IsEnded (connection (read true m) fd ∷ before) true w after s k h = tt
  accept_loop-IsEnded (connection (read false m) fd ∷ before) true w after s (k, ks) h =
      accept_loop-IsEnded before true w after _ ks h
  accept_loop-IsEnded (interrupted ∷ before) false w after s k h = tt
  accept_loop-IsEnded (interrupted ∷ before) true w after s (k, ks) h =
      accept_loop-IsEnded before true w after s ks h
  accept_loop-IsEnded (failing ∷ before) running w after s k h = tt
  accept_loop-IsEnded (signalled ∷ before) running w after s (k, ks) h =
      accept_loop-IsEnded before false w after s ks h

  abbrev pub server_of : Loop E → Server E
  server_of (ended s) = s
  server_of (waiting running s) = s
  server_of (reading fd s) = s

  -- The loop is a run of the server: some of the connections, in order.
  pub accept_loop-run :
      (wakes : List Wake) (running : Bool) (s : Server E)
      → (evs : List Event) × (length evs ≤ length wakes)
        × (server_of (accept_loop o running wakes s) ≡ run o evs s)
  unfolding accept_loop run step
  accept_loop-run [] running s = ([], omega arith, refl)
  accept_loop-run (connection silent fd ∷ rest) running s = ([], omega arith, refl)
  accept_loop-run (connection (read signal m) fd ∷ rest) false s =
      (accepted m fd ∷ [], omega arith, refl)
  accept_loop-run (connection (read true m) fd ∷ rest) true s =
      (accepted m fd ∷ [], omega arith, refl)
  accept_loop-run (connection (read false m) fd ∷ rest) true s =
      let (evs, l, e) = accept_loop-run rest true (accept_turn o m fd s).server in
      (accepted m fd ∷ evs, omega arith, e)
  accept_loop-run (interrupted ∷ rest) false s = ([], omega arith, refl)
  accept_loop-run (interrupted ∷ rest) true s =
      let (evs, l, e) = accept_loop-run rest true s in (evs, omega arith, e)
  accept_loop-run (failing ∷ rest) running s = ([], omega arith, refl)
  accept_loop-run (signalled ∷ rest) running s =
      let (evs, l, e) = accept_loop-run rest false s in (evs, omega arith, e)

  -- What is left where the daemon has set up its socket and files, and cleans up.
  cleaned :
      (w : Calls) (s pid p : List ℕ)
      → sun_path s ≡ s
      → leaves p
          ((unlinked s ∷ bound (sun_path s) ∷ opened_to_owner s ∷ listened ∷ [])
            ++ write_pid_file w pid
            ++ cleanup s pid)
          false
        ≡ false
  unfolding write_pid_file
  cleaned w s pid p whole = elim (Bool-cases w.pid_file_ok) [
    | inl e ↦ rw (e, whole) (ground arith)
    | inr e ↦ rw (e, whole) (ground arith)
  ]

  pub socket_made :
      (w : Calls) (s : List ℕ)
      → ((create_listen_socket w s).0 ≡ false)
        ⊎ (create_listen_socket w s
            ≡ (true, unlinked s ∷ bound (sun_path s) ∷ opened_to_owner s ∷ listened ∷ []))
  unfolding create_listen_socket
  socket_made w s = elim (Bool-cases w.socket_ok) [
    | inr a ↦ inl (rw a refl)
    | inl a ↦ elim (Bool-cases w.bind_ok) [
      | inr b ↦ inl (rw (a, b) refl)
      | inl b ↦ elim (Bool-cases w.listen_ok) [
        | inr c ↦ inl (rw (a, b, c) refl)
        | inl c ↦ inr (rw (a, b, c) refl)
      ]
    ]
  ]

  finished :
      (l : Loop E) (before deeds : List Deed) (s pid : List ℕ)
      → behind_loop o before s pid l ≡ exited 0 deeds
      → before ++ cleanup s pid ≡ deeds
  finished (ended t) before deeds s pid h = cc
  finished (waiting running t) before deeds s pid h = cc
  finished (reading fd t) before deeds s pid h = cc

  -- Where the daemon exits with status 0, if the path of its socket has at most 107 bytes: of the files that
  -- `main` itself makes, the socket and the PID file, none is left, where none was there at the start.
  pub main-leaves :
      (loading : Loading) (w : Calls) (wakes : List Wake) (e : E) (deeds : List Deed) (p : List ℕ)
      → length (get_socket_path w.env w.runtime) ≤ 107
      → main o loading w wakes e ≡ exited 0 deeds
      → leaves p deeds false ≡ false
  unfolding main
  main-leaves loading w wakes e deeds p short h =
      let s = get_socket_path w.env w.runtime in
      elim (Bool-cases (not (loading.result == 0))) [
        | inl bad ↦ ground (arith, rw bad at h)
        | inr good ↦ elim (socket_made w s) [
          | inl down ↦ ground (arith, rw (good, down) at h)
          | inr up ↦
              let same_deeds =
                finished _
                  ((unlinked s ∷ bound (sun_path s) ∷ opened_to_owner s ∷ listened ∷ [])
                    ++ write_pid_file w (pid_path s))
                  deeds s (pid_path s) (rw (good, up) at h) in
              rw (← same_deeds) (cleaned w s (pid_path s) p (take_short 107 s short))
        ]
      ]
