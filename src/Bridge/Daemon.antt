-- ===== src/Bridge/Daemon.antt =====
-- `main` of arm/bridge_main.c, with its socket, its PID file and its signals. What the system's calls give is
-- an argument; what `main` itself does to files and to the socket is a list of deeds. The files that the engine
-- writes for its clients (`eciSaveDict`, `eciSynthesizeFile`) are the engine's. Messages are left out.
pub mod Exit
use eloquence.Base.{
  ℕ, Bool, true, false, not, ◌&&◌, Option, none, some, List, [], ◌∷◌, ◌++◌, ◌==◌, if◌then◌else◌,
}
use eloquence.Frame.{Message}
use eloquence.Bridge.Engine.{CString, Outside}
use eloquence.Bridge.Load.{Loading}
use eloquence.Bridge.Paths.{get_socket_path, sun_path, pid_path}
use eloquence.Bridge.Server.{Server, accept_turn, start}

-- What `main` does to files, and to the socket; a file is known by its path.
pub data Deed : Type 0 where
  unlinked : List ℕ → Deed
  bound : List ℕ → Deed
  opened_to_owner : List ℕ → Deed
  listened : Deed
  closed : Deed
  wrote_pid : List ℕ → ℕ → Deed

-- What the system's calls give at the start: the two variables of the environment, whether the three calls
-- for the socket succeed, whether the PID file can be opened, and the process's number.
pub record Calls : Type 0 where
  pub env : Option (List ℕ)
  pub runtime : Option (List ℕ)
  pub socket_ok : Bool
  pub bind_ok : Bool
  pub listen_ok : Bool
  pub pid_file_ok : Bool
  pub pid : ℕ

-- Whether there is a socket that listens.
unfoldable pub create_listen_socket : Calls → List ℕ → Bool × List Deed
create_listen_socket w path =
    if not w.socket_ok
    then (false, [])
    else if not w.bind_ok
    then (false, unlinked path ∷ closed ∷ [])
    else if not w.listen_ok
    then (false, unlinked path ∷ bound (sun_path path) ∷ opened_to_owner path ∷ closed ∷ [])
    else (true, unlinked path ∷ bound (sun_path path) ∷ opened_to_owner path ∷ listened ∷ [])

unfoldable pub write_pid_file : Calls → List ℕ → List Deed
write_pid_file w path = if w.pid_file_ok then wrote_pid path w.pid ∷ [] else []

-- `cleanup`, at the exit.
abbrev pub cleanup : List ℕ → List ℕ → List Deed
cleanup socket_path pid_path = closed ∷ unlinked socket_path ∷ unlinked pid_path ∷ []

-- What the blocking `rpc_read_msg` for the handshake of a connection comes to: it returns, with whether a signal
-- has come meanwhile, or it goes on waiting, since the peer sends nothing.
pub data Handshake : Type 0 where
  read : Bool → Option Message → Handshake
  silent : Handshake

-- What happens while accept(2) waits: it returns with a connection, which is then read, with EINTR, or with
-- another error; or a signal comes.
pub data Wake : Type 0 where
  connection : Handshake → ℕ → Wake
  interrupted : Wake
  failing : Wake
  signalled : Wake

-- The loop: it has ended, it waits in accept, or it waits for the handshake on a connection.
pub data Loop (E : Type 0) : Type 0 where
  ended : Server E → Loop E
  waiting : Bool → Server E → Loop E
  reading : ℕ → Server E → Loop E

module _ {E : Type 0} (o : Outside E) where
  -- From inside accept(2) on, with `g_running`.
  unfoldable pub accept_loop : Bool → List Wake → Server E → Loop E
  accept_loop running [] s = waiting running s
  accept_loop running (signalled ∷ rest) s = accept_loop false rest s
  accept_loop running (failing ∷ rest) s = ended s
  accept_loop running (interrupted ∷ rest) s =
      let again = accept_loop running rest s in if running then again else ended s
  accept_loop running (connection silent fd ∷ rest) s = reading fd s
  accept_loop running (connection (read signal m) fd ∷ rest) s =
      let s' = (accept_turn o m fd s).server in
      let go_on = running && not signal in
      let again = accept_loop go_on rest s' in if go_on then again else ended s'

  open o use {funcs as f}

  -- The version is asked for where the library has the function.
  abbrev pub asked_version : Option (E → CString × E) → E → E
  asked_version none e = e
  asked_version (some version) e = (version e).1

  -- The daemon has exited with a status behind its deeds, or it runs.
  pub data Daemon : Type 0 where
    exited : ℕ → List Deed → Daemon
    runs : List Deed → Server E → Daemon

  abbrev pub behind_loop : List Deed → List ℕ → List ℕ → Loop E → Daemon
  behind_loop deeds socket_path pid_path (ended s) =
      exited 0 (deeds ++ cleanup socket_path pid_path)
  behind_loop deeds socket_path pid_path (waiting running s) = runs deeds s
  behind_loop deeds socket_path pid_path (reading fd s) = runs deeds s

  unfoldable pub main : Loading → Calls → List Wake → E → Daemon
  unfolding create_listen_socket write_pid_file accept_loop
  main loading w wakes e =
      let socket_path = get_socket_path w.env w.runtime in
      let pid_path = pid_path socket_path in
      let r = create_listen_socket w socket_path in
      if not (loading.result == 0)
      then exited 1 []
      else if not r.0
      then exited 1 (r.1)
      else behind_loop (r.1 ++ write_pid_file w pid_path) socket_path pid_path
          (accept_loop true wakes (start (asked_version f.eci_version e)))
