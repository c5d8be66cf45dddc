-- ===== src/Tests/Session.antt =====
-- Runs of a host that connects to the bridge and makes some calls.
use eloquence.Base.{
  ℕ, ◌≡◌, refl, ◌∙◌, sym, List, [], ◌∷◌, ◌++◌, some, true, none, append-nil, arith, be32, All,
  codes,
}
use eloquence.Wire.Function.{msg_handshake_ack}
use eloquence.Frame.{Arrival, bytes}
use eloquence.Frame.Exact.{stream}
use eloquence.Frame.RoundTrip.{msg_bytes}
use eloquence.Bridge.Client.{
  Client, new_client, find_client_by_id, register_client, unregister_client,
}
use eloquence.Bridge.Callback.{Channel}
use eloquence.Bridge.Server.{
  Server, Event, accepted, arrived, attach, run, start, step, accept_turn, connect, attached,
  thread_turn, client_turn, disconnect,
}
use eloquence.Bridge.Server.Invariant.{ServerOk, run_start-ServerOk, step-ServerOk}
use eloquence.Bridge.Server.Others.{run_isolates}
use eloquence.Host.Connection.{
  Conn, initial_conn, Attempt, connect_to_socket, rpc_opened, cb_opened,
}
use eloquence.Host.Connection.Handshake.{
  Joined, hello, on_first, on_second, shim_connect-accept_turn,
}
use eloquence.Host.Api
use eloquence.Host.Api.{Call}
use eloquence.Host.Api.Session
use eloquence.Host.Api.Session.{
  Session, perform_all, engine_calls, dispatch_all, perform_all-engine_calls,
}
use eloquence.Host.Api.Session.Reconnect.{perform_all-connects}
use eloquence.Tests.Sample.{small_engine, small_outside}
use eloquence.Tests.Host.{some_call, some_client}

-- Bytes that arrive at once.
abbrev at_once : List ℕ → List Arrival
at_once [] = []
at_once (b ∷ bs) = bytes b bs ∷ []

stream-at_once : (bs : List ℕ) → stream (at_once bs) ≡ bs
stream-at_once [] = refl
stream-at_once (b ∷ bs) = append-nil (b ∷ bs)

abbrev giving : List ℕ → Channel
giving bs = record { input = at_once bs; output = record { uptakes = []; sent = [] } }

abbrev two_calls : List Call
two_calls = some_call ∷ Api.add_text 1 (some (b'h' ∷ b'i' ∷ [])) ∷ []

abbrev replies : List ℕ
replies = (dispatch_all small_outside 1 two_calls some_client 0).0

abbrev joined_conn : Conn
joined_conn = record (initial_conn []) {
  rpc = some (giving replies);
  client_id = 1;
  connected = true;
}

two_calls-Fits : All Session.Fits two_calls
two_calls-Fits = (((tt, (tt, (tt, tt))), omega arith), (((tt, (omega arith, tt)), omega arith), tt))

perform_all-engine_calls_example :
    Session small_outside two_calls [] 0 joined_conn (giving replies) 1 some_client 0
perform_all-engine_calls_example =
    perform_all-engine_calls small_outside two_calls [] 0 joined_conn (giving replies) some_client 0
      two_calls-Fits refl refl tt (stream-at_once replies ∙ sym (append-nil replies))

-- Another client connects while the host does.
abbrev meanwhile : List Event
meanwhile = accepted (hello 0) 9 ∷ arrived 2 none true ∷ []

start-ServerOk : ServerOk 0 (start {E = ℕ} 0)
unfolding run
start-ServerOk = run_start-ServerOk small_outside [] 0 (omega arith)

run_isolates_example :
    find_client_by_id
      (run small_outside meanwhile (on_first small_outside 3 (start 0)).server).clients
      1
    ≡ find_client_by_id (on_first small_outside 3 (start 0)).server.clients 1
unfolding step accept_turn connect
run_isolates_example =
    run_isolates small_outside 1 1 meanwhile (on_first small_outside 3 (start 0)).server
      (omega arith)
      (step-ServerOk small_outside 0 (accepted (hello 0) 3) (start 0) (omega arith) start-ServerOk)
      (omega arith) (omega arith, (omega arith, tt))

-- The server behind both handshakes.
abbrev joined_server : Server ℕ
joined_server = (on_second small_outside 3 4 meanwhile (start 0)).server

abbrev joined_client : Client
joined_client = attach 4 (new_client 3 1)

abbrev later_replies : List ℕ
later_replies = (dispatch_all small_outside 1 two_calls joined_client joined_server.engine).0

abbrev rpc_channel : Channel
rpc_channel = giving (msg_bytes msg_handshake_ack (be32 1) ++ later_replies)

abbrev cb_channel : Channel
cb_channel = giving (msg_bytes msg_handshake_ack (be32 1))

first_sent : (on_first small_outside 3 (start 0)).sent ≡ some (be32 1)
unfolding step accept_turn connect
first_sent = refl

second_sent : (on_second small_outside 3 4 meanwhile (start 0)).sent ≡ some (be32 1)
unfolding step accept_turn connect run attached find_client_by_id register_client thread_turn
    client_turn disconnect unregister_client new_client
second_sent = refl

second_sent_at_once : (on_second small_outside 3 4 [] (start 0)).sent ≡ some (be32 1)
unfolding step accept_turn connect run attached find_client_by_id register_client new_client
second_sent_at_once = refl

shim_connect-accept_turn_example :
    Joined small_outside
      (initial_conn [])
      cb_channel
      cb_channel
      3
      4
      1
      []
      []
      (on_second small_outside 3 4 [] (start 0)).server
shim_connect-accept_turn_example =
    shim_connect-accept_turn small_outside 0 [] (start 0) (initial_conn []) cb_channel cb_channel 3
      4 (be32 1) (be32 1) [] [] (omega arith) start-ServerOk tt refl tt tt first_sent
      (stream-at_once (msg_bytes msg_handshake_ack (be32 1))) second_sent_at_once
      (stream-at_once (msg_bytes msg_handshake_ack (be32 1)))

joined :
    Joined small_outside
      (initial_conn [])
      rpc_channel
      cb_channel
      3
      4
      1
      later_replies
      []
      joined_server
joined =
    shim_connect-accept_turn small_outside 0 meanwhile (start 0) (initial_conn []) rpc_channel
      cb_channel 3 4 (be32 1) (be32 1) later_replies [] (omega arith) start-ServerOk
      (omega arith, (omega arith, tt)) refl tt tt first_sent
      (stream-at_once (msg_bytes msg_handshake_ack (be32 1) ++ later_replies)) second_sent
      (stream-at_once (msg_bytes msg_handshake_ack (be32 1)))

abbrev an_attempt : Attempt
an_attempt = record {
  launched = true;
  path = codes "/run/a.sock";
  rpc_made = true;
  rpc_connects = λ address. some rpc_channel;
  cb_made = true;
  cb_connects = λ address. some cb_channel;
}

an_attempt-rpc : rpc_opened an_attempt ≡ some rpc_channel
unfolding connect_to_socket
an_attempt-rpc = refl

an_attempt-cb : cb_opened an_attempt ≡ some cb_channel
unfolding connect_to_socket
an_attempt-cb = refl

perform_all-connects_example :
    (conn : Conn) × (conn.connected ≡ true)
    × (perform_all two_calls 0 (initial_conn (an_attempt ∷ []))
        ≡ some ((engine_calls small_engine two_calls joined_client joined_server.engine).0, conn))
perform_all-connects_example =
    perform_all-connects small_outside some_call (Api.add_text 1 (some (b'h' ∷ b'i' ∷ [])) ∷ []) 0
      (initial_conn (an_attempt ∷ [])) rpc_channel cb_channel an_attempt [] 3 4 1 later_replies []
      [] joined_server refl refl refl an_attempt-rpc an_attempt-cb joined two_calls-Fits
      (sym (append-nil later_replies))
