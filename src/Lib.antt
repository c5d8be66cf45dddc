-- ===== src/Lib.antt =====
-- A verification library for eloquence: the ECI text-to-speech library of a 32-bit ARM program, made
-- available to native programs. A native library (host/) has the functions of the ECI interface and
-- passes each call over a socket to a daemon (arm/), the bridge, which runs the ARM library; the two
-- share the wire format and the framing (proto/, include/eci_proto.h). Audio comes back through a
-- second socket, on which the bridge sends the engine's callbacks as events.
--
-- Which file models which part:
--   Base             Boolean tests, lists over the native numbers, words of 16 and 32 bits, and texts with
--                    what the programs use of the C library (atoi, fgets, strcmp).
--   Wire/Function    include/eci_proto.h: message types, limits, function numbers.
--   Wire/Buffer      proto/rpc_msg.c: `rpc_buf_init`, `rpc_buf_ensure`, `rpc_encode_raw`.
--   Wire/Encode      proto/rpc_msg.c: the encoders. Wire/Decode: the decoders, as parsers from a message
--                    and a position. Wire/Header: the headers of requests and responses.
--   Frame            proto/rpc_io.c: exact reads and writes, and messages. What the kernel does is a list
--                    of arrivals, and one of uptakes.
--   Handle           arm/bridge_handle.c: the map between ids and pointers.
--   Bridge/Engine    arm/bridge_dispatch.h: `eci_funcs_t`, which is a parameter of the development, with
--                    `calloc`, `free` and the contents of an array that is not initialised.
--   Bridge/Client    arm/bridge_dispatch.c: the client with its callback states, and the list of clients.
--   Bridge/Reply     `send_response` and what the cases of the switch share.
--   Bridge/Dispatch  `dispatch_rpc`; its cases stand in Lifecycle, Synthesis, Params, Audio, Voice, Dict
--                    and Filter, a parser each, whose value is what the case does behind its decoding. A
--                    case that changes the client is an `Update` with a name of its own (`new_step`).
--   Bridge/Callback  arm/bridge_callback.c: the event, and the answer.
--   Bridge/Server    arm/bridge_main.c: the handshake in `main` and the turns of `client_thread`; what runs
--                    of them keep (Invariant), and what they leave of a client (Isolation, Others).
--   Bridge/Daemon    arm/bridge_main.c: `main` itself, with the socket, the PID file, the signals and the
--                    loop that accepts and reads handshakes; when it ends, and what it leaves (Exit).
--   Host/Callback    host/shim_callback.c: the table of callbacks, the answer to an event, and the thread
--                    with its start, its loop and its stop (Thread). Session is a sequence of the
--                    engine's callbacks, from arm/bridge_callback.c to the application and back.
--   Host/Connection  host/shim_connection.c: handshakes, `shim_connect`, `shim_rpc`, `shim_get_conn`. A
--                    `Conn` has the attempts to connect that are still to come, which `shim_get_conn`
--                    takes. Handshake composes `shim_connect` with the bridge's turns. Threads is a step
--                    relation of the application's threads under `rpc_lock`.
--   Host/Api         host/shim_libeci.c: `do_rpc` in Remote, the functions in Lifecycle, Synthesis, Params,
--                    Audio, Voice, Dict, Lookup and Filter. A function is a map from what its `rv` holds
--                    before it is written, and the connection, to its result and the connection. Refinement
--                    and Session state what a call, and a sequence of calls, is on the engine itself.
--   Host/Launch      host/shim_launch.c: paths, the bridge's command, and the waiting for it; Seen composes
--                    it with the daemon's `main`, over the files that both look at. Bridge/Paths has the
--                    paths of arm/bridge_main.c. Bridge/Load is `eci_load` of arm/bridge_dispatch.c.
--   Speech/Ssml      spd/sd_eloquence.c: `strip_ssml`. Speech/Settings: the configuration and `module_set`.
--                    Speech/Speak: `module_init`, `module_speak_sync` and the callback, as lists of actions;
--                    with a stop that comes while it speaks (Playing).
--   Cli              cli/eloquence.c: the captured samples (Capture), the wave file (Wav), the text (Input),
--                    and `main` (Program), as a list of steps.
--   Tests            concrete runs.
--
-- Pointers and file descriptors are numbers, NULL is 0, and a word is its unsigned pattern, so that -1
-- is 2 ^ 32 - 1; a test for a sign is one against 2 ^ 31. Sums on `uint32_t` are `add32`. Fuel is used in
-- five kinds of loops. In `rpc_buf_ensure` 33 doublings pass 2 ^ 32 from any capacity of 256 or more, and `none`
-- stands for the loop that does not end. In `strip_ssml` each replacement shortens the text, so that its
-- length and one is enough. The loops by `fgets` read at least a byte each round, so that the length of the
-- file is enough. In `my_callback` of the command line program 18 rounds pass every `int`.
-- Each event that the host's callback thread reads takes bytes of the stream, so that one round more than
-- the stream has bytes is enough.
-- A turn of a thread is one step: what one turn reads and writes of the shared state it holds for itself.
-- `malloc` is taken to succeed where the source does not check it. Files and texts of the programs have no
-- NUL where nothing else is said.
--
-- Not modelled: what the calls of the system do inside (sockets, `pthread_once`, locks, signals: what they
-- give is an argument), messages to the terminal, the declarations of include/eci.h that no code uses, the
-- stubs of arm/sjlj_compat.c, which nothing calls, and the scripts.
pub mod Base
pub mod Wire
pub mod Frame
pub mod Handle
pub mod Bridge
pub mod Host
pub mod Speech
pub mod Cli
pub mod Tests
