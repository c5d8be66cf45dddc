-- ===== src/Tests/Api.antt =====
-- Runs of the functions of the ECI interface.
use eloquence.Base.{ℕ, ◌+◌, ◌≡◌, refl, List, [], ◌∷◌, some, true, arith, drop, codes}
use eloquence.Wire.Function
use eloquence.Wire.Function.{msg_rpc_response, fn_id, function_of_id, max_string_len}
use eloquence.Wire.Decode.RoundTrip.{args_bytes}
use eloquence.Frame.{bytes}
use eloquence.Frame.RoundTrip.{msg_bytes}
use eloquence.Handle.{htype_eci, htype_dict, hmap_init, hmap_add, hmap_get, claim, find_id}
use eloquence.Wire.Encode.{arg_bytes, handle}
use eloquence.Wire.Header.{rpc_decode_request_header}
use eloquence.Wire.Decode.{check_remaining, decode_tag_i32, rpc_decode_handle, rpc_decode_int32}
use eloquence.Bridge.Engine.{Outside}
use eloquence.Bridge.Client.{Client, new_client}
use eloquence.Bridge.Callback.{Channel}
use eloquence.Bridge.Reply.{answer_with}
use eloquence.Bridge.Dispatch.{
  dispatch_rpc, response_bytes, serve, handler, replied, switch, run_update, run_query,
}
use eloquence.Bridge.Dispatch.Lifecycle
use eloquence.Bridge.Dispatch.Dict
use eloquence.Bridge.Dispatch.Dict.{or_empty}
use eloquence.Bridge.Dispatch.Lifecycle.{langs_bytes, new_step, adopt}
use eloquence.Bridge.Dispatch.Request.{request_bytes}
use eloquence.Host.Connection.{Conn, initial_conn}
use eloquence.Host.Api.Remote.{copy_upto}
use eloquence.Host.Api.Handles
use eloquence.Host.Api.Handles.{make, maker_function, maker_args, make-serve}
use eloquence.Host.Api.Copies.{Fits, copies-Fits}
use eloquence.Host.Api.Voice.{voice_name_length}
use eloquence.Host.Api.Synthesis.{phoneme_copy}
use eloquence.Host.Api.Lookup.{eci_dict_find_first_a, dict_copy, dict_buf_size}
use eloquence.Host.Api.Texts.{entry_bytes}
use eloquence.Host.Api.Entries.{find_args, engine_finds, eci_dict_find_first_a-engine_finds}
use eloquence.Tests.Sample.{small_engine, small_outside}
use eloquence.Tests.Host.{some_client}

-- A connection over which an answer arrives in two pieces.
abbrev answered_by : List ℕ → Channel
answered_by reply = record {
  input = bytes 0 (drop 1 (msg_bytes msg_rpc_response reply)) ∷ [];
  output = record { uptakes = []; sent = [] };
}

abbrev conn_of : Channel → Conn
conn_of ch = record (initial_conn []) { rpc = some ch; client_id = 1; connected = true }

-- `eciNew`, which the engine answers with its handle 70000 and the bridge with the id 1.
abbrev new_reply : List ℕ
new_reply = response_bytes 1 (answer_with 1 (arg_bytes (handle 1)))

new_reply-given :
    (dispatch_rpc small_outside
      (request_bytes 1 (fn_id (maker_function Handles.new)) (args_bytes (maker_args Handles.new)))
      some_client
      0).0
    ≡ some new_reply
unfolding dispatch_rpc replied switch rpc_decode_request_header check_remaining function_of_id serve
    handler run_update Lifecycle.new new_step adopt hmap_add claim new_client hmap_init
new_reply-given = refl

make-serve_example :
    (conn : Conn) × (conn.connected ≡ true)
    × (make Handles.new 0 (conn_of (answered_by new_reply))
        ≡ some (
          (serve small_outside
              (handler small_outside (maker_function Handles.new))
              (request_bytes 1
                (fn_id (maker_function Handles.new))
                (args_bytes (maker_args Handles.new)))
              6
              some_client
              0).0.retval,
          conn,
        ))
make-serve_example =
    make-serve small_outside Handles.new [] 0 (conn_of (answered_by new_reply))
      (answered_by new_reply) some_client 0 new_reply refl refl tt new_reply-given (omega arith)
      refl

-- An engine with a dictionary whose first entry is "cat", and a client with an engine and a dictionary.
abbrev dict_outside : Outside ℕ
dict_outside = record small_outside {
  funcs = record small_engine {
    eci_dict_find_first_a =
        some (λ h d vol e. ((0, some (codes "cat"), some (codes "kat"), h + d + vol), e));
  };
}

abbrev reader : Client
reader = record some_client {
  handles = (hmap_add (hmap_add hmap_init htype_eci 70_000).1 htype_dict 80_000).1;
}

abbrev first_entry : List ℕ
first_entry = response_bytes 1 (answer_with 0 (entry_bytes (codes "cat") (codes "kat") 150_002))

first_entry-given :
    (dispatch_rpc dict_outside
      (request_bytes 1 (fn_id Function.eci_dict_find_first_a) (args_bytes (find_args 1 1 2)))
      reader
      0).0
    ≡ some first_entry
unfolding dispatch_rpc replied switch rpc_decode_request_header check_remaining function_of_id serve
    handler run_query Dict.dict_find_first_a rpc_decode_handle rpc_decode_int32 decode_tag_i32
    hmap_get hmap_add claim find_id new_client hmap_init
first_entry-given = refl

reader_finds :
    (engine_finds dict_outside.funcs 1 1 2 reader 0).0
    ≡ (0, some (codes "cat"), some (codes "kat"), 150_002)
unfolding hmap_get hmap_add claim find_id new_client hmap_init
reader_finds = refl

eci_dict_find_first_a-engine_finds_example :
    let r = (engine_finds dict_outside.funcs 1 1 2 reader 0).0 in
    (conn : Conn) × (conn.connected ≡ true)
    × (eci_dict_find_first_a 1 1 2 true 0 (conn_of (answered_by first_entry))
        ≡ some (
          (r.0, some (dict_copy (or_empty r.1)), some (dict_copy (or_empty r.2)), some r.3),
          conn,
        ))
eci_dict_find_first_a-engine_finds_example =
    eci_dict_find_first_a-engine_finds dict_outside 1 1 2 [] 0 (conn_of (answered_by first_entry))
      (answered_by first_entry) reader 0 first_entry refl refl tt first_entry-given (omega arith)
      refl (rw reader_finds (omega arith)) (rw reader_finds (omega arith))

copies-Fits_example :
    Fits 31 (copy_upto voice_name_length (codes "Reed"))
    × Fits dict_buf_size (dict_copy (codes "Reed"))
    × Fits max_string_len (copy_upto 65_535 (codes "Reed"))
    × Fits 4 (phoneme_copy 4 (codes "Reed"))
copies-Fits_example = copies-Fits (codes "Reed") 4 (omega arith) (omega arith)
