-- ===== src/Tests/Host.antt =====
-- Runs of the host's library.
use eloquence.Base.{ℕ, ◌+◌, ◌≡◌, refl, List, [], ◌∷◌, some, arith, length, true, drop}
use eloquence.Wire.Function.{msg_callback_event, msg_callback_return, fn_id}
use eloquence.Wire.Decode.RoundTrip.{args_bytes}
use eloquence.Frame.{bytes}
use eloquence.Frame.RoundTrip.{msg_bytes}
use eloquence.Bridge.Client.{Client, new_client}
use eloquence.Bridge.Reply.{answer}
use eloquence.Bridge.Dispatch.{serve, handler}
use eloquence.Bridge.Dispatch.Request.{request_bytes}
use eloquence.Bridge.Callback.{Channel, callback_result}
use eloquence.Bridge.Callback.Event.{event_bytes}
use eloquence.Host.Callback.{CbEntry, Callbacks, Application, find_entry, zero_entry, callback_turn}
use eloquence.Host.Callback.RoundTrip.{callback_turn-event, received}
use eloquence.Host.Callback.Thread.{callback_thread}
use eloquence.Host.Callback.Thread.Events.{callback_thread_ends}
use eloquence.Host.Api
use eloquence.Host.Api.{Call, function, arguments, args_buf}
use eloquence.Host.Api.Served.{engine_call}
use eloquence.Host.Api.Refinement.{serve-engine_call}
use eloquence.Tests.Sample.{small_engine, small_outside}

-- The callback 500 of an application with a buffer of two samples.
abbrev pub some_entry : CbEntry
some_entry = record {
  handle_id = 1;
  callback = 500;
  user_data = 7;
  output_buffer = 800;
  output_buffer_size = 2;
  active = true;
}

abbrev pub some_callbacks : Callbacks
some_callbacks = some_entry ∷ zero_entry ∷ []

abbrev pub counting : Application ℕ
counting = record { call = λ f h m l d u. (2, u + 1); memcpy = λ p bs u. u + length bs }

pub some_entry-found : find_entry some_callbacks 1 ≡ some some_entry
unfolding find_entry
some_entry-found = refl

abbrev some_samples : List ℕ
some_samples = 1 ∷ 2 ∷ 3 ∷ 4 ∷ 5 ∷ 6 ∷ []

callback_turn-event_example :
    let r = counting.call 500 1 0 3 7 (received counting some_entry 0 some_samples 10) in
    (p : List ℕ) × (callback_turn counting some_callbacks
        (record { msg_type = msg_callback_event; payload = event_bytes 1 0 3 some_samples })
        10
      ≡ (some p, r.1))
    × (callback_result (some (record { msg_type = msg_callback_return; payload = p })) ≡ r.0)
callback_turn-event_example =
    callback_turn-event counting some_callbacks some_entry 1 0 3 some_samples 10 (omega arith)
      some_entry-found (ground arith)

-- `eciSetParam` on the id 1, for which the bridge has no handle yet.
abbrev pub some_call : Call
some_call = Api.set_param 1 2 3

abbrev pub some_client : Client
some_client = new_client 3 1

serve-engine_call_example :
    serve small_outside
      (handler small_outside (function some_call))
      (request_bytes 1 (fn_id (function some_call)) (args_bytes (arguments some_call)))
      6
      some_client
      0
    ≡ (
      answer (engine_call small_engine some_call some_client 0).0,
      some_client,
      (engine_call small_engine some_call some_client 0).1,
    )
serve-engine_call_example =
    serve-engine_call small_outside some_call 1 some_client 0 (tt, (tt, (tt, tt))) (omega arith)

-- A callback thread that is never stopped, and one event for it.
abbrev events_channel : Channel
events_channel = record {
  input = bytes 0 (drop 1 (msg_bytes msg_callback_event (event_bytes 1 0 3 some_samples))) ∷ [];
  output = record { uptakes = []; sent = [] };
}

callback_thread_ends_example :
    (ch : Channel) × (u : ℕ) × (callback_thread counting
        (λ v. some_callbacks)
        (λ v. true)
        28
        events_channel
        10
      ≡ some (ch, u))
callback_thread_ends_example =
    callback_thread_ends counting (λ v. some_callbacks) (λ v. true) 28 events_channel 10
      (omega arith)
