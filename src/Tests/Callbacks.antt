-- ===== src/Tests/Callbacks.antt =====
-- A synthesis in which the engine calls back twice: two samples, and an index.
use eloquence.Base.{
  ℕ, ◌≡◌, refl, true, some, List, [], ◌∷◌, ◌++◌, map, length-replicate, replicate, drop, arith,
  be32,
}
use eloquence.Frame.{bytes}
use eloquence.Frame.Exact.{stream}
use eloquence.Frame.RoundTrip.{msg_bytes}
use eloquence.Wire.Function.{msg_callback_return}
use eloquence.Handle.{htype_eci, hmap_add, hmap_init, claim}
use eloquence.Bridge.Client.{
  Client, CbState, zero_cb_state, new_client, find_cb_state_by_eci_ptr, find_by_entry, get_cb_state,
}
use eloquence.Bridge.Callback.{Channel}
use eloquence.Host.Callback.{find_entry, callback_turn, call_entry, copy_pcm}
use eloquence.Host.Callback.Exchange.{Bound}
use eloquence.Host.Callback.Session.{
  EngineCallback, call_all, own_calls, event, call_all-callback_thread,
}
use eloquence.Host.Callback.Thread.{callback_thread}
use eloquence.Host.Callback.Thread.Events.{answers, events}
use eloquence.Tests.Host.{some_entry, some_callbacks, some_entry-found, counting}

abbrev waveform : EngineCallback
waveform = record { msg = 0; l_param = 2; memory = λ a n. replicate n 9 }

abbrev index : EngineCallback
index = record { msg = 2; l_param = 7; memory = λ a n. replicate n 0 }

abbrev both : List EngineCallback
both = waveform ∷ index ∷ []

-- The state of the bridge for the handle 1, with a buffer and a channel.
abbrev some_state : CbState
some_state = record {
  eci_handle_id = 1;
  cb_fd = 5;
  has_callback = true;
  output_buffer = 600;
  output_buffer_size = 2;
}

abbrev speaking : Client
speaking = record (new_client 3 1) {
  handles = (hmap_add hmap_init htype_eci 70_000).1;
  cb_states = some_state ∷ replicate 63 zero_cb_state;
}

speaking-found : find_cb_state_by_eci_ptr (speaking ∷ []) 70_000 ≡ some some_state
unfolding find_cb_state_by_eci_ptr find_by_entry get_cb_state hmap_add hmap_init claim new_client
speaking-found = refl

-- What the bridge sends, and what the host answers: each callback returns 2.
abbrev the_events : List ℕ
the_events =
    events counting (λ v. some_callbacks) (λ v. true)
      (map (event counting (λ v. some_callbacks) (λ v. true) some_state some_entry) both)

abbrev one_answer : List ℕ
one_answer = msg_bytes msg_callback_return (be32 1 ++ be32 2)

abbrev bridge_end : Channel
bridge_end = record {
  input = bytes 0 (drop 1 (one_answer ++ one_answer)) ∷ [];
  output = record { uptakes = []; sent = [] };
}

abbrev host_end : Channel
host_end = record {
  input = bytes 0 (drop 1 the_events) ∷ [];
  output = record { uptakes = []; sent = [] };
}

both_answered :
    stream bridge_end.input
    ≡ (answers counting
        (λ v. some_callbacks)
        (λ v. true)
        (map (event counting (λ v. some_callbacks) (λ v. true) some_state some_entry) both)
        10).0
unfolding answers callback_turn call_entry find_entry copy_pcm
both_answered = refl

-- The state counts a copy of four bytes and two calls.
own_calls_run :
    own_calls counting (λ v. some_callbacks) (λ v. true) some_state some_entry both 10
    ≡ (2 ∷ 2 ∷ [], 16)
unfolding own_calls
own_calls_run = refl

speaking-Bound : Bound (speaking ∷ []) 70_000 some_state
speaking-Bound = record { found = speaking-found; registered = refl; open_fd = omega arith }

call_all-callback_thread_example :
    (ch' : Channel) × (host' : Channel) × (call_all (speaking ∷ []) 70_000 both bridge_end
      ≡ some (
        (own_calls counting (λ v. some_callbacks) (λ v. true) some_state some_entry both 10).0,
        ch',
      ))
    × (ch'.output.sent ≡ [] ++ stream host_end.input)
    × (callback_thread counting (λ v. some_callbacks) (λ v. true) 3 host_end 10
        ≡ some (
          host',
          (own_calls counting (λ v. some_callbacks) (λ v. true) some_state some_entry both 10).1,
        ))
    × (host'.output.sent ≡ [] ++ stream bridge_end.input)
call_all-callback_thread_example =
    call_all-callback_thread counting (λ v. some_callbacks) (λ v. true) some_state some_entry
      (speaking ∷ []) 70_000 speaking-Bound (λ u. some_entry-found) (ground arith) both bridge_end
      host_end 10
      (
        record { whole = λ a n. length-replicate n 9; fits = omega arith },
        (record { whole = λ a n. length-replicate n 0; fits = omega arith }, tt),
      )
      tt tt (λ v. refl) both_answered refl
