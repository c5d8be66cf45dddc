-- ===== src/Host/Callback/Thread.antt =====
-- The thread that answers the bridge's events, host/shim_callback.c: its start, its loop, and its stop. The
-- application's state `U` has the table of its callbacks and `g_cb_running`, which any of its threads may set.
pub mod Events
use eloquence.Base.{
  ℕ, zero, suc, ◌+◌, ◌<◌, ◌≤◌, ◌≡◌, refl, ◌∙◌, Bool, true, false, Option, none, some, List, [], ◌∷◌,
  ◌++◌, length, arith, if◌then◌else◌, All, append-nil, append_assoc,
}
use eloquence.Wire.Function.{msg_callback_return, max_msg_size}
use eloquence.Frame.{Message, rpc_read_msg, rpc_write_msg}
use eloquence.Bridge.Callback.{Channel}
use eloquence.Host.Callback.{Callbacks, Application, callback_turn}

-- `g_cb_running` and `g_cb_fd`, none for -1.
pub record Listener : Type 0 where
  pub running : Bool
  pub channel : Option Channel

abbrev pub initial_listener : Listener
initial_listener = record { running = false; channel = none }

-- `shim_callback_start`, with whether `pthread_create` makes the thread: whether it returns 0.
unfoldable pub shim_callback_start : Bool → Channel → Listener → Bool × Listener
shim_callback_start made ch s =
    if s.running then (true, s) else (made, record { running = true; channel = some ch })

-- `shim_callback_stop`, behind the end of the thread; the channel is shut down, and stays in `g_cb_fd`.
unfoldable pub shim_callback_stop : Listener → Listener
shim_callback_stop s = if s.running then record s { running = false } else s

module _ {U : Type 0} (app : Application U) (table : U → Callbacks) (running : U → Bool) where
  -- The answer goes out, and whether it does is not looked at.
  abbrev pub answer_on : Option (List ℕ) → Channel → Channel
  answer_on none ch = ch
  answer_on (some p) ch = record ch { output = (rpc_write_msg ch.output msg_callback_return p).1 }

  abbrev pub on_message :
      (Channel → U → Option (Channel × U)) → Option Message → Channel → U → Option (Channel × U)
  on_message again none ch u = some (ch, u)
  on_message again (some m) ch u =
      let t = callback_turn app (table u) m u in again (answer_on t.0 ch) t.1

  -- `callback_thread`; `none` where the fuel runs out.
  unfoldable pub callback_thread : ℕ → Channel → U → Option (Channel × U)
  callback_thread zero ch u = none
  callback_thread (suc fuel) ch u =
      let r = rpc_read_msg ch.input in
      let turn = on_message (callback_thread fuel) r.0 (record ch { input = r.1 }) u in
      if running u then turn else some (ch, u)
