-- ===== src/Host/Callback/Exchange.antt =====
-- One event of arm/bridge_callback.c, and its answer.
use eloquence.Base.{ℕ, ◌<◌, ◌≡◌, refl, true, false, some, List, ◌++◌, length, arith, leb}
use eloquence.Wire.Function.{msg_callback_event, msg_callback_return, max_msg_size}
use eloquence.Frame.{rpc_read_msg, rpc_write_msg}
use eloquence.Frame.Exact.{stream, NoRefusal}
use eloquence.Frame.RoundTrip.{msg_bytes, write_msg_sends, write_msg_willing, read_msg_receives}
use eloquence.Wire.Buffer.{Buf}
use eloquence.Bridge.Client.{Client, CbState, find_cb_state_by_eci_ptr}
use eloquence.Bridge.Callback.{
  Channel, event_buf, send_event, exchange, callback_on, callback_result, bridge_internal_callback,
}

lt→leb : (a b : ℕ) → a < b → leb b a ≡ false
lt→leb a b h = ground arith

-- The bridge has a state for the engine's handle, with a callback and a channel.
pub record Bound (clients : List Client) (engine : ℕ) (cbs : CbState) : Type 0 where
  pub found : find_cb_state_by_eci_ptr clients engine ≡ some cbs
  pub registered : cbs.has_callback ≡ true
  pub open_fd : cbs.cb_fd < 2_147_483_648

-- An event that goes out whole, and whose answer is the next message to arrive.
pub record Exchanged (bytes rest : List ℕ) (ch ch' : Channel) : Type 0 where
  pub left : stream ch'.input ≡ rest
  pub willing : NoRefusal ch'.output.uptakes
  pub sent : ch'.output.sent ≡ ch.output.sent ++ msg_bytes msg_callback_event bytes

pub event_answered :
    (b : Buf) (ch : Channel) (p rest : List ℕ)
    → length b.bytes < max_msg_size
    → length p ≡ 8
    → NoRefusal ch.output.uptakes
    → stream ch.input ≡ msg_bytes msg_callback_return p ++ rest
    → let result =
        callback_result (some (record { msg_type = msg_callback_return; payload = p })) in
      (ch' : Channel) × (send_event (some b) ch ≡ some (result, ch'))
      × Exchanged b.bytes rest ch ch'
unfolding send_event exchange
event_answered b ch p rest small eight willing arrives =
    let (ok, sent) = write_msg_sends ch.output msg_callback_event b.bytes willing (omega arith) in
    let (got, left) =
      read_msg_receives ch.input msg_callback_return p rest arrives (omega (arith, eight)) in
    (
      record {
        input = (rpc_read_msg ch.input).1;
        output = (rpc_write_msg ch.output msg_callback_event b.bytes).1;
      },
      rw (ok, got) refl,
      record {
        left = left;
        willing = write_msg_willing ch.output msg_callback_event b.bytes willing;
        sent = sent;
      },
    )

-- The callback of a state with a callback and a channel is the exchange of its event.
pub callback_on-send_event :
    (memory : ℕ → ℕ → List ℕ) (clients : List Client) (engine : ℕ) (cbs : CbState) (msg l : ℕ)
    (ch : Channel) (b : Buf)
    → Bound clients engine cbs
    → event_buf memory cbs msg l ≡ some b
    → bridge_internal_callback memory clients engine msg l ch ≡ send_event (some b) ch
unfolding bridge_internal_callback callback_on
callback_on-send_event memory clients engine cbs msg l ch b bound e =
    rw (bound.found, bound.registered, lt→leb cbs.cb_fd 2_147_483_648 bound.open_fd, e) refl
