-- ===== src/Host/Callback/RoundTrip.antt =====
-- An event of the bridge, answered by the host, and the answer as the bridge reads it.
use eloquence.Base.{
  ℕ, ◌≤◌, ◌≡◌, ◌≢◌, refl, true, ◌&&◌, some, List, [], ◌++◌, arith, length, if◌then◌else◌, be32,
  take, not, ◌==◌, of_be32-be32, ne→==, leb, le→leb, add32, ge→ltb,
}
use eloquence.Wire.Function.{msg_callback_event, msg_callback_return}
use eloquence.Frame.{net_len}
use eloquence.Bridge.Callback.{eci_waveform_buffer, callback_result}
use eloquence.Bridge.Callback.Event.{event_bytes}
use eloquence.Host.Callback.{
  CbEntry, Callbacks, Application, find_entry, copy_pcm, copy_bytes, callback_turn, call_entry,
}

net_len-be32 : (v : ℕ) (rest : List ℕ) → net_len (be32 v ++ rest) ≡ v
net_len-be32 v rest = of_be32-be32 v

-- What the host's side of the callback does with an event's samples: as many as the application's buffer
-- holds are copied into it.
abbrev pub received : {U : Type 0} → Application U → CbEntry → ℕ → List ℕ → U → U
received app e msg samples u =
    if (msg == eci_waveform_buffer) && (not (e.output_buffer == 0) && not (length samples == 0))
    then app.memcpy e.output_buffer (take (copy_bytes app e (length samples)) samples) u
    else u

module _ {U : Type 0} (app : Application U) where
  copy_pcm-event :
      (e : CbEntry) (h msg l : ℕ) (samples : List ℕ) (u : U)
      → length samples ≤ 2_147_483_648
      → copy_pcm app e msg (length samples) (event_bytes h msg l samples) u
        ≡ received app e msg samples u
  unfolding copy_pcm
  copy_pcm-event e h msg l samples u small =
      let n = copy_bytes app e (length samples) in
      let below : n ≤ length samples = omega arith in
      let fits : leb (add32 16 n) (length (event_bytes h msg l samples)) ≡ true =
        le→leb (add32 16 n) (length (event_bytes h msg l samples)) (omega arith) in
      ground (arith, fits)

  -- A client that has a callback for the handle of an event is called with the event's handle, message and
  -- parameter, behind a copy of its samples; what the callback returns is what the bridge hands to the
  -- engine; the samples have at most 2 ^ 31 bytes.
  pub callback_turn-event :
      (es : Callbacks) (e : CbEntry) (h msg l : ℕ) (samples : List ℕ) (u : U)
      → length samples ≤ 2_147_483_648
      → find_entry es h ≡ some e
      → e.callback ≢ 0
      → let r = app.call e.callback h msg l e.user_data (received app e msg samples u) in
        (p : List ℕ) × (callback_turn app es
            (record { msg_type = msg_callback_event; payload = event_bytes h msg l samples })
            u
          ≡ (some p, r.1))
        × (callback_result (some (record { msg_type = msg_callback_return; payload = p })) ≡ r.0)
  unfolding callback_turn call_entry callback_result
  callback_turn-event es e h msg l samples u small here cb =
      let r = app.call e.callback h msg l e.user_data (received app e msg samples u) in
      (
        be32 h ++ be32 r.0,
        rw
            (
              net_len-be32 h _,
              net_len-be32 msg _,
              net_len-be32 l _,
              net_len-be32 (length samples) samples,
              here,
              copy_pcm-event e h msg l samples u small,
              ne→== e.callback 0 cb,
              ge→ltb (length (event_bytes h msg l samples)) 16 (omega arith),
            )
            refl,
        net_len-be32 r.0 [],
      )
