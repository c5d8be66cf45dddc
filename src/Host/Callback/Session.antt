-- ===== src/Host/Callback/Session.antt =====
-- The engine's callbacks during a synthesis, from arm/bridge_callback.c over the callback channel to the
-- application behind host/shim_callback.c, one behind the other.
use eloquence.Base.{
  ℕ, suc, ◌+◌, ◌<◌, ◌≤◌, ◌≡◌, ◌≢◌, refl, sym, ap, ◌∙◌, Bool, true, Option, none, some, List, [],
  ◌∷◌, ◌++◌, map, subst, length, arith, All, append-nil, append_assoc, Bool-cases, inl, inr,
}
use eloquence.Wire.Function.{msg_callback_event, max_msg_size}
use eloquence.Frame.{Message}
use eloquence.Frame.Exact.{stream, NoRefusal}
use eloquence.Frame.RoundTrip.{msg_bytes}
use eloquence.Wire.Buffer.{rpc_buf_init}
use eloquence.Bridge.Client.{Client, CbState}
use eloquence.Bridge.Callback.{Channel, carries_pcm, data_bytes, bridge_internal_callback}
use eloquence.Bridge.Callback.Event.{pcm, event_bytes, event_buf-Appends}
use eloquence.Host.Callback.{CbEntry, Callbacks, Application, find_entry, callback_turn}
use eloquence.Host.Callback.RoundTrip.{received, callback_turn-event}
use eloquence.Host.Callback.Exchange.{Bound, Exchanged, event_answered, callback_on-send_event}
use eloquence.Host.Callback.Thread.{callback_thread}
use eloquence.Host.Callback.Thread.Events.{
  answer_bytes, answers, events, turn-Short, callback_thread-answers,
}

-- A call by the engine: its message and parameter, and the memory of the bridge at that moment.
pub record EngineCallback : Type 0 where
  pub msg : ℕ
  pub l_param : ℕ
  pub memory : ℕ → ℕ → List ℕ

-- A memory gives as many bytes as are asked for, and the event fits a message.
pub record IsSmall (c : EngineCallback) : Type 0 where
  pub whole : (a n : ℕ) → length (c.memory a n) ≡ n
  pub fits : data_bytes c.l_param + 16 < max_msg_size

-- The callbacks for one engine handle, in order, and what each has returned to the engine.
abbrev pub behind_one : ℕ → Option (List ℕ × Channel) → Option (List ℕ × Channel)
behind_one r none = none
behind_one r (some (rs, ch)) = some (r ∷ rs, ch)

abbrev pub go_on :
    (Channel → Option (List ℕ × Channel)) → Option (ℕ × Channel) → Option (List ℕ × Channel)
go_on rest none = none
go_on rest (some (r, ch)) = behind_one r (rest ch)

unfoldable pub call_all :
    List Client → ℕ → List EngineCallback → Channel → Option (List ℕ × Channel)
call_all clients engine [] ch = some ([], ch)
call_all clients engine (c ∷ cs) ch =
    go_on (call_all clients engine cs)
      (bridge_internal_callback c.memory clients engine c.msg c.l_param ch)

module _ {U : Type 0} (app : Application U) (table : U → Callbacks) (running : U → Bool)
    (cbs : CbState) (entry : CbEntry) where
  -- The application's own callback for a call of the engine, behind the copy of the samples.
  abbrev pub own_call : EngineCallback → U → ℕ × U
  own_call c u =
      app.call entry.callback cbs.eci_handle_id c.msg c.l_param entry.user_data
        (received app entry c.msg (pcm c.memory cbs c.msg c.l_param) u)

  unfoldable pub own_calls : List EngineCallback → U → List ℕ × U
  own_calls [] u = ([], u)
  own_calls (c ∷ cs) u =
      let r = own_call c u in let rest = own_calls cs r.1 in (r.0 ∷ rest.0, rest.1)

  abbrev pub event : EngineCallback → Message
  event c = record {
    msg_type = msg_callback_event;
    payload = event_bytes cbs.eci_handle_id c.msg c.l_param (pcm c.memory cbs c.msg c.l_param);
  }

  pcm_length :
      (c : EngineCallback)
      → IsSmall c
      → length (pcm c.memory cbs c.msg c.l_param) ≤ data_bytes c.l_param
  pcm_length c small = elim (Bool-cases (carries_pcm cbs c.msg c.l_param)) [
    | inl e ↦ rw (e, small.whole cbs.output_buffer (data_bytes c.l_param)) (omega arith)
    | inr e ↦ rw e (omega arith)
  ]

  event_fits : (c : EngineCallback) → IsSmall c → length (event c).payload < max_msg_size
  event_fits c small = omega (arith, pcm_length c small, small.fits)

  module _ (clients : List Client) (engine : ℕ) (bound : Bound clients engine cbs)
      (registers : (u : U) → find_entry (table u) cbs.eci_handle_id ≡ some entry)
      (callable : entry.callback ≢ 0) where
    one_call :
        (c : EngineCallback) (ch : Channel) (u : U) (rest : List ℕ)
        → IsSmall c
        → NoRefusal ch.output.uptakes
        → stream ch.input
          ≡ answer_bytes app table running (callback_turn app (table u) (event c) u).0 ++ rest
        → (ch' : Channel) × (bridge_internal_callback c.memory clients engine c.msg c.l_param ch
            ≡ some ((own_call c u).0, ch'))
          × Exchanged (event c).payload rest ch ch'
          × ((callback_turn app (table u) (event c) u).1 ≡ (own_call c u).1)
    unfolding rpc_buf_init
    one_call c ch u rest small willing arrives =
        let m = event c in
        let samples = pcm c.memory cbs c.msg c.l_param in
        let (p, turn, value) =
          callback_turn-event app (table u) entry cbs.eci_handle_id c.msg c.l_param samples u
            (omega (arith, pcm_length c small, small.fits)) (registers u) callable in
        let (b, made, bytes, valid) =
          event_buf-Appends c.memory cbs c.msg c.l_param small.whole (omega (arith, small.fits)) in
        let short = turn-Short app table running (table u) m u in
        let (ch', answered, ex) =
          event_answered b ch p rest (rw bytes (event_fits c small)) (rw turn at short) willing
            (rw turn at arrives) in
        (
          ch',
          callback_on-send_event c.memory clients engine cbs c.msg c.l_param ch b bound made
              ∙ answered
              ∙ ap (λ v. some (v, ch')) value,
          subst (λ bs. Exchanged bs rest ch ch') bytes ex,
          ap (λ t. t.1) turn,
        )

    -- The bridge's side: each call returns what the application's own callback returns.
    call_all-own_calls :
        (cs : List EngineCallback) (ch : Channel) (u : U)
        → All IsSmall cs
        → NoRefusal ch.output.uptakes
        → stream ch.input ≡ (answers app table running (map event cs) u).0
        → (ch' : Channel) × (call_all clients engine cs ch ≡ some ((own_calls cs u).0, ch'))
          × (ch'.output.sent ≡ ch.output.sent ++ events app table running (map event cs))
          × ((answers app table running (map event cs) u).1 ≡ (own_calls cs u).1)
    unfolding call_all own_calls answers
    call_all-own_calls [] ch u small willing arrives =
        (ch, refl, sym (append-nil ch.output.sent), refl)
    call_all-own_calls (c ∷ cs) ch u (k, ks) willing arrives =
        let (ch1, one, ex, state) = one_call c ch u _ k willing arrives in
        let (ch', rest, out, end) =
          call_all-own_calls cs ch1 (own_call c u).1 ks ex.willing (rw state at ex.left) in
        let answer = msg_bytes msg_callback_event (event c).payload in
        (
          ch',
          ap (go_on (call_all clients engine cs)) one ∙ ap (behind_one (own_call c u).0) rest,
          out
              ∙ ap (λ s. s ++ events app table running (map event cs)) ex.sent
              ∙ append_assoc ch.output.sent answer (events app table running (map event cs)),
          ap (λ v. (answers app table running (map event cs) v).1) state ∙ end,
        )

    events_fit :
        (cs : List EngineCallback)
        → All IsSmall cs
        → All (λ m. length m.payload < max_msg_size) (map event cs)
    events_fit [] small = tt
    events_fit (c ∷ cs) (k, ks) = (event_fits c k, events_fit cs ks)

    -- Where the engine calls back for a handle that has a callback on both sides, and what each side sends
    -- arrives at the other, in whatever pieces: each call returns to the engine what the application's own
    -- callback returns, in order, behind a copy of its samples, on what the last one has left; the bridge
    -- sends the events in order; and the host's thread, while it is not stopped, leaves the application as
    -- those calls leave it. The events have fewer than 4 MiB each, and writing does not fail.
    pub call_all-callback_thread :
        (cs : List EngineCallback) (ch host : Channel) (u : U)
        → All IsSmall cs
        → NoRefusal ch.output.uptakes
        → NoRefusal host.output.uptakes
        → ((v : U) → running v ≡ true)
        → stream ch.input ≡ (answers app table running (map event cs) u).0
        → stream host.input ≡ events app table running (map event cs)
        → (ch' : Channel) × (host' : Channel) × (call_all clients engine cs ch
            ≡ some ((own_calls cs u).0, ch'))
          × (ch'.output.sent ≡ ch.output.sent ++ stream host.input)
          × (callback_thread app table running (suc (length (map event cs))) host u
              ≡ some (host', (own_calls cs u).1))
          × (host'.output.sent ≡ host.output.sent ++ stream ch.input)
    call_all-callback_thread cs ch host u small willing host_willing on answered sent =
        let (ch', results, out, end) = call_all-own_calls cs ch u small willing answered in
        let (host', result, back) =
          callback_thread-answers app table running (map event cs) host u (events_fit cs small) on
            host_willing sent in
        (ch', host', results, rw sent out, result ∙ ap (λ v. some (host', v)) end, rw answered back)
