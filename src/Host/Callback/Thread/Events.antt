-- ===== src/Host/Callback/Thread/Events.antt =====
-- The loop of `callback_thread`, host/shim_callback.c: it ends, and it answers the bridge's events in order.
use eloquence.Base.{
  ℕ, zero, suc, ◌<◌, ◌≡◌, refl, ◌∙◌, sym, ap, Bool, true, Bool-cases, Option-cases, inl, inr,
  Option, none, some, List, [], ◌∷◌, ◌++◌, length, arith, All, not, ◌==◌, ◌||◌, ltb, append-nil,
  append_assoc,
}
use eloquence.Wire.Function.{msg_callback_return, msg_callback_event, max_msg_size}
use eloquence.Frame.{Message, rpc_read_msg}
use eloquence.Frame.Exact.{stream, NoRefusal}
use eloquence.Frame.RoundTrip.{
  msg_bytes, write_msg_sends, write_msg_willing, read_msg_receives, read_msg_shrinks, read_msg_ends,
}
use eloquence.Bridge.Callback.{Channel}
use eloquence.Host.Callback.{Callbacks, Application, callback_turn}
use eloquence.Host.Callback.Thread.{answer_on, callback_thread}

module _ {U : Type 0} (app : Application U) (table : U → Callbacks) (running : U → Bool) where
  -- An answer leaves what is to be read.
  answer_on-input :
      (p : Option (List ℕ)) (ch : Channel) → (answer_on app table running p ch).input ≡ ch.input
  answer_on-input none ch = refl
  answer_on-input (some p) ch = refl

  -- With a round more than the stream has bytes, the thread ends, whatever arrives and whatever the
  -- application does.
  pub callback_thread_ends :
      (fuel : ℕ) (ch : Channel) (u : U)
      → length (stream ch.input) < fuel
      → (ch' : Channel) × (u' : U) × (callback_thread app table running fuel ch u ≡ some (ch', u'))
  unfolding callback_thread
  callback_thread_ends zero ch u h = absurd (omega arith)
  callback_thread_ends (suc fuel) ch u h = elim (Bool-cases (running u)) [
    | inr stopped ↦ (ch, u, rw stopped refl)
    | inl on ↦
        let r = rpc_read_msg ch.input in
        elim (Option-cases r.0) [
          | inl e ↦ (record ch { input = r.1 }, u, rw (on, e) refl)
          | inr (m, e) ↦
              let t = callback_turn app (table u) m u in
              let ch1 = answer_on app table running t.0 (record ch { input = r.1 }) in
              let shorter = read_msg_shrinks ch.input m e in
              let (ch', u', rest) =
                callback_thread_ends fuel ch1 t.1
                  (rw (answer_on-input t.0 (record ch { input = r.1 })) (omega (arith, shorter))) in
              (ch', u', rw (on, e) rest)
        ]
  ]

  -- What the application has answered to the messages, in order, and what it has become.
  abbrev pub answer_bytes : Option (List ℕ) → List ℕ
  answer_bytes none = []
  answer_bytes (some p) = msg_bytes msg_callback_return p

  unfoldable pub answers : List Message → U → List ℕ × U
  answers [] u = ([], u)
  answers (m ∷ ms) u =
      let t = callback_turn app (table u) m u in
      let rest = answers ms t.1 in (answer_bytes t.0 ++ rest.0, rest.1)

  abbrev pub events : List Message → List ℕ
  events [] = []
  events (m ∷ ms) = msg_bytes m.msg_type m.payload ++ events ms

  -- An answer has eight bytes.
  abbrev pub Short : Option (List ℕ) → Type 0
  Short none = Unit
  Short (some p) = length p ≡ 8

  pub turn-Short : (es : Callbacks) (m : Message) (u : U) → Short (callback_turn app es m u).0
  unfolding callback_turn
  turn-Short es m u =
      elim (Bool-cases (not (m.msg_type == msg_callback_event) || ltb (length m.payload) 16)) [
        | inl e ↦ rw e tt
        | inr e ↦ rw e refl
      ]

  answer_on-sends :
      (p : Option (List ℕ)) (ch : Channel)
      → Short p
      → NoRefusal ch.output.uptakes
      → ((answer_on app table running p ch).output.sent ≡ ch.output.sent ++ answer_bytes p)
        × NoRefusal (answer_on app table running p ch).output.uptakes
  answer_on-sends none ch short willing = (sym (append-nil ch.output.sent), willing)
  answer_on-sends (some p) ch short willing =
      let (ok, sent) =
        write_msg_sends ch.output msg_callback_return p willing (omega (arith, short)) in
      (sent, write_msg_willing ch.output msg_callback_return p willing)

  -- While the thread is not stopped and writing does not fail, it answers the messages that arrive, each of
  -- at most 4 MiB, in whatever pieces, in their order: each is handled on what the last one has left, its
  -- answer goes out behind the others, and when the messages have ended the thread ends.
  pub callback_thread-answers :
      (ms : List Message) (ch : Channel) (u : U)
      → All (λ m. length m.payload < max_msg_size) ms
      → ((v : U) → running v ≡ true)
      → NoRefusal ch.output.uptakes
      → stream ch.input ≡ events ms
      → (ch' : Channel) × (callback_thread app table running (suc (length ms)) ch u
          ≡ some (ch', (answers ms u).1))
        × (ch'.output.sent ≡ ch.output.sent ++ (answers ms u).0)
  unfolding callback_thread answers
  callback_thread-answers [] ch u small on willing arrives = (
    record ch { input = (rpc_read_msg ch.input).1 },
    rw (on u, read_msg_ends ch.input arrives) refl,
    sym (append-nil ch.output.sent),
  )
  callback_thread-answers (m ∷ ms) ch u (k, ks) on willing arrives =
      let r = rpc_read_msg ch.input in
      let t = callback_turn app (table u) m u in
      let (got, left) = read_msg_receives ch.input m.msg_type m.payload (events ms) arrives k in
      let ch0 : Channel = record ch { input = r.1 } in
      let (sent, still) = answer_on-sends t.0 ch0 (turn-Short (table u) m u) willing in
      let (ch', result, out) =
        callback_thread-answers ms (answer_on app table running t.0 ch0) t.1 ks on still
          (rw (answer_on-input t.0 ch0) left) in
      (
        ch',
        rw (on u, got) result,
        out
            ∙ ap (λ s. s ++ (answers ms t.1).0) sent
            ∙ append_assoc ch.output.sent (answer_bytes t.0) (answers ms t.1).0,
      )
