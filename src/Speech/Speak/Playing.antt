-- ===== src/Speech/Speak/Playing.antt =====
-- What happens while spd/sd_eloquence.c speaks: the engine calls back from its own thread, and the dispatcher's
-- main thread may stop the speech at any moment.
use eloquence.Base.{
  ℕ, arith, ◌≡◌, ◌≢◌, some, ne→==, refl, ap, Bool, true, false, All, List, [], ◌∷◌, ◌++◌,
}
use eloquence.Speech.Settings.{State}
use eloquence.Speech.Settings.Set.{module_stop, module_pause}
use eloquence.Speech.Speak.{
  Action, event_stop, eci_callback, eci_data_abort, module_speak_sync, added, is_blank, speak_ok,
  clear_input, copy_voice, voice_actions, add_text, event_begin, synthesize, synchronize,
}
use eloquence.Speech.Ssml.{strip_ssml}

-- A call of `eci_callback`, with its message and its parameter, or `module_stop` or `module_pause`.
pub data Event : Type 0 where
  called : ℕ → ℕ → Event
  stopped : Event
  paused : Event

-- What the callbacks send to the audio server and what they return, and the state behind.
pub record Played : Type 0 where
  pub output : List Action
  pub results : List ℕ
  pub state : State

abbrev pub call_before : List Action × ℕ → Played → Played
call_before r p = record p { output = r.0 ++ p.output; results = r.1 ∷ p.results }

unfoldable pub play : List Event → State → Played
play [] s = record { output = []; results = []; state = s }
play (called msg lparam ∷ evs) s = call_before (eci_callback msg lparam s) (play evs s)
play (stopped ∷ evs) s = play evs (module_stop s).1
play (paused ∷ evs) s = play evs (module_pause s).1

callback-stopped :
    (msg lparam : ℕ) (s : State)
    → s.stop ≡ true
    → ((eci_callback msg lparam s).0 ≡ []) × ((eci_callback msg lparam s).1 ≡ eci_data_abort)
unfolding eci_callback
callback-stopped msg lparam s h = ground (arith, h)

-- Once the speech is stopped, nothing more is sent to the audio server, and every callback asks the engine to
-- give up.
record Silent (p : Played) : Type 0 where
  output : p.output ≡ []
  results : All (λ r. r ≡ eci_data_abort) p.results
  still : p.state.stop ≡ true

play-Silent : (evs : List Event) (s : State) → s.stop ≡ true → Silent (play evs s)
unfolding play module_stop module_pause
play-Silent [] s h = record { output = refl; results = tt; still = h }
play-Silent (called msg lparam ∷ evs) s h =
    let k = play-Silent evs s h in
    let (nothing, gives_up) = callback-stopped msg lparam s h in
    record { output = rw (nothing, k.output); results = (gives_up, k.results); still = k.still }
play-Silent (stopped ∷ evs) s h = play-Silent evs (module_stop s).1 refl
play-Silent (paused ∷ evs) s h = play-Silent evs (module_pause s).1 refl

-- What is played before a stop, and the stop.
pub play-stopped :
    (before after : List Event) (s : State)
    → ((play (before ++ stopped ∷ after) s).output ≡ (play before s).output)
      × ((rest : List ℕ) × ((play (before ++ stopped ∷ after) s).results
            ≡ (play before s).results ++ rest)
          × All (λ r. r ≡ eci_data_abort) rest)
      × ((play (before ++ stopped ∷ after) s).state.stop ≡ true)
unfolding play module_stop
play-stopped [] after s =
    let k = play-Silent after (module_stop s).1 refl in
    (k.output, ((play after (module_stop s).1).results, refl, k.results), k.still)
play-stopped (called msg lparam ∷ before) after s =
    let (output, (rest, results, aborted), still) = play-stopped before after s in
    let r = eci_callback msg lparam s in
    (ap (λ t. r.0 ++ t) output, (rest, ap (λ t. r.1 ∷ t) results, aborted), still)
play-stopped (stopped ∷ before) after s = play-stopped before after (module_stop s).1
play-stopped (paused ∷ before) after s = play-stopped before after (module_pause s).1

-- `module_speak_sync` with what happens before its first test of `g_stop`, and between that and its last: what
-- it asks and reports, and what is sent to the audio server meanwhile.
abbrev pub spoken : Bool → List Event → List Event → List ℕ → State → List Action × List Action
spoken has_memory early late data_ s =
    let p = play early (record s { stop = false }) in
    let q = play late p.state in
    ((module_speak_sync has_memory p.state.stop q.state.stop data_ s).0, p.output ++ q.output)

added-stopped :
    (stopped_ : Bool) → (body : List Action) × (added stopped_ true ≡ body ++ event_stop ∷ [])
added-stopped true = ([], refl)
added-stopped false = (event_begin ∷ synthesize ∷ synchronize ∷ [], refl)

-- A stop while the engine speaks, whatever happens before and after it: of a text that is not blank, nothing
-- is sent to the audio server behind the stop, and the request is reported as stopped, as the last action.
pub spoken-stopped :
    (early before after : List Event) (data_ text : List ℕ) (s : State)
    → s.eci ≢ 0
    → strip_ssml data_ ≡ some text
    → is_blank text ≡ false
    → let p = play early (record s { stop = false }) in
      let r = spoken true early (before ++ stopped ∷ after) data_ s in
      ((body : List Action) × (r.0 ≡ body ++ event_stop ∷ []))
      × (r.1 ≡ p.output ++ (play before p.state).output)
unfolding module_speak_sync
spoken-stopped early before after data_ text s open_ here full =
    let p = play early (record s { stop = false }) in
    let (output, results, still) = play-stopped before after p.state in
    let (body, is_) = added-stopped p.state.stop in
    (
      (
        speak_ok
            ∷ clear_input
            ∷ copy_voice s.current_voice 0
            ∷ (voice_actions s ++ (add_text text ∷ body)),
        rw (ne→== s.eci 0 open_, here, full, still, is_) refl,
      ),
      ap (λ t. p.output ++ t) output,
    )
