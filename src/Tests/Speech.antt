-- ===== src/Tests/Speech.antt =====
-- Runs of the speech-dispatcher module.
use eloquence.Base.{
  atoi, signed_digits, digits, skip_space, ℕ, ◌+◌, ◌-◌, ◌*◌, ◌/◌, ◌≡◌, ◌≤◌, refl, List, [], ◌∷◌,
  ◌++◌, some, true, false, arith, All, codes, starts, length, sub32, ltb, if◌then◌else◌,
}
use eloquence.Speech.Ssml.{
  strip_ssml, entities, strip_tags, decode_entities, replace_all, replace_first,
}
use eloquence.Speech.Ssml.Absence.{NoOcc}
use eloquence.Speech.Ssml.Total.{strip_ssml_total}
use eloquence.Speech.Ssml.Escape.{escape, strip_ssml-escape}
use eloquence.Speech.Settings.{State, initial_config, initial_state}
use eloquence.Speech.Settings.Invariant.{ConfigOk}
use eloquence.Speech.Settings.Set.{module_set}
use eloquence.Speech.Settings.Scales.{module_set-scales}
use eloquence.Speech.Speak.{Action, event_stop, is_blank, module_init, module_speak_sync}
use eloquence.Speech.Speak.Playing.{called, stopped, play, spoken, spoken-stopped}
use eloquence.Speech.Speak.Ends.{EndsOnce, module_speak_sync-EndsOnce}
use eloquence.Speech.Speak.Session
use eloquence.Speech.Speak.Session.{InRange, Command, session, session-module_init}

abbrev some_ssml : List ℕ
some_ssml = codes "<speak>1 &lt; 2</speak>"

strip_ssml_total_example :
    (out : List ℕ) × (strip_ssml some_ssml ≡ some out)
    × (length out ≤ length some_ssml)
    × All (λ e. NoOcc e.0 out) entities
strip_ssml_total_example = strip_ssml_total some_ssml

strip_ssml-escape_example : strip_ssml (escape entities (codes "1 < 2")) ≡ some (codes "1 < 2")
strip_ssml-escape_example = strip_ssml-escape (codes "1 < 2") (ground arith)

initial_config-ConfigOk : ConfigOk initial_config
initial_config-ConfigOk = record {
  voice = omega arith;
  pitch = omega arith;
  speed = omega arith;
  volume = omega arith;
}

rate_50-atoi : atoi (codes "50") ≡ sub32 150 100
unfolding atoi signed_digits digits skip_space
rate_50-atoi = refl

module_set-scales_example :
    (module_set (some (codes "rate")) (some (codes "50")) initial_state
      ≡ (0, record initial_state { eci_speed = 2 * 150 - 150 }))
    × (module_set (some (codes "pitch")) (some (codes "50")) initial_state
        ≡ (0, record initial_state { eci_pitch = if ltb 150 100 then (150 + 1) / 2 else 150 / 2 }))
    × (module_set (some (codes "volume")) (some (codes "50")) initial_state
        ≡ (0, record initial_state { eci_volume = 150 / 2 }))
module_set-scales_example =
    module_set-scales 150 (codes "50") initial_state (omega arith) rate_50-atoi

module_speak_sync-EndsOnce_example :
    EndsOnce (module_speak_sync true false true some_ssml (record initial_state { eci = 1 })).0
module_speak_sync-EndsOnce_example =
    module_speak_sync-EndsOnce true false true some_ssml (record initial_state { eci = 1 })

abbrev some_commands : List Command
some_commands =
    Session.set (some (codes "rate")) (some (codes "-40"))
    ∷ Session.speak true false false some_ssml
    ∷ Session.stop
    ∷ []

session-module_init_example :
    let r = module_init 1 initial_state in
    All (InRange initial_config) (r.1 ++ session some_commands r.2)
session-module_init_example =
    session-module_init 1 initial_state some_commands initial_config-ConfigOk refl

-- The speech is stopped behind its second waveform.
some_text-stripped : strip_ssml (codes "hi") ≡ some (codes "hi")
unfolding strip_ssml strip_tags decode_entities replace_all replace_first starts
some_text-stripped = refl

some_text-full : is_blank (codes "hi") ≡ false
unfolding is_blank
some_text-full = refl

abbrev opened_state : State
opened_state = record initial_state { eci = 9 }

spoken-stopped_example :
    let r =
      spoken true []
        (called 0 100 ∷ called 0 50 ∷ stopped ∷ called 0 70 ∷ [])
        (codes "hi")
        opened_state in
    ((body : List Action) × (r.0 ≡ body ++ event_stop ∷ []))
    × (r.1 ≡ (play (called 0 100 ∷ called 0 50 ∷ []) (record opened_state { stop = false })).output)
unfolding play
spoken-stopped_example =
    spoken-stopped [] (called 0 100 ∷ called 0 50 ∷ []) (called 0 70 ∷ []) (codes "hi") (codes "hi")
      opened_state (ground arith) some_text-stripped some_text-full
