-- ===== src/Speech/Speak.antt =====
-- What spd/sd_eloquence.c calls and reports, in its order: `module_init`, `module_speak_sync`, `module_close`
-- and the callback.
pub mod Ends
pub mod Session
pub mod Playing
use eloquence.Base.{
  ℕ, Bool, true, false, ◌&&◌, ◌||◌, not, Option, none, some, List, [], ◌∷◌, ◌++◌, ◌==◌,
  if◌then◌else◌, minus_one,
}
use eloquence.Speech.Ssml.{strip_ssml}
use eloquence.Speech.Settings.{State, sample_rate_to_hz, voice_names}

-- A call of the ECI interface on the module's handle, or of the dispatcher's own functions.
pub data Action : Type 0 where
  new : Action
  set_param : ℕ → ℕ → Action
  copy_voice : ℕ → ℕ → Action
  set_voice_param : ℕ → ℕ → ℕ → Action
  set_output_buffer : ℕ → Action
  register_callback : Action
  clear_input : Action
  add_text : List ℕ → Action
  synthesize : Action
  synchronize : Action
  delete : Action
  audio_set_server : Action
  output_server : ℕ → ℕ → Action
  speak_ok : Action
  speak_error : Action
  event_begin : Action
  event_end : Action
  event_stop : Action

-- `ECIParam` and `ECIVoiceParam`.
abbrev pub eci_synth_mode : ℕ
eci_synth_mode = 0

abbrev pub eci_dictionary : ℕ
eci_dictionary = 3

abbrev pub eci_sample_rate : ℕ
eci_sample_rate = 5

abbrev pub eci_pitch_baseline : ℕ
eci_pitch_baseline = 2

abbrev pub eci_speed : ℕ
eci_speed = 6

abbrev pub eci_volume : ℕ
eci_volume = 7

abbrev pub audio_buf_size : ℕ
audio_buf_size = 8192

-- The voice parameters of the state, in the order of the source.
abbrev pub voice_actions : State → List Action
voice_actions s =
    set_voice_param 0 eci_speed s.eci_speed
    ∷ set_voice_param 0 eci_pitch_baseline s.eci_pitch
    ∷ set_voice_param 0 eci_volume s.eci_volume
    ∷ []

-- The state that `module_init` makes of the configuration, behind a successful `eciNew`.
abbrev pub configured : ℕ → State → State
configured h s = record s {
  eci = h;
  sample_rate_hz = sample_rate_to_hz s.cfg.sample_rate;
  current_voice = s.cfg.default_voice;
  eci_speed = s.cfg.speed;
  eci_pitch = s.cfg.pitch;
  eci_volume = s.cfg.volume;
  voices = some voice_names;
}

-- `module_init`, from the handle that `eciNew` gives.
unfoldable pub module_init : ℕ → State → ℕ × List Action × State
module_init h s =
    let s' = configured h s in
    if h == 0 then (minus_one, new ∷ [], record s { eci = 0 }) else (
      0,
      new
          ∷ set_param eci_sample_rate s.cfg.sample_rate
          ∷ set_param eci_dictionary s.cfg.dictionary
          ∷ set_param eci_synth_mode s.cfg.synthmode
          ∷ copy_voice s'.current_voice 0
          ∷ (voice_actions s'
              ++ (set_output_buffer audio_buf_size ∷ register_callback ∷ audio_set_server ∷ [])),
      s',
    )

-- Nothing but blanks.
unfoldable pub is_blank : List ℕ → Bool
is_blank [] = true
is_blank (c ∷ cs) = ((c == b' ') || (c == 10) || (c == 13) || (c == 9)) && is_blank cs

-- Behind `eciAddText`: `stopped` and `stopped_later` are `g_stop` at its two tests, which other threads set.
abbrev pub added : Bool → Bool → List Action
added true stopped_later = event_stop ∷ []
added false stopped_later =
    event_begin ∷ synthesize ∷ synchronize ∷ (if stopped_later then event_stop else event_end) ∷ []

-- Behind `strip_ssml`, `none` for NULL.
abbrev pub stripped : Option (List ℕ) → Bool → Bool → List Action
stripped none stopped stopped_later = event_end ∷ []
stripped (some text) stopped stopped_later =
    if is_blank text then event_end ∷ [] else add_text text ∷ added stopped stopped_later

-- `module_speak_sync`: `has_memory` is whether the `malloc` in `strip_ssml` succeeds.
unfoldable pub module_speak_sync : Bool → Bool → Bool → List ℕ → State → List Action × State
module_speak_sync has_memory stopped stopped_later data_ s = (
  speak_ok
      ∷ (if s.eci == 0
          then speak_error ∷ []
          else clear_input
            ∷ copy_voice s.current_voice 0
            ∷ (voice_actions s
                ++ stripped (if has_memory then strip_ssml data_ else none) stopped stopped_later)),
  record s { stop = not (s.eci == 0) && (stopped || stopped_later) },
)

-- `eci_callback`: what it reports, and its result. A waveform is the message 0.
abbrev pub eci_data_processed : ℕ
eci_data_processed = 1

abbrev pub eci_data_abort : ℕ
eci_data_abort = 2

unfoldable pub eci_callback : ℕ → ℕ → State → List Action × ℕ
eci_callback msg lparam s = (
  if (msg == 0) && not s.stop then output_server s.sample_rate_hz lparam ∷ [] else [],
  if s.stop then eci_data_abort else eci_data_processed,
)

unfoldable pub module_close : State → List Action × State
module_close s = (if s.eci == 0 then [] else delete ∷ [], record s { eci = 0; voices = none })
