-- ===== src/Speech/Speak/Session.antt =====
-- A session of the dispatcher with the module of spd/sd_eloquence.c: what the engine is told in it.
use eloquence.Base.{
  ℕ, ◌<◌, ◌≤◌, ◌≡◌, refl, Bool, true, false, All, Option, none, some, List, [], ◌∷◌, ◌++◌, ◌==◌,
  if◌then◌else◌, if-keeps, All-append,
}
use eloquence.Speech.Ssml.{strip_ssml}
use eloquence.Speech.Settings.{Config, State}
use eloquence.Speech.Settings.Set.{module_set, module_loglevel_set, module_stop, module_pause}
use eloquence.Speech.Settings.Invariant.{ConfigOk, StateOk, module_set-StateOk}
use eloquence.Speech.Speak.{
  Action, speak_error, event_end, clear_input, add_text, is_blank, added, stripped,
  module_speak_sync, voice_actions, copy_voice, set_voice_param, module_init, configured, eci_speed,
  set_param, eci_sample_rate, eci_dictionary,
}

-- What the configuration has for a parameter of the engine.
abbrev pub configured_param : Config → ℕ → ℕ
configured_param cfg param =
    if param == eci_sample_rate
    then cfg.sample_rate
    else if param == eci_dictionary
    then cfg.dictionary
    else cfg.synthmode

-- The voices are the eight presets, voice parameters are set on the active voice 0, the speed is at most 250 and
-- the other voice parameters at most 100; the sample rate, the dictionary and the synthesis mode, which the
-- source does not clamp, are those of the configuration.
abbrev pub InRange : Config → Action → Type 0
InRange cfg (copy_voice from to) = (from < 8) × (to ≡ 0)
InRange cfg (set_voice_param voice param value) =
    (voice ≡ 0) × (value ≤ (if param == eci_speed then 250 else 100))
InRange cfg (set_param param value) = value ≡ configured_param cfg param
InRange cfg _ = Unit

-- What the dispatcher asks for.
pub data Command : Type 0 where
  set : Option (List ℕ) → Option (List ℕ) → Command
  loglevel : Option (List ℕ) → Command
  speak : Bool → Bool → Bool → List ℕ → Command
  stop : Command
  pause : Command

abbrev pub obey : Command → State → List Action × State
obey (set var val) s = ([], (module_set var val s).1)
obey (loglevel val) s = ([], (module_loglevel_set val s).1)
obey (speak m a b text) s = module_speak_sync m a b text s
obey stop s = ([], (module_stop s).1)
obey pause s = ([], (module_pause s).1)

pub session : List Command → State → List Action
session [] s = []
session (c ∷ cs) s = let r = obey c s in r.0 ++ session cs r.1

obey-StateOk : (c : Command) (s : State) → StateOk s → StateOk (obey c s).1
unfolding module_speak_sync module_loglevel_set module_stop module_pause
obey-StateOk (set var val) s h = module_set-StateOk var val s h
obey-StateOk (loglevel none) s h = h
obey-StateOk (loglevel (some val)) s h = record {
  cfg = record {
    voice = h.cfg.voice;
    pitch = h.cfg.pitch;
    speed = h.cfg.speed;
    volume = h.cfg.volume;
  };
  voice = h.voice;
  pitch = h.pitch;
  speed = h.speed;
  volume = h.volume;
}
obey-StateOk (speak m a b text) s h = record {
  cfg = h.cfg;
  voice = h.voice;
  pitch = h.pitch;
  speed = h.speed;
  volume = h.volume;
}
obey-StateOk stop s h = record {
  cfg = h.cfg;
  voice = h.voice;
  pitch = h.pitch;
  speed = h.speed;
  volume = h.volume;
}
obey-StateOk pause s h = record {
  cfg = h.cfg;
  voice = h.voice;
  pitch = h.pitch;
  speed = h.speed;
  volume = h.volume;
}

module _ (cfg : Config) where
  voice_actions-InRange : (s : State) → StateOk s → All (InRange cfg) (voice_actions s)
  voice_actions-InRange s h = ((refl, h.speed), ((refl, h.pitch), ((refl, h.volume), tt)))

  added-InRange : (a b : Bool) → All (InRange cfg) (added a b)
  added-InRange true b = (tt, tt)
  added-InRange false true = (tt, (tt, (tt, (tt, tt))))
  added-InRange false false = (tt, (tt, (tt, (tt, tt))))

  stripped-InRange : (text : Option (List ℕ)) (a b : Bool) → All (InRange cfg) (stripped text a b)
  stripped-InRange none a b = (tt, tt)
  stripped-InRange (some t) a b =
      if-keeps (All (InRange cfg)) (is_blank t) (event_end ∷ []) (add_text t ∷ added a b) (tt, tt)
        (tt, added-InRange a b)

  speak-InRange :
      (m a b : Bool) (data_ : List ℕ) (s : State)
      → StateOk s
      → All (InRange cfg) (module_speak_sync m a b data_ s).0
  unfolding module_speak_sync
  speak-InRange m a b data_ s h =
      let text = if m then strip_ssml data_ else none in
      (
        tt,
        if-keeps (All (InRange cfg)) (s.eci == 0) (speak_error ∷ [])
            (clear_input ∷ copy_voice s.current_voice 0 ∷ (voice_actions s ++ stripped text a b))
            (tt, tt)
            (
              tt,
              (
                (h.voice, refl),
                All-append (InRange cfg) (voice_actions s) (stripped text a b)
                    (voice_actions-InRange s h) (stripped-InRange text a b),
              ),
            ),
      )

  obey-InRange : (c : Command) (s : State) → StateOk s → All (InRange cfg) (obey c s).0
  obey-InRange (set var val) s h = tt
  obey-InRange (loglevel val) s h = tt
  obey-InRange (speak m a b text) s h = speak-InRange m a b text s h
  obey-InRange stop s h = tt
  obey-InRange pause s h = tt

  session-InRange : (cs : List Command) (s : State) → StateOk s → All (InRange cfg) (session cs s)
  unfolding session
  session-InRange [] s h = tt
  session-InRange (c ∷ cs) s h =
      let r = obey c s in
      All-append (InRange cfg) r.0 (session cs r.1) (obey-InRange c s h)
        (session-InRange cs r.1 (obey-StateOk c s h))

-- What `module_init` leaves and tells the engine is in range, if the configuration is.
configured-StateOk : (h : ℕ) (s : State) → ConfigOk s.cfg → StateOk (configured h s)
configured-StateOk h s k = record {
  cfg = k;
  voice = k.voice;
  pitch = k.pitch;
  speed = k.speed;
  volume = k.volume;
}

-- From a configuration in range on, whatever handle `eciNew` gives that is not NULL, and whatever the
-- dispatcher asks for: in `module_init` and afterwards every voice that is copied is one of the eight and goes to
-- the active voice, every voice parameter is set on the active voice, the speed to at most 250, the pitch and the
-- volume to at most 100, and the sample rate, the dictionary and the synthesis mode are set to what the
-- configuration has, which the source does not clamp.
pub session-module_init :
    (h : ℕ) (s : State) (cs : List Command)
    → ConfigOk s.cfg
    → (h == 0) ≡ false
    → let r = module_init h s in All (InRange s.cfg) (r.1 ++ session cs r.2)
unfolding module_init
session-module_init h s cs k there =
    let s' = configured h s in
    let ok = configured-StateOk h s k in
    rw there (
      tt,
      (
        refl,
        (
          refl,
          (
            refl,
            (
              (k.voice, refl),
              (
                (refl, k.speed),
                (
                  (refl, k.pitch),
                  ((refl, k.volume), (tt, (tt, (tt, session-InRange s.cfg cs s' ok)))),
                ),
              ),
            ),
          ),
        ),
      ),
    )
