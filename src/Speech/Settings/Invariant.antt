-- ===== src/Speech/Settings/Invariant.antt =====
-- The settings that spd/sd_eloquence.c hands to the engine stay in range.
use eloquence.Base.{
  ℕ, ◌*◌, ◌%◌, zero, suc, ◌+◌, ◌<◌, ◌≤◌, ◌≡◌, refl, Bool, true, false, Option, none, some, List, [],
  ◌∷◌, arith, length, less, codes, same, same_case, if◌then◌else◌, if-keeps, Bool-cases, inl, inr,
  atoi, half, add32, fgets, some_injective, ◌&&◌, atoi_bound,
}
use eloquence.Speech.Settings.{
  Config, State, VoiceType, male1, male2, male3, female1, female2, female3, child_male,
  child_female, other_voice, clamp, spd_voice_to_eci, voice_names,
}
use eloquence.Speech.Settings.ConfigFile.{
  configure, on_pair, scan_pair, parse_config_line, config_lines, module_config, is_comment,
}
use eloquence.Speech.Settings.Set.{
  eci_speed_of, eci_pitch_of, eci_volume_of, voice_type, voice_index, choose_voice, set_text,
  module_set,
}

pub record ConfigOk (c : Config) : Type 0 where
  pub voice : c.default_voice < 8
  pub pitch : c.pitch ≤ 100
  pub speed : c.speed ≤ 250
  pub volume : c.volume ≤ 100

pub record StateOk (s : State) : Type 0 where
  pub cfg : ConfigOk s.cfg
  pub voice : s.current_voice < 8
  pub pitch : s.eci_pitch ≤ 100
  pub speed : s.eci_speed ≤ 250
  pub volume : s.eci_volume ≤ 100

-- A value that is clamped between 0 and a bound is at most the bound.
clamp_le : (v hi : ℕ) → hi < 2_147_483_648 → v < 4_294_967_296 → clamp v 0 hi ≤ hi
clamp_le v hi h k = ground arith

clamped : (s : List ℕ) (hi : ℕ) → hi < 2_147_483_648 → clamp (atoi s) 0 hi ≤ hi
clamped s hi h = clamp_le (atoi s) hi h (atoi_bound s)

voice_lt : (s : List ℕ) → clamp (atoi s) 0 7 < 8
voice_lt s = let h = clamped s 7 (omega arith) in omega (arith, h)

configure-ConfigOk :
    (key val : List ℕ) (cfg : Config) → ConfigOk cfg → ConfigOk (configure key val cfg)
unfolding configure
configure-ConfigOk key val cfg h =
    if-keeps ConfigOk (same key (codes "EloquenceSampleRate"))
      (record cfg { sample_rate = atoi val }) _
      record { voice = h.voice; pitch = h.pitch; speed = h.speed; volume = h.volume }
      (if-keeps ConfigOk (same key (codes "EloquenceDefaultVoice"))
        (record cfg { default_voice = clamp (atoi val) 0 7 }) _
        record { voice = voice_lt val; pitch = h.pitch; speed = h.speed; volume = h.volume }
        (if-keeps ConfigOk (same key (codes "EloquencePitchBaseline"))
          (record cfg { pitch = clamp (atoi val) 0 100 }) _
          record {
            voice = h.voice;
            pitch = clamped val 100 (omega arith);
            speed = h.speed;
            volume = h.volume;
          }
          (if-keeps ConfigOk (same key (codes "EloquenceSpeed"))
            (record cfg { speed = clamp (atoi val) 0 250 }) _
            record {
              voice = h.voice;
              pitch = h.pitch;
              speed = clamped val 250 (omega arith);
              volume = h.volume;
            }
            (if-keeps ConfigOk (same key (codes "EloquenceVolume"))
              (record cfg { volume = clamp (atoi val) 0 100 }) _
              record {
                voice = h.voice;
                pitch = h.pitch;
                speed = h.speed;
                volume = clamped val 100 (omega arith);
              }
              (if-keeps ConfigOk (same key (codes "EloquenceDictionary"))
                (record cfg { dictionary = atoi val }) _
                record { voice = h.voice; pitch = h.pitch; speed = h.speed; volume = h.volume }
                (if-keeps ConfigOk (same key (codes "EloquenceSynthMode"))
                  (record cfg { synthmode = atoi val }) _
                  record { voice = h.voice; pitch = h.pitch; speed = h.speed; volume = h.volume }
                  (if-keeps ConfigOk (same key (codes "Debug")) (record cfg { debug = atoi val })
                    cfg
                    record { voice = h.voice; pitch = h.pitch; speed = h.speed; volume = h.volume }
                    h)))))))

on_pair-ConfigOk :
    (o : Option (List ℕ × List ℕ)) (cfg : Config) → ConfigOk cfg → ConfigOk (on_pair o cfg)
unfolding on_pair
on_pair-ConfigOk none cfg h = h
on_pair-ConfigOk (some (key, val)) cfg h =
    if-keeps ConfigOk (is_comment key) cfg (configure key val cfg) h
      (configure-ConfigOk key val cfg h)

config_lines-ConfigOk :
    (fuel : ℕ) (file : List ℕ) (cfg : Config) → ConfigOk cfg → ConfigOk (config_lines fuel file cfg)
unfolding config_lines parse_config_line
config_lines-ConfigOk zero file cfg h = h
config_lines-ConfigOk (suc fuel) [] cfg h = h
config_lines-ConfigOk (suc fuel) (c ∷ cs) cfg h =
    let r = fgets 255 (c ∷ cs) in
    config_lines-ConfigOk fuel r.1 (parse_config_line r.0 cfg)
      (on_pair-ConfigOk (scan_pair r.0) cfg h)

-- Whatever a configuration file holds, the voice that it leaves is one of the eight, the pitch and the volume
-- are at most 100, and the speed is at most 250.
pub module_config-ConfigOk :
    (file : Option (List ℕ)) (cfg : Config) → ConfigOk cfg → ConfigOk (module_config file cfg).1
unfolding module_config
module_config-ConfigOk none cfg h = h
module_config-ConfigOk (some file) cfg h = config_lines-ConfigOk (length file) file cfg h

eci_speed_of_le : (v : ℕ) → eci_speed_of v ≤ 250
eci_speed_of_le v = clamp_le (add32 50 (v * 2 % 4_294_967_296)) 250 (omega arith) (omega arith)

eci_pitch_of_le : (v : ℕ) → eci_pitch_of v ≤ 100
eci_pitch_of_le v = clamp_le (add32 50 (half v)) 100 (omega arith) (omega arith)

eci_volume_of_le : (v : ℕ) → eci_volume_of v ≤ 100
eci_volume_of_le v = ground arith

spd_voice_lt : (v : VoiceType) → spd_voice_to_eci v < 8
spd_voice_lt male1 = omega arith
spd_voice_lt male2 = omega arith
spd_voice_lt male3 = omega arith
spd_voice_lt female1 = omega arith
spd_voice_lt female2 = omega arith
spd_voice_lt female3 = omega arith
spd_voice_lt child_male = omega arith
spd_voice_lt child_female = omega arith
spd_voice_lt other_voice = omega arith

voice_index_lt :
    (i j : ℕ) (val : List ℕ) (names : List (List ℕ))
    → voice_index i val names ≡ some j
    → j < i + length names
unfolding voice_index
voice_index_lt i j val [] h = cc
voice_index_lt i j val (name ∷ names) h = elim (Bool-cases (same_case val name)) [
  | inl b ↦ omega (arith, some_injective (rw b at h))
  | inr b ↦ omega (arith, voice_index_lt (suc i) j val names (rw b at h))
]

numbered :
    (v : ℕ) → v < 4_294_967_296 → (less v 8 && (if less v 0 then false else true)) ≡ true → v < 8
numbered v h k = ground arith

choose_voice-StateOk :
    (o : Option ℕ) (val : List ℕ) (s : State)
    → ((j : ℕ) → o ≡ some j → j < 8)
    → StateOk s
    → StateOk (choose_voice o val s).1
unfolding choose_voice
choose_voice-StateOk none val s k h =
    elim (Bool-cases (less (atoi val) 8 && (if less (atoi val) 0 then false else true))) [
      | inl b ↦ rw b record {
        cfg = h.cfg;
        voice = numbered (atoi val) (atoi_bound val) b;
        pitch = h.pitch;
        speed = h.speed;
        volume = h.volume;
      }
      | inr b ↦ rw b h
    ]
choose_voice-StateOk (some i) val s k h = record {
  cfg = h.cfg;
  voice = k i refl;
  pitch = h.pitch;
  speed = h.speed;
  volume = h.volume;
}

if-keeps_state {ℓ} :
    (P : State → Type ℓ) (b : Bool) (x y : ℕ × State) → P x.1 → P y.1 → P (if b then x else y).1
if-keeps_state P true x y h k = h
if-keeps_state P false x y h k = k

-- Whatever is set, the settings stay in range.
pub module_set-StateOk :
    (var val : Option (List ℕ)) (s : State) → StateOk s → StateOk (module_set var val s).1
unfolding module_set set_text
module_set-StateOk none val s h = h
module_set-StateOk (some var) none s h = h
module_set-StateOk (some var) (some val) s h =
    if-keeps_state StateOk (same var (codes "rate"))
      (0, record s { eci_speed = eci_speed_of (atoi val) }) _
      record {
        cfg = h.cfg;
        voice = h.voice;
        pitch = h.pitch;
        speed = eci_speed_of_le (atoi val);
        volume = h.volume;
      }
      (if-keeps_state StateOk (same var (codes "pitch"))
        (0, record s { eci_pitch = eci_pitch_of (atoi val) }) _
        record {
          cfg = h.cfg;
          voice = h.voice;
          pitch = eci_pitch_of_le (atoi val);
          speed = h.speed;
          volume = h.volume;
        }
        (if-keeps_state StateOk (same var (codes "volume"))
          (0, record s { eci_volume = eci_volume_of (atoi val) }) _
          record {
            cfg = h.cfg;
            voice = h.voice;
            pitch = h.pitch;
            speed = h.speed;
            volume = eci_volume_of_le (atoi val);
          }
          (if-keeps_state StateOk (same var (codes "voice"))
            (0, record s { current_voice = spd_voice_to_eci (voice_type val) }) _
            record {
              cfg = h.cfg;
              voice = spd_voice_lt (voice_type val);
              pitch = h.pitch;
              speed = h.speed;
              volume = h.volume;
            }
            (if-keeps_state StateOk (same var (codes "synthesis_voice"))
              (choose_voice (voice_index 0 val voice_names) val s) (0, s)
              (choose_voice-StateOk (voice_index 0 val voice_names) val s
                (λ j e. voice_index_lt 0 j val voice_names e) h)
              h))))
