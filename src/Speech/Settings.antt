-- ===== src/Speech/Settings.antt =====
-- The settings of spd/sd_eloquence.c: what the configuration file gives, and what `module_set` changes.
pub mod ConfigFile
pub mod Set
pub mod Invariant
pub mod Scales
use eloquence.Base.{
  ℕ, Bool, true, false, Option, none, some, List, [], ◌∷◌, less, if◌then◌else◌, ◌==◌, codes,
}

-- The `cfg_` variables.
pub record Config : Type 0 where
  pub sample_rate : ℕ
  pub default_voice : ℕ
  pub pitch : ℕ
  pub speed : ℕ
  pub volume : ℕ
  pub dictionary : ℕ
  pub synthmode : ℕ
  pub debug : ℕ

abbrev pub initial_config : Config
initial_config = record {
  sample_rate = 1;
  default_voice = 0;
  pitch = 65;
  speed = 50;
  volume = 90;
  dictionary = 0;
  synthmode = 1;
  debug = 0;
}

-- The `g_` variables, of which the list of voices is there or not.
pub record State : Type 0 where
  pub cfg : Config
  pub eci : ℕ
  pub stop : Bool
  pub sample_rate_hz : ℕ
  pub current_voice : ℕ
  pub eci_speed : ℕ
  pub eci_pitch : ℕ
  pub eci_volume : ℕ
  pub voices : Option (List (List ℕ))

abbrev pub initial_state : State
initial_state = record {
  cfg = initial_config;
  eci = 0;
  stop = false;
  sample_rate_hz = 11_025;
  current_voice = 0;
  eci_speed = 50;
  eci_pitch = 65;
  eci_volume = 90;
  voices = none;
}

abbrev pub voice_names : List (List ℕ)
voice_names =
    codes "Reed"
    ∷ codes "Shelley"
    ∷ codes "Bobby"
    ∷ codes "Rocko"
    ∷ codes "Glen"
    ∷ codes "Sandy"
    ∷ codes "Grandma"
    ∷ codes "Grandpa"
    ∷ []

abbrev pub sample_rate_to_hz : ℕ → ℕ
sample_rate_to_hz idx = if idx == 0 then 8000 else if idx == 2 then 22_050 else 11_025

-- `SPDVoiceType`, of which the module knows eight.
pub data VoiceType : Type 0 where
  male1 male2 male3 female1 female2 female3 child_male child_female other_voice : VoiceType

abbrev pub spd_voice_to_eci : VoiceType → ℕ
spd_voice_to_eci male1 = 0
spd_voice_to_eci male2 = 3
spd_voice_to_eci male3 = 4
spd_voice_to_eci female1 = 1
spd_voice_to_eci female2 = 5
spd_voice_to_eci female3 = 6
spd_voice_to_eci child_male = 2
spd_voice_to_eci child_female = 2
spd_voice_to_eci other_voice = 0

-- `clamp` on `int`.
abbrev pub clamp : ℕ → ℕ → ℕ → ℕ
clamp val lo hi = if less val lo then lo else if less hi val then hi else val
