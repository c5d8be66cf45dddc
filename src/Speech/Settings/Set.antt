-- ===== src/Speech/Settings/Set.antt =====
-- `module_set` of spd/sd_eloquence.c, with the functions that only set a flag.
use eloquence.Base.{
  ℕ, suc, true, false, ◌&&◌, ◌*◌, ◌%◌, Option, none, some, List, [], ◌∷◌, if◌then◌else◌, codes,
  same, same_case, atoi, less, half, add32, minus_one,
}
use eloquence.Speech.Settings.{
  State, VoiceType, male1, male2, male3, female1, female2, female3, child_male, child_female,
  spd_voice_to_eci, clamp, voice_names,
}

-- What the scales of the dispatcher come to, on `int`.
abbrev pub eci_speed_of : ℕ → ℕ
eci_speed_of spd_rate = clamp (add32 50 (spd_rate * 2 % 4_294_967_296)) 0 250

abbrev pub eci_pitch_of : ℕ → ℕ
eci_pitch_of spd_pitch = clamp (add32 50 (half spd_pitch)) 0 100

abbrev pub eci_volume_of : ℕ → ℕ
eci_volume_of spd_vol = clamp (half (add32 spd_vol 100)) 0 100

unfoldable pub voice_type : List ℕ → VoiceType
voice_type val =
    if same val (codes "MALE1")
    then male1
    else if same val (codes "MALE2")
    then male2
    else if same val (codes "MALE3")
    then male3
    else if same val (codes "FEMALE1")
    then female1
    else if same val (codes "FEMALE2")
    then female2
    else if same val (codes "FEMALE3")
    then female3
    else if same val (codes "CHILD_MALE")
    then child_male
    else if same val (codes "CHILD_FEMALE")
    then child_female
    else male1

-- The loop over the names, from index `i` on.
unfoldable pub voice_index : ℕ → List ℕ → List (List ℕ) → Option ℕ
voice_index i val [] = none
voice_index i val (name ∷ names) =
    let rest = voice_index (suc i) val names in if same_case val name then some i else rest

-- A name that is none of the voices is read as a number.
abbrev pub numbered_voice : List ℕ → State → ℕ × State
numbered_voice val s =
    let v = atoi val in
    if less v 8 && (if less v 0 then false else true)
    then (0, record s { current_voice = v })
    else (minus_one, s)

unfoldable pub choose_voice : Option ℕ → List ℕ → State → ℕ × State
choose_voice none val s = numbered_voice val s
choose_voice (some i) val s = (0, record s { current_voice = i })

unfoldable pub set_text : List ℕ → List ℕ → State → ℕ × State
set_text var val s =
    if same var (codes "rate")
    then (0, record s { eci_speed = eci_speed_of (atoi val) })
    else if same var (codes "pitch")
    then (0, record s { eci_pitch = eci_pitch_of (atoi val) })
    else if same var (codes "volume")
    then (0, record s { eci_volume = eci_volume_of (atoi val) })
    else if same var (codes "voice")
    then (0, record s { current_voice = spd_voice_to_eci (voice_type val) })
    else if same var (codes "synthesis_voice")
    then choose_voice (voice_index 0 val voice_names) val s
    else (0, s)

-- A NULL name or value is refused; other names are accepted and ignored.
unfoldable pub module_set : Option (List ℕ) → Option (List ℕ) → State → ℕ × State
module_set none val s = (minus_one, s)
module_set (some var) none s = (minus_one, s)
module_set (some var) (some val) s = set_text var val s

unfoldable pub module_loglevel_set : Option (List ℕ) → State → ℕ × State
module_loglevel_set none s = (0, s)
module_loglevel_set (some val) s = (0, record s { cfg = record s.cfg { debug = atoi val } })

unfoldable pub module_stop : State → ℕ × State
module_stop s = (0, record s { stop = true })

unfoldable pub module_pause : State → ℕ × State
module_pause s = (0, record s { stop = true })
