-- ===== src/Speech/Settings/ConfigFile.antt =====
-- `parse_config_line` and `module_config` of spd/sd_eloquence.c.
use eloquence.Base.{
  ℕ, zero, suc, Bool, false, ◌||◌, Option, none, some, List, [], ◌∷◌, length, if◌then◌else◌, ◌==◌,
  codes, same, is_space, skip_space, atoi, fgets,
}
use eloquence.Speech.Settings.{Config, clamp}

-- What `%63s` reads: at most so many characters that are no space; and what is left.
unfoldable pub word_of : ℕ → List ℕ → List ℕ × List ℕ
word_of zero s = ([], s)
word_of (suc n) [] = ([], [])
word_of (suc n) (c ∷ cs) =
    let r = word_of n cs in if is_space c then ([], c ∷ cs) else (c ∷ r.0, r.1)

-- `sscanf(line, "%63s %63s", key, val)`, where it gives 2.
unfoldable pub scan_pair : List ℕ → Option (List ℕ × List ℕ)
scan_pair line =
    let key = word_of 63 (skip_space line) in
    let val = word_of 63 (skip_space key.1) in
    if (length key.0 == 0) || (length val.0 == 0) then none else some (key.0, val.0)

-- The chain of comparisons with the key.
unfoldable pub configure : List ℕ → List ℕ → Config → Config
configure key val cfg =
    if same key (codes "EloquenceSampleRate")
    then record cfg { sample_rate = atoi val }
    else if same key (codes "EloquenceDefaultVoice")
    then record cfg { default_voice = clamp (atoi val) 0 7 }
    else if same key (codes "EloquencePitchBaseline")
    then record cfg { pitch = clamp (atoi val) 0 100 }
    else if same key (codes "EloquenceSpeed")
    then record cfg { speed = clamp (atoi val) 0 250 }
    else if same key (codes "EloquenceVolume")
    then record cfg { volume = clamp (atoi val) 0 100 }
    else if same key (codes "EloquenceDictionary")
    then record cfg { dictionary = atoi val }
    else if same key (codes "EloquenceSynthMode")
    then record cfg { synthmode = atoi val }
    else if same key (codes "Debug")
    then record cfg { debug = atoi val }
    else cfg

abbrev pub is_comment : List ℕ → Bool
is_comment [] = false
is_comment (c ∷ cs) = c == b'#'

unfoldable pub on_pair : Option (List ℕ × List ℕ) → Config → Config
on_pair none cfg = cfg
on_pair (some (key, val)) cfg = if is_comment key then cfg else configure key val cfg

unfoldable pub parse_config_line : List ℕ → Config → Config
parse_config_line line cfg = on_pair (scan_pair line) cfg

-- The loop over the file by `fgets` into 256 bytes; each round reads at least a byte, so that the file's
-- length is fuel enough.
unfoldable pub config_lines : ℕ → List ℕ → Config → Config
config_lines zero file cfg = cfg
config_lines (suc fuel) [] cfg = cfg
config_lines (suc fuel) (c ∷ cs) cfg =
    let r = fgets 255 (c ∷ cs) in config_lines fuel r.1 (parse_config_line r.0 cfg)

-- `module_config` on the file's bytes, none where there is no file; it always returns 0.
unfoldable pub module_config : Option (List ℕ) → Config → ℕ × Config
module_config none cfg = (0, cfg)
module_config (some file) cfg = (0, config_lines (length file) file cfg)
