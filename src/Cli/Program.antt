-- ===== src/Cli/Program.antt =====
-- `main` of cli/eloquence.c: the options, and what is asked of the engine. What `getopt_long` gives, the files,
-- and the engine's answers are arguments.
pub mod Balance
pub mod Output
use eloquence.Base.{
  ℕ, Bool, true, false, ◌&&◌, not, Option, none, some, List, [], ◌∷◌, ◌++◌, length, ◌==◌,
  if◌then◌else◌, less, minus_one, atoi, codes,
}
use eloquence.Cli.Capture.{Pcm}
use eloquence.Cli.Wav.{write_wav}
use eloquence.Cli.Input.{join_args, read_text}

-- An option that `getopt_long` gives, with its argument.
pub data Opt : Type 0 where
  opt_text opt_file opt_output opt_voice opt_speed opt_pitch opt_rate : List ℕ → Opt
  opt_list_voices opt_version opt_help opt_unknown : Opt

pub record Options : Type 0 where
  pub text : Option (List ℕ)
  pub input_file : Option (List ℕ)
  pub output_file : List ℕ
  pub voice : ℕ
  pub speed : ℕ
  pub pitch : ℕ
  pub rate : ℕ
  pub list_voices : Bool
  pub show_version : Bool

abbrev pub defaults : Options
defaults = record {
  text = none;
  input_file = none;
  output_file = codes "output.wav";
  voice = minus_one;
  speed = minus_one;
  pitch = minus_one;
  rate = minus_one;
  list_voices = false;
  show_version = false;
}

-- The program ends with a status, or goes on.
pub data Parsed : Type 0 where
  exit : ℕ → Parsed
  go_on : Options → Parsed

-- The loop over the options.
pub parse_options : List Opt → Options → Parsed
parse_options [] o = go_on o
parse_options (opt_text s ∷ rest) o = parse_options rest (record o { text = some s })
parse_options (opt_file s ∷ rest) o = parse_options rest (record o { input_file = some s })
parse_options (opt_output s ∷ rest) o = parse_options rest (record o { output_file = s })
parse_options (opt_voice s ∷ rest) o = parse_options rest (record o { voice = atoi s })
parse_options (opt_speed s ∷ rest) o = parse_options rest (record o { speed = atoi s })
parse_options (opt_pitch s ∷ rest) o = parse_options rest (record o { pitch = atoi s })
parse_options (opt_rate s ∷ rest) o = parse_options rest (record o { rate = atoi s })
parse_options (opt_list_voices ∷ rest) o = parse_options rest (record o { list_voices = true })
parse_options (opt_version ∷ rest) o = parse_options rest (record o { show_version = true })
parse_options (opt_help ∷ rest) o = exit 0
parse_options (opt_unknown ∷ rest) o = exit 1

-- What the program asks of the engine, and the file that it writes.
pub data Step : Type 0 where
  new : Step
  delete : Step
  version : Step
  get_voice_name : ℕ → Step
  get_voice_param : ℕ → ℕ → Step
  copy_voice : ℕ → ℕ → Step
  set_voice_param : ℕ → ℕ → ℕ → Step
  set_param : ℕ → ℕ → Step
  get_param : ℕ → Step
  set_output_buffer : ℕ → Step
  register_callback : Step
  add_text : List ℕ → Step
  synthesize : Step
  synchronize : Step
  wrote : List ℕ → List ℕ → Step

-- What the program finds: the remaining arguments, the input (none where the file cannot be opened), the
-- handle of `eciNew`, the index of the sample rate, whether the three calls succeed, what the callback has
-- captured by the end, and whether the output can be opened.
pub record World : Type 0 where
  pub args : List (List ℕ)
  pub input : Option (List ℕ)
  pub handle : ℕ
  pub sr_idx : ℕ
  pub added : Bool
  pub synthesized : Bool
  pub synchronized : Bool
  pub pcm : Pcm
  pub writable : Bool

-- The numbers of `eciPitchBaseline`, `eciSpeed` and `eciSampleRate`.
abbrev pub pitch_baseline : ℕ
pitch_baseline = 2

abbrev pub speed_param : ℕ
speed_param = 6

abbrev pub sample_rate_param : ℕ
sample_rate_param = 5

-- Whether an `int` is at least 0.
abbrev pub given : ℕ → Bool
given v = not (less v 0)

abbrev pub sample_rate_of : ℕ → ℕ
sample_rate_of idx = if idx == 0 then 8000 else if idx == 2 then 22_050 else 11_025

-- The text of the options, or the remaining arguments joined.
abbrev pub joined_text : Option (List ℕ) → Option (List ℕ) → List (List ℕ) → Option (List ℕ)
joined_text (some t) file args = some t
joined_text none (some f) args = none
joined_text none none [] = none
joined_text none none (arg ∷ args) = some (join_args (arg ∷ args))

abbrev pub not_empty : List ℕ → Option (List ℕ)
not_empty [] = none
not_empty (c ∷ cs) = some (c ∷ cs)

abbrev pub input_text : Option (List ℕ) → Option (List ℕ)
input_text none = none
input_text (some file) = not_empty (read_text file).text

-- The text that is spoken, `none` where the program ends with status 1.
abbrev pub text_of : Option (List ℕ) → World → Option (List ℕ)
text_of (some t) w = some t
text_of none w = input_text w.input

-- One round of the list of voices.
abbrev pub voice_line : ℕ → List Step
voice_line i =
    get_voice_name i ∷ get_voice_param i speed_param ∷ get_voice_param i pitch_baseline ∷ []

abbrev pub voice_lines : List Step
voice_lines =
    voice_line 0
    ++ (voice_line 1
        ++ (voice_line 2
            ++ (voice_line 3
                ++ (voice_line 4
                    ++ (voice_line 5 ++ (voice_line 6 ++ (voice_line 7 ++ (delete ∷ []))))))))

unfoldable pub list_voices : World → ℕ × List Step
list_voices w = if w.handle == 0 then (1, new ∷ []) else (0, new ∷ voice_lines)

-- The parameters that were asked for.
unfoldable pub settings : Options → List Step
settings o =
    (if given o.voice && less o.voice 8 then copy_voice o.voice 0 ∷ [] else [])
    ++ ((if given o.speed then set_voice_param 0 speed_param o.speed ∷ [] else [])
        ++ ((if given o.pitch then set_voice_param 0 pitch_baseline o.pitch ∷ [] else [])
            ++ (if given o.rate then set_param sample_rate_param o.rate ∷ [] else [])))

-- The file, if there are samples and it can be opened; the status is 0 in any case.
unfoldable pub output : Options → World → List Step
output o w =
    if less 0 w.pcm.len && w.writable
    then wrote o.output_file (write_wav true w.pcm.samples (sample_rate_of w.sr_idx)).1 ∷ []
    else []

-- From `eciAddText` on.
unfoldable pub synthesis : Options → World → List ℕ → ℕ × List Step
unfolding output
synthesis o w text =
    if not w.added
    then (1, add_text text ∷ delete ∷ [])
    else if not w.synthesized
    then (1, add_text text ∷ synthesize ∷ delete ∷ [])
    else if not w.synchronized
    then (1, add_text text ∷ synthesize ∷ synchronize ∷ delete ∷ [])
    else (0, add_text text ∷ synthesize ∷ synchronize ∷ (output o w ++ (delete ∷ [])))

unfoldable pub speak : Options → World → Option (List ℕ) → ℕ × List Step
speak o w none = (1, [])
speak o w (some text) =
    let r = synthesis o w text in
    if w.handle == 0 then (1, new ∷ []) else (
      r.0,
      new
          ∷ (settings o
              ++ (get_param sample_rate_param ∷ set_output_buffer 8192 ∷ register_callback ∷ r.1)),
    )

unfoldable pub run : Options → World → ℕ × List Step
run o w =
    if o.show_version
    then (0, version ∷ [])
    else if o.list_voices
    then list_voices w
    else speak o w (text_of (joined_text o.text o.input_file w.args) w)

abbrev pub run_parsed : Parsed → World → ℕ × List Step
run_parsed (exit n) w = (n, [])
run_parsed (go_on o) w = run o w

-- `main`: its status, and what it did.
unfoldable pub main : List Opt → World → ℕ × List Step
main opts w = run_parsed (parse_options opts defaults) w
