-- ===== src/Tests/Cli.antt =====
-- Runs of the command line program.
use eloquence.Base.{
  ℕ, ◌+◌, ◌≡◌, refl, List, [], ◌∷◌, ◌++◌, some, none, true, false, arith, codes, length, inl, inr,
  replicate, length-replicate,
}
use eloquence.Cli.Capture.{Pcm, initial_pcm}
use eloquence.Cli.Capture.Collect.{PcmOk, collect, collect_lem, all_samples}
use eloquence.Cli.Wav.{write_wav}
use eloquence.Cli.Wav.RoundTrip.{read_wav, read_wav-write_wav}
use eloquence.Cli.Input.{join_args}
use eloquence.Cli.Input.Join.{join_args_overflows}
use eloquence.Cli.Program
use eloquence.Cli.Program.{Opt, Options, defaults, World, Step, main, speak, sample_rate_of}
use eloquence.Cli.Program.Balance.{alive, main-Balanced}
use eloquence.Cli.Program.Output.{speak-read_wav}

abbrev some_samples : List ℕ
some_samples = 1 ∷ 65_535 ∷ 300 ∷ []

initial_pcm-PcmOk : PcmOk initial_pcm
initial_pcm-PcmOk = record { len = refl; fits = omega arith; cap = omega arith; start = inl refl }

abbrev two_callbacks : List (List ℕ × ℕ)
two_callbacks = (some_samples, 2) ∷ (some_samples, 3) ∷ []

collect_lem_example :
    (p : Pcm) × (collect two_callbacks initial_pcm ≡ some p)
    × (p.samples ≡ [] ++ all_samples two_callbacks)
    × PcmOk p
collect_lem_example =
    collect_lem two_callbacks initial_pcm initial_pcm-PcmOk (ground arith) (omega arith)

read_wav-write_wav_example :
    read_wav (write_wav true some_samples 11_025).1 ≡ some (11_025, some_samples)
read_wav-write_wav_example =
    read_wav-write_wav some_samples 11_025 (ground arith) (omega arith) (omega arith)

abbrev some_pcm : Pcm
some_pcm = record { samples = some_samples; len = 3; cap = 65_536 }

abbrev some_world : World
some_world = record {
  args = codes "good" ∷ codes "day" ∷ [];
  input = none;
  handle = 1;
  sr_idx = 1;
  added = true;
  synthesized = true;
  synchronized = true;
  pcm = some_pcm;
  writable = true;
}

main-Balanced_example :
    alive 1 (main (Program.opt_voice (codes "3") ∷ []) some_world).1 false ≡ some false
main-Balanced_example = main-Balanced (Program.opt_voice (codes "3") ∷ []) some_world

speak-read_wav_example :
    (file : List ℕ) × (before : List Step) × ((speak defaults some_world
        (some (codes "good day"))).0
      ≡ 0)
    × ((speak defaults some_world (some (codes "good day"))).1
        ≡ before ++ (Program.wrote (codes "output.wav") file ∷ Program.delete ∷ []))
    × (read_wav file ≡ some (sample_rate_of 1, some_samples))
speak-read_wav_example =
    speak-read_wav defaults some_world (codes "good day") refl refl refl refl refl
      (record { len = refl; fits = omega arith; cap = omega arith; start = inr (omega arith) })
      (ground arith) (omega arith) (omega arith)

abbrev long_arg : List ℕ
long_arg = replicate 70_000 b'a'

join_args_overflows_example :
    length (join_args (long_arg ∷ codes "day" ∷ [])) ≡ 65_535 + length (codes "day")
join_args_overflows_example =
    join_args_overflows long_arg (codes "day") (omega (arith, length-replicate {A = ℕ} 70_000 b'a'))
      (omega arith)
