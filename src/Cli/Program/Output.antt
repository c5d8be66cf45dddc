-- ===== src/Cli/Program/Output.antt =====
-- The file that cli/eloquence.c writes.
use eloquence.Base.{
  ℕ, ◌<◌, ◌≡◌, true, false, All, some, List, [], ◌∷◌, ◌++◌, ◌==◌, arith, less, length, IsU16,
  append_assoc,
}
use eloquence.Cli.Capture.Collect.{PcmOk}
use eloquence.Cli.Wav.{write_wav}
use eloquence.Cli.Wav.RoundTrip.{read_wav, read_wav-write_wav}
use eloquence.Cli.Program.{
  Options, Step, wrote, delete, World, output, sample_rate_of, add_text, synthesize, synchronize,
  new, settings, get_param, set_output_buffer, register_callback, synthesis, speak,
}

rate_small : (idx : ℕ) → sample_rate_of idx < 2_147_483_648
rate_small idx = ground arith

-- Where the three calls succeed, samples were captured, and the output can be opened, speaking a text ends with
-- status 0, and the file holds, for a reader of wave files, the captured samples at the rate of the engine.
pub speak-read_wav :
    (o : Options) (w : World) (text : List ℕ)
    → (w.handle == 0) ≡ false
    → w.added ≡ true
    → w.synthesized ≡ true
    → w.synchronized ≡ true
    → w.writable ≡ true
    → PcmOk w.pcm
    → All IsU16 w.pcm.samples
    → 0 < length w.pcm.samples
    → length w.pcm.samples < 1_073_741_824
    → (file : List ℕ) × (before : List Step) × ((speak o w (some text)).0 ≡ 0)
      × ((speak o w (some text)).1 ≡ before ++ (wrote o.output_file file ∷ delete ∷ []))
      × (read_wav file ≡ some (sample_rate_of w.sr_idx, w.pcm.samples))
unfolding speak synthesis output
speak-read_wav o w text there added synthesized synchronized writable ok h pos small =
    let some_ : less 0 w.pcm.len ≡ true = ground (arith, ok.len, ok.fits, ok.cap) in
    let mid =
      get_param 5
      ∷ set_output_buffer 8192
      ∷ register_callback
      ∷ add_text text
      ∷ synthesize
      ∷ synchronize
      ∷ [] in
    (
      (write_wav true w.pcm.samples (sample_rate_of w.sr_idx)).1,
      new ∷ (settings o ++ mid),
      rw (there, added, synthesized, synchronized),
      rw (there, added, synthesized, synchronized, some_, writable, append_assoc (settings o) mid),
      read_wav-write_wav w.pcm.samples (sample_rate_of w.sr_idx) h small (rate_small w.sr_idx),
    )
