-- ===== src/Cli/Wav.antt =====
-- `write_wav` of cli/eloquence.c on a machine that stores the low byte first; a sample is its 16-bit pattern.
pub mod RoundTrip
use eloquence.Base.{
  ℕ, ◌+◌, ◌*◌, ◌/◌, ◌%◌, Bool, List, [], ◌∷◌, ◌++◌, length, if◌then◌else◌, minus_one, add32, codes,
}

abbrev pub le32 : ℕ → List ℕ
le32 v = (v % 256) ∷ (v / 256 % 256) ∷ (v / 65_536 % 256) ∷ (v / 16_777_216 % 256) ∷ []

abbrev pub le16 : ℕ → List ℕ
le16 v = (v % 256) ∷ (v / 256 % 256) ∷ []

-- `wav_header_t`, field by field; there is no padding between them.
unfoldable pub wav_header : ℕ → ℕ → List ℕ
wav_header num_samples sample_rate =
    let data_size = num_samples * 2 % 4_294_967_296 in
    codes "RIFF"
    ++ (le32 (add32 36 data_size)
        ++ (codes "WAVE"
            ++ (codes "fmt "
                ++ (le32 16
                    ++ (le16 1
                        ++ (le16 1
                            ++ (le32 sample_rate
                                ++ (le32 (sample_rate * 2 % 4_294_967_296)
                                    ++ (le16 2
                                        ++ (le16 16 ++ (codes "data" ++ le32 data_size)))))))))))

unfoldable pub pcm_bytes : List ℕ → List ℕ
pcm_bytes [] = []
pcm_bytes (s ∷ ss) = le16 s ++ pcm_bytes ss

-- The value, and the bytes of the file if it can be opened; `fwrite` is taken to succeed.
unfoldable pub write_wav : Bool → List ℕ → ℕ → ℕ × List ℕ
write_wav opened pcm sample_rate =
    if opened then (0, wav_header (length pcm) sample_rate ++ pcm_bytes pcm) else (minus_one, [])
