-- ===== src/Cli/Wav/RoundTrip.antt =====
-- A reader of wave files finds in the file of cli/eloquence.c the rate and the samples that were written.
use eloquence.Base.{
  ℕ, ◌+◌, ◌*◌, ◌/◌, ◌%◌, ◌<◌, ◌≡◌, refl, true, ◌&&◌, All, Option, none, some, List, [], ◌∷◌, length,
  take, drop, get_or, arith, ◌==◌, if◌then◌else◌, ==-refl, codes, same, IsU16, IsU32, add32,
}
use eloquence.Cli.Wav.{wav_header, pcm_bytes, write_wav}

abbrev pub at32 : List ℕ → ℕ → ℕ
at32 bytes i =
    get_or bytes i 0
    + get_or bytes (i + 1) 0 * 256
    + get_or bytes (i + 2) 0 * 65_536
    + get_or bytes (i + 3) 0 * 16_777_216

abbrev pub at16 : List ℕ → ℕ → ℕ
at16 bytes i = get_or bytes i 0 + get_or bytes (i + 1) 0 * 256

pub samples_in : List ℕ → List ℕ
samples_in [] = []
samples_in (a ∷ []) = []
samples_in (a ∷ b ∷ rest) = (a + b * 256) ∷ samples_in rest

-- The rate and the samples of a file of 16-bit samples on one channel, whose sizes and rates are right.
unfoldable pub read_wav : List ℕ → Option (ℕ × List ℕ)
read_wav bytes =
    if same (take 4 bytes) (codes "RIFF")
      && same (take 8 (drop 8 bytes)) (codes "WAVEfmt ")
      && (at32 bytes 16 == 16)
      && (at16 bytes 20 == 1)
      && (at16 bytes 22 == 1)
      && (at32 bytes 28 == at32 bytes 24 * 2)
      && (at16 bytes 32 == 2)
      && (at16 bytes 34 == 16)
      && same (take 4 (drop 36 bytes)) (codes "data")
      && (at32 bytes 4 + 8 == length bytes)
      && (at32 bytes 40 + 44 == length bytes)
    then some (at32 bytes 24, samples_in (drop 44 bytes))
    else none

length-pcm_bytes : (pcm : List ℕ) → length (pcm_bytes pcm) ≡ length pcm * 2
unfolding pcm_bytes
length-pcm_bytes [] = refl
length-pcm_bytes (s ∷ ss) = omega (arith, length-pcm_bytes ss)

samples_in-pcm_bytes : (pcm : List ℕ) → All IsU16 pcm → samples_in (pcm_bytes pcm) ≡ pcm
unfolding pcm_bytes samples_in
samples_in-pcm_bytes [] h = refl
samples_in-pcm_bytes (s ∷ ss) h =
    let e : s % 256 + s / 256 % 256 * 256 ≡ s = omega (arith, h.0) in
    rw (e, samples_in-pcm_bytes ss h.1)

le32_lem :
    (v : ℕ)
    → IsU32 v
    → v % 256 + v / 256 % 256 * 256 + v / 65_536 % 256 * 65_536 + v / 16_777_216 % 256 * 16_777_216
      ≡ v
le32_lem v h = omega arith

-- What is written is read again, with its rate, if the samples have 16 bits, the sizes fit the header's 32, and
-- the rate is below 2 ^ 31.
pub read_wav-write_wav :
    (pcm : List ℕ) (rate : ℕ)
    → All IsU16 pcm
    → length pcm < 1_073_741_824
    → rate < 2_147_483_648
    → read_wav (write_wav true pcm rate).1 ≡ some (rate, pcm)
unfolding read_wav write_wav wav_header same
read_wav-write_wav pcm rate h small k =
    let n = length-pcm_bytes pcm in
    let size : length pcm * 2 % 4_294_967_296 ≡ length pcm * 2 = omega arith in
    let file : add32 36 (length pcm * 2) ≡ 36 + length pcm * 2 = omega arith in
    let twice : rate * 2 % 4_294_967_296 ≡ rate * 2 = omega arith in
    rw
      (
        size,
        file,
        twice,
        le32_lem (36 + length pcm * 2) (omega arith),
        le32_lem rate (omega arith),
        le32_lem (rate * 2) (omega arith),
        le32_lem (length pcm * 2) (omega arith),
        n,
        ==-refl,
        samples_in-pcm_bytes pcm h,
      )
      (ground arith)
