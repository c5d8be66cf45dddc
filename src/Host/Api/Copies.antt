-- ===== src/Host/Api/Copies.antt =====
-- The texts that host/shim_libeci.c copies into buffers of a fixed size.
use eloquence.Base.{ℕ, ◌+◌, ◌-◌, ◌<◌, ◌≤◌, ◌≡◌, List, arith, length}
use eloquence.Wire.Function.{max_string_len}
use eloquence.Host.Api.Remote.{Copy, copy_upto}
use eloquence.Host.Api.Synthesis.{phoneme_copy}
use eloquence.Host.Api.Voice.{voice_name_length}
use eloquence.Host.Api.Lookup.{dict_copy, dict_buf_size}

-- The copy reads no byte behind its source, and with its NUL it writes at most `cap` bytes.
abbrev pub Fits : ℕ → Copy → Type 0
Fits cap w = (w.count ≤ length w.source) × (w.count < cap)

copy_upto-Fits : (limit : ℕ) (s : List ℕ) → Fits (limit + 1) (copy_upto limit s)
copy_upto-Fits limit s = ground arith

phoneme_copy-Fits :
    (size : ℕ) (s : List ℕ) → 0 < size → size < 2_147_483_648 → Fits size (phoneme_copy size s)
phoneme_copy-Fits size s h k = ground arith

-- Whatever text a reply carries, each copy reads only the text and writes within its buffer: a voice's name
-- 31 bytes, a dictionary's text 4096, a filtered text 64 KiB, and phonemes the application's size, for a size
-- that is a positive `int`.
pub copies-Fits :
    (s : List ℕ) (size : ℕ)
    → 0 < size
    → size < 2_147_483_648
    → Fits 31 (copy_upto voice_name_length s)
      × Fits dict_buf_size (dict_copy s)
      × Fits max_string_len (copy_upto (max_string_len - 1) s)
      × Fits size (phoneme_copy size s)
copies-Fits s size h k = (
  copy_upto-Fits voice_name_length s,
  copy_upto-Fits 4095 s,
  copy_upto-Fits (max_string_len - 1) s,
  phoneme_copy-Fits size s h k,
)

-- With a negative size, which is compared as a `uint32_t`, `eciGeneratePhonemes` copies the whole text, which
-- is never longer than 64 KiB.
pub phoneme_copy_negative :
    (size : ℕ) (s : List ℕ)
    → 2_147_483_648 ≤ size
    → length s ≤ max_string_len
    → (phoneme_copy size s).count ≡ length s
phoneme_copy_negative size s h k = ground arith

-- With a size of 0 `eciGeneratePhonemes` copies 2 ^ 32 - 1 bytes, whatever the text is.
pub phoneme_copy_zero : (s : List ℕ) → (phoneme_copy 0 s).count ≡ 4_294_967_295
phoneme_copy_zero s = ground arith
