-- ===== src/Host/Api/Synthesis.antt =====
-- The synthesis functions of the ECI interface, host/shim_libeci.c.
use eloquence.Base.{ℕ, Bool, Option, List, [], ◌∷◌, length, ltb, if◌then◌else◌, sub32}
use eloquence.Wire.Function
use eloquence.Wire.Function.{max_string_len, fn_id}
use eloquence.Wire.Encode.{int32, handle, string_or_null}
use eloquence.Host.Api.Remote.{Remote, value_of, ask, with_answer, Copy, copied}

unfoldable pub eci_add_text : ℕ → Option (List ℕ) → Remote ℕ
eci_add_text h s = value_of Function.eci_add_text (handle h ∷ string_or_null s ∷ [])

unfoldable pub eci_insert_index : ℕ → ℕ → Remote ℕ
eci_insert_index h i = value_of Function.eci_insert_index (handle h ∷ int32 i ∷ [])

unfoldable pub eci_synthesize : ℕ → Remote ℕ
eci_synthesize h = value_of Function.eci_synthesize (handle h ∷ [])

unfoldable pub eci_synthesize_file : ℕ → Option (List ℕ) → Remote ℕ
eci_synthesize_file h s = value_of Function.eci_synthesize_file (handle h ∷ string_or_null s ∷ [])

unfoldable pub eci_clear_input : ℕ → Remote ℕ
eci_clear_input h = value_of Function.eci_clear_input (handle h ∷ [])

unfoldable pub eci_get_index : ℕ → Remote ℕ
eci_get_index h = value_of Function.eci_get_index (handle h ∷ [])

unfoldable pub eci_stop : ℕ → Remote ℕ
eci_stop h = value_of Function.eci_stop (handle h ∷ [])

unfoldable pub eci_speaking : ℕ → Remote ℕ
eci_speaking h = value_of Function.eci_speaking (handle h ∷ [])

unfoldable pub eci_synchronize : ℕ → Remote ℕ
eci_synchronize h = value_of Function.eci_synchronize (handle h ∷ [])

unfoldable pub eci_speak_text : Option (List ℕ) → ℕ → Remote ℕ
eci_speak_text s i = value_of Function.eci_speak_text (string_or_null s ∷ int32 i ∷ [])

unfoldable pub eci_speak_text_ex : Option (List ℕ) → ℕ → ℕ → Remote ℕ
eci_speak_text_ex s i j =
    value_of Function.eci_speak_text_ex (string_or_null s ∷ int32 i ∷ int32 j ∷ [])

-- `slen < (uint32_t)iSize ? slen : (uint32_t)(iSize - 1)`.
abbrev pub phoneme_copy : ℕ → List ℕ → Copy
phoneme_copy size s = record {
  source = s;
  count = if ltb (length s) size then length s else sub32 size 1;
}

unfoldable pub eci_generate_phonemes : ℕ → ℕ → Bool → Remote (ℕ × Option Copy)
eci_generate_phonemes h size has_buffer junk conn =
    with_answer (λ a. (a.rv, copied has_buffer (phoneme_copy size) a.extra))
      (ask Function.eci_generate_phonemes (handle h ∷ int32 size ∷ []) junk conn)
