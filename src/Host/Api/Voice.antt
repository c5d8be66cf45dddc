-- ===== src/Host/Api/Voice.antt =====
-- The voice functions of the ECI interface, host/shim_libeci.c.
use eloquence.Base.{ℕ, Bool, Option, List, [], ◌∷◌}
use eloquence.Wire.Function
use eloquence.Wire.Function.{max_string_len, fn_id}
use eloquence.Wire.Encode.{int32, handle, string_or_null}
use eloquence.Host.Api.Remote.{Remote, value_of, ask, with_answer, Copy, copy_upto, copied}

unfoldable pub eci_copy_voice : ℕ → ℕ → ℕ → Remote ℕ
eci_copy_voice h i j = value_of Function.eci_copy_voice (handle h ∷ int32 i ∷ int32 j ∷ [])

unfoldable pub eci_set_voice_name : ℕ → ℕ → Option (List ℕ) → Remote ℕ
eci_set_voice_name h i s =
    value_of Function.eci_set_voice_name (handle h ∷ int32 i ∷ string_or_null s ∷ [])

unfoldable pub eci_get_voice_param : ℕ → ℕ → ℕ → Remote ℕ
eci_get_voice_param h i j =
    value_of Function.eci_get_voice_param (handle h ∷ int32 i ∷ int32 j ∷ [])

unfoldable pub eci_set_voice_param : ℕ → ℕ → ℕ → ℕ → Remote ℕ
eci_set_voice_param h i j k =
    value_of Function.eci_set_voice_param (handle h ∷ int32 i ∷ int32 j ∷ int32 k ∷ [])

abbrev pub voice_name_length : ℕ
voice_name_length = 30

unfoldable pub eci_get_voice_name : ℕ → ℕ → Bool → Remote (ℕ × Option Copy)
eci_get_voice_name h voice has_buffer junk conn =
    with_answer (λ a. (a.rv, copied has_buffer (copy_upto voice_name_length) a.extra))
      (ask Function.eci_get_voice_name (handle h ∷ int32 voice ∷ []) junk conn)

-- `VoiceSystemError`: both functions are stubs.
abbrev pub voice_system_error : ℕ
voice_system_error = 1

unfoldable pub eci_register_voice : ℕ → ℕ → ℕ
eci_register_voice h voice = voice_system_error

unfoldable pub eci_unregister_voice : ℕ → ℕ → ℕ
eci_unregister_voice h voice = voice_system_error
