-- ===== src/Host/Api/Params.antt =====
-- The parameter functions of the ECI interface, host/shim_libeci.c.
use eloquence.Base.{ℕ, [], ◌∷◌}
use eloquence.Wire.Function
use eloquence.Wire.Function.{max_string_len, fn_id}
use eloquence.Wire.Encode.{int32, handle}
use eloquence.Host.Api.Remote.{Remote, value_of}

unfoldable pub eci_get_param : ℕ → ℕ → Remote ℕ
eci_get_param h i = value_of Function.eci_get_param (handle h ∷ int32 i ∷ [])

unfoldable pub eci_set_param : ℕ → ℕ → ℕ → Remote ℕ
eci_set_param h i j = value_of Function.eci_set_param (handle h ∷ int32 i ∷ int32 j ∷ [])

unfoldable pub eci_get_default_param : ℕ → Remote ℕ
eci_get_default_param i = value_of Function.eci_get_default_param (int32 i ∷ [])

unfoldable pub eci_set_default_param : ℕ → ℕ → Remote ℕ
eci_set_default_param i j = value_of Function.eci_set_default_param (int32 i ∷ int32 j ∷ [])
