-- ===== src/Host/Api/Audio.antt =====
-- The audio functions of the ECI interface, host/shim_libeci.c.
use eloquence.Base.{ℕ, Option, List, [], ◌∷◌}
use eloquence.Wire.Function
use eloquence.Wire.Function.{max_string_len, fn_id}
use eloquence.Wire.Encode.{int32, handle, string_or_null}
use eloquence.Host.Callback.{Callbacks, shim_set_callback, shim_set_output_buffer}
use eloquence.Host.Api.Remote.{Remote, value_of, told}

unfoldable pub eci_set_output_filename : ℕ → Option (List ℕ) → Remote ℕ
eci_set_output_filename h s =
    value_of Function.eci_set_output_filename (handle h ∷ string_or_null s ∷ [])

unfoldable pub eci_set_output_device : ℕ → ℕ → Remote ℕ
eci_set_output_device h i = value_of Function.eci_set_output_device (handle h ∷ int32 i ∷ [])

unfoldable pub eci_pause : ℕ → ℕ → Remote ℕ
eci_pause h i = value_of Function.eci_pause (handle h ∷ int32 i ∷ [])

-- The table of callbacks is changed first, and then the bridge is told.
unfoldable pub eci_set_output_buffer : ℕ → ℕ → ℕ → Callbacks → Callbacks × Remote ℕ
eci_set_output_buffer h size buffer cbs = (
  shim_set_output_buffer cbs h size buffer,
  value_of Function.eci_set_output_buffer (handle h ∷ int32 size ∷ []),
)

unfoldable pub eci_register_callback : ℕ → ℕ → ℕ → Callbacks → Callbacks × Remote (Unit {0})
eci_register_callback h callback p_data cbs = (
  shim_set_callback cbs h callback p_data,
  told Function.eci_register_callback (handle h ∷ []) tt,
)
