-- ===== src/Host/Api/Filter.antt =====
-- The filter functions of the ECI interface, host/shim_libeci.c.
use eloquence.Base.{ℕ, Bool, ◌-◌, Option, List, [], ◌∷◌}
use eloquence.Wire.Function
use eloquence.Wire.Function.{max_string_len, fn_id}
use eloquence.Wire.Encode.{int32, uint32, handle, string_or_null}
use eloquence.Host.Api.Remote.{
  Remote, value_of, told, ask, with_answer, handle_in, Copy, copy_upto, copied,
}

unfoldable pub eci_activate_filter : ℕ → ℕ → Remote ℕ
eci_activate_filter h d = value_of Function.eci_activate_filter (handle h ∷ handle d ∷ [])

unfoldable pub eci_deactivate_filter : ℕ → ℕ → Remote ℕ
eci_deactivate_filter h d = value_of Function.eci_deactivate_filter (handle h ∷ handle d ∷ [])

unfoldable pub eci_update_filter : ℕ → ℕ → Option (List ℕ) → Option (List ℕ) → Remote ℕ
eci_update_filter h d s t =
    value_of Function.eci_update_filter
      (handle h ∷ handle d ∷ string_or_null s ∷ string_or_null t ∷ [])

unfoldable pub eci_new_filter : ℕ → ℕ → ℕ → Remote ℕ
eci_new_filter h filter_num global junk conn =
    with_answer (λ a. handle_in a.extra)
      (ask Function.eci_new_filter (handle h ∷ uint32 filter_num ∷ int32 global ∷ []) junk conn)

unfoldable pub eci_delete_filter : ℕ → ℕ → Remote ℕ
eci_delete_filter h d = told Function.eci_delete_filter (handle h ∷ handle d ∷ []) 0

-- `filtered_buf` has `MAX_STRING_LEN` bytes.
unfoldable pub eci_get_filtered_text : ℕ → ℕ → Option (List ℕ) → Bool → Remote (ℕ × Option Copy)
eci_get_filtered_text h d input has_pointer junk conn =
    with_answer (λ a. (a.rv, copied has_pointer (copy_upto (max_string_len - 1)) a.extra))
      (ask Function.eci_get_filtered_text (handle h ∷ handle d ∷ string_or_null input ∷ []) junk
        conn)
