-- ===== src/Host/Api/Dict.antt =====
-- The dictionary functions of the ECI interface, host/shim_libeci.c.
use eloquence.Base.{ℕ, Option, List, [], ◌∷◌}
use eloquence.Wire.Function
use eloquence.Wire.Function.{max_string_len, fn_id}
use eloquence.Wire.Encode.{int32, handle, string_or_null}
use eloquence.Host.Api.Remote.{Remote, value_of, told, ask, with_answer, handle_in}

unfoldable pub eci_set_dict : ℕ → ℕ → Remote ℕ
eci_set_dict h d = value_of Function.eci_set_dict (handle h ∷ handle d ∷ [])

unfoldable pub eci_load_dict : ℕ → ℕ → ℕ → Option (List ℕ) → Remote ℕ
eci_load_dict h d i s =
    value_of Function.eci_load_dict (handle h ∷ handle d ∷ int32 i ∷ string_or_null s ∷ [])

unfoldable pub eci_save_dict : ℕ → ℕ → ℕ → Option (List ℕ) → Remote ℕ
eci_save_dict h d i s =
    value_of Function.eci_save_dict (handle h ∷ handle d ∷ int32 i ∷ string_or_null s ∷ [])

unfoldable pub eci_update_dict : ℕ → ℕ → ℕ → Option (List ℕ) → Option (List ℕ) → Remote ℕ
eci_update_dict h d i s t =
    value_of Function.eci_update_dict
      (handle h ∷ handle d ∷ int32 i ∷ string_or_null s ∷ string_or_null t ∷ [])

unfoldable pub eci_update_dict_a : ℕ → ℕ → ℕ → Option (List ℕ) → Option (List ℕ) → ℕ → Remote ℕ
eci_update_dict_a h d i s t j =
    value_of Function.eci_update_dict_a
      (handle h ∷ handle d ∷ int32 i ∷ string_or_null s ∷ string_or_null t ∷ int32 j ∷ [])

unfoldable pub eci_new_dict : ℕ → Remote ℕ
eci_new_dict h junk conn =
    with_answer (λ a. handle_in a.extra) (ask Function.eci_new_dict (handle h ∷ []) junk conn)

unfoldable pub eci_get_dict : ℕ → Remote ℕ
eci_get_dict h junk conn =
    with_answer (λ a. handle_in a.extra) (ask Function.eci_get_dict (handle h ∷ []) junk conn)

unfoldable pub eci_delete_dict : ℕ → ℕ → Remote ℕ
eci_delete_dict h d = told Function.eci_delete_dict (handle h ∷ handle d ∷ []) 0
