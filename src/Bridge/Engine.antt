-- ===== src/Bridge/Engine.antt =====
-- What the bridge calls and does not implement: the ECI library behind `eci_funcs_t`
-- (arm/bridge_dispatch.h), and the C heap. All of it is a parameter. `E` is the state of that
-- outside, pointers are numbers with 0 for NULL, and an `int` is its 32-bit pattern.
use eloquence.Base.{ℕ, List, Option}

-- A `const void *` that the bridge hands over as text: NULL, or the bytes with their final NUL.
abbrev pub Text : Type 0
Text = Option (List ℕ)

-- A text that the engine leaves in a buffer of the bridge, up to its first NUL.
abbrev pub CString : Type 0
CString = List ℕ

-- `eci_funcs_t`: a pointer that `dlsym` may have left NULL is an `Option`. `eciNew` is checked at
-- loading, and `eciDelete` is called without a check. Out parameters are results; of a result that
-- no caller reads only the change of state is left.
pub record EciFuncs (E : Type 0) : Type 0 where
  pub eci_new : E → ℕ × E
  pub eci_new_ex : Option (ℕ → E → ℕ × E)
  pub eci_get_available_languages : Option (List ℕ → ℕ → E → (ℕ × List ℕ × ℕ) × E)
  pub eci_delete : ℕ → E → E
  pub eci_reset : Option (ℕ → E → ℕ × E)
  pub eci_is_being_reentered : Option (ℕ → E → ℕ × E)
  pub eci_version : Option (E → CString × E)
  pub eci_prog_status : Option (ℕ → E → ℕ × E)
  pub eci_error_message : Option (ℕ → E → CString × E)
  pub eci_clear_errors : Option (ℕ → E → Unit {0} × E)
  pub eci_test_phrase : Option (ℕ → E → ℕ × E)
  pub eci_speak_text : Option (Text → ℕ → E → ℕ × E)
  pub eci_speak_text_ex : Option (Text → ℕ → ℕ → E → ℕ × E)
  pub eci_get_param : Option (ℕ → ℕ → E → ℕ × E)
  pub eci_set_param : Option (ℕ → ℕ → ℕ → E → ℕ × E)
  pub eci_get_default_param : Option (ℕ → E → ℕ × E)
  pub eci_set_default_param : Option (ℕ → ℕ → E → ℕ × E)
  pub eci_copy_voice : Option (ℕ → ℕ → ℕ → E → ℕ × E)
  pub eci_get_voice_name : Option (ℕ → ℕ → E → (ℕ × CString) × E)
  pub eci_set_voice_name : Option (ℕ → ℕ → Text → E → ℕ × E)
  pub eci_get_voice_param : Option (ℕ → ℕ → ℕ → E → ℕ × E)
  pub eci_set_voice_param : Option (ℕ → ℕ → ℕ → ℕ → E → ℕ × E)
  pub eci_add_text : Option (ℕ → Text → E → ℕ × E)
  pub eci_insert_index : Option (ℕ → ℕ → E → ℕ × E)
  pub eci_synthesize : Option (ℕ → E → ℕ × E)
  pub eci_synthesize_file : Option (ℕ → Text → E → ℕ × E)
  pub eci_clear_input : Option (ℕ → E → ℕ × E)
  pub eci_generate_phonemes : Option (ℕ → ℕ → E → (ℕ × CString) × E)
  pub eci_get_index : Option (ℕ → E → ℕ × E)
  pub eci_stop : Option (ℕ → E → ℕ × E)
  pub eci_speaking : Option (ℕ → E → ℕ × E)
  pub eci_synchronize : Option (ℕ → E → ℕ × E)
  pub eci_set_output_buffer : Option (ℕ → ℕ → ℕ → E → ℕ × E)
  pub eci_set_output_filename : Option (ℕ → Text → E → ℕ × E)
  pub eci_set_output_device : Option (ℕ → ℕ → E → ℕ × E)
  pub eci_pause : Option (ℕ → ℕ → E → ℕ × E)
  pub eci_register_callback : Option (ℕ → E → Unit {0} × E)
  pub eci_new_dict : Option (ℕ → E → ℕ × E)
  pub eci_get_dict : Option (ℕ → E → ℕ × E)
  pub eci_set_dict : Option (ℕ → ℕ → E → ℕ × E)
  pub eci_delete_dict : Option (ℕ → ℕ → E → E)
  pub eci_load_dict : Option (ℕ → ℕ → ℕ → Text → E → ℕ × E)
  pub eci_save_dict : Option (ℕ → ℕ → ℕ → Text → E → ℕ × E)
  pub eci_update_dict : Option (ℕ → ℕ → ℕ → Text → Text → E → ℕ × E)
  pub eci_dict_find_first : Option (ℕ → ℕ → ℕ → E → (ℕ × Option CString × Option CString) × E)
  pub eci_dict_find_next : Option (ℕ → ℕ → ℕ → E → (ℕ × Option CString × Option CString) × E)
  pub eci_dict_lookup : Option (ℕ → ℕ → ℕ → Text → E → Option CString × E)
  pub eci_update_dict_a : Option (ℕ → ℕ → ℕ → Text → Text → ℕ → E → ℕ × E)
  pub eci_dict_find_first_a : Option (ℕ → ℕ → ℕ → E → (ℕ × Option CString × Option CString × ℕ) × E)
  pub eci_dict_find_next_a : Option (ℕ → ℕ → ℕ → E → (ℕ × Option CString × Option CString × ℕ) × E)
  pub eci_dict_lookup_a : Option (ℕ → ℕ → ℕ → Text → E → (ℕ × Option CString × ℕ) × E)
  pub eci_new_filter : Option (ℕ → ℕ → ℕ → E → ℕ × E)
  pub eci_delete_filter : Option (ℕ → ℕ → E → E)
  pub eci_activate_filter : Option (ℕ → ℕ → E → ℕ × E)
  pub eci_deactivate_filter : Option (ℕ → ℕ → E → ℕ × E)
  pub eci_update_filter : Option (ℕ → ℕ → Text → Text → E → ℕ × E)
  pub eci_get_filtered_text : Option (ℕ → ℕ → Text → E → (ℕ × Option CString) × E)

-- The library, and what the bridge takes from the C run time: the heap, by `calloc` (0 on failure)
-- and `free`, and what an array on the stack holds before it is written.
pub record Outside (E : Type 0) : Type 0 where
  pub funcs : EciFuncs E
  pub calloc : ℕ → ℕ → E → ℕ × E
  pub free : ℕ → E → E
  pub uninitialised : E → List ℕ
