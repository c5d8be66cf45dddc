-- ===== src/Tests/Sample.antt =====
-- A small engine and clients of it for the tests: its state counts, and its handles begin at 70000.
use eloquence.Base.{ℕ, ◌+◌, none, some, replicate}
use eloquence.Bridge.Engine.{EciFuncs, Outside}

abbrev pub small_engine : EciFuncs ℕ
small_engine = record {
  eci_new = λ e. (70_000 + e, e + 1);
  eci_new_ex = none;
  eci_get_available_languages = none;
  eci_delete = λ h e. e;
  eci_reset = none;
  eci_is_being_reentered = none;
  eci_version = none;
  eci_prog_status = none;
  eci_error_message = none;
  eci_clear_errors = none;
  eci_test_phrase = none;
  eci_speak_text = none;
  eci_speak_text_ex = none;
  eci_get_param = none;
  eci_set_param = some (λ h p v e. (5, e + v));
  eci_get_default_param = none;
  eci_set_default_param = none;
  eci_copy_voice = none;
  eci_get_voice_name = none;
  eci_set_voice_name = none;
  eci_get_voice_param = none;
  eci_set_voice_param = none;
  eci_add_text = some (λ h s e. (1, e + 1));
  eci_insert_index = none;
  eci_synthesize = none;
  eci_synthesize_file = none;
  eci_clear_input = none;
  eci_generate_phonemes = none;
  eci_get_index = none;
  eci_stop = none;
  eci_speaking = none;
  eci_synchronize = none;
  eci_set_output_buffer = some (λ h size b e. (1, e));
  eci_set_output_filename = none;
  eci_set_output_device = none;
  eci_pause = none;
  eci_register_callback = some (λ h e. (tt, e));
  eci_new_dict = none;
  eci_get_dict = none;
  eci_set_dict = none;
  eci_delete_dict = none;
  eci_load_dict = none;
  eci_save_dict = none;
  eci_update_dict = none;
  eci_dict_find_first = none;
  eci_dict_find_next = none;
  eci_dict_lookup = none;
  eci_update_dict_a = none;
  eci_dict_find_first_a = none;
  eci_dict_find_next_a = none;
  eci_dict_lookup_a = none;
  eci_new_filter = none;
  eci_delete_filter = none;
  eci_activate_filter = none;
  eci_deactivate_filter = none;
  eci_update_filter = none;
  eci_get_filtered_text = none;
}

abbrev pub small_outside : Outside ℕ
small_outside = record {
  funcs = small_engine;
  calloc = λ n size e. (90_000, e);
  free = λ p e. e;
  uninitialised = λ e. replicate 64 0;
}
