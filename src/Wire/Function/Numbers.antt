-- ===== src/Wire/Function/Numbers.antt =====
-- The numbers of the functions, include/eci_proto.h: they tell the functions apart and fit the header.
use eloquence.Base.{◌≡◌, refl, some, IsU16, arith}
use eloquence.Wire.Function.{Function, fn_id, function_of_id}

-- No two functions share a number, so the switch takes each function's own case.
pub function_of_id-fn_id : (f : Function) → function_of_id (fn_id f) ≡ some f
unfolding function_of_id
function_of_id-fn_id Function.eci_new = refl
function_of_id-fn_id Function.eci_new_ex = refl
function_of_id-fn_id Function.eci_delete = refl
function_of_id-fn_id Function.eci_reset = refl
function_of_id-fn_id Function.eci_is_being_reentered = refl
function_of_id-fn_id Function.eci_version = refl
function_of_id-fn_id Function.eci_prog_status = refl
function_of_id-fn_id Function.eci_error_message = refl
function_of_id-fn_id Function.eci_clear_errors = refl
function_of_id-fn_id Function.eci_test_phrase = refl
function_of_id-fn_id Function.eci_get_available_langs = refl
function_of_id-fn_id Function.eci_add_text = refl
function_of_id-fn_id Function.eci_insert_index = refl
function_of_id-fn_id Function.eci_synthesize = refl
function_of_id-fn_id Function.eci_synthesize_file = refl
function_of_id-fn_id Function.eci_clear_input = refl
function_of_id-fn_id Function.eci_generate_phonemes = refl
function_of_id-fn_id Function.eci_get_index = refl
function_of_id-fn_id Function.eci_stop = refl
function_of_id-fn_id Function.eci_speaking = refl
function_of_id-fn_id Function.eci_synchronize = refl
function_of_id-fn_id Function.eci_speak_text = refl
function_of_id-fn_id Function.eci_speak_text_ex = refl
function_of_id-fn_id Function.eci_get_param = refl
function_of_id-fn_id Function.eci_set_param = refl
function_of_id-fn_id Function.eci_get_default_param = refl
function_of_id-fn_id Function.eci_set_default_param = refl
function_of_id-fn_id Function.eci_set_output_buffer = refl
function_of_id-fn_id Function.eci_set_output_filename = refl
function_of_id-fn_id Function.eci_set_output_device = refl
function_of_id-fn_id Function.eci_pause = refl
function_of_id-fn_id Function.eci_register_callback = refl
function_of_id-fn_id Function.eci_copy_voice = refl
function_of_id-fn_id Function.eci_get_voice_name = refl
function_of_id-fn_id Function.eci_set_voice_name = refl
function_of_id-fn_id Function.eci_get_voice_param = refl
function_of_id-fn_id Function.eci_set_voice_param = refl
function_of_id-fn_id Function.eci_register_voice = refl
function_of_id-fn_id Function.eci_unregister_voice = refl
function_of_id-fn_id Function.eci_new_dict = refl
function_of_id-fn_id Function.eci_get_dict = refl
function_of_id-fn_id Function.eci_set_dict = refl
function_of_id-fn_id Function.eci_delete_dict = refl
function_of_id-fn_id Function.eci_load_dict = refl
function_of_id-fn_id Function.eci_save_dict = refl
function_of_id-fn_id Function.eci_update_dict = refl
function_of_id-fn_id Function.eci_dict_find_first = refl
function_of_id-fn_id Function.eci_dict_find_next = refl
function_of_id-fn_id Function.eci_dict_lookup = refl
function_of_id-fn_id Function.eci_update_dict_a = refl
function_of_id-fn_id Function.eci_dict_find_first_a = refl
function_of_id-fn_id Function.eci_dict_find_next_a = refl
function_of_id-fn_id Function.eci_dict_lookup_a = refl
function_of_id-fn_id Function.eci_new_filter = refl
function_of_id-fn_id Function.eci_delete_filter = refl
function_of_id-fn_id Function.eci_activate_filter = refl
function_of_id-fn_id Function.eci_deactivate_filter = refl
function_of_id-fn_id Function.eci_update_filter = refl
function_of_id-fn_id Function.eci_get_filtered_text = refl

-- Every function id fits the 16 bits that the header gives it.
pub fn_id-IsU16 : (f : Function) → IsU16 (fn_id f)
fn_id-IsU16 Function.eci_new = omega arith
fn_id-IsU16 Function.eci_new_ex = omega arith
fn_id-IsU16 Function.eci_delete = omega arith
fn_id-IsU16 Function.eci_reset = omega arith
fn_id-IsU16 Function.eci_is_being_reentered = omega arith
fn_id-IsU16 Function.eci_version = omega arith
fn_id-IsU16 Function.eci_prog_status = omega arith
fn_id-IsU16 Function.eci_error_message = omega arith
fn_id-IsU16 Function.eci_clear_errors = omega arith
fn_id-IsU16 Function.eci_test_phrase = omega arith
fn_id-IsU16 Function.eci_get_available_langs = omega arith
fn_id-IsU16 Function.eci_add_text = omega arith
fn_id-IsU16 Function.eci_insert_index = omega arith
fn_id-IsU16 Function.eci_synthesize = omega arith
fn_id-IsU16 Function.eci_synthesize_file = omega arith
fn_id-IsU16 Function.eci_clear_input = omega arith
fn_id-IsU16 Function.eci_generate_phonemes = omega arith
fn_id-IsU16 Function.eci_get_index = omega arith
fn_id-IsU16 Function.eci_stop = omega arith
fn_id-IsU16 Function.eci_speaking = omega arith
fn_id-IsU16 Function.eci_synchronize = omega arith
fn_id-IsU16 Function.eci_speak_text = omega arith
fn_id-IsU16 Function.eci_speak_text_ex = omega arith
fn_id-IsU16 Function.eci_get_param = omega arith
fn_id-IsU16 Function.eci_set_param = omega arith
fn_id-IsU16 Function.eci_get_default_param = omega arith
fn_id-IsU16 Function.eci_set_default_param = omega arith
fn_id-IsU16 Function.eci_set_output_buffer = omega arith
fn_id-IsU16 Function.eci_set_output_filename = omega arith
fn_id-IsU16 Function.eci_set_output_device = omega arith
fn_id-IsU16 Function.eci_pause = omega arith
fn_id-IsU16 Function.eci_register_callback = omega arith
fn_id-IsU16 Function.eci_copy_voice = omega arith
fn_id-IsU16 Function.eci_get_voice_name = omega arith
fn_id-IsU16 Function.eci_set_voice_name = omega arith
fn_id-IsU16 Function.eci_get_voice_param = omega arith
fn_id-IsU16 Function.eci_set_voice_param = omega arith
fn_id-IsU16 Function.eci_register_voice = omega arith
fn_id-IsU16 Function.eci_unregister_voice = omega arith
fn_id-IsU16 Function.eci_new_dict = omega arith
fn_id-IsU16 Function.eci_get_dict = omega arith
fn_id-IsU16 Function.eci_set_dict = omega arith
fn_id-IsU16 Function.eci_delete_dict = omega arith
fn_id-IsU16 Function.eci_load_dict = omega arith
fn_id-IsU16 Function.eci_save_dict = omega arith
fn_id-IsU16 Function.eci_update_dict = omega arith
fn_id-IsU16 Function.eci_dict_find_first = omega arith
fn_id-IsU16 Function.eci_dict_find_next = omega arith
fn_id-IsU16 Function.eci_dict_lookup = omega arith
fn_id-IsU16 Function.eci_update_dict_a = omega arith
fn_id-IsU16 Function.eci_dict_find_first_a = omega arith
fn_id-IsU16 Function.eci_dict_find_next_a = omega arith
fn_id-IsU16 Function.eci_dict_lookup_a = omega arith
fn_id-IsU16 Function.eci_new_filter = omega arith
fn_id-IsU16 Function.eci_delete_filter = omega arith
fn_id-IsU16 Function.eci_activate_filter = omega arith
fn_id-IsU16 Function.eci_deactivate_filter = omega arith
fn_id-IsU16 Function.eci_update_filter = omega arith
fn_id-IsU16 Function.eci_get_filtered_text = omega arith
