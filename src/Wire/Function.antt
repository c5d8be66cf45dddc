-- ===== src/Wire/Function.antt =====
-- The constants of include/eci_proto.h: message types, argument tags, limits, and the function ids,
-- which are the constructors of a type with their numbers.
pub mod Numbers
use eloquence.Base.{
  ℕ, ◌*◌, ◌≡◌, refl, Option, none, some, List, [], ◌∷◌, ◌==◌, IsU16, arith, if◌then◌else◌,
}

abbrev pub msg_rpc_request : ℕ
msg_rpc_request = 1

abbrev pub msg_rpc_response : ℕ
msg_rpc_response = 2

abbrev pub msg_callback_event : ℕ
msg_callback_event = 3

abbrev pub msg_callback_return : ℕ
msg_callback_return = 4

abbrev pub msg_handshake : ℕ
msg_handshake = 5

abbrev pub msg_handshake_ack : ℕ
msg_handshake_ack = 6

abbrev pub arg_int32 : ℕ
arg_int32 = 1

abbrev pub arg_uint32 : ℕ
arg_uint32 = 2

abbrev pub arg_handle : ℕ
arg_handle = 3

abbrev pub arg_string : ℕ
arg_string = 4

abbrev pub arg_buffer : ℕ
arg_buffer = 5

abbrev pub arg_null : ℕ
arg_null = 6

abbrev pub max_msg_size : ℕ
max_msg_size = 4 * 1024 * 1024

abbrev pub max_string_len : ℕ
max_string_len = 64 * 1024

abbrev pub max_buffer_size : ℕ
max_buffer_size = 2 * 1024 * 1024

-- A function that the shim can ask the bridge to run.
pub data Function : Type 0 where
  eci_new : Function
  eci_new_ex : Function
  eci_delete : Function
  eci_reset : Function
  eci_is_being_reentered : Function
  eci_version : Function
  eci_prog_status : Function
  eci_error_message : Function
  eci_clear_errors : Function
  eci_test_phrase : Function
  eci_get_available_langs : Function
  eci_add_text : Function
  eci_insert_index : Function
  eci_synthesize : Function
  eci_synthesize_file : Function
  eci_clear_input : Function
  eci_generate_phonemes : Function
  eci_get_index : Function
  eci_stop : Function
  eci_speaking : Function
  eci_synchronize : Function
  eci_speak_text : Function
  eci_speak_text_ex : Function
  eci_get_param : Function
  eci_set_param : Function
  eci_get_default_param : Function
  eci_set_default_param : Function
  eci_set_output_buffer : Function
  eci_set_output_filename : Function
  eci_set_output_device : Function
  eci_pause : Function
  eci_register_callback : Function
  eci_copy_voice : Function
  eci_get_voice_name : Function
  eci_set_voice_name : Function
  eci_get_voice_param : Function
  eci_set_voice_param : Function
  eci_register_voice : Function
  eci_unregister_voice : Function
  eci_new_dict : Function
  eci_get_dict : Function
  eci_set_dict : Function
  eci_delete_dict : Function
  eci_load_dict : Function
  eci_save_dict : Function
  eci_update_dict : Function
  eci_dict_find_first : Function
  eci_dict_find_next : Function
  eci_dict_lookup : Function
  eci_update_dict_a : Function
  eci_dict_find_first_a : Function
  eci_dict_find_next_a : Function
  eci_dict_lookup_a : Function
  eci_new_filter : Function
  eci_delete_filter : Function
  eci_activate_filter : Function
  eci_deactivate_filter : Function
  eci_update_filter : Function
  eci_get_filtered_text : Function

-- The number of each function on the wire.
abbrev pub fn_id : Function → ℕ
fn_id eci_new = 0x0001
fn_id eci_new_ex = 0x0002
fn_id eci_delete = 0x0003
fn_id eci_reset = 0x0004
fn_id eci_is_being_reentered = 0x0005
fn_id eci_version = 0x0006
fn_id eci_prog_status = 0x0007
fn_id eci_error_message = 0x0008
fn_id eci_clear_errors = 0x0009
fn_id eci_test_phrase = 0x000A
fn_id eci_get_available_langs = 0x000B
fn_id eci_add_text = 0x0100
fn_id eci_insert_index = 0x0101
fn_id eci_synthesize = 0x0102
fn_id eci_synthesize_file = 0x0103
fn_id eci_clear_input = 0x0104
fn_id eci_generate_phonemes = 0x0105
fn_id eci_get_index = 0x0106
fn_id eci_stop = 0x0107
fn_id eci_speaking = 0x0108
fn_id eci_synchronize = 0x0109
fn_id eci_speak_text = 0x010A
fn_id eci_speak_text_ex = 0x010B
fn_id eci_get_param = 0x0200
fn_id eci_set_param = 0x0201
fn_id eci_get_default_param = 0x0202
fn_id eci_set_default_param = 0x0203
fn_id eci_set_output_buffer = 0x0300
fn_id eci_set_output_filename = 0x0301
fn_id eci_set_output_device = 0x0302
fn_id eci_pause = 0x0303
fn_id eci_register_callback = 0x0304
fn_id eci_copy_voice = 0x0400
fn_id eci_get_voice_name = 0x0401
fn_id eci_set_voice_name = 0x0402
fn_id eci_get_voice_param = 0x0403
fn_id eci_set_voice_param = 0x0404
fn_id eci_register_voice = 0x0405
fn_id eci_unregister_voice = 0x0406
fn_id eci_new_dict = 0x0500
fn_id eci_get_dict = 0x0501
fn_id eci_set_dict = 0x0502
fn_id eci_delete_dict = 0x0503
fn_id eci_load_dict = 0x0504
fn_id eci_save_dict = 0x0505
fn_id eci_update_dict = 0x0506
fn_id eci_dict_find_first = 0x0507
fn_id eci_dict_find_next = 0x0508
fn_id eci_dict_lookup = 0x0509
fn_id eci_update_dict_a = 0x050A
fn_id eci_dict_find_first_a = 0x050B
fn_id eci_dict_find_next_a = 0x050C
fn_id eci_dict_lookup_a = 0x050D
fn_id eci_new_filter = 0x0700
fn_id eci_delete_filter = 0x0701
fn_id eci_activate_filter = 0x0702
fn_id eci_deactivate_filter = 0x0703
fn_id eci_update_filter = 0x0704
fn_id eci_get_filtered_text = 0x0705

-- The case labels of the switch in `dispatch_rpc`.
abbrev pub all_functions : List Function
all_functions =
    eci_new ∷ eci_new_ex ∷ eci_delete ∷ eci_reset ∷ eci_is_being_reentered ∷ eci_version
    ∷ eci_prog_status ∷ eci_error_message ∷ eci_clear_errors ∷ eci_test_phrase
    ∷ eci_get_available_langs ∷ eci_add_text ∷ eci_insert_index ∷ eci_synthesize
    ∷ eci_synthesize_file ∷ eci_clear_input ∷ eci_generate_phonemes ∷ eci_get_index ∷ eci_stop
    ∷ eci_speaking ∷ eci_synchronize ∷ eci_speak_text ∷ eci_speak_text_ex ∷ eci_get_param
    ∷ eci_set_param ∷ eci_get_default_param ∷ eci_set_default_param ∷ eci_set_output_buffer
    ∷ eci_set_output_filename ∷ eci_set_output_device ∷ eci_pause ∷ eci_register_callback
    ∷ eci_copy_voice ∷ eci_get_voice_name ∷ eci_set_voice_name ∷ eci_get_voice_param
    ∷ eci_set_voice_param ∷ eci_register_voice ∷ eci_unregister_voice ∷ eci_new_dict ∷ eci_get_dict
    ∷ eci_set_dict ∷ eci_delete_dict ∷ eci_load_dict ∷ eci_save_dict ∷ eci_update_dict
    ∷ eci_dict_find_first ∷ eci_dict_find_next ∷ eci_dict_lookup ∷ eci_update_dict_a
    ∷ eci_dict_find_first_a ∷ eci_dict_find_next_a ∷ eci_dict_lookup_a ∷ eci_new_filter
    ∷ eci_delete_filter ∷ eci_activate_filter ∷ eci_deactivate_filter ∷ eci_update_filter
    ∷ eci_get_filtered_text ∷ []

abbrev find_function : List Function → ℕ → Option Function
find_function [] n = none
find_function (f ∷ fs) n = if fn_id f == n then some f else find_function fs n

-- The case that the switch takes for a function id; `none` is its default.
unfoldable pub function_of_id : ℕ → Option Function
function_of_id n = find_function all_functions n
