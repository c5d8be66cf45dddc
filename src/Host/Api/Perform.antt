-- ===== src/Host/Api/Perform.antt =====
-- A call of the application is the function of host/shim_libeci.c of its name.
use eloquence.Base.{ℕ, ◌≡◌, refl}
use eloquence.Host.Connection.{Conn}
use eloquence.Host.Api.{Call, function, arguments}
use eloquence.Host.Api
use eloquence.Host.Api.Remote.{Remote, value_of}
use eloquence.Host.Api.Lifecycle.{
  eci_reset, eci_is_being_reentered, eci_prog_status, eci_test_phrase,
}
use eloquence.Host.Api.Synthesis.{
  eci_add_text, eci_insert_index, eci_synthesize, eci_synthesize_file, eci_clear_input,
  eci_get_index, eci_stop, eci_speaking, eci_synchronize, eci_speak_text, eci_speak_text_ex,
}
use eloquence.Host.Api.Params.{
  eci_get_param, eci_set_param, eci_get_default_param, eci_set_default_param,
}
use eloquence.Host.Api.Audio.{eci_set_output_filename, eci_set_output_device, eci_pause}
use eloquence.Host.Api.Voice.{
  eci_copy_voice, eci_set_voice_name, eci_get_voice_param, eci_set_voice_param,
}
use eloquence.Host.Api.Dict.{
  eci_set_dict, eci_load_dict, eci_save_dict, eci_update_dict, eci_update_dict_a,
}
use eloquence.Host.Api.Filter.{eci_activate_filter, eci_deactivate_filter, eci_update_filter}

abbrev pub perform : Call → Remote ℕ
perform (Api.reset h) = eci_reset h
perform (Api.is_being_reentered h) = eci_is_being_reentered h
perform (Api.prog_status h) = eci_prog_status h
perform (Api.test_phrase h) = eci_test_phrase h
perform (Api.add_text h s) = eci_add_text h s
perform (Api.insert_index h i) = eci_insert_index h i
perform (Api.synthesize h) = eci_synthesize h
perform (Api.synthesize_file h s) = eci_synthesize_file h s
perform (Api.clear_input h) = eci_clear_input h
perform (Api.get_index h) = eci_get_index h
perform (Api.stop h) = eci_stop h
perform (Api.speaking h) = eci_speaking h
perform (Api.synchronize h) = eci_synchronize h
perform (Api.speak_text s i) = eci_speak_text s i
perform (Api.speak_text_ex s i j) = eci_speak_text_ex s i j
perform (Api.get_param h i) = eci_get_param h i
perform (Api.set_param h i j) = eci_set_param h i j
perform (Api.get_default_param i) = eci_get_default_param i
perform (Api.set_default_param i j) = eci_set_default_param i j
perform (Api.set_output_filename h s) = eci_set_output_filename h s
perform (Api.set_output_device h i) = eci_set_output_device h i
perform (Api.pause h i) = eci_pause h i
perform (Api.copy_voice h i j) = eci_copy_voice h i j
perform (Api.set_voice_name h i s) = eci_set_voice_name h i s
perform (Api.get_voice_param h i j) = eci_get_voice_param h i j
perform (Api.set_voice_param h i j k) = eci_set_voice_param h i j k
perform (Api.set_dict h d) = eci_set_dict h d
perform (Api.load_dict h d i s) = eci_load_dict h d i s
perform (Api.save_dict h d i s) = eci_save_dict h d i s
perform (Api.update_dict h d i s t) = eci_update_dict h d i s t
perform (Api.update_dict_a h d i s t j) = eci_update_dict_a h d i s t j
perform (Api.activate_filter h d) = eci_activate_filter h d
perform (Api.deactivate_filter h d) = eci_deactivate_filter h d
perform (Api.update_filter h d s t) = eci_update_filter h d s t

-- Every function asks for its own number with its own arguments, and hands back the value.
pub perform_lem :
    (call : Call) (junk : ℕ) (conn : Conn)
    → perform call junk conn ≡ value_of (function call) (arguments call) junk conn
unfolding eci_reset eci_is_being_reentered eci_prog_status eci_test_phrase eci_add_text
    eci_insert_index eci_synthesize eci_synthesize_file eci_clear_input eci_get_index eci_stop
    eci_speaking eci_synchronize eci_speak_text eci_speak_text_ex eci_get_param eci_set_param
    eci_get_default_param eci_set_default_param eci_set_output_filename eci_set_output_device
    eci_pause eci_copy_voice eci_set_voice_name eci_get_voice_param eci_set_voice_param eci_set_dict
    eci_load_dict eci_save_dict eci_update_dict eci_update_dict_a eci_activate_filter
    eci_deactivate_filter eci_update_filter
perform_lem (Api.reset h) junk conn = refl
perform_lem (Api.is_being_reentered h) junk conn = refl
perform_lem (Api.prog_status h) junk conn = refl
perform_lem (Api.test_phrase h) junk conn = refl
perform_lem (Api.add_text h s) junk conn = refl
perform_lem (Api.insert_index h i) junk conn = refl
perform_lem (Api.synthesize h) junk conn = refl
perform_lem (Api.synthesize_file h s) junk conn = refl
perform_lem (Api.clear_input h) junk conn = refl
perform_lem (Api.get_index h) junk conn = refl
perform_lem (Api.stop h) junk conn = refl
perform_lem (Api.speaking h) junk conn = refl
perform_lem (Api.synchronize h) junk conn = refl
perform_lem (Api.speak_text s i) junk conn = refl
perform_lem (Api.speak_text_ex s i j) junk conn = refl
perform_lem (Api.get_param h i) junk conn = refl
perform_lem (Api.set_param h i j) junk conn = refl
perform_lem (Api.get_default_param i) junk conn = refl
perform_lem (Api.set_default_param i j) junk conn = refl
perform_lem (Api.set_output_filename h s) junk conn = refl
perform_lem (Api.set_output_device h i) junk conn = refl
perform_lem (Api.pause h i) junk conn = refl
perform_lem (Api.copy_voice h i j) junk conn = refl
perform_lem (Api.set_voice_name h i s) junk conn = refl
perform_lem (Api.get_voice_param h i j) junk conn = refl
perform_lem (Api.set_voice_param h i j k) junk conn = refl
perform_lem (Api.set_dict h d) junk conn = refl
perform_lem (Api.load_dict h d i s) junk conn = refl
perform_lem (Api.save_dict h d i s) junk conn = refl
perform_lem (Api.update_dict h d i s t) junk conn = refl
perform_lem (Api.update_dict_a h d i s t j) junk conn = refl
perform_lem (Api.activate_filter h d) junk conn = refl
perform_lem (Api.deactivate_filter h d) junk conn = refl
perform_lem (Api.update_filter h d s t) junk conn = refl
