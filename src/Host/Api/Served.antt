-- ===== src/Host/Api/Served.antt =====
-- What a call of the application means to the engine, and that the bridge does it.
use eloquence.Base.{ℕ, ◌≡◌, true, ◌&&◌, All, List, minus_one}
use eloquence.Wire.Decode.Position.{At}
use eloquence.Wire.Decode.RoundTrip.{IsDecodable, args_bytes}
use eloquence.Bridge.Engine.{EciFuncs, Outside}
use eloquence.Bridge.Client.{Client}
use eloquence.Bridge.Reply.{answer, eci_ptr, dict_ptr, filter_ptr, found, guarded, make_cstr}
use eloquence.Bridge.Dispatch.{handler, serve, run_query}
use eloquence.Bridge.Dispatch.Lifecycle
use eloquence.Bridge.Dispatch.Synthesis
use eloquence.Bridge.Dispatch.Params
use eloquence.Bridge.Dispatch.Audio
use eloquence.Bridge.Dispatch.Voice
use eloquence.Bridge.Dispatch.Dict
use eloquence.Bridge.Dispatch.Filter
use eloquence.Host.Api.{Call, function, arguments, params}
use eloquence.Host.Api
use eloquence.Host.Api.Reading.{Read-params}

-- What the call means: the engine's function on the engine's handles behind the ids, or the value of the
-- source where there is no such handle or function.
abbrev pub engine_call : {E : Type 0} → EciFuncs E → Call → Client → E → ℕ × E
engine_call f (Api.reset h) c e =
    guarded (found (eci_ptr c h)) f.eci_reset (λ fn. fn (eci_ptr c h)) 0 e
engine_call f (Api.is_being_reentered h) c e =
    guarded (found (eci_ptr c h)) f.eci_is_being_reentered (λ fn. fn (eci_ptr c h)) 0 e
engine_call f (Api.prog_status h) c e =
    guarded (found (eci_ptr c h)) f.eci_prog_status (λ fn. fn (eci_ptr c h)) minus_one e
engine_call f (Api.test_phrase h) c e =
    guarded (found (eci_ptr c h)) f.eci_test_phrase (λ fn. fn (eci_ptr c h)) 0 e
engine_call f (Api.add_text h s) c e =
    guarded (found (eci_ptr c h)) f.eci_add_text (λ fn. fn (eci_ptr c h) (make_cstr s)) 0 e
engine_call f (Api.insert_index h i) c e =
    guarded (found (eci_ptr c h)) f.eci_insert_index (λ fn. fn (eci_ptr c h) i) 0 e
engine_call f (Api.synthesize h) c e =
    guarded (found (eci_ptr c h)) f.eci_synthesize (λ fn. fn (eci_ptr c h)) 0 e
engine_call f (Api.synthesize_file h s) c e =
    guarded (found (eci_ptr c h)) f.eci_synthesize_file (λ fn. fn (eci_ptr c h) (make_cstr s)) 0 e
engine_call f (Api.clear_input h) c e =
    guarded (found (eci_ptr c h)) f.eci_clear_input (λ fn. fn (eci_ptr c h)) 0 e
engine_call f (Api.get_index h) c e =
    guarded (found (eci_ptr c h)) f.eci_get_index (λ fn. fn (eci_ptr c h)) minus_one e
engine_call f (Api.stop h) c e =
    guarded (found (eci_ptr c h)) f.eci_stop (λ fn. fn (eci_ptr c h)) 0 e
engine_call f (Api.speaking h) c e =
    guarded (found (eci_ptr c h)) f.eci_speaking (λ fn. fn (eci_ptr c h)) 0 e
engine_call f (Api.synchronize h) c e =
    guarded (found (eci_ptr c h)) f.eci_synchronize (λ fn. fn (eci_ptr c h)) 0 e
engine_call f (Api.speak_text s i) c e =
    guarded true f.eci_speak_text (λ fn. fn (make_cstr s) i) 0 e
engine_call f (Api.speak_text_ex s i j) c e =
    guarded true f.eci_speak_text_ex (λ fn. fn (make_cstr s) i j) 0 e
engine_call f (Api.get_param h i) c e =
    guarded (found (eci_ptr c h)) f.eci_get_param (λ fn. fn (eci_ptr c h) i) minus_one e
engine_call f (Api.set_param h i j) c e =
    guarded (found (eci_ptr c h)) f.eci_set_param (λ fn. fn (eci_ptr c h) i j) minus_one e
engine_call f (Api.get_default_param i) c e =
    guarded true f.eci_get_default_param (λ fn. fn i) minus_one e
engine_call f (Api.set_default_param i j) c e =
    guarded true f.eci_set_default_param (λ fn. fn i j) minus_one e
engine_call f (Api.set_output_filename h s) c e =
    guarded (found (eci_ptr c h)) f.eci_set_output_filename (λ fn. fn (eci_ptr c h) (make_cstr s)) 0
      e
engine_call f (Api.set_output_device h i) c e =
    guarded (found (eci_ptr c h)) f.eci_set_output_device (λ fn. fn (eci_ptr c h) i) 0 e
engine_call f (Api.pause h i) c e =
    guarded (found (eci_ptr c h)) f.eci_pause (λ fn. fn (eci_ptr c h) i) 0 e
engine_call f (Api.copy_voice h i j) c e =
    guarded (found (eci_ptr c h)) f.eci_copy_voice (λ fn. fn (eci_ptr c h) i j) 0 e
engine_call f (Api.set_voice_name h i s) c e =
    guarded (found (eci_ptr c h)) f.eci_set_voice_name (λ fn. fn (eci_ptr c h) i (make_cstr s)) 0 e
engine_call f (Api.get_voice_param h i j) c e =
    guarded (found (eci_ptr c h)) f.eci_get_voice_param (λ fn. fn (eci_ptr c h) i j) minus_one e
engine_call f (Api.set_voice_param h i j k) c e =
    guarded (found (eci_ptr c h)) f.eci_set_voice_param (λ fn. fn (eci_ptr c h) i j k) minus_one e
engine_call f (Api.set_dict h d) c e =
    guarded (found (eci_ptr c h)) f.eci_set_dict (λ fn. fn (eci_ptr c h) (dict_ptr c d)) minus_one e
engine_call f (Api.load_dict h d i s) c e =
    guarded (found (eci_ptr c h) && found (dict_ptr c d)) f.eci_load_dict
      (λ fn. fn (eci_ptr c h) (dict_ptr c d) i (make_cstr s)) minus_one e
engine_call f (Api.save_dict h d i s) c e =
    guarded (found (eci_ptr c h) && found (dict_ptr c d)) f.eci_save_dict
      (λ fn. fn (eci_ptr c h) (dict_ptr c d) i (make_cstr s)) minus_one e
engine_call f (Api.update_dict h d i s t) c e =
    guarded (found (eci_ptr c h) && found (dict_ptr c d)) f.eci_update_dict
      (λ fn. fn (eci_ptr c h) (dict_ptr c d) i (make_cstr s) (make_cstr t)) minus_one e
engine_call f (Api.update_dict_a h d i s t j) c e =
    guarded (found (eci_ptr c h) && found (dict_ptr c d)) f.eci_update_dict_a
      (λ fn. fn (eci_ptr c h) (dict_ptr c d) i (make_cstr s) (make_cstr t) j) minus_one e
engine_call f (Api.activate_filter h d) c e =
    guarded (found (eci_ptr c h) && found (filter_ptr c d)) f.eci_activate_filter
      (λ fn. fn (eci_ptr c h) (filter_ptr c d)) minus_one e
engine_call f (Api.deactivate_filter h d) c e =
    guarded (found (eci_ptr c h) && found (filter_ptr c d)) f.eci_deactivate_filter
      (λ fn. fn (eci_ptr c h) (filter_ptr c d)) minus_one e
engine_call f (Api.update_filter h d s t) c e =
    guarded (found (eci_ptr c h) && found (filter_ptr c d)) f.eci_update_filter
      (λ fn. fn (eci_ptr c h) (filter_ptr c d) (make_cstr s) (make_cstr t)) minus_one e

module _ {E : Type 0} (o : Outside E) where
  open o use {funcs as f}

  pub served :
      (call : Call) (buf : List ℕ) (c : Client) (e : E)
      → At buf 6 (args_bytes (arguments call))
      → All IsDecodable (arguments call)
      → serve o (handler o (function call)) buf 6 c e
        ≡ (answer (engine_call f call c e).0, c, (engine_call f call c e).1)
  unfolding serve handler run_query Lifecycle.reset Lifecycle.is_being_reentered
      Lifecycle.prog_status Lifecycle.test_phrase Synthesis.add_text Synthesis.insert_index
      Synthesis.synthesize Synthesis.synthesize_file Synthesis.clear_input Synthesis.get_index
      Synthesis.stop Synthesis.speaking Synthesis.synchronize Synthesis.speak_text
      Synthesis.speak_text_ex Params.get_param Params.set_param Params.get_default_param
      Params.set_default_param Audio.set_output_filename Audio.set_output_device Audio.pause
      Voice.copy_voice Voice.set_voice_name Voice.get_voice_param Voice.set_voice_param
      Dict.set_dict Dict.load_dict Dict.save_dict Dict.update_dict Dict.update_dict_a
      Filter.activate_filter Filter.deactivate_filter Filter.update_filter
  served (Api.reset h) buf c e a dec =
      let r = Read-params (params (Api.reset h)) buf 6 a dec in rw (r.0)
  served (Api.is_being_reentered h) buf c e a dec =
      let r = Read-params (params (Api.is_being_reentered h)) buf 6 a dec in rw (r.0)
  served (Api.prog_status h) buf c e a dec =
      let r = Read-params (params (Api.prog_status h)) buf 6 a dec in rw (r.0)
  served (Api.test_phrase h) buf c e a dec =
      let r = Read-params (params (Api.test_phrase h)) buf 6 a dec in rw (r.0)
  served (Api.add_text h s) buf c e a dec =
      let r = Read-params (params (Api.add_text h s)) buf 6 a dec in rw (r.0, r.1.0)
  served (Api.insert_index h i) buf c e a dec =
      let r = Read-params (params (Api.insert_index h i)) buf 6 a dec in rw (r.0, r.1.0)
  served (Api.synthesize h) buf c e a dec =
      let r = Read-params (params (Api.synthesize h)) buf 6 a dec in rw (r.0)
  served (Api.synthesize_file h s) buf c e a dec =
      let r = Read-params (params (Api.synthesize_file h s)) buf 6 a dec in rw (r.0, r.1.0)
  served (Api.clear_input h) buf c e a dec =
      let r = Read-params (params (Api.clear_input h)) buf 6 a dec in rw (r.0)
  served (Api.get_index h) buf c e a dec =
      let r = Read-params (params (Api.get_index h)) buf 6 a dec in rw (r.0)
  served (Api.stop h) buf c e a dec =
      let r = Read-params (params (Api.stop h)) buf 6 a dec in rw (r.0)
  served (Api.speaking h) buf c e a dec =
      let r = Read-params (params (Api.speaking h)) buf 6 a dec in rw (r.0)
  served (Api.synchronize h) buf c e a dec =
      let r = Read-params (params (Api.synchronize h)) buf 6 a dec in rw (r.0)
  served (Api.speak_text s i) buf c e a dec =
      let r = Read-params (params (Api.speak_text s i)) buf 6 a dec in rw (r.0, r.1.0)
  served (Api.speak_text_ex s i j) buf c e a dec =
      let r = Read-params (params (Api.speak_text_ex s i j)) buf 6 a dec in rw (r.0, r.1.0, r.1.1.0)
  served (Api.get_param h i) buf c e a dec =
      let r = Read-params (params (Api.get_param h i)) buf 6 a dec in rw (r.0, r.1.0)
  served (Api.set_param h i j) buf c e a dec =
      let r = Read-params (params (Api.set_param h i j)) buf 6 a dec in rw (r.0, r.1.0, r.1.1.0)
  served (Api.get_default_param i) buf c e a dec =
      let r = Read-params (params (Api.get_default_param i)) buf 6 a dec in rw (r.0)
  served (Api.set_default_param i j) buf c e a dec =
      let r = Read-params (params (Api.set_default_param i j)) buf 6 a dec in rw (r.0, r.1.0)
  served (Api.set_output_filename h s) buf c e a dec =
      let r = Read-params (params (Api.set_output_filename h s)) buf 6 a dec in rw (r.0, r.1.0)
  served (Api.set_output_device h i) buf c e a dec =
      let r = Read-params (params (Api.set_output_device h i)) buf 6 a dec in rw (r.0, r.1.0)
  served (Api.pause h i) buf c e a dec =
      let r = Read-params (params (Api.pause h i)) buf 6 a dec in rw (r.0, r.1.0)
  served (Api.copy_voice h i j) buf c e a dec =
      let r = Read-params (params (Api.copy_voice h i j)) buf 6 a dec in rw (r.0, r.1.0, r.1.1.0)
  served (Api.set_voice_name h i s) buf c e a dec =
      let r = Read-params (params (Api.set_voice_name h i s)) buf 6 a dec in
      rw (r.0, r.1.0, r.1.1.0)
  served (Api.get_voice_param h i j) buf c e a dec =
      let r = Read-params (params (Api.get_voice_param h i j)) buf 6 a dec in
      rw (r.0, r.1.0, r.1.1.0)
  served (Api.set_voice_param h i j k) buf c e a dec =
      let r = Read-params (params (Api.set_voice_param h i j k)) buf 6 a dec in
      rw (r.0, r.1.0, r.1.1.0, r.1.1.1.0)
  served (Api.set_dict h d) buf c e a dec =
      let r = Read-params (params (Api.set_dict h d)) buf 6 a dec in rw (r.0, r.1.0)
  served (Api.load_dict h d i s) buf c e a dec =
      let r = Read-params (params (Api.load_dict h d i s)) buf 6 a dec in
      rw (r.0, r.1.0, r.1.1.0, r.1.1.1.0)
  served (Api.save_dict h d i s) buf c e a dec =
      let r = Read-params (params (Api.save_dict h d i s)) buf 6 a dec in
      rw (r.0, r.1.0, r.1.1.0, r.1.1.1.0)
  served (Api.update_dict h d i s t) buf c e a dec =
      let r = Read-params (params (Api.update_dict h d i s t)) buf 6 a dec in
      rw (r.0, r.1.0, r.1.1.0, r.1.1.1.0, r.1.1.1.1.0)
  served (Api.update_dict_a h d i s t j) buf c e a dec =
      let r = Read-params (params (Api.update_dict_a h d i s t j)) buf 6 a dec in
      rw (r.0, r.1.0, r.1.1.0, r.1.1.1.0, r.1.1.1.1.0, r.1.1.1.1.1.0)
  served (Api.activate_filter h d) buf c e a dec =
      let r = Read-params (params (Api.activate_filter h d)) buf 6 a dec in rw (r.0, r.1.0)
  served (Api.deactivate_filter h d) buf c e a dec =
      let r = Read-params (params (Api.deactivate_filter h d)) buf 6 a dec in rw (r.0, r.1.0)
  served (Api.update_filter h d s t) buf c e a dec =
      let r = Read-params (params (Api.update_filter h d s t)) buf 6 a dec in
      rw (r.0, r.1.0, r.1.1.0, r.1.1.1.0)
