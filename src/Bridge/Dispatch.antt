-- ===== src/Bridge/Dispatch.antt =====
-- `dispatch_rpc`, arm/bridge_dispatch.c: the header, the switch over the function id, and the reply.
-- The cases stand in the modules below, by the groups of the source.
pub mod Yields
pub mod Every
pub mod Invariant
pub mod Ids
pub mod Channels
pub mod Routes
pub mod Request
pub mod Lifecycle
pub mod Synthesis
pub mod Params
pub mod Audio
pub mod Voice
pub mod Dict
pub mod Filter
use eloquence.Base.{ℕ, List, [], Option, none, some, ◌++◌, minus_one}
use eloquence.Wire.Function
use eloquence.Wire.Function.{Function, function_of_id, msg_rpc_response}
use eloquence.Wire.Header.{RequestHeader, rpc_decode_request_header, response_header_bytes}
use eloquence.Wire.Decode.{Parser, pure}
use eloquence.Bridge.Engine.{Outside}
use eloquence.Bridge.Client.{Client}
use eloquence.Bridge.Reply.{Response, refusal, Query, Update, Handler, query, update}

-- Both cases that the source answers with -1 and an error: the stubs and `default`.
abbrev pub unsupported : Response
unsupported = record { retval = minus_one; error = 1; extra = [] }

-- The payload that `send_response` writes: the header and the extra bytes.
abbrev pub response_bytes : ℕ → Response → List ℕ
response_bytes seq r = response_header_bytes seq r.retval r.error ++ r.extra

module _ {E : Type 0} (o : Outside E) where
  open o use {funcs as f, calloc, free, uninitialised}

  -- The case of the switch.
  unfoldable pub handler : Function → Handler E
  handler Function.eci_new = update (Lifecycle.new f)
  handler Function.eci_new_ex = update (Lifecycle.new_ex f)
  handler Function.eci_delete = update (Lifecycle.delete f free)
  handler Function.eci_reset = query (Lifecycle.reset f)
  handler Function.eci_is_being_reentered = query (Lifecycle.is_being_reentered f)
  handler Function.eci_version = query (Lifecycle.version f)
  handler Function.eci_prog_status = query (Lifecycle.prog_status f)
  handler Function.eci_error_message = query (Lifecycle.error_message f)
  handler Function.eci_clear_errors = query (Lifecycle.clear_errors f)
  handler Function.eci_test_phrase = query (Lifecycle.test_phrase f)
  handler Function.eci_get_available_langs = query (Lifecycle.get_available_langs f uninitialised)
  handler Function.eci_add_text = query (Synthesis.add_text f)
  handler Function.eci_insert_index = query (Synthesis.insert_index f)
  handler Function.eci_synthesize = query (Synthesis.synthesize f)
  handler Function.eci_synthesize_file = query (Synthesis.synthesize_file f)
  handler Function.eci_clear_input = query (Synthesis.clear_input f)
  handler Function.eci_generate_phonemes = query (Synthesis.generate_phonemes f)
  handler Function.eci_get_index = query (Synthesis.get_index f)
  handler Function.eci_stop = query (Synthesis.stop f)
  handler Function.eci_speaking = query (Synthesis.speaking f)
  handler Function.eci_synchronize = query (Synthesis.synchronize f)
  handler Function.eci_speak_text = query (Synthesis.speak_text f)
  handler Function.eci_speak_text_ex = query (Synthesis.speak_text_ex f)
  handler Function.eci_get_param = query (Params.get_param f)
  handler Function.eci_set_param = query (Params.set_param f)
  handler Function.eci_get_default_param = query (Params.get_default_param f)
  handler Function.eci_set_default_param = query (Params.set_default_param f)
  handler Function.eci_set_output_buffer = update (Audio.set_output_buffer f calloc free)
  handler Function.eci_set_output_filename = query (Audio.set_output_filename f)
  handler Function.eci_set_output_device = query (Audio.set_output_device f)
  handler Function.eci_pause = query (Audio.pause f)
  handler Function.eci_register_callback = update (Audio.register_callback f)
  handler Function.eci_copy_voice = query (Voice.copy_voice f)
  handler Function.eci_get_voice_name = query (Voice.get_voice_name f)
  handler Function.eci_set_voice_name = query (Voice.set_voice_name f)
  handler Function.eci_get_voice_param = query (Voice.get_voice_param f)
  handler Function.eci_set_voice_param = query (Voice.set_voice_param f)
  handler Function.eci_register_voice = query (pure (λ c e. (unsupported, e)))
  handler Function.eci_unregister_voice = query (pure (λ c e. (unsupported, e)))
  handler Function.eci_new_dict = update (Dict.new_dict f)
  handler Function.eci_get_dict = update (Dict.get_dict f)
  handler Function.eci_set_dict = query (Dict.set_dict f)
  handler Function.eci_delete_dict = update (Dict.delete_dict f)
  handler Function.eci_load_dict = query (Dict.load_dict f)
  handler Function.eci_save_dict = query (Dict.save_dict f)
  handler Function.eci_update_dict = query (Dict.update_dict f)
  handler Function.eci_dict_find_first = query (Dict.dict_find_first f)
  handler Function.eci_dict_find_next = query (Dict.dict_find_next f)
  handler Function.eci_dict_lookup = query (Dict.dict_lookup f)
  handler Function.eci_update_dict_a = query (Dict.update_dict_a f)
  handler Function.eci_dict_find_first_a = query (Dict.dict_find_first_a f)
  handler Function.eci_dict_find_next_a = query (Dict.dict_find_next_a f)
  handler Function.eci_dict_lookup_a = query (Dict.dict_lookup_a f)
  handler Function.eci_new_filter = update (Filter.new_filter f)
  handler Function.eci_delete_filter = update (Filter.delete_filter f)
  handler Function.eci_activate_filter = query (Filter.activate_filter f)
  handler Function.eci_deactivate_filter = query (Filter.deactivate_filter f)
  handler Function.eci_update_filter = query (Filter.update_filter f)
  handler Function.eci_get_filtered_text = query (Filter.get_filtered_text f)

  -- The case at the position behind the header: a failed decoding is refused, and changes nothing.
  unfoldable pub run_query : Option (Query E) → Client → E → Response × Client × E
  run_query none c e = (refusal, c, e)
  run_query (some q) c e = let r = q c e in (r.0, c, r.1)

  unfoldable pub run_update : Option (Update E) → Client → E → Response × Client × E
  run_update none c e = (refusal, c, e)
  run_update (some u) c e = u c e

  unfoldable pub serve : Handler E → List ℕ → ℕ → Client → E → Response × Client × E
  serve (query p) buf pos c e = run_query (p buf pos).0 c e
  serve (update p) buf pos c e = run_update (p buf pos).0 c e

  unfoldable pub switch : Option Function → List ℕ → ℕ → Client → E → Response × Client × E
  switch none buf pos c e = (unsupported, c, e)
  switch (some fn) buf pos c e = serve (handler fn) buf pos c e

  -- `dispatch_rpc` up to the write of the reply: none where the header cannot be read, which closes
  -- the connection; otherwise the payload of the one response, and the client behind the call.
  unfoldable pub replied :
      Option RequestHeader → List ℕ → ℕ → Client → E → Option (List ℕ) × Client × E
  replied none buf pos c e = (none, c, e)
  replied (some h) buf pos c e =
      let r = switch (function_of_id h.func_id) buf pos c e in
      (some (response_bytes h.seq r.0), r.1, r.2)

  unfoldable pub dispatch_rpc : List ℕ → Client → E → Option (List ℕ) × Client × E
  unfolding replied
  dispatch_rpc buf c e = let r = rpc_decode_request_header buf 0 in replied r.0 buf r.1 c e
