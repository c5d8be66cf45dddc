-- ===== src/Host/Api.antt =====
-- host/shim_libeci.c: the calls of the ECI interface whose whole result is the value of the call, with the
-- request that each makes. A handle of the application is the bridge's id. The functions themselves stand
-- in the modules of their groups.
pub mod Remote
pub mod Lifecycle
pub mod Synthesis
pub mod Params
pub mod Audio
pub mod Voice
pub mod Dict
pub mod Lookup
pub mod Filter
pub mod Perform
pub mod Reading
pub mod Served
pub mod Refinement
pub mod Session
pub mod Handles
pub mod Texts
pub mod Copies
pub mod Entries
pub mod Encoding
use eloquence.Base.{ℕ, List, [], ◌∷◌, Option, none, some, map}
use eloquence.Wire.Function
use eloquence.Wire.Function.{Function}
use eloquence.Wire.Encode.{Arg, int32, uint32, handle, string_or_null, encode_arg}
use eloquence.Wire.Buffer.{Buf, rpc_buf_init}

-- A call of the application with its arguments; a text is NULL or its bytes.
pub data Call : Type 0 where
  reset : ℕ → Call
  is_being_reentered : ℕ → Call
  prog_status : ℕ → Call
  test_phrase : ℕ → Call
  add_text : ℕ → Option (List ℕ) → Call
  insert_index : ℕ → ℕ → Call
  synthesize : ℕ → Call
  synthesize_file : ℕ → Option (List ℕ) → Call
  clear_input : ℕ → Call
  get_index : ℕ → Call
  stop : ℕ → Call
  speaking : ℕ → Call
  synchronize : ℕ → Call
  speak_text : Option (List ℕ) → ℕ → Call
  speak_text_ex : Option (List ℕ) → ℕ → ℕ → Call
  get_param : ℕ → ℕ → Call
  set_param : ℕ → ℕ → ℕ → Call
  get_default_param : ℕ → Call
  set_default_param : ℕ → ℕ → Call
  set_output_filename : ℕ → Option (List ℕ) → Call
  set_output_device : ℕ → ℕ → Call
  pause : ℕ → ℕ → Call
  copy_voice : ℕ → ℕ → ℕ → Call
  set_voice_name : ℕ → ℕ → Option (List ℕ) → Call
  get_voice_param : ℕ → ℕ → ℕ → Call
  set_voice_param : ℕ → ℕ → ℕ → ℕ → Call
  set_dict : ℕ → ℕ → Call
  load_dict : ℕ → ℕ → ℕ → Option (List ℕ) → Call
  save_dict : ℕ → ℕ → ℕ → Option (List ℕ) → Call
  update_dict : ℕ → ℕ → ℕ → Option (List ℕ) → Option (List ℕ) → Call
  update_dict_a : ℕ → ℕ → ℕ → Option (List ℕ) → Option (List ℕ) → ℕ → Call
  activate_filter : ℕ → ℕ → Call
  deactivate_filter : ℕ → ℕ → Call
  update_filter : ℕ → ℕ → Option (List ℕ) → Option (List ℕ) → Call

-- The function that is asked for.
abbrev pub function : Call → Function
function (reset h) = Function.eci_reset
function (is_being_reentered h) = Function.eci_is_being_reentered
function (prog_status h) = Function.eci_prog_status
function (test_phrase h) = Function.eci_test_phrase
function (add_text h s) = Function.eci_add_text
function (insert_index h i) = Function.eci_insert_index
function (synthesize h) = Function.eci_synthesize
function (synthesize_file h s) = Function.eci_synthesize_file
function (clear_input h) = Function.eci_clear_input
function (get_index h) = Function.eci_get_index
function (stop h) = Function.eci_stop
function (speaking h) = Function.eci_speaking
function (synchronize h) = Function.eci_synchronize
function (speak_text s i) = Function.eci_speak_text
function (speak_text_ex s i j) = Function.eci_speak_text_ex
function (get_param h i) = Function.eci_get_param
function (set_param h i j) = Function.eci_set_param
function (get_default_param i) = Function.eci_get_default_param
function (set_default_param i j) = Function.eci_set_default_param
function (set_output_filename h s) = Function.eci_set_output_filename
function (set_output_device h i) = Function.eci_set_output_device
function (pause h i) = Function.eci_pause
function (copy_voice h i j) = Function.eci_copy_voice
function (set_voice_name h i s) = Function.eci_set_voice_name
function (get_voice_param h i j) = Function.eci_get_voice_param
function (set_voice_param h i j k) = Function.eci_set_voice_param
function (set_dict h d) = Function.eci_set_dict
function (load_dict h d i s) = Function.eci_load_dict
function (save_dict h d i s) = Function.eci_save_dict
function (update_dict h d i s t) = Function.eci_update_dict
function (update_dict_a h d i s t j) = Function.eci_update_dict_a
function (activate_filter h d) = Function.eci_activate_filter
function (deactivate_filter h d) = Function.eci_deactivate_filter
function (update_filter h d s t) = Function.eci_update_filter

-- What an argument of the application is: a handle, a word, signed or not, or a text that may be NULL.
pub data Param : Type 0 where
  hand : ℕ → Param
  word : ℕ → Param
  uword : ℕ → Param
  text : Option (List ℕ) → Param

abbrev pub arg_of : Param → Arg
arg_of (hand h) = handle h
arg_of (word v) = int32 v
arg_of (uword v) = uint32 v
arg_of (text s) = string_or_null s

-- The arguments in the order in which they are encoded.
abbrev pub params : Call → List Param
params (reset h) = hand h ∷ []
params (is_being_reentered h) = hand h ∷ []
params (prog_status h) = hand h ∷ []
params (test_phrase h) = hand h ∷ []
params (add_text h s) = hand h ∷ text s ∷ []
params (insert_index h i) = hand h ∷ word i ∷ []
params (synthesize h) = hand h ∷ []
params (synthesize_file h s) = hand h ∷ text s ∷ []
params (clear_input h) = hand h ∷ []
params (get_index h) = hand h ∷ []
params (stop h) = hand h ∷ []
params (speaking h) = hand h ∷ []
params (synchronize h) = hand h ∷ []
params (speak_text s i) = text s ∷ word i ∷ []
params (speak_text_ex s i j) = text s ∷ word i ∷ word j ∷ []
params (get_param h i) = hand h ∷ word i ∷ []
params (set_param h i j) = hand h ∷ word i ∷ word j ∷ []
params (get_default_param i) = word i ∷ []
params (set_default_param i j) = word i ∷ word j ∷ []
params (set_output_filename h s) = hand h ∷ text s ∷ []
params (set_output_device h i) = hand h ∷ word i ∷ []
params (pause h i) = hand h ∷ word i ∷ []
params (copy_voice h i j) = hand h ∷ word i ∷ word j ∷ []
params (set_voice_name h i s) = hand h ∷ word i ∷ text s ∷ []
params (get_voice_param h i j) = hand h ∷ word i ∷ word j ∷ []
params (set_voice_param h i j k) = hand h ∷ word i ∷ word j ∷ word k ∷ []
params (set_dict h d) = hand h ∷ hand d ∷ []
params (load_dict h d i s) = hand h ∷ hand d ∷ word i ∷ text s ∷ []
params (save_dict h d i s) = hand h ∷ hand d ∷ word i ∷ text s ∷ []
params (update_dict h d i s t) = hand h ∷ hand d ∷ word i ∷ text s ∷ text t ∷ []
params (update_dict_a h d i s t j) = hand h ∷ hand d ∷ word i ∷ text s ∷ text t ∷ word j ∷ []
params (activate_filter h d) = hand h ∷ hand d ∷ []
params (deactivate_filter h d) = hand h ∷ hand d ∷ []
params (update_filter h d s t) = hand h ∷ hand d ∷ text s ∷ text t ∷ []

abbrev pub arguments : Call → List Arg
arguments call = map arg_of (params call)

-- The buffer that the function encodes its arguments into.
unfoldable pub encode_all : Option Buf → List Arg → Option Buf
encode_all r [] = r
encode_all none (a ∷ as_) = none
encode_all (some b) (a ∷ as_) = encode_all (encode_arg b a) as_

unfoldable pub args_buf : List Arg → Option Buf
unfolding encode_all
args_buf args = encode_all (some rpc_buf_init) args
