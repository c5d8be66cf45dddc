-- ===== src/Bridge/Dispatch/Every.antt =====
-- An induction over the switch of `dispatch_rpc`: what holds of every case that changes the client, and
-- of all those that only call the engine, holds of every request.
use eloquence.Base.{ℕ, List, Option, none, some, Option-cases, inl, inr}
use eloquence.Wire.Function.{Function, function_of_id}
use eloquence.Wire.Header.{rpc_decode_request_header}
use eloquence.Wire.Decode.{
  Parser, pure, ◌>>=◌, rpc_decode_handle, rpc_decode_int32, rpc_decode_uint32,
}
use eloquence.Bridge.Engine.{EciFuncs, Outside}
use eloquence.Bridge.Client.{Client}
use eloquence.Bridge.Reply.{refusal, Query, Update}
use eloquence.Bridge.Dispatch.{
  handler, serve, switch, run_query, run_update, replied, unsupported, dispatch_rpc,
}
use eloquence.Bridge.Dispatch.Yields.{Holds, Yields, bind-Yields}
use eloquence.Bridge.Dispatch.Lifecycle.{new_step, new, new_ex_step, new_ex, delete_step, delete}
use eloquence.Bridge.Dispatch.Audio.{
  register_callback_step, register_callback, set_output_buffer_step, set_output_buffer,
}
use eloquence.Bridge.Dispatch.Dict.{
  new_dict_step, new_dict, get_dict_step, get_dict, delete_dict_step, delete_dict,
}
use eloquence.Bridge.Dispatch.Filter.{
  new_filter_step, new_filter, delete_filter_step, delete_filter,
}

-- A query as an update.
abbrev pub quietly : {E : Type 0} → Query E → Update E
quietly q c e = let r = q c e in (r.0, c, r.1)

-- What is asked of the cases.
pub record Every {E : Type 0} (Q : Update E → Type 0) (f : EciFuncs E) (calloc : ℕ → ℕ → E → ℕ × E)
    (free : ℕ → E → E) : Type 0 where
  pub query : (q : Query E) → Q (quietly q)
  pub new : Q (new_step f)
  pub new_ex : (lang : ℕ) → Q (new_ex_step f lang)
  pub delete : (hid : ℕ) → Q (delete_step f free hid)
  pub register_callback : (hid : ℕ) → Q (register_callback_step f hid)
  pub set_output_buffer : (hid size : ℕ) → Q (set_output_buffer_step f calloc free hid size)
  pub new_dict : (hid : ℕ) → Q (new_dict_step f hid)
  pub get_dict : (hid : ℕ) → Q (get_dict_step f hid)
  pub delete_dict : (hid dhid : ℕ) → Q (delete_dict_step f hid dhid)
  pub new_filter : (hid num global : ℕ) → Q (new_filter_step f hid num global)
  pub delete_filter : (hid fhid : ℕ) → Q (delete_filter_step f hid fhid)

module _ {E : Type 0} (Q : Update E → Type 0) (o : Outside E) where
  open o use {funcs as f, calloc, free}

  module _ (every : Every Q f calloc free) where
    run_update-Every : (r : Option (Update E)) → Holds Q r → Q (run_update o r)
    unfolding run_update
    run_update-Every none h = every.query (λ c e. (refusal, e))
    run_update-Every (some u) h = h

    run_query-Every : (r : Option (Query E)) → Q (run_query o r)
    unfolding run_query
    run_query-Every none = every.query (λ c e. (refusal, e))
    run_query-Every (some q) = every.query q

  -- An update that decodes one handle, and one that decodes two words.
  one_word :
      (step : ℕ → Update E)
      → ((a : ℕ) → Q (step a))
      → (p : Parser ℕ) → Yields Q (p >>= λ a. pure (step a))
  one_word step h p = bind-Yields Q p (λ a. pure (step a)) (λ a buf pos. h a)

  two_words :
      (step : ℕ → ℕ → Update E)
      → ((a b : ℕ) → Q (step a b))
      → (p q : Parser ℕ) → Yields Q (p >>= λ a. q >>= λ b. pure (step a b))
  two_words step h p q =
      bind-Yields Q p (λ a. q >>= λ b. pure (step a b)) (λ a. one_word (step a) (h a) q)

  three_words :
      (step : ℕ → ℕ → ℕ → Update E)
      → ((a b c : ℕ) → Q (step a b c))
      → (p q r : Parser ℕ) → Yields Q (p >>= λ a. q >>= λ b. r >>= λ c. pure (step a b c))
  three_words step h p q r =
      bind-Yields Q p (λ a. q >>= λ b. r >>= λ c. pure (step a b c))
        (λ a. two_words (step a) (h a) q r)

  module _ (every : Every Q f calloc free) where
    serve-Every : (fn : Function) (buf : List ℕ) (pos : ℕ) → Q (serve o (handler o fn) buf pos)
    unfolding serve handler new new_ex delete register_callback set_output_buffer new_dict get_dict
        delete_dict new_filter delete_filter
    serve-Every Function.eci_new buf pos = run_update-Every every (some (new_step f)) every.new
    serve-Every Function.eci_new_ex buf pos =
        run_update-Every every _ (one_word (new_ex_step f) every.new_ex rpc_decode_int32 buf pos)
    serve-Every Function.eci_delete buf pos =
        run_update-Every every _
          (one_word (delete_step f free) every.delete rpc_decode_handle buf pos)
    serve-Every Function.eci_register_callback buf pos =
        run_update-Every every _
          (one_word (register_callback_step f) every.register_callback rpc_decode_handle buf pos)
    serve-Every Function.eci_set_output_buffer buf pos = run_update-Every every _ (
        two_words (set_output_buffer_step f calloc free) every.set_output_buffer rpc_decode_handle
          rpc_decode_int32 buf pos)
    serve-Every Function.eci_new_dict buf pos =
        run_update-Every every _
          (one_word (new_dict_step f) every.new_dict rpc_decode_handle buf pos)
    serve-Every Function.eci_get_dict buf pos =
        run_update-Every every _
          (one_word (get_dict_step f) every.get_dict rpc_decode_handle buf pos)
    serve-Every Function.eci_delete_dict buf pos = run_update-Every every _ (
        two_words (delete_dict_step f) every.delete_dict rpc_decode_handle rpc_decode_handle buf
          pos)
    serve-Every Function.eci_new_filter buf pos = run_update-Every every _ (
        three_words (new_filter_step f) every.new_filter rpc_decode_handle rpc_decode_uint32
          rpc_decode_int32 buf pos)
    serve-Every Function.eci_delete_filter buf pos = run_update-Every every _ (
        two_words (delete_filter_step f) every.delete_filter rpc_decode_handle rpc_decode_handle buf
          pos)
    serve-Every _ buf pos = run_query-Every every _

    switch-Every : (fn : Option Function) (buf : List ℕ) (pos : ℕ) → Q (switch o fn buf pos)
    unfolding switch
    switch-Every none buf pos = every.query (λ c e. (unsupported, e))
    switch-Every (some fn) buf pos = serve-Every fn buf pos

-- How a case changes the client.
abbrev pub Relates : {E : Type 0} → (Client → Client → Type 0) → Update E → Type 0
Relates {E} R u = (c : Client) (e : E) → R c (u c e).1

module _ {E : Type 0} (R : Client → Client → Type 0) (o : Outside E) where
  pub dispatch_rpc-Every :
      Every (Relates R) o.funcs o.calloc o.free
      → (buf : List ℕ) (c : Client) (e : E) → R c (dispatch_rpc o buf c e).1
  unfolding dispatch_rpc replied
  dispatch_rpc-Every every buf c e =
      let r = rpc_decode_request_header buf 0 in
      elim (Option-cases r.0) [
        | inl unreadable ↦ rw unreadable (every.query (λ c e. (unsupported, e)) c e)
        | inr (h, readable) ↦
            rw readable (switch-Every (Relates R) o every (function_of_id h.func_id) buf r.1 c e)
      ]
