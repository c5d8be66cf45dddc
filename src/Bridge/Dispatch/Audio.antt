-- ===== src/Bridge/Dispatch/Audio.antt =====
-- The audio cases of the switch in `dispatch_rpc`, arm/bridge_dispatch.c.
use eloquence.Base.{ℕ, true, Option, none, some, if◌then◌else◌}
use eloquence.Wire.Decode.{
  Parser, pure, ◌>>=◌, rpc_decode_int32, rpc_decode_handle, rpc_decode_string,
}
use eloquence.Bridge.Engine.{EciFuncs}
use eloquence.Bridge.Client.{Client, CbState, get_cb_state, update_cb_state}
use eloquence.Bridge.Reply.{
  answer, refusal, Query, Update, eci_ptr, found, guarded, returning, make_cstr,
}

abbrev pub mark : CbState → CbState
mark cbs = record cbs { has_callback = true }

abbrev pub set_buffer : ℕ → ℕ → CbState → CbState
set_buffer buffer size cbs = record cbs { output_buffer = buffer; output_buffer_size = size }

module _ {E : Type 0} (f : EciFuncs E) where
  unfoldable pub set_output_filename : Parser (Query E)
  set_output_filename = do
    hid ← rpc_decode_handle
    fname ← rpc_decode_string
    pure (λ c e.
        let h = eci_ptr c hid in
        returning (guarded (found h) f.eci_set_output_filename (λ fn. fn h (make_cstr fname)) 0 e))

  unfoldable pub set_output_device : Parser (Query E)
  set_output_device = do
    hid ← rpc_decode_handle
    dev ← rpc_decode_int32
    pure (λ c e.
        let h = eci_ptr c hid in
        returning (guarded (found h) f.eci_set_output_device (λ fn. fn h dev) 0 e))

  unfoldable pub pause : Parser (Query E)
  pause = do
    hid ← rpc_decode_handle
    on ← rpc_decode_int32
    pure (λ c e.
        let h = eci_ptr c hid in returning (guarded (found h) f.eci_pause (λ fn. fn h on) 0 e))

  -- The callback itself was registered with the engine when the handle was made.
  unfoldable pub register_callback_step : ℕ → Update E
  register_callback_step hid c e =
      (answer 0, record c { cb_states = update_cb_state mark c.cb_states hid }, e)

  unfoldable pub register_callback : Parser (Update E)
  register_callback = do hid ← rpc_decode_handle; pure (register_callback_step hid)

  -- The new buffer of `size` samples takes the place of the old one, which is freed.
  unfoldable pub install_buffer :
      (ℕ → ℕ → E → ℕ × E) → (ℕ → E → E) → ℕ → ℕ → Option CbState → Client → E → ℕ × Client × E
  install_buffer calloc free hid size none c e = (0, c, e)
  install_buffer calloc free hid size (some cbs) c e =
      let r = calloc size 2 (free cbs.output_buffer e) in
      (r.0, record c { cb_states = update_cb_state (set_buffer r.0 size) c.cb_states hid }, r.1)

  unfoldable pub set_output_buffer_step : (ℕ → ℕ → E → ℕ × E) → (ℕ → E → E) → ℕ → ℕ → Update E
  unfolding install_buffer
  set_output_buffer_step calloc free hid size c e =
      let h = eci_ptr c hid in
      let s = install_buffer calloc free hid size (get_cb_state c.cb_states hid) c e in
      let r = guarded true f.eci_set_output_buffer (λ fn. fn h size s.0) 0 s.2 in
      if found h then (answer r.0, s.1, r.1) else (refusal, c, e)

  unfoldable pub set_output_buffer : (ℕ → ℕ → E → ℕ × E) → (ℕ → E → E) → Parser (Update E)
  set_output_buffer calloc free = do
    hid ← rpc_decode_handle
    size ← rpc_decode_int32
    pure (set_output_buffer_step calloc free hid size)
