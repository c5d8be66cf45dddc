-- ===== src/Bridge/Dispatch/Lifecycle.antt =====
-- The lifecycle cases of the switch in `dispatch_rpc`, arm/bridge_dispatch.c.
use eloquence.Base.{ℕ, true, List, [], ◌∷◌, ◌++◌, ◌==◌, ltb, if◌then◌else◌, minus_one, take, min}
use eloquence.Handle.{hmap_add, hmap_remove, htype_eci}
use eloquence.Wire.Encode.{arg_bytes, int32, handle}
use eloquence.Wire.Decode.{Parser, pure, ◌>>=◌, rpc_decode_int32, rpc_decode_handle}
use eloquence.Bridge.Engine.{EciFuncs}
use eloquence.Bridge.Client.{Client, alloc_cb_state, free_cb_state, get_cb_state, output_buffer_of}
use eloquence.Bridge.Reply.{
  Response, answer, answer_with, refusal, Query, Update, eci_ptr, found, guarded, returning,
  with_text,
}

abbrev acknowledged : {E : Type 0} → Unit {0} × E → Response × E
acknowledged r = (answer 0, r.1)

-- The array of 64 languages behind their number, a signed word: `i < nlangs && i < 64`.
unfoldable pub langs_bytes : List ℕ → List ℕ
langs_bytes [] = []
langs_bytes (l ∷ ls) = arg_bytes (int32 l) ++ langs_bytes ls

unfoldable pub sent_langs : ℕ → List ℕ → List ℕ
sent_langs nlangs langs = if ltb nlangs 2_147_483_648 then take (min nlangs 64) langs else []

module _ {E : Type 0} (f : EciFuncs E) where
  unfoldable pub reset : Parser (Query E)
  reset = do
    hid ← rpc_decode_handle
    pure
        (λ c e. let h = eci_ptr c hid in returning (guarded (found h) f.eci_reset (λ fn. fn h) 0 e))

  unfoldable pub prog_status : Parser (Query E)
  prog_status = do
    hid ← rpc_decode_handle
    pure (λ c e.
        let h = eci_ptr c hid in
        returning (guarded (found h) f.eci_prog_status (λ fn. fn h) minus_one e))

  unfoldable pub is_being_reentered : Parser (Query E)
  is_being_reentered = do
    hid ← rpc_decode_handle
    pure (λ c e.
        let h = eci_ptr c hid in
        returning (guarded (found h) f.eci_is_being_reentered (λ fn. fn h) 0 e))

  unfoldable pub test_phrase : Parser (Query E)
  test_phrase = do
    hid ← rpc_decode_handle
    pure (λ c e.
        let h = eci_ptr c hid in returning (guarded (found h) f.eci_test_phrase (λ fn. fn h) 0 e))

  -- The reply is 0 whether the call is made or not.
  unfoldable pub clear_errors : Parser (Query E)
  clear_errors = do
    hid ← rpc_decode_handle
    pure (λ c e.
        let h = eci_ptr c hid in
        acknowledged (guarded (found h) f.eci_clear_errors (λ fn. fn h) tt e))

  unfoldable pub error_message : Parser (Query E)
  error_message = do
    hid ← rpc_decode_handle
    pure (λ c e.
        let h = eci_ptr c hid in
        with_text (guarded (found h) f.eci_error_message (λ fn. fn h) [] e))

  unfoldable pub version : Parser (Query E)
  version = pure (λ c e. with_text (guarded true f.eci_version (λ fn. fn) [] e))

  -- Without the engine's function the array is sent as the stack holds it.
  pub get_available_langs : (E → List ℕ) → Parser (Query E)
  unfolding langs_bytes sent_langs
  get_available_langs uninitialised = pure (λ c e.
      let ((ret, langs, nlangs), e') =
        guarded true f.eci_get_available_languages (λ fn. fn (uninitialised e) 64)
          (minus_one, uninitialised e, 64) e in
      (answer_with ret (arg_bytes (int32 nlangs) ++ langs_bytes (sent_langs nlangs langs)), e'))

  -- What `eciNew` and `eciNewEx` do with the engine's new handle: it is given an id and a callback
  -- state and the bridge's own callback; where no id is left the handle is deleted again.
  unfoldable pub adopt : ℕ → Client → E → Response × Client × E
  adopt h c e =
      let added = hmap_add c.handles htype_eci h in
      let hid = added.0 in
      if hid == 0
      then (refusal, record c { handles = added.1 }, if found h then f.eci_delete h e else e)
      else (
        answer_with hid (arg_bytes (handle hid)),
        record c { handles = added.1; cb_states = alloc_cb_state c.cb_fd c.cb_states hid },
        (guarded true f.eci_register_callback (λ fn. fn h) tt e).1,
      )

  unfoldable pub new_step : Update E
  unfolding adopt
  new_step c e = let (h, e') = f.eci_new e in adopt h c e'

  unfoldable pub new : Parser (Update E)
  new = pure new_step

  unfoldable pub new_ex_step : ℕ → Update E
  unfolding adopt
  new_ex_step lang c e = let (h, e') = guarded true f.eci_new_ex (λ fn. fn lang) 0 e in adopt h c e'

  unfoldable pub new_ex : Parser (Update E)
  new_ex = do lang ← rpc_decode_int32; pure (new_ex_step lang)

  -- The engine's handle, the id, and the callback state with its output buffer go together.
  unfoldable pub delete_step : (ℕ → E → E) → ℕ → Update E
  delete_step free hid c e =
      let h = eci_ptr c hid in
      if found h
      then (
        answer 0,
        record c {
          handles = hmap_remove c.handles htype_eci hid;
          cb_states = free_cb_state c.cb_states hid;
        },
        free (output_buffer_of (get_cb_state c.cb_states hid)) (f.eci_delete h e),
      )
      else (answer 0, c, e)

  unfoldable pub delete : (ℕ → E → E) → Parser (Update E)
  delete free = do hid ← rpc_decode_handle; pure (delete_step free hid)
