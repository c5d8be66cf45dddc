-- ===== src/Bridge/Dispatch/Voice.antt =====
-- The voice cases of the switch in `dispatch_rpc`, arm/bridge_dispatch.c.
use eloquence.Base.{[], minus_one}
use eloquence.Wire.Decode.{
  Parser, pure, ◌>>=◌, rpc_decode_int32, rpc_decode_handle, rpc_decode_string,
}
use eloquence.Bridge.Engine.{EciFuncs}
use eloquence.Bridge.Reply.{Query, eci_ptr, found, guarded, returning, make_cstr, with_text_and_ret}

module _ {E : Type 0} (f : EciFuncs E) where
  unfoldable pub copy_voice : Parser (Query E)
  copy_voice = do
    hid ← rpc_decode_handle
    from ← rpc_decode_int32
    to ← rpc_decode_int32
    pure (λ c e.
        let h = eci_ptr c hid in
        returning (guarded (found h) f.eci_copy_voice (λ fn. fn h from to) 0 e))

  unfoldable pub get_voice_name : Parser (Query E)
  get_voice_name = do
    hid ← rpc_decode_handle
    voice ← rpc_decode_int32
    pure (λ c e.
        let h = eci_ptr c hid in
        with_text_and_ret (guarded (found h) f.eci_get_voice_name (λ fn. fn h voice) (0, []) e))

  unfoldable pub set_voice_name : Parser (Query E)
  set_voice_name = do
    hid ← rpc_decode_handle
    voice ← rpc_decode_int32
    name ← rpc_decode_string
    pure (λ c e.
        let h = eci_ptr c hid in
        returning (guarded (found h) f.eci_set_voice_name (λ fn. fn h voice (make_cstr name)) 0 e))

  unfoldable pub get_voice_param : Parser (Query E)
  get_voice_param = do
    hid ← rpc_decode_handle
    voice ← rpc_decode_int32
    param ← rpc_decode_int32
    pure (λ c e.
        let h = eci_ptr c hid in
        returning (guarded (found h) f.eci_get_voice_param (λ fn. fn h voice param) minus_one e))

  unfoldable pub set_voice_param : Parser (Query E)
  set_voice_param = do
    hid ← rpc_decode_handle
    voice ← rpc_decode_int32
    param ← rpc_decode_int32
    val ← rpc_decode_int32
    pure (λ c e.
        let h = eci_ptr c hid in
        returning
          (guarded (found h) f.eci_set_voice_param (λ fn. fn h voice param val) minus_one e))
