-- ===== src/Bridge/Dispatch/Params.antt =====
-- The parameter cases of the switch in `dispatch_rpc`, arm/bridge_dispatch.c.
use eloquence.Base.{true, minus_one}
use eloquence.Wire.Decode.{Parser, pure, ◌>>=◌, rpc_decode_int32, rpc_decode_handle}
use eloquence.Bridge.Engine.{EciFuncs}
use eloquence.Bridge.Reply.{Query, eci_ptr, found, guarded, returning}

module _ {E : Type 0} (f : EciFuncs E) where
  unfoldable pub get_param : Parser (Query E)
  get_param = do
    hid ← rpc_decode_handle
    param ← rpc_decode_int32
    pure (λ c e.
        let h = eci_ptr c hid in
        returning (guarded (found h) f.eci_get_param (λ fn. fn h param) minus_one e))

  unfoldable pub set_param : Parser (Query E)
  set_param = do
    hid ← rpc_decode_handle
    param ← rpc_decode_int32
    val ← rpc_decode_int32
    pure (λ c e.
        let h = eci_ptr c hid in
        returning (guarded (found h) f.eci_set_param (λ fn. fn h param val) minus_one e))

  unfoldable pub get_default_param : Parser (Query E)
  get_default_param = do
    param ← rpc_decode_int32
    pure (λ c e. returning (guarded true f.eci_get_default_param (λ fn. fn param) minus_one e))

  unfoldable pub set_default_param : Parser (Query E)
  set_default_param = do
    param ← rpc_decode_int32
    val ← rpc_decode_int32
    pure (λ c e. returning (guarded true f.eci_set_default_param (λ fn. fn param val) minus_one e))
