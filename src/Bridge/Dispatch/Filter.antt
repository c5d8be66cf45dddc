-- ===== src/Bridge/Dispatch/Filter.antt =====
-- The filter cases of the switch in `dispatch_rpc`, arm/bridge_dispatch.c.
use eloquence.Base.{ℕ, ◌&&◌, Option, none, some, [], minus_one}
use eloquence.Handle.{htype_filter}
use eloquence.Wire.Encode.{arg_bytes, handle, string}
use eloquence.Wire.Decode.{
  Parser, pure, ◌>>=◌, rpc_decode_int32, rpc_decode_uint32, rpc_decode_handle, rpc_decode_string,
}
use eloquence.Bridge.Engine.{EciFuncs, CString}
use eloquence.Bridge.Reply.{
  Response, answer_with, Query, Update, eci_ptr, filter_ptr, found, guarded, returning, entered,
  dropped, make_cstr,
}

-- `filtered ? (const char *)filtered : ""`.
abbrev with_filtered : {E : Type 0} → (ℕ × Option CString) × E → Response × E
with_filtered ((ret, none), e) = (answer_with ret (arg_bytes (string [])), e)
with_filtered ((ret, some s), e) = (answer_with ret (arg_bytes (string s)), e)

module _ {E : Type 0} (f : EciFuncs E) where
  unfoldable pub activate_filter : Parser (Query E)
  activate_filter = do
    hid ← rpc_decode_handle
    fhid ← rpc_decode_handle
    pure (λ c e.
        let h = eci_ptr c hid in
        let fh = filter_ptr c fhid in
        returning (guarded (found h && found fh) f.eci_activate_filter (λ fn. fn h fh) minus_one e))

  unfoldable pub deactivate_filter : Parser (Query E)
  deactivate_filter = do
    hid ← rpc_decode_handle
    fhid ← rpc_decode_handle
    pure (λ c e.
        let h = eci_ptr c hid in
        let fh = filter_ptr c fhid in
        returning
          (guarded (found h && found fh) f.eci_deactivate_filter (λ fn. fn h fh) minus_one e))

  unfoldable pub update_filter : Parser (Query E)
  update_filter = do
    hid ← rpc_decode_handle
    fhid ← rpc_decode_handle
    key ← rpc_decode_string
    trans ← rpc_decode_string
    pure (λ c e.
        let h = eci_ptr c hid in
        let fh = filter_ptr c fhid in
        returning (
          guarded (found h && found fh) f.eci_update_filter
            (λ fn. fn h fh (make_cstr key) (make_cstr trans)) minus_one e))

  unfoldable pub get_filtered_text : Parser (Query E)
  get_filtered_text = do
    hid ← rpc_decode_handle
    fhid ← rpc_decode_handle
    input ← rpc_decode_string
    pure (λ c e.
        let h = eci_ptr c hid in
        let fh = filter_ptr c fhid in
        with_filtered (
          guarded (found h && found fh) f.eci_get_filtered_text (λ fn. fn h fh (make_cstr input))
            (minus_one, none) e))

  unfoldable pub new_filter_step : ℕ → ℕ → ℕ → Update E
  new_filter_step hid filter_num b_global c e =
      let h = eci_ptr c hid in
      let (fh, e') = guarded (found h) f.eci_new_filter (λ fn. fn h filter_num b_global) 0 e in
      let (fhid, c') = entered (found fh) c htype_filter fh 0 in
      (answer_with fhid (arg_bytes (handle fhid)), c', e')

  unfoldable pub new_filter : Parser (Update E)
  new_filter = do
    hid ← rpc_decode_handle
    filter_num ← rpc_decode_uint32
    b_global ← rpc_decode_int32
    pure (new_filter_step hid filter_num b_global)

  unfoldable pub delete_filter_step : ℕ → ℕ → Update E
  delete_filter_step hid fhid c e =
      let h = eci_ptr c hid in
      let fh = filter_ptr c fhid in
      dropped (found h && found fh) f.eci_delete_filter htype_filter fhid h fh c e

  unfoldable pub delete_filter : Parser (Update E)
  delete_filter = do
    hid ← rpc_decode_handle
    fhid ← rpc_decode_handle
    pure (delete_filter_step hid fhid)
