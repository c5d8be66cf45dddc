-- ===== src/Bridge/Dispatch/Dict.antt =====
-- The dictionary cases of the switch in `dispatch_rpc`, arm/bridge_dispatch.c.
use eloquence.Base.{ℕ, ◌&&◌, Option, none, some, [], ◌++◌, ◌==◌, if◌then◌else◌, minus_one}
use eloquence.Handle.{hmap_find_by_ptr, htype_dict}
use eloquence.Wire.Encode.{arg_bytes, int32, handle, string, string_or_null}
use eloquence.Wire.Decode.{
  Parser, pure, ◌>>=◌, rpc_decode_int32, rpc_decode_handle, rpc_decode_string,
}
use eloquence.Bridge.Engine.{EciFuncs, CString}
use eloquence.Bridge.Reply.{
  Response, answer_with, Query, Update, eci_ptr, dict_ptr, found, guarded, returning, entered,
  dropped, make_cstr,
}

-- `rpc_encode_string(&extra, result)` and `result ? 0 : -1`.
abbrev looked_up : {E : Type 0} → Option CString × E → Response × E
looked_up (none, e) = (answer_with minus_one (arg_bytes (string_or_null none)), e)
looked_up (some s, e) = (answer_with 0 (arg_bytes (string_or_null (some s))), e)

-- `p ? (const char *)p : ""`.
abbrev pub or_empty : Option CString → CString
or_empty none = []
or_empty (some s) = s

abbrev with_entry : {E : Type 0} → (ℕ × Option CString × Option CString) × E → Response × E
with_entry ((ret, key, val), e) =
    (answer_with ret (arg_bytes (string (or_empty key)) ++ arg_bytes (string (or_empty val))), e)

abbrev pub with_entry_a :
    {E : Type 0} → (ℕ × Option CString × Option CString × ℕ) × E → Response × E
with_entry_a ((ret, key, val, pos_val), e) = (
  answer_with ret (
      arg_bytes (string (or_empty key))
      ++ (arg_bytes (string (or_empty val)) ++ arg_bytes (int32 pos_val))),
  e,
)

abbrev with_translation : {E : Type 0} → (ℕ × Option CString × ℕ) × E → Response × E
with_translation ((ret, trans, pos_val), e) =
    (answer_with ret (arg_bytes (string (or_empty trans)) ++ arg_bytes (int32 pos_val)), e)

module _ {E : Type 0} (f : EciFuncs E) where
  -- The dictionary may be NULL here.
  unfoldable pub set_dict : Parser (Query E)
  set_dict = do
    hid ← rpc_decode_handle
    dhid ← rpc_decode_handle
    pure (λ c e.
        let h = eci_ptr c hid in
        let dh = dict_ptr c dhid in
        returning (guarded (found h) f.eci_set_dict (λ fn. fn h dh) minus_one e))

  unfoldable pub load_dict : Parser (Query E)
  load_dict = do
    hid ← rpc_decode_handle
    dhid ← rpc_decode_handle
    vol ← rpc_decode_int32
    fname ← rpc_decode_string
    pure (λ c e.
        let h = eci_ptr c hid in
        let dh = dict_ptr c dhid in
        returning (
          guarded (found h && found dh) f.eci_load_dict (λ fn. fn h dh vol (make_cstr fname))
            minus_one e))

  unfoldable pub save_dict : Parser (Query E)
  save_dict = do
    hid ← rpc_decode_handle
    dhid ← rpc_decode_handle
    vol ← rpc_decode_int32
    fname ← rpc_decode_string
    pure (λ c e.
        let h = eci_ptr c hid in
        let dh = dict_ptr c dhid in
        returning (
          guarded (found h && found dh) f.eci_save_dict (λ fn. fn h dh vol (make_cstr fname))
            minus_one e))

  unfoldable pub update_dict : Parser (Query E)
  update_dict = do
    hid ← rpc_decode_handle
    dhid ← rpc_decode_handle
    vol ← rpc_decode_int32
    key ← rpc_decode_string
    val ← rpc_decode_string
    pure (λ c e.
        let h = eci_ptr c hid in
        let dh = dict_ptr c dhid in
        returning (
          guarded (found h && found dh) f.eci_update_dict
            (λ fn. fn h dh vol (make_cstr key) (make_cstr val)) minus_one e))

  -- The return value says whether there is a result.
  unfoldable pub dict_lookup : Parser (Query E)
  dict_lookup = do
    hid ← rpc_decode_handle
    dhid ← rpc_decode_handle
    vol ← rpc_decode_int32
    key ← rpc_decode_string
    pure (λ c e.
        let h = eci_ptr c hid in
        let dh = dict_ptr c dhid in
        looked_up (
          guarded (found h && found dh) f.eci_dict_lookup (λ fn. fn h dh vol (make_cstr key)) none
            e))

  unfoldable pub dict_find_first : Parser (Query E)
  dict_find_first = do
    hid ← rpc_decode_handle
    dhid ← rpc_decode_handle
    vol ← rpc_decode_int32
    pure (λ c e.
        let h = eci_ptr c hid in
        let dh = dict_ptr c dhid in
        with_entry (
          guarded (found h && found dh) f.eci_dict_find_first (λ fn. fn h dh vol)
            (minus_one, none, none) e))

  unfoldable pub dict_find_next : Parser (Query E)
  dict_find_next = do
    hid ← rpc_decode_handle
    dhid ← rpc_decode_handle
    vol ← rpc_decode_int32
    pure (λ c e.
        let h = eci_ptr c hid in
        let dh = dict_ptr c dhid in
        with_entry (
          guarded (found h && found dh) f.eci_dict_find_next (λ fn. fn h dh vol)
            (minus_one, none, none) e))

  unfoldable pub update_dict_a : Parser (Query E)
  update_dict_a = do
    hid ← rpc_decode_handle
    dhid ← rpc_decode_handle
    vol ← rpc_decode_int32
    key ← rpc_decode_string
    val ← rpc_decode_string
    part_of_speech ← rpc_decode_int32
    pure (λ c e.
        let h = eci_ptr c hid in
        let dh = dict_ptr c dhid in
        returning (
          guarded (found h && found dh) f.eci_update_dict_a
            (λ fn. fn h dh vol (make_cstr key) (make_cstr val) part_of_speech) minus_one e))

  unfoldable pub dict_find_first_a : Parser (Query E)
  dict_find_first_a = do
    hid ← rpc_decode_handle
    dhid ← rpc_decode_handle
    vol ← rpc_decode_int32
    pure (λ c e.
        let h = eci_ptr c hid in
        let dh = dict_ptr c dhid in
        with_entry_a (
          guarded (found h && found dh) f.eci_dict_find_first_a (λ fn. fn h dh vol)
            (minus_one, none, none, 0) e))

  unfoldable pub dict_find_next_a : Parser (Query E)
  dict_find_next_a = do
    hid ← rpc_decode_handle
    dhid ← rpc_decode_handle
    vol ← rpc_decode_int32
    pure (λ c e.
        let h = eci_ptr c hid in
        let dh = dict_ptr c dhid in
        with_entry_a (
          guarded (found h && found dh) f.eci_dict_find_next_a (λ fn. fn h dh vol)
            (minus_one, none, none, 0) e))

  unfoldable pub dict_lookup_a : Parser (Query E)
  dict_lookup_a = do
    hid ← rpc_decode_handle
    dhid ← rpc_decode_handle
    vol ← rpc_decode_int32
    key ← rpc_decode_string
    pure (λ c e.
        let h = eci_ptr c hid in
        let dh = dict_ptr c dhid in
        with_translation (
          guarded (found h && found dh) f.eci_dict_lookup_a (λ fn. fn h dh vol (make_cstr key))
            (minus_one, none, 0) e))

  unfoldable pub new_dict_step : ℕ → Update E
  new_dict_step hid c e =
      let h = eci_ptr c hid in
      let (dh, e') = guarded (found h) f.eci_new_dict (λ fn. fn h) 0 e in
      let (dhid, c') = entered (found dh) c htype_dict dh 0 in
      (answer_with dhid (arg_bytes (handle dhid)), c', e')

  unfoldable pub new_dict : Parser (Update E)
  new_dict = do hid ← rpc_decode_handle; pure (new_dict_step hid)

  -- A dictionary that has no id yet is given one.
  unfoldable pub get_dict_step : ℕ → Update E
  get_dict_step hid c e =
      let h = eci_ptr c hid in
      let (dh, e') = guarded (found h) f.eci_get_dict (λ fn. fn h) 0 e in
      let old = if found dh then hmap_find_by_ptr c.handles htype_dict dh else 0 in
      let (dhid, c') = entered (found dh && (old == 0)) c htype_dict dh old in
      (answer_with dhid (arg_bytes (handle dhid)), c', e')

  unfoldable pub get_dict : Parser (Update E)
  get_dict = do hid ← rpc_decode_handle; pure (get_dict_step hid)

  -- The id is given up only if the engine is called.
  unfoldable pub delete_dict_step : ℕ → ℕ → Update E
  delete_dict_step hid dhid c e =
      let h = eci_ptr c hid in
      let dh = dict_ptr c dhid in
      dropped (found h && found dh) f.eci_delete_dict htype_dict dhid h dh c e

  unfoldable pub delete_dict : Parser (Update E)
  delete_dict = do
    hid ← rpc_decode_handle
    dhid ← rpc_decode_handle
    pure (delete_dict_step hid dhid)
