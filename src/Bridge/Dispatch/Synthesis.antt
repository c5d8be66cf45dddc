-- ===== src/Bridge/Dispatch/Synthesis.antt =====
-- The synthesis cases of the switch in `dispatch_rpc`, arm/bridge_dispatch.c.
use eloquence.Base.{ℕ, true, ◌||◌, [], ◌==◌, ltb, if◌then◌else◌, minus_one}
use eloquence.Wire.Decode.{
  Parser, pure, ◌>>=◌, rpc_decode_int32, rpc_decode_handle, rpc_decode_string,
}
use eloquence.Bridge.Engine.{EciFuncs}
use eloquence.Bridge.Reply.{Query, eci_ptr, found, guarded, returning, make_cstr, with_text_and_ret}

-- `if (size <= 0 || size > 65536) size = 4096;` on an `int32_t`.
pub phoneme_size : ℕ → ℕ
phoneme_size size = if (size == 0) || ltb 65_536 size then 4096 else size

module _ {E : Type 0} (f : EciFuncs E) where
  unfoldable pub add_text : Parser (Query E)
  add_text = do
    hid ← rpc_decode_handle
    text ← rpc_decode_string
    pure (λ c e.
        let h = eci_ptr c hid in
        returning (guarded (found h) f.eci_add_text (λ fn. fn h (make_cstr text)) 0 e))

  unfoldable pub insert_index : Parser (Query E)
  insert_index = do
    hid ← rpc_decode_handle
    idx ← rpc_decode_int32
    pure (λ c e.
        let h = eci_ptr c hid in
        returning (guarded (found h) f.eci_insert_index (λ fn. fn h idx) 0 e))

  unfoldable pub synthesize : Parser (Query E)
  synthesize = do
    hid ← rpc_decode_handle
    pure (λ c e.
        let h = eci_ptr c hid in returning (guarded (found h) f.eci_synthesize (λ fn. fn h) 0 e))

  unfoldable pub synthesize_file : Parser (Query E)
  synthesize_file = do
    hid ← rpc_decode_handle
    fname ← rpc_decode_string
    pure (λ c e.
        let h = eci_ptr c hid in
        returning (guarded (found h) f.eci_synthesize_file (λ fn. fn h (make_cstr fname)) 0 e))

  unfoldable pub clear_input : Parser (Query E)
  clear_input = do
    hid ← rpc_decode_handle
    pure (λ c e.
        let h = eci_ptr c hid in returning (guarded (found h) f.eci_clear_input (λ fn. fn h) 0 e))

  unfoldable pub get_index : Parser (Query E)
  get_index = do
    hid ← rpc_decode_handle
    pure (λ c e.
        let h = eci_ptr c hid in
        returning (guarded (found h) f.eci_get_index (λ fn. fn h) minus_one e))

  unfoldable pub stop : Parser (Query E)
  stop = do
    hid ← rpc_decode_handle
    pure (λ c e. let h = eci_ptr c hid in returning (guarded (found h) f.eci_stop (λ fn. fn h) 0 e))

  unfoldable pub speaking : Parser (Query E)
  speaking = do
    hid ← rpc_decode_handle
    pure (λ c e.
        let h = eci_ptr c hid in returning (guarded (found h) f.eci_speaking (λ fn. fn h) 0 e))

  unfoldable pub synchronize : Parser (Query E)
  synchronize = do
    hid ← rpc_decode_handle
    pure (λ c e.
        let h = eci_ptr c hid in returning (guarded (found h) f.eci_synchronize (λ fn. fn h) 0 e))

  unfoldable pub speak_text : Parser (Query E)
  speak_text = do
    text ← rpc_decode_string
    annot ← rpc_decode_int32
    pure (λ c e. returning (guarded true f.eci_speak_text (λ fn. fn (make_cstr text) annot) 0 e))

  unfoldable pub speak_text_ex : Parser (Query E)
  speak_text_ex = do
    text ← rpc_decode_string
    annot ← rpc_decode_int32
    lang ← rpc_decode_int32
    pure (λ c e.
        returning (guarded true f.eci_speak_text_ex (λ fn. fn (make_cstr text) annot lang) 0 e))

  -- A size outside 1..65536 becomes 4096. The text is what the engine wrote, empty if it is not called.
  unfoldable pub generate_phonemes : Parser (Query E)
  generate_phonemes = do
    hid ← rpc_decode_handle
    size ← rpc_decode_int32
    pure (λ c e.
        let h = eci_ptr c hid in
        let n = phoneme_size size in
        with_text_and_ret (guarded (found h) f.eci_generate_phonemes (λ fn. fn h n) (0, []) e))
