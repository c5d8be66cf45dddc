-- ===== src/Bridge/Callback/Event.antt =====
-- The bytes of the event that the bridge sends.
use eloquence.Base.{
  ℕ, ◌+◌, ◌≤◌, ◌≡◌, refl, Option, some, List, [], ◌++◌, arith, length, Bool-cases, inl, inr,
  if◌then◌else◌, be32,
}
use eloquence.Wire.Buffer.{
  Buf, Appends, rpc_buf_init, rpc_encode_raw, ensure_append-Appends, init-IsValid,
}
use eloquence.Bridge.Client.{CbState}
use eloquence.Bridge.Callback.{raw, event_buf, carries_pcm, data_bytes}

-- One more piece behind what is in the buffer.
raw-Appends :
    (r : Option Buf) (xs bs : List ℕ)
    → Appends rpc_buf_init xs r
    → length xs + length bs ≤ 2_147_483_648
    → Appends rpc_buf_init (xs ++ bs) (raw r bs)
unfolding rpc_encode_raw rpc_buf_init
raw-Appends r xs bs (b, e, same, v) h =
    let (b', e', same', v') = ensure_append-Appends b bs (length bs) v refl (rw same h) in
    rw e (b', e', rw (same', same), v')

-- Where the state has a buffer and the message is a waveform of `l_param` samples, these.
abbrev pub pcm : (ℕ → ℕ → List ℕ) → CbState → ℕ → ℕ → List ℕ
pcm memory cbs msg l_param =
    if carries_pcm cbs msg l_param then memory cbs.output_buffer (data_bytes l_param) else []

abbrev pub event_bytes : ℕ → ℕ → ℕ → List ℕ → List ℕ
event_bytes handle_id msg l_param samples =
    be32 handle_id ++ (be32 msg ++ (be32 l_param ++ (be32 (length samples) ++ samples)))

-- The event is built, whatever the callback's arguments are, if the memory read has the asked length and
-- at most 2 ^ 31 - 16 bytes: handle, message, parameter, and the samples with their length in bytes.
pub event_buf-Appends :
    (memory : ℕ → ℕ → List ℕ) (cbs : CbState) (msg l_param : ℕ)
    → ((a n : ℕ) → length (memory a n) ≡ n)
    → data_bytes l_param + 16 ≤ 2_147_483_648
    → Appends rpc_buf_init
        (event_bytes cbs.eci_handle_id msg l_param (pcm memory cbs msg l_param))
        (event_buf memory cbs msg l_param)
unfolding event_buf rpc_buf_init
event_buf-Appends memory cbs msg l_param k h = elim (Bool-cases (carries_pcm cbs msg l_param)) [
  | inl samples ↦
      let bs = memory cbs.output_buffer (data_bytes l_param) in
      let len : length bs ≡ data_bytes l_param = k _ _ in
      rw (samples, len)
        (raw-Appends _ _ bs (raw-Appends _ _ (be32 (data_bytes l_param)) head (omega arith))
          (omega (arith, len)))
  | inr quiet ↦ rw quiet (raw-Appends _ _ (be32 0) head (omega arith))
]
  where
    head :
        Appends rpc_buf_init
          (be32 cbs.eci_handle_id ++ (be32 msg ++ be32 l_param))
          (raw (raw (raw (some rpc_buf_init) (be32 cbs.eci_handle_id)) (be32 msg)) (be32 l_param))
    head =
        raw-Appends _ _ (be32 l_param)
          (raw-Appends _ _ (be32 msg)
            (raw-Appends (some rpc_buf_init) [] (be32 cbs.eci_handle_id)
              (rpc_buf_init, refl, refl, init-IsValid) (omega arith))
            (omega arith))
          (omega arith)
