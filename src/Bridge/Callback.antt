-- ===== src/Bridge/Callback.antt =====
-- arm/bridge_callback.c: the engine's callback, which the bridge sends to the client as an event on
-- the callback channel, and whose result it waits for there.
pub mod Event
use eloquence.Base.{
  ℕ, ◌*◌, ◌%◌, Bool, true, false, ◌&&◌, ◌||◌, Option, none, some, List, [], ◌∷◌, ◌++◌, length, ◌==◌,
  ltb, leb, not, if◌then◌else◌, be32, minus_one, drop,
}
use eloquence.Wire.Function.{msg_callback_event, msg_callback_return}
use eloquence.Wire.Buffer.{Buf, rpc_buf_init, rpc_encode_raw}
use eloquence.Frame.{Arrival, Outlet, Message, net_len, rpc_read_msg, rpc_write_msg}
use eloquence.Bridge.Client.{Client, CbState, find_cb_state_by_eci_ptr}

-- `enum ECIMessage` and `enum ECICallbackReturn`, as far as the code names them.
abbrev pub eci_waveform_buffer : ℕ
eci_waveform_buffer = 0

abbrev pub eci_data_processed : ℕ
eci_data_processed = 1

-- A callback channel: what it has to give, and what it takes.
pub record Channel : Type 0 where
  pub input : List Arrival
  pub output : Outlet

-- `rpc_encode_raw` behind another one.
abbrev pub raw : Option Buf → List ℕ → Option Buf
raw none bs = none
raw (some b) bs = rpc_encode_raw b bs

-- `msg == eciWaveformBuffer && cbs->output_buffer && lParam > 0`; a `long` of the ARM is a word.
abbrev pub carries_pcm : CbState → ℕ → ℕ → Bool
carries_pcm cbs msg l_param =
    (msg == eci_waveform_buffer)
    && (not (cbs.output_buffer == 0) && (not (l_param == 0) && ltb l_param 2_147_483_648))

-- `(uint32_t)(lParam * 2)`.
abbrev pub data_bytes : ℕ → ℕ
data_bytes l_param = l_param * 2 % 4_294_967_296

-- The end of the callback, given what `rpc_read_msg` returned.
unfoldable pub callback_result : Option Message → ℕ
callback_result none = eci_data_processed
callback_result (some m) =
    if not (m.msg_type == msg_callback_return) || ltb (length m.payload) 8
    then eci_data_processed
    else net_len (drop 4 m.payload)

-- The event is sent and its result awaited.
unfoldable pub exchange : Bool → Outlet → List Arrival → ℕ × Channel
unfolding callback_result
exchange false out input = (eci_data_processed, record { input = input; output = out })
exchange true out input =
    let r = rpc_read_msg input in (callback_result r.0, record { input = r.1; output = out })

unfoldable pub send_event : Option Buf → Channel → Option (ℕ × Channel)
unfolding exchange
send_event none ch = none
send_event (some b) ch =
    let w = rpc_write_msg ch.output msg_callback_event b.bytes in some (exchange w.0 w.1 ch.input)

-- `cbs->cb_fd < 0`, and no callback registered: the engine goes on at once.
module _ (memory : ℕ → ℕ → List ℕ) where
  -- The event, from the state, the message and its parameter. `memory` gives the bytes at an address.
  unfoldable pub event_buf : CbState → ℕ → ℕ → Option Buf
  event_buf cbs msg l_param =
      let nh = raw (some rpc_buf_init) (be32 cbs.eci_handle_id) in
      let nl = raw (raw nh (be32 msg)) (be32 l_param) in
      if carries_pcm cbs msg l_param
      then raw (raw nl (be32 (data_bytes l_param))) (memory cbs.output_buffer (data_bytes l_param))
      else raw nl (be32 0)

  unfoldable pub callback_on : Option CbState → ℕ → ℕ → Channel → Option (ℕ × Channel)
  unfolding send_event event_buf
  callback_on none msg l_param ch = some (eci_data_processed, ch)
  callback_on (some cbs) msg l_param ch =
      let sent = send_event (event_buf cbs msg l_param) ch in
      if not cbs.has_callback || leb 2_147_483_648 cbs.cb_fd
      then some (eci_data_processed, ch)
      else sent

  -- `bridge_internal_callback`, with the channel that the state's `cb_fd` stands for; `none` where the
  -- buffer's growth does not end.
  unfoldable pub bridge_internal_callback : List Client → ℕ → ℕ → ℕ → Channel → Option (ℕ × Channel)
  unfolding callback_on
  bridge_internal_callback clients engine msg l_param ch =
      callback_on (find_cb_state_by_eci_ptr clients engine) msg l_param ch
