-- ===== src/Host/Callback.antt =====
-- host/shim_callback.c: the table of the application's callbacks, and the answer to one event of the bridge.
-- A pointer is a number, 0 for NULL; the lock makes each operation one step. The thread stands in Thread.
pub mod Table
pub mod Thread
pub mod RoundTrip
pub mod Exchange
pub mod Session
use eloquence.Base.{
  ℕ, ◌*◌, ◌%◌, Bool, true, false, ◌&&◌, ◌||◌, Option, none, some, List, [], ◌∷◌, ◌++◌, length, ◌==◌,
  ltb, leb, not, min, if◌then◌else◌, be32, drop, take, replicate, add32,
}
use eloquence.Wire.Function.{msg_callback_event, msg_callback_return}
use eloquence.Frame.{Message, net_len}
use eloquence.Bridge.Callback.{eci_waveform_buffer, eci_data_processed}

abbrev pub max_cb_handles : ℕ
max_cb_handles = 64

pub record CbEntry : Type 0 where
  pub handle_id : ℕ
  pub callback : ℕ
  pub user_data : ℕ
  pub output_buffer : ℕ
  pub output_buffer_size : ℕ
  pub active : Bool

abbrev pub zero_entry : CbEntry
zero_entry = record {
  handle_id = 0;
  callback = 0;
  user_data = 0;
  output_buffer = 0;
  output_buffer_size = 0;
  active = false;
}

-- `g_callbacks`, and its state at the start.
abbrev pub Callbacks : Type 0
Callbacks = List CbEntry

abbrev pub no_callbacks : Callbacks
no_callbacks = replicate max_cb_handles zero_entry

abbrev pub serves : ℕ → CbEntry → Bool
serves handle_id e = e.active && (e.handle_id == handle_id)

unfoldable pub find_entry : Callbacks → ℕ → Option CbEntry
find_entry [] handle_id = none
find_entry (e ∷ es) handle_id = if serves handle_id e then some e else find_entry es handle_id

abbrev pub behind : CbEntry → Option Callbacks → Option Callbacks
behind e none = none
behind e (some es) = some (e ∷ es)

-- The first loop of both setters: the handle's entry is changed; none where it has none.
unfoldable pub change_entry : (CbEntry → CbEntry) → Callbacks → ℕ → Option Callbacks
change_entry f [] handle_id = none
change_entry f (e ∷ es) handle_id =
    if serves handle_id e then some (f e ∷ es) else behind e (change_entry f es handle_id)

-- The second loop: the first entry that is not active is taken; a full table stays as it is.
unfoldable pub take_entry : (CbEntry → CbEntry) → Callbacks → ℕ → Callbacks
take_entry f [] handle_id = []
take_entry f (e ∷ es) handle_id =
    if not e.active
    then f (record e { handle_id = handle_id; active = true }) ∷ es
    else e ∷ take_entry f es handle_id

abbrev pub or_take : Option Callbacks → Callbacks → Callbacks
or_take none taken = taken
or_take (some changed) taken = changed

unfoldable pub set_entry : (CbEntry → CbEntry) → Callbacks → ℕ → Callbacks
unfolding change_entry take_entry
set_entry f es handle_id = or_take (change_entry f es handle_id) (take_entry f es handle_id)

abbrev pub put_callback : ℕ → ℕ → CbEntry → CbEntry
put_callback cb p_data e = record e { callback = cb; user_data = p_data }

abbrev pub put_buffer : ℕ → ℕ → CbEntry → CbEntry
put_buffer size buffer e = record e { output_buffer = buffer; output_buffer_size = size }

unfoldable pub shim_set_callback : Callbacks → ℕ → ℕ → ℕ → Callbacks
unfolding set_entry
shim_set_callback es handle_id cb p_data = set_entry (put_callback cb p_data) es handle_id

unfoldable pub shim_set_output_buffer : Callbacks → ℕ → ℕ → ℕ → Callbacks
unfolding set_entry
shim_set_output_buffer es handle_id size buffer = set_entry (put_buffer size buffer) es handle_id

-- The application: the call of one of its callbacks, and a copy into its memory.
pub record Application (U : Type 0) : Type 0 where
  pub call : ℕ → ℕ → ℕ → ℕ → ℕ → U → ℕ × U
  pub memcpy : ℕ → List ℕ → U → U

module _ {U : Type 0} (app : Application U) where
  -- How many of the bytes are copied: no more than the application's buffer holds.
  abbrev pub copy_bytes : CbEntry → ℕ → ℕ
  copy_bytes e data_len = min data_len (e.output_buffer_size * 2 % 4_294_967_296)

  unfoldable pub copy_pcm : CbEntry → ℕ → ℕ → List ℕ → U → U
  copy_pcm e msg data_len buf u =
      let n = copy_bytes e data_len in
      if (msg == eci_waveform_buffer)
        && (not (e.output_buffer == 0) && (not (data_len == 0) && leb (add32 16 n) (length buf)))
      then app.memcpy e.output_buffer (take n (drop 16 buf)) u
      else u

  unfoldable pub call_entry : Option CbEntry → ℕ → ℕ → ℕ → ℕ → List ℕ → U → ℕ × U
  unfolding copy_pcm
  call_entry none handle_id msg lparam data_len buf u = (eci_data_processed, u)
  call_entry (some e) handle_id msg lparam data_len buf u =
      let u' = copy_pcm e msg data_len buf u in
      if not (e.callback == 0)
      then app.call e.callback handle_id msg lparam e.user_data u'
      else (eci_data_processed, u')

  -- A turn of `callback_thread` for a message: the payload of the answer, none where there is none.
  unfoldable pub callback_turn : Callbacks → Message → U → Option (List ℕ) × U
  unfolding find_entry call_entry
  callback_turn es m u =
      let buf = m.payload in
      let handle_id = net_len buf in
      let r =
        call_entry (find_entry es handle_id) handle_id (net_len (drop 4 buf)) (net_len (drop 8 buf))
          (net_len (drop 12 buf)) buf u in
      if not (m.msg_type == msg_callback_event) || ltb (length buf) 16
      then (none, u)
      else (some (be32 handle_id ++ be32 r.0), r.1)
