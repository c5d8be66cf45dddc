-- ===== src/Bridge/Client.antt =====
-- The state that the bridge keeps for a client: its channels, its handle map, and one callback state
-- for each ECI handle (`client_state_t`, `cb_state_t`, and the helpers of arm/bridge_dispatch.c).
pub mod Lockstep
pub mod Invariant
pub mod Owner
use eloquence.Base.{
  ℕ, Bool, true, false, ◌&&◌, Option, none, some, List, [], ◌∷◌, replicate, ◌==◌, if◌then◌else◌,
  minus_one,
}
use eloquence.Handle.{HandleMap, HandleEntry, hmap_init, max_handles_per_type}

-- `cb_write_lock` only serialises writers, and has no state here.
pub record CbState : Type 0 where
  pub eci_handle_id : ℕ
  pub cb_fd : ℕ
  pub has_callback : Bool
  pub output_buffer : ℕ
  pub output_buffer_size : ℕ

pub record Client : Type 0 where
  pub rpc_fd : ℕ
  pub cb_fd : ℕ
  pub client_id : ℕ
  pub handles : HandleMap
  pub cb_states : List CbState

-- A zeroed slot.
abbrev pub zero_cb_state : CbState
zero_cb_state = record {
  eci_handle_id = 0;
  cb_fd = 0;
  has_callback = false;
  output_buffer = 0;
  output_buffer_size = 0;
}

-- What `main` makes for a new RPC channel: zeroed, with an empty handle map and no callback channel.
unfoldable pub new_client : ℕ → ℕ → Client
unfolding hmap_init
new_client rpc_fd client_id = record {
  rpc_fd = rpc_fd;
  cb_fd = minus_one;
  client_id = client_id;
  handles = hmap_init;
  cb_states = replicate max_handles_per_type zero_cb_state;
}

-- `alloc_cb_state`: the first slot with no handle; where there is none, nothing changes.
unfoldable pub alloc_cb_state : ℕ → List CbState → ℕ → List CbState
alloc_cb_state fd [] handle_id = []
alloc_cb_state fd (c ∷ cs) handle_id =
    if c.eci_handle_id == 0
    then record zero_cb_state { eci_handle_id = handle_id; cb_fd = fd } ∷ cs
    else c ∷ alloc_cb_state fd cs handle_id

-- `free_cb_state`: the slot is zeroed; `output_buffer_of` is the pointer that is freed.
pub free_cb_state : List CbState → ℕ → List CbState
free_cb_state [] handle_id = []
free_cb_state (c ∷ cs) handle_id =
    if c.eci_handle_id == handle_id then zero_cb_state ∷ cs else c ∷ free_cb_state cs handle_id

-- `get_cb_state`.
unfoldable pub get_cb_state : List CbState → ℕ → Option CbState
get_cb_state [] handle_id = none
get_cb_state (c ∷ cs) handle_id =
    if c.eci_handle_id == handle_id then some c else get_cb_state cs handle_id

abbrev pub output_buffer_of : Option CbState → ℕ
output_buffer_of none = 0
output_buffer_of (some c) = c.output_buffer

-- A write through the pointer that `get_cb_state` returns.
pub update_cb_state : (CbState → CbState) → List CbState → ℕ → List CbState
update_cb_state f [] handle_id = []
update_cb_state f (c ∷ cs) handle_id =
    if c.eci_handle_id == handle_id then f c ∷ cs else c ∷ update_cb_state f cs handle_id

-- `g_clients`, newest first, and its operations; a client is known by its address, which no two in
-- the list share, and which the model gives by the client's id.
unfoldable pub register_client : Client → List Client → List Client
register_client c cs = c ∷ cs

unfoldable pub unregister_client : ℕ → List Client → List Client
unregister_client cid [] = []
unregister_client cid (c ∷ cs) = if c.client_id == cid then cs else c ∷ unregister_client cid cs

unfoldable pub find_client_by_id : List Client → ℕ → Option Client
find_client_by_id [] cid = none
find_client_by_id (c ∷ cs) cid = if c.client_id == cid then some c else find_client_by_id cs cid

abbrev pub first_of_two {ℓ} : {A : Type ℓ} → Option A → Option A → Option A
first_of_two none later = later
first_of_two (some a) later = some a

-- The loops of `find_cb_state_by_eci_ptr` over the handles of one client, and over the clients.
unfoldable pub find_by_entry : List HandleEntry → List CbState → ℕ → Option CbState
find_by_entry [] states hand = none
find_by_entry (e ∷ es) states hand =
    if e.in_use && (e.ptr == hand)
    then first_of_two (get_cb_state states e.id) (find_by_entry es states hand)
    else find_by_entry es states hand

unfoldable pub find_cb_state_by_eci_ptr : List Client → ℕ → Option CbState
find_cb_state_by_eci_ptr [] hand = none
find_cb_state_by_eci_ptr (c ∷ cs) hand =
    first_of_two (find_by_entry c.handles.eci.entries c.cb_states hand)
      (find_cb_state_by_eci_ptr cs hand)
