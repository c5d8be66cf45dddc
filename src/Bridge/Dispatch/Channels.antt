-- ===== src/Bridge/Dispatch/Channels.antt =====
-- `dispatch_rpc` (arm/bridge_dispatch.c) and the client's id and channels, case by case.
use eloquence.Base.{
  ℕ, ◌≡◌, refl, List, Option, none, some, Bool, true, false, Bool-cases, inl, inr, ◌==◌,
}
use eloquence.Handle.{HandleType, htype_eci, htype_dict, htype_filter, hmap_add}
use eloquence.Bridge.Engine.{EciFuncs, Outside}
use eloquence.Bridge.Client.{Client, CbState, get_cb_state}
use eloquence.Bridge.Reply.{entered, dropped, found, eci_ptr}
use eloquence.Bridge.Dispatch.{dispatch_rpc}
use eloquence.Bridge.Dispatch.Every.{Every, Relates, dispatch_rpc-Every}
use eloquence.Bridge.Dispatch.Lifecycle.{adopt, new_step, new_ex_step, delete_step}
use eloquence.Bridge.Dispatch.Audio.{register_callback_step, set_output_buffer_step, install_buffer}
use eloquence.Bridge.Dispatch.Dict.{new_dict_step, get_dict_step, delete_dict_step}
use eloquence.Bridge.Dispatch.Filter.{new_filter_step, delete_filter_step}

-- The same client on the same channels.
pub record SameClient (c c' : Client) : Type 0 where
  pub client_id : c'.client_id ≡ c.client_id
  pub rpc_fd : c'.rpc_fd ≡ c.rpc_fd
  pub cb_fd : c'.cb_fd ≡ c.cb_fd

SameClient-refl : (c : Client) → SameClient c c
SameClient-refl c = record { client_id = refl; rpc_fd = refl; cb_fd = refl }

entered-SameClient :
    (b : Bool) (c : Client) (t : HandleType) (p other : ℕ) → SameClient c (entered b c t p other).1
entered-SameClient false c t p other = SameClient-refl c
entered-SameClient true c t p other = record { client_id = refl; rpc_fd = refl; cb_fd = refl }

dropped-SameClient :
    {E : Type 0} (b : Bool) (fn : Option (ℕ → ℕ → E → E)) (t : HandleType) (i h p : ℕ) (c : Client)
    (e : E)
    → SameClient c (dropped b fn t i h p c e).1
dropped-SameClient false fn t i h p c e = SameClient-refl c
dropped-SameClient true none t i h p c e = SameClient-refl c
dropped-SameClient true (some fn) t i h p c e = record {
  client_id = refl;
  rpc_fd = refl;
  cb_fd = refl;
}

module _ {E : Type 0} (f : EciFuncs E) where
  adopt-SameClient : (h : ℕ) → Relates SameClient (adopt f h)
  unfolding adopt
  adopt-SameClient h c e = elim (Bool-cases ((hmap_add c.handles htype_eci h).0 == 0)) [
    | inl refused ↦ rw refused (record { client_id = refl; rpc_fd = refl; cb_fd = refl })
    | inr given ↦ rw given (record { client_id = refl; rpc_fd = refl; cb_fd = refl })
  ]

  delete-SameClient : (free : ℕ → E → E) (hid : ℕ) → Relates SameClient (delete_step f free hid)
  unfolding delete_step
  delete-SameClient free hid c e = elim (Bool-cases (found (eci_ptr c hid))) [
    | inl here ↦ rw here (record { client_id = refl; rpc_fd = refl; cb_fd = refl })
    | inr absent ↦ rw absent (SameClient-refl c)
  ]

  install_buffer-SameClient :
      (calloc : ℕ → ℕ → E → ℕ × E) (free : ℕ → E → E) (hid size : ℕ) (r : Option CbState)
      (c : Client) (e : E)
      → SameClient c (install_buffer f calloc free hid size r c e).1
  unfolding install_buffer
  install_buffer-SameClient calloc free hid size none c e = SameClient-refl c
  install_buffer-SameClient calloc free hid size (some cbs) c e = record {
    client_id = refl;
    rpc_fd = refl;
    cb_fd = refl;
  }

  set_output_buffer-SameClient :
      (calloc : ℕ → ℕ → E → ℕ × E) (free : ℕ → E → E) (hid size : ℕ)
      → Relates SameClient (set_output_buffer_step f calloc free hid size)
  unfolding set_output_buffer_step
  set_output_buffer-SameClient calloc free hid size c e =
      elim (Bool-cases (found (eci_ptr c hid))) [
        | inl here ↦
            rw here
              (install_buffer-SameClient calloc free hid size (get_cb_state c.cb_states hid) c e)
        | inr absent ↦ rw absent (SameClient-refl c)
      ]

  Every-SameClient :
      (calloc : ℕ → ℕ → E → ℕ × E) (free : ℕ → E → E) → Every (Relates SameClient) f calloc free
  unfolding new_step new_ex_step register_callback_step new_dict_step get_dict_step delete_dict_step
      new_filter_step delete_filter_step
  Every-SameClient calloc free = record {
    query = λ q c e. SameClient-refl c;
    new = λ c e. adopt-SameClient _ c _;
    new_ex = λ lang c e. adopt-SameClient _ c _;
    delete = delete-SameClient free;
    register_callback = λ hid c e. record { client_id = refl; rpc_fd = refl; cb_fd = refl };
    set_output_buffer = set_output_buffer-SameClient calloc free;
    new_dict = λ hid c e. entered-SameClient _ c htype_dict _ _;
    get_dict = λ hid c e. entered-SameClient _ c htype_dict _ _;
    delete_dict = λ hid dhid c e. dropped-SameClient _ _ htype_dict dhid _ _ c _;
    new_filter = λ hid num global c e. entered-SameClient _ c htype_filter _ _;
    delete_filter = λ hid fhid c e. dropped-SameClient _ _ htype_filter fhid _ _ c _;
  }

-- Whatever the bytes of a request are, it leaves the client its id and both its channels.
pub dispatch_rpc-SameClient :
    {E : Type 0} (o : Outside E) (buf : List ℕ) (c : Client) (e : E)
    → SameClient c (dispatch_rpc o buf c e).1
dispatch_rpc-SameClient o =
    dispatch_rpc-Every SameClient o (Every-SameClient o.funcs o.calloc o.free)
