-- ===== src/Bridge/Dispatch/Ids.antt =====
-- How many ids of a client's handle map a request to `dispatch_rpc` (arm/bridge_dispatch.c) takes.
use eloquence.Base.{
  ℕ, ◌+◌, ◌≡◌, refl, List, Option, none, some, Bool, true, false, Bool-cases, inl, inr, ◌==◌,
}
use eloquence.Handle.{HandleType, htype_eci, htype_dict, htype_filter, hmap_add}
use eloquence.Handle.Ids.{AtMost, AtMost-more, hmap_add-AtMost, hmap_remove-AtMost}
use eloquence.Bridge.Engine.{EciFuncs, Outside}
use eloquence.Bridge.Client.{Client, CbState, get_cb_state}
use eloquence.Bridge.Reply.{entered, dropped, found, eci_ptr}
use eloquence.Bridge.Dispatch.{dispatch_rpc}
use eloquence.Bridge.Dispatch.Every.{Every, Relates, dispatch_rpc-Every}
use eloquence.Bridge.Dispatch.Lifecycle.{adopt, new_step, new_ex_step, delete_step}
use eloquence.Bridge.Dispatch.Audio.{register_callback_step, set_output_buffer_step, install_buffer}
use eloquence.Bridge.Dispatch.Dict.{new_dict_step, get_dict_step, delete_dict_step}
use eloquence.Bridge.Dispatch.Filter.{new_filter_step, delete_filter_step}

abbrev pub Spends : Client → Client → Type 0
Spends c c' = (n : ℕ) → AtMost n c.handles → AtMost (1 + n) c'.handles

entered-Spends :
    (b : Bool) (c : Client) (t : HandleType) (p other : ℕ) → Spends c (entered b c t p other).1
entered-Spends false c t p other n a = AtMost-more n c.handles a
entered-Spends true c t p other n a = hmap_add-AtMost n c.handles t p a

dropped-Spends :
    {E : Type 0} (b : Bool) (fn : Option (ℕ → ℕ → E → E)) (t : HandleType) (i h p : ℕ) (c : Client)
    (e : E)
    → Spends c (dropped b fn t i h p c e).1
dropped-Spends false fn t i h p c e n a = AtMost-more n c.handles a
dropped-Spends true none t i h p c e n a = AtMost-more n c.handles a
dropped-Spends true (some fn) t i h p c e n a =
    AtMost-more n _ (hmap_remove-AtMost n c.handles t i a)

module _ {E : Type 0} (f : EciFuncs E) where
  adopt-Spends : (h : ℕ) → Relates Spends (adopt f h)
  unfolding adopt
  adopt-Spends h c e n a =
      let more = hmap_add-AtMost n c.handles htype_eci h a in
      elim (Bool-cases ((hmap_add c.handles htype_eci h).0 == 0)) [
        | inl refused ↦ rw refused more
        | inr given ↦ rw given more
      ]

  delete-Spends : (free : ℕ → E → E) (hid : ℕ) → Relates Spends (delete_step f free hid)
  unfolding delete_step
  delete-Spends free hid c e n a = elim (Bool-cases (found (eci_ptr c hid))) [
    | inl here ↦ rw here (AtMost-more n _ (hmap_remove-AtMost n c.handles htype_eci hid a))
    | inr absent ↦ rw absent (AtMost-more n c.handles a)
  ]

  install_buffer-same :
      (calloc : ℕ → ℕ → E → ℕ × E) (free : ℕ → E → E) (hid size : ℕ) (r : Option CbState)
      (c : Client) (e : E)
      → (install_buffer f calloc free hid size r c e).1.handles ≡ c.handles
  unfolding install_buffer
  install_buffer-same calloc free hid size none c e = refl
  install_buffer-same calloc free hid size (some cbs) c e = refl

  set_output_buffer-Spends :
      (calloc : ℕ → ℕ → E → ℕ × E) (free : ℕ → E → E) (hid size : ℕ)
      → Relates Spends (set_output_buffer_step f calloc free hid size)
  unfolding set_output_buffer_step
  set_output_buffer-Spends calloc free hid size c e n a =
      elim (Bool-cases (found (eci_ptr c hid))) [
        | inl here ↦
            rw (here, install_buffer-same calloc free hid size (get_cb_state c.cb_states hid) c e)
              (AtMost-more n c.handles a)
        | inr absent ↦ rw absent (AtMost-more n c.handles a)
      ]

  Every-Spends :
      (calloc : ℕ → ℕ → E → ℕ × E) (free : ℕ → E → E) → Every (Relates Spends) f calloc free
  unfolding new_step new_ex_step register_callback_step new_dict_step get_dict_step delete_dict_step
      new_filter_step delete_filter_step
  Every-Spends calloc free = record {
    query = λ q c e n a. AtMost-more n c.handles a;
    new = λ c e. adopt-Spends _ c _;
    new_ex = λ lang c e. adopt-Spends _ c _;
    delete = delete-Spends free;
    register_callback = λ hid c e n a. AtMost-more n c.handles a;
    set_output_buffer = set_output_buffer-Spends calloc free;
    new_dict = λ hid c e. entered-Spends _ c htype_dict _ _;
    get_dict = λ hid c e. entered-Spends _ c htype_dict _ _;
    delete_dict = λ hid dhid c e. dropped-Spends _ _ htype_dict dhid _ _ c _;
    new_filter = λ hid num global c e. entered-Spends _ c htype_filter _ _;
    delete_filter = λ hid fhid c e. dropped-Spends _ _ htype_filter fhid _ _ c _;
  }

pub dispatch_rpc-Spends :
    {E : Type 0} (o : Outside E) (buf : List ℕ) (c : Client) (e : E)
    → Spends c (dispatch_rpc o buf c e).1
dispatch_rpc-Spends o = dispatch_rpc-Every Spends o (Every-Spends o.funcs o.calloc o.free)
