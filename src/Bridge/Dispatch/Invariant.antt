-- ===== src/Bridge/Dispatch/Invariant.antt =====
-- `dispatch_rpc` (arm/bridge_dispatch.c) and the client's invariant, case by case.
use eloquence.Base.{
  ℕ, ◌<◌, ◌≡◌, ◌≢◌, refl, List, Option, none, some, Bool, true, false, arith, ==→eq, ==→ne,
  Bool-cases, inl, inr, ◌==◌,
}
use eloquence.Handle.View.{hmap_add_refuses}
use eloquence.Handle.{
  HandleMap, hmap_get, HandleType, htype_eci, htype_dict, htype_filter, hmap_add, hmap_remove,
  table,
}
use eloquence.Handle.Invariant.{hmap_add-IsValid, hmap_remove-IsValid}
use eloquence.Bridge.Engine.{EciFuncs, Outside}
use eloquence.Bridge.Client.{Client, CbState, get_cb_state}
use eloquence.Bridge.Client.Lockstep.{update-Lockstep}
use eloquence.Bridge.Client.Invariant.{
  IsValid, HasIds, hmap_add-Lockstep, hmap_remove-Lockstep, hmap_add-other, hmap_remove-other,
}
use eloquence.Bridge.Reply.{Update, entered, dropped, found, eci_ptr}
use eloquence.Bridge.Dispatch.{dispatch_rpc}
use eloquence.Bridge.Dispatch.Every.{Every, Relates, dispatch_rpc-Every}
use eloquence.Bridge.Dispatch.Lifecycle.{adopt, new_step, new_ex_step, delete_step}
use eloquence.Bridge.Dispatch.Audio.{
  register_callback_step, set_output_buffer_step, mark, set_buffer, install_buffer,
}
use eloquence.Bridge.Dispatch.Dict.{new_dict_step, get_dict_step, delete_dict_step}
use eloquence.Bridge.Dispatch.Filter.{new_filter_step, delete_filter_step}

-- A dictionary or filter that is entered, or not, keeps the client valid.
entered-IsValid :
    (b : Bool) (c : Client) (t : HandleType) (p other : ℕ)
    → t ≢ htype_eci
    → (table c.handles t).next_id < 4_294_967_295
    → IsValid c
    → IsValid (entered b c t p other).1
entered-IsValid false c t p other ne ids v = v
entered-IsValid true c t p other ne ids v = record {
  handles = hmap_add-IsValid c.handles t p v.handles ids;
  states = rw (hmap_add-other c.handles t p ne) v.states;
}

removed-IsValid :
    (c : Client) (t : HandleType) (i : ℕ)
    → t ≢ htype_eci
    → IsValid c
    → IsValid (record c { handles = hmap_remove c.handles t i })
removed-IsValid c t i ne v = record {
  handles = hmap_remove-IsValid c.handles t i v.handles;
  states = rw (hmap_remove-other c.handles t i ne) v.states;
}

dropped-IsValid :
    {E : Type 0} (b : Bool) (fn : Option (ℕ → ℕ → E → E)) (t : HandleType) (i h p : ℕ) (c : Client)
    (e : E)
    → t ≢ htype_eci
    → IsValid c
    → IsValid (dropped b fn t i h p c e).1
dropped-IsValid false fn t i h p c e ne v = v
dropped-IsValid true none t i h p c e ne v = v
dropped-IsValid true (some fn) t i h p c e ne v = removed-IsValid c t i ne v

hmap_get-ne_zero : (m : HandleMap) (t : HandleType) (i : ℕ) → found (hmap_get m t i) ≡ true → i ≢ 0
unfolding hmap_get
hmap_get-ne_zero m t i h = ground arith

-- What a case keeps.
abbrev StaysValid : Client → Client → Type 0
StaysValid c c' = IsValid c → HasIds c → IsValid c'

abbrev Keeps : {E : Type 0} → Update E → Type 0
Keeps = Relates StaysValid

module _ {E : Type 0} (f : EciFuncs E) where
  adopt-Keeps : (h : ℕ) → Keeps (adopt f h)
  unfolding adopt
  adopt-Keeps h c e v ids =
      let kept = hmap_add-IsValid c.handles htype_eci h v.handles ids.eci in
      elim (Bool-cases ((hmap_add c.handles htype_eci h).0 == 0)) [
        | inl refused ↦
            let (_, same) = hmap_add_refuses c.handles htype_eci h v.handles (==→eq _ 0 refused) in
            rw refused (record { handles = kept; states = rw same v.states })
        | inr given ↦
            rw given (record { handles = kept; states = hmap_add-Lockstep c h v (==→ne _ 0 given) })
      ]

  delete-Keeps : (free : ℕ → E → E) (hid : ℕ) → Keeps (delete_step f free hid)
  unfolding delete_step
  delete-Keeps free hid c e v ids = elim (Bool-cases (found (eci_ptr c hid))) [
    | inl here ↦ rw here (record {
      handles = hmap_remove-IsValid c.handles htype_eci hid v.handles;
      states = hmap_remove-Lockstep c hid v (hmap_get-ne_zero c.handles htype_eci hid here);
    })
    | inr absent ↦ rw absent v
  ]

  new-Keeps : Keeps (new_step f)
  unfolding new_step
  new-Keeps c e v ids = adopt-Keeps _ c _ v ids

  new_ex-Keeps : (lang : ℕ) → Keeps (new_ex_step f lang)
  unfolding new_ex_step
  new_ex-Keeps lang c e v ids = adopt-Keeps _ c _ v ids

  register_callback-Keeps : (hid : ℕ) → Keeps (register_callback_step f hid)
  unfolding register_callback_step
  register_callback-Keeps hid c e v ids = record {
    handles = v.handles;
    states = update-Lockstep c.cb_fd mark _ c.cb_states hid (λ s. (refl, refl)) v.states;
  }

  install_buffer-Keeps :
      (calloc : ℕ → ℕ → E → ℕ × E) (free : ℕ → E → E) (hid size : ℕ) (r : Option CbState)
      (c : Client) (e : E)
      → IsValid c
      → IsValid (install_buffer f calloc free hid size r c e).1
  unfolding install_buffer
  install_buffer-Keeps calloc free hid size none c e v = v
  install_buffer-Keeps calloc free hid size (some cbs) c e v = record {
    handles = v.handles;
    states =
        update-Lockstep c.cb_fd (set_buffer _ size) _ c.cb_states hid (λ s. (refl, refl)) v.states;
  }

  set_output_buffer-Keeps :
      (calloc : ℕ → ℕ → E → ℕ × E) (free : ℕ → E → E) (hid size : ℕ)
      → Keeps (set_output_buffer_step f calloc free hid size)
  unfolding set_output_buffer_step
  set_output_buffer-Keeps calloc free hid size c e v ids =
      elim (Bool-cases (found (eci_ptr c hid))) [
        | inl here ↦
            rw here (install_buffer-Keeps calloc free hid size (get_cb_state c.cb_states hid) c e v)
        | inr absent ↦ rw absent v
      ]

  new_dict-Keeps : (hid : ℕ) → Keeps (new_dict_step f hid)
  unfolding new_dict_step
  new_dict-Keeps hid c e v ids = entered-IsValid _ c htype_dict _ _ (ground arith) ids.dict v

  get_dict-Keeps : (hid : ℕ) → Keeps (get_dict_step f hid)
  unfolding get_dict_step
  get_dict-Keeps hid c e v ids = entered-IsValid _ c htype_dict _ _ (ground arith) ids.dict v

  new_filter-Keeps : (hid num global : ℕ) → Keeps (new_filter_step f hid num global)
  unfolding new_filter_step
  new_filter-Keeps hid num global c e v ids =
      entered-IsValid _ c htype_filter _ _ (ground arith) ids.filter v

  delete_dict-Keeps : (hid dhid : ℕ) → Keeps (delete_dict_step f hid dhid)
  unfolding delete_dict_step
  delete_dict-Keeps hid dhid c e v ids =
      dropped-IsValid _ f.eci_delete_dict htype_dict dhid _ _ c e (ground arith) v

  delete_filter-Keeps : (hid fhid : ℕ) → Keeps (delete_filter_step f hid fhid)
  unfolding delete_filter_step
  delete_filter-Keeps hid fhid c e v ids =
      dropped-IsValid _ f.eci_delete_filter htype_filter fhid _ _ c e (ground arith) v

  Every-Keeps : (free : ℕ → E → E) (calloc : ℕ → ℕ → E → ℕ × E) → Every Keeps f calloc free
  Every-Keeps free calloc = record {
    query = λ q c e v ids. v;
    new = new-Keeps;
    new_ex = new_ex-Keeps;
    delete = delete-Keeps free;
    register_callback = register_callback-Keeps;
    set_output_buffer = set_output_buffer-Keeps calloc free;
    new_dict = new_dict-Keeps;
    get_dict = get_dict-Keeps;
    delete_dict = delete_dict-Keeps;
    new_filter = new_filter-Keeps;
    delete_filter = delete_filter-Keeps;
  }

-- Whatever the bytes of a request are, `dispatch_rpc` keeps the client's state valid, as long as no row
-- of the handle map has given out all of its ids.
pub dispatch_rpc-IsValid :
    {E : Type 0} (o : Outside E) (buf : List ℕ) (c : Client) (e : E)
    → IsValid c
    → HasIds c
    → IsValid (dispatch_rpc o buf c e).1
dispatch_rpc-IsValid o buf c e v ids =
    dispatch_rpc-Every StaysValid o (Every-Keeps o.funcs o.free o.calloc) buf c e v ids
