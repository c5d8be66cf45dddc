-- ===== src/Bridge/Client/Invariant.antt =====
-- The invariant of a client's state in the bridge.
use eloquence.Base.{
  ℕ, ◌<◌, ◌≡◌, ◌≢◌, refl, arith, Bool-cases, Option-cases, inl, inr, ◌==◌, ne→==, minus_one,
}
use eloquence.Handle.{
  HandleMap, HandleType, htype_eci, htype_dict, htype_filter, hmap_add, hmap_remove, claim,
}
use eloquence.Handle.Invariant
use eloquence.Handle.Invariant.{hmap_init-IsValid, hmap_add-IsValid, hmap_remove-IsValid}
use eloquence.Bridge.Client.{Client, new_client, alloc_cb_state, free_cb_state}
use eloquence.Bridge.Client.Lockstep.{
  Lockstep, replicate-Lockstep, claim-Lockstep, release-Lockstep,
}

-- The handle map is valid, and the callback states go in step with the ECI handles, all of them on
-- the client's callback channel.
pub record IsValid (c : Client) : Type 0 where
  pub handles : Invariant.IsValid c.handles
  pub states : Lockstep c.cb_fd c.handles.eci.entries c.cb_states

-- No row has given out all of its 2 ^ 32 - 2 ids.
pub record HasIds (c : Client) : Type 0 where
  pub eci : c.handles.eci.next_id < 4_294_967_295
  pub dict : c.handles.dict.next_id < 4_294_967_295
  pub filter : c.handles.filter.next_id < 4_294_967_295

-- The state of a new client is valid.
pub new_client-IsValid : (fd cid : ℕ) → IsValid (new_client fd cid)
unfolding new_client
new_client-IsValid fd cid = record {
  handles = hmap_init-IsValid;
  states = replicate-Lockstep 64 minus_one;
}

-- A handle that is entered and a callback state for it keep the client valid.
pub hmap_add-Lockstep :
    (c : Client) (p : ℕ)
    → IsValid c
    → (hmap_add c.handles htype_eci p).0 ≢ 0
    → Lockstep c.cb_fd
        (hmap_add c.handles htype_eci p).1.eci.entries
        (alloc_cb_state c.cb_fd c.cb_states (hmap_add c.handles htype_eci p).0)
unfolding hmap_add
hmap_add-Lockstep c p v ok = elim (Bool-cases (p == 0)) [
  | inl null ↦ absurd (ok (rw null))
  | inr pointer ↦ elim (Option-cases (claim c.handles.eci.entries p c.handles.eci.next_id)) [
    | inl full ↦ absurd (ok (rw (pointer, full)))
    | inr (es, eq) ↦
        rw (pointer, eq)
          (claim-Lockstep c.cb_fd c.handles.eci.entries es c.cb_states p c.handles.eci.next_id
            c.handles.eci.next_id v.handles.eci.row v.handles.eci.start v.states eq)
  ]
]

-- A handle of another type leaves the ECI handles alone.
pub hmap_add-other :
    (m : HandleMap) (t : HandleType) (p : ℕ) → t ≢ htype_eci → (hmap_add m t p).1.eci ≡ m.eci
unfolding hmap_add
hmap_add-other m htype_eci p h = absurd (h refl)
hmap_add-other m htype_dict p h = ground arith
hmap_add-other m htype_filter p h = ground arith

pub hmap_remove-other :
    (m : HandleMap) (t : HandleType) (i : ℕ) → t ≢ htype_eci → (hmap_remove m t i).eci ≡ m.eci
unfolding hmap_remove
hmap_remove-other m htype_eci i h = absurd (h refl)
hmap_remove-other m htype_dict i h = ground arith
hmap_remove-other m htype_filter i h = ground arith

pub hmap_remove-Lockstep :
    (c : Client) (i : ℕ)
    → IsValid c
    → i ≢ 0
    → Lockstep c.cb_fd (hmap_remove c.handles htype_eci i).eci.entries (free_cb_state c.cb_states i)
unfolding hmap_remove
hmap_remove-Lockstep c i v h =
    rw (ne→== i 0 h) (release-Lockstep c.cb_fd _ c.cb_states i _ v.handles.eci.row h v.states)
