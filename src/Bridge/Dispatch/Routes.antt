-- ===== src/Bridge/Dispatch/Routes.antt =====
-- What the lifecycle cases do to the handles of a client, seen by the cases that come later.
use eloquence.Base.{
  ℕ, ◌≡◌, ◌≢◌, refl, false, arith, ◌==◌, ◌&&◌, Bool-cases, inl, inr, if◌then◌else◌, ==→ne,
}
use eloquence.Handle.{HandleType, htype_eci, htype_dict, htype_filter, hmap_add, hmap_get}
use eloquence.Handle.View.{hmap_get-hmap_add, hmap_get-hmap_remove, same_type}
use eloquence.Bridge.Engine.{EciFuncs}
use eloquence.Bridge.Client.{Client}
use eloquence.Bridge.Client.Invariant.{IsValid}
use eloquence.Bridge.Reply.{found, eci_ptr}
use eloquence.Bridge.Dispatch.Lifecycle.{adopt, delete_step}

module _ {E : Type 0} (f : EciFuncs E) where
  -- Where `eciNew` of a valid client replies with an id, that id stands for the engine's new handle from
  -- then on, and every other id of every type for what it stood for.
  pub adopt_routes :
      (h : ℕ) (c : Client) (e : E) (t : HandleType) (i : ℕ)
      → IsValid c
      → (adopt f h c e).0.retval ≢ 0
      → hmap_get (adopt f h c e).1.handles t i ≡ (
          if same_type htype_eci t && ((adopt f h c e).0.retval == i)
          then h
          else hmap_get c.handles t i)
  unfolding adopt
  adopt_routes h c e t i v ok = elim (Bool-cases ((hmap_add c.handles htype_eci h).0 == 0)) [
    | inl refused ↦ absurd (ok (rw refused))
    | inr given ↦ rw given (hmap_get-hmap_add c.handles htype_eci t h i v.handles (==→ne _ 0 given))
  ]

  -- After `eciDelete` of an id in a valid client the id stands for nothing, and every other id of every
  -- type for what it stood for.
  pub delete_routes :
      (free : ℕ → E → E) (hid : ℕ) (c : Client) (e : E) (t : HandleType) (i : ℕ)
      → IsValid c
      → hmap_get (delete_step f free hid c e).1.handles t i
        ≡ (if same_type htype_eci t && (hid == i) then 0 else hmap_get c.handles t i)
  unfolding delete_step
  delete_routes free hid c e t i v = elim (Bool-cases (found (eci_ptr c hid))) [
    | inl here ↦ rw here (hmap_get-hmap_remove c.handles htype_eci t i hid v.handles)
    | inr absent ↦ rw absent (unchanged t absent)
  ]
    where
      unchanged :
          (t : HandleType)
          → found (eci_ptr c hid) ≡ false
          → hmap_get c.handles t i
            ≡ (if same_type htype_eci t && (hid == i) then 0 else hmap_get c.handles t i)
      unchanged htype_eci h = elim (Bool-cases (hid == i)) [
        | inl same ↦
            let e : hid ≡ i = ground arith in
            let null : hmap_get c.handles htype_eci hid ≡ 0 = ground arith in rw same (rw e at null)
        | inr other ↦ rw other
      ]
      unchanged htype_dict h = refl
      unchanged htype_filter h = refl
