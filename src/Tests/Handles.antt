-- ===== src/Tests/Handles.antt =====
-- Runs of the handle map.
use eloquence.Base.{ℕ, ◌≡◌, refl, ◌&&◌, ◌==◌, ◌⊎◌, if◌then◌else◌, arith}
use eloquence.Handle.{
  HandleMap, htype_eci, hmap_init, hmap_add, hmap_get, hmap_remove, claim, table,
  max_handles_per_type,
}
use eloquence.Handle.Scan.{used}
use eloquence.Handle.Invariant.{IsValid, hmap_init-IsValid, hmap_add-IsValid}
use eloquence.Handle.View.{same_type, hmap_get-hmap_add, hmap_add_refuses, hmap_get-hmap_remove}

-- The pointer 700 under the id 1.
abbrev one_entry : HandleMap
one_entry = (hmap_add hmap_init htype_eci 700).1

first_id : (hmap_add hmap_init htype_eci 700).0 ≡ 1
unfolding hmap_add hmap_init claim
first_id = refl

one_entry-IsValid : IsValid one_entry
unfolding hmap_init
one_entry-IsValid = hmap_add-IsValid hmap_init htype_eci 700 hmap_init-IsValid (omega arith)

hmap_get-hmap_add_example : hmap_get (hmap_add hmap_init htype_eci 700).1 htype_eci 1 ≡ (
    if same_type htype_eci htype_eci && ((hmap_add hmap_init htype_eci 700).0 == 1)
    then 700
    else hmap_get hmap_init htype_eci 1)
hmap_get-hmap_add_example =
    hmap_get-hmap_add hmap_init htype_eci htype_eci 700 1 hmap_init-IsValid
      (rw first_id (ground arith))

null_refused : (hmap_add hmap_init htype_eci 0).0 ≡ 0
unfolding hmap_add
null_refused = refl

abbrev null_ptr : ℕ
null_ptr = 0

hmap_add_refuses_example :
    ((null_ptr ≡ 0) ⊎ (used (table hmap_init htype_eci).entries ≡ max_handles_per_type))
    × ((hmap_add hmap_init htype_eci 0).1 ≡ hmap_init)
hmap_add_refuses_example = hmap_add_refuses hmap_init htype_eci 0 hmap_init-IsValid null_refused

hmap_get-hmap_remove_example :
    hmap_get (hmap_remove one_entry htype_eci 1) htype_eci 1
    ≡ (if same_type htype_eci htype_eci && (1 == 1) then 0 else hmap_get one_entry htype_eci 1)
hmap_get-hmap_remove_example =
    hmap_get-hmap_remove one_entry htype_eci htype_eci 1 1 one_entry-IsValid
