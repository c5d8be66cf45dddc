-- ===== src/Handle/View.antt =====
-- The handle map against what it stands for: for each type a finite map from ids to pointers.
use eloquence.Base.{
  ℕ, ◌≡◌, ◌≢◌, refl, Bool, true, false, arith, ◌==◌, if◌then◌else◌, Bool-cases, Option-cases, inl,
  inr, ◌∙◌, ◌&&◌, ◌⊎◌, add32,
}
use eloquence.Handle.{
  HandleType, htype_eci, htype_dict, htype_filter, Table, HandleMap, table, set_table,
  max_handles_per_type, claim, release, hmap_add, hmap_get, hmap_remove, hmap_find_by_ptr,
}
use eloquence.Handle.Scan.{find_id-claim, find_id-release, find_id-find_ptr, used, claim-none_iff}
use eloquence.Handle.Invariant.{IsValid, table-TableOk}

-- Whether two handle types are the same.
abbrev pub same_type : HandleType → HandleType → Bool
same_type htype_eci htype_eci = true
same_type htype_dict htype_dict = true
same_type htype_filter htype_filter = true
same_type _ _ = false

table-set_table :
    (m : HandleMap) (t u : HandleType) (r : Table)
    → table (set_table m t r) u ≡ (if same_type t u then r else table m u)
table-set_table m htype_eci htype_eci r = refl
table-set_table m htype_eci htype_dict r = refl
table-set_table m htype_eci htype_filter r = refl
table-set_table m htype_dict htype_eci r = refl
table-set_table m htype_dict htype_dict r = refl
table-set_table m htype_dict htype_filter r = refl
table-set_table m htype_filter htype_eci r = refl
table-set_table m htype_filter htype_dict r = refl
table-set_table m htype_filter htype_filter r = refl

-- Where `hmap_add` gives out an id, exactly that id of that type stands for the pointer from then on,
-- and every other id of every type stands for what it stood for.
pub hmap_get-hmap_add :
    (m : HandleMap) (t u : HandleType) (p i : ℕ)
    → IsValid m
    → (hmap_add m t p).0 ≢ 0
    → hmap_get (hmap_add m t p).1 u i
      ≡ (if same_type t u && ((hmap_add m t p).0 == i) then p else hmap_get m u i)
unfolding hmap_add hmap_get
hmap_get-hmap_add m t u p i v ok =
    elim (Option-cases (claim (table m t).entries p (table m t).next_id)) [
      | inl full ↦ absurd (ok (ground arith))
      | inr (es, eq) ↦
          let w = table-TableOk m t v in
          let r : Table = record { entries = es; next_id = add32 (table m t).next_id 1 } in
          ground (
            arith,
            w.start,
            table-set_table m t u r,
            find_id-claim (table m t).entries es p (table m t).next_id i w.row eq,
          )
    ]

-- `hmap_add` refuses only NULL and a row with all 64 entries in use, and then changes nothing.
pub hmap_add_refuses :
    (m : HandleMap) (t : HandleType) (p : ℕ)
    → IsValid m
    → (hmap_add m t p).0 ≡ 0
    → ((p ≡ 0) ⊎ (used (table m t).entries ≡ max_handles_per_type)) × ((hmap_add m t p).1 ≡ m)
unfolding hmap_add
hmap_add_refuses m t p v refused =
    elim (Option-cases (claim (table m t).entries p (table m t).next_id)) [
      | inl full ↦
          let w = table-TableOk m t v in
          (inr (claim-none_iff _ p (table m t).next_id full ∙ w.size), ground arith)
      | inr (es, eq) ↦
          let w = table-TableOk m t v in
          elim (Bool-cases (p == 0)) [
            | inl null ↦ (inl (ground arith), ground arith)
            | inr pointer ↦ absurd (ground (arith, w.start))
          ]
    ]

-- After `hmap_remove` the id stands for nothing, and every other id of every type for what it did.
pub hmap_get-hmap_remove :
    (m : HandleMap) (t u : HandleType) (i j : ℕ)
    → IsValid m
    → hmap_get (hmap_remove m t j) u i ≡ (if same_type t u && (j == i) then 0 else hmap_get m u i)
unfolding hmap_remove hmap_get
hmap_get-hmap_remove m t u i j v = ground (
  arith,
  table-set_table m t u (record (table m t) { entries = release (table m t).entries j }),
  find_id-release (table m t).entries (table m t).next_id i j (table-TableOk m t v).row,
)

-- The id that `hmap_find_by_ptr` returns, if any, stands for the pointer.
pub hmap_get-hmap_find_by_ptr :
    (m : HandleMap) (t : HandleType) (p : ℕ)
    → IsValid m
    → hmap_find_by_ptr m t p ≢ 0
    → hmap_get m t (hmap_find_by_ptr m t p) ≡ p
unfolding hmap_find_by_ptr hmap_get
hmap_get-hmap_find_by_ptr m t p v h =
    ground
      (arith, find_id-find_ptr (table m t).entries (table m t).next_id p (table-TableOk m t v).row)
