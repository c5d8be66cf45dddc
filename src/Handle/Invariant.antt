-- ===== src/Handle/Invariant.antt =====
-- The invariant of the handle map, and that every operation keeps it.
use eloquence.Base.{
  ℕ, ◌+◌, ◌≤◌, ◌<◌, ◌≡◌, refl, some, List, arith, length, ◌==◌, Bool-cases, Option-cases, inl, inr,
  replicate, zero, suc, add32, ◌∙◌,
}
use eloquence.Handle.{
  HandleEntry, HandleType, htype_eci, htype_dict, htype_filter, Table, HandleMap, table, set_table,
  max_handles_per_type, empty_table, free_entry, claim, hmap_init, hmap_add, hmap_remove,
}
use eloquence.Handle.Scan.{RowOk, RowOk-claim, RowOk-release, length-claim, length-release}

-- A row has 64 entries, and gives out ids from 1 on that it has not given out before.
pub record TableOk (t : Table) : Type 0 where
  pub size : length t.entries ≡ max_handles_per_type
  pub start : 1 ≤ t.next_id
  pub row : RowOk t.entries t.next_id

pub record IsValid (m : HandleMap) : Type 0 where
  pub eci : TableOk m.eci
  pub dict : TableOk m.dict
  pub filter : TableOk m.filter

pub table-TableOk : (m : HandleMap) (t : HandleType) → IsValid m → TableOk (table m t)
table-TableOk m htype_eci v = v.eci
table-TableOk m htype_dict v = v.dict
table-TableOk m htype_filter v = v.filter

pub set_table-IsValid :
    (m : HandleMap) (t : HandleType) (r : Table) → IsValid m → TableOk r → IsValid (set_table m t r)
set_table-IsValid m htype_eci r v w = record { eci = w; dict = v.dict; filter = v.filter }
set_table-IsValid m htype_dict r v w = record { eci = v.eci; dict = w; filter = v.filter }
set_table-IsValid m htype_filter r v w = record { eci = v.eci; dict = v.dict; filter = w }

replicate-RowOk : (n k : ℕ) → RowOk (replicate n free_entry) k
replicate-RowOk zero k = tt
replicate-RowOk (suc n) k = (tt, replicate-RowOk n k)

-- A new client's map is valid.
pub hmap_init-IsValid : IsValid hmap_init
unfolding hmap_init
hmap_init-IsValid = record { eci = new_row; dict = new_row; filter = new_row }
  where
    new_row : TableOk empty_table
    new_row = record { size = refl; start = omega arith; row = replicate-RowOk 64 1 }

-- Adding keeps the map valid, as long as the row has not given out 2 ^ 32 - 2 ids.
pub hmap_add-IsValid :
    (m : HandleMap) (t : HandleType) (p : ℕ)
    → IsValid m
    → (table m t).next_id < 4_294_967_295
    → IsValid (hmap_add m t p).1
unfolding hmap_add
hmap_add-IsValid m t p v h = elim (Bool-cases (p == 0)) [
  | inl null ↦ rw null v
  | inr pointer ↦
      rw pointer (elim (Option-cases (claim (table m t).entries p (table m t).next_id)) [
        | inl full ↦ rw full v
        | inr (es, eq) ↦ rw eq (added es eq (ground arith))
      ])
]
  where
    w : TableOk (table m t)
    w = table-TableOk m t v

    n : ℕ
    n = (table m t).next_id

    added :
        (es : List HandleEntry)
        → claim (table m t).entries p n ≡ some es
        → 0 < p
        → IsValid (set_table m t (record { entries = es; next_id = add32 n 1 }))
    added es eq pos =
        let same : add32 n 1 ≡ n + 1 = omega arith in
        rw same (
          set_table-IsValid m t _ v (record {
            size = length-claim (table m t).entries es p n eq ∙ w.size;
            start = omega arith;
            row = RowOk-claim (table m t).entries es p n w.row pos w.start eq;
          }))

-- Removing keeps it valid.
pub hmap_remove-IsValid :
    (m : HandleMap) (t : HandleType) (i : ℕ) → IsValid m → IsValid (hmap_remove m t i)
unfolding hmap_remove
hmap_remove-IsValid m t i v = elim (Bool-cases (i == 0)) [
  | inl zero_id ↦ rw zero_id v
  | inr other ↦
      let w = table-TableOk m t v in
      rw other (
        set_table-IsValid m t _ v (record {
          size = length-release (table m t).entries i ∙ w.size;
          start = w.start;
          row = RowOk-release (table m t).entries _ i w.row;
        }))
]
