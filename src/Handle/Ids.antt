-- ===== src/Handle/Ids.antt =====
-- How many ids the operations of the handle map take.
use eloquence.Base.{ℕ, ◌+◌, ◌≤◌, Option, none, some, List, arith, Bool-cases, inl, inr, ◌==◌}
use eloquence.Handle.{
  HandleEntry, HandleMap, HandleType, htype_eci, htype_dict, htype_filter, hmap_add, hmap_remove,
  table, commit, claim,
}

-- No row's next id is above `n`.
pub record AtMost (n : ℕ) (m : HandleMap) : Type 0 where
  pub eci : m.eci.next_id ≤ n
  pub dict : m.dict.next_id ≤ n
  pub filter : m.filter.next_id ≤ n

pub AtMost-more : (n : ℕ) (m : HandleMap) → AtMost n m → AtMost (1 + n) m
AtMost-more n m a = record {
  eci = omega (arith, a.eci);
  dict = omega (arith, a.dict);
  filter = omega (arith, a.filter);
}

commit-AtMost :
    (n : ℕ) (m : HandleMap) (t : HandleType) (r : Option (List HandleEntry))
    → AtMost n m
    → AtMost (1 + n) (commit m t r).1
commit-AtMost n m t none a = AtMost-more n m a
commit-AtMost n m htype_eci (some es) a = record {
  eci = omega (arith, a.eci);
  dict = omega (arith, a.dict);
  filter = omega (arith, a.filter);
}
commit-AtMost n m htype_dict (some es) a = record {
  eci = omega (arith, a.eci);
  dict = omega (arith, a.dict);
  filter = omega (arith, a.filter);
}
commit-AtMost n m htype_filter (some es) a = record {
  eci = omega (arith, a.eci);
  dict = omega (arith, a.dict);
  filter = omega (arith, a.filter);
}

pub hmap_add-AtMost :
    (n : ℕ) (m : HandleMap) (t : HandleType) (p : ℕ)
    → AtMost n m
    → AtMost (1 + n) (hmap_add m t p).1
unfolding hmap_add
hmap_add-AtMost n m t p a = elim (Bool-cases (p == 0)) [
  | inl null ↦ rw null (AtMost-more n m a)
  | inr pointer ↦
      rw pointer (commit-AtMost n m t (claim (table m t).entries p (table m t).next_id) a)
]

pub hmap_remove-AtMost :
    (n : ℕ) (m : HandleMap) (t : HandleType) (i : ℕ) → AtMost n m → AtMost n (hmap_remove m t i)
unfolding hmap_remove
hmap_remove-AtMost n m htype_eci i a = elim (Bool-cases (i == 0)) [
  | inl zero_id ↦ rw zero_id a
  | inr other ↦ rw other (record { eci = a.eci; dict = a.dict; filter = a.filter })
]
hmap_remove-AtMost n m htype_dict i a = elim (Bool-cases (i == 0)) [
  | inl zero_id ↦ rw zero_id a
  | inr other ↦ rw other (record { eci = a.eci; dict = a.dict; filter = a.filter })
]
hmap_remove-AtMost n m htype_filter i a = elim (Bool-cases (i == 0)) [
  | inl zero_id ↦ rw zero_id a
  | inr other ↦ rw other (record { eci = a.eci; dict = a.dict; filter = a.filter })
]
