-- ===== src/Handle.antt =====
-- arm/bridge_handle.c: the map between the ids that a client sees and the bridge's pointers. A
-- pointer is a number, and NULL is 0. The row of one handle type is a `Table`.
pub mod Scan
pub mod Invariant
pub mod View
pub mod Ids
use eloquence.Base.{
  ℕ, Bool, true, false, ◌&&◌, Option, none, some, List, [], ◌∷◌, replicate, ◌==◌, if◌then◌else◌,
  add32, not,
}

abbrev pub max_handles_per_type : ℕ
max_handles_per_type = 64

pub data HandleType : Type 0 where
  htype_eci htype_dict htype_filter : HandleType

pub record HandleEntry : Type 0 where
  pub ptr : ℕ
  pub id : ℕ
  pub in_use : Bool

-- `entries[type]` and `next_id[type]`.
pub record Table : Type 0 where
  pub entries : List HandleEntry
  pub next_id : ℕ

pub record HandleMap : Type 0 where
  pub eci : Table
  pub dict : Table
  pub filter : Table

abbrev pub table : HandleMap → HandleType → Table
table m htype_eci = m.eci
table m htype_dict = m.dict
table m htype_filter = m.filter

abbrev pub set_table : HandleMap → HandleType → Table → HandleMap
set_table m htype_eci t = record m { eci = t }
set_table m htype_dict t = record m { dict = t }
set_table m htype_filter t = record m { filter = t }

abbrev pub free_entry : HandleEntry
free_entry = record { ptr = 0; id = 0; in_use = false }

abbrev pub empty_table : Table
empty_table = record { entries = replicate max_handles_per_type free_entry; next_id = 1 }

unfoldable pub hmap_init : HandleMap
hmap_init = record { eci = empty_table; dict = empty_table; filter = empty_table }

abbrev pub kept : HandleEntry → Option (List HandleEntry) → Option (List HandleEntry)
kept e none = none
kept e (some es) = some (e ∷ es)

-- The loop of `hmap_add`: the first entry that is not in use takes the pointer and the id; `none`
-- where all are in use.
unfoldable pub claim : List HandleEntry → ℕ → ℕ → Option (List HandleEntry)
claim [] p i = none
claim (e ∷ es) p i =
    if not e.in_use
    then some (record { ptr = p; id = i; in_use = true } ∷ es)
    else kept e (claim es p i)

-- The loop of `hmap_get` and the one of `hmap_remove`.
unfoldable pub find_id : List HandleEntry → ℕ → ℕ
find_id [] i = 0
find_id (e ∷ es) i = if e.in_use && (e.id == i) then e.ptr else find_id es i

unfoldable pub release : List HandleEntry → ℕ → List HandleEntry
release [] i = []
release (e ∷ es) i =
    if e.in_use && (e.id == i) then record e { in_use = false; ptr = 0 } ∷ es else e ∷ release es i

-- The loop of `hmap_find_by_ptr`.
unfoldable pub find_ptr : List HandleEntry → ℕ → ℕ
find_ptr [] p = 0
find_ptr (e ∷ es) p = if e.in_use && (e.ptr == p) then e.id else find_ptr es p

-- The end of `hmap_add`, given what the loop claimed: 0 where the row is full.
abbrev pub commit : HandleMap → HandleType → Option (List HandleEntry) → ℕ × HandleMap
commit m type none = (0, m)
commit m type (some es) =
    let t = table m type in
    (t.next_id, set_table m type (record { entries = es; next_id = add32 t.next_id 1 }))

-- `next_id[type]++` is on a `uint32_t`.
unfoldable pub hmap_add : HandleMap → HandleType → ℕ → ℕ × HandleMap
hmap_add m type ptr =
    let t = table m type in
    if ptr == 0 then (0, m) else commit m type (claim t.entries ptr t.next_id)

unfoldable pub hmap_get : HandleMap → HandleType → ℕ → ℕ
hmap_get m type id = if id == 0 then 0 else find_id (table m type).entries id

unfoldable pub hmap_remove : HandleMap → HandleType → ℕ → HandleMap
hmap_remove m type id =
    if id == 0
    then m
    else set_table m type (record (table m type) { entries = release (table m type).entries id })

unfoldable pub hmap_find_by_ptr : HandleMap → HandleType → ℕ → ℕ
hmap_find_by_ptr m type ptr = if ptr == 0 then 0 else find_ptr (table m type).entries ptr
