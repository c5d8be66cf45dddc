-- ===== src/Host/Api/Lookup.antt =====
-- The dictionary functions of the ECI interface whose results are texts, host/shim_libeci.c.
use eloquence.Base.{
  ℕ, Bool, true, ◌-◌, ◌&&◌, ◌||◌, Option, none, List, [], ◌∷◌, length, ltb, leb, ◌==◌,
  if◌then◌else◌,
}
use mathlib.Core.Option
use eloquence.Wire.Function
use eloquence.Wire.Encode.{int32, handle, string_or_null}
use eloquence.Wire.Decode.{rpc_decode_int32}
use eloquence.Host.Api.Remote.{Remote, Answer, ask, with_answer, text_at, Copy, copy_upto, copied}

-- `g_dict_key_buf` and `g_dict_val_buf`, and the copies into them.
abbrev pub dict_buf_size : ℕ
dict_buf_size = 4096

abbrev pub dict_copy : List ℕ → Copy
dict_copy = copy_upto (dict_buf_size - 1)

-- The text that the application gets, NULL for a negative value.
unfoldable pub looked_up : Answer → Option Copy
looked_up a =
    if leb 2_147_483_648 a.rv || (length a.extra == 0)
    then none
    else Option.map dict_copy (text_at a.extra 0).0

unfoldable pub eci_dict_lookup : ℕ → ℕ → ℕ → Option (List ℕ) → Remote (Option Copy)
unfolding looked_up
eci_dict_lookup h d vol key junk conn = with_answer looked_up (
    ask Function.eci_dict_lookup (handle h ∷ handle d ∷ int32 vol ∷ string_or_null key ∷ []) junk
      conn)

-- The key and its translation, in the order of the reply, and the position behind them. The pointers of
-- the application are set to the buffers that are written.
unfoldable pub entry_in : List ℕ → Option Copy × Option Copy × ℕ
entry_in extra =
    if ltb 0 (length extra)
    then (let key = text_at extra 0 in
        let val = text_at extra key.1 in
        (Option.map dict_copy key.0, Option.map dict_copy val.0, val.1))
    else (none, none, 0)

-- The part of speech behind them, where the application asks for it.
unfoldable pub part_in : Bool → List ℕ → ℕ → Option ℕ
part_in has_part extra pos =
    if has_part && ltb 0 (length extra) then (rpc_decode_int32 extra pos).0 else none

unfoldable pub eci_dict_find_first : ℕ → ℕ → ℕ → Remote (ℕ × Option Copy × Option Copy)
eci_dict_find_first h d vol junk conn =
    with_answer (λ a. let r = entry_in a.extra in (a.rv, r.0, r.1))
      (ask Function.eci_dict_find_first (handle h ∷ handle d ∷ int32 vol ∷ []) junk conn)

unfoldable pub eci_dict_find_next : ℕ → ℕ → ℕ → Remote (ℕ × Option Copy × Option Copy)
eci_dict_find_next h d vol junk conn =
    with_answer (λ a. let r = entry_in a.extra in (a.rv, r.0, r.1))
      (ask Function.eci_dict_find_next (handle h ∷ handle d ∷ int32 vol ∷ []) junk conn)

unfoldable pub eci_dict_find_first_a :
    ℕ → ℕ → ℕ → Bool → Remote (ℕ × Option Copy × Option Copy × Option ℕ)
eci_dict_find_first_a h d vol has_part junk conn =
    with_answer (λ a. let r = entry_in a.extra in (a.rv, r.0, r.1, part_in has_part a.extra r.2))
      (ask Function.eci_dict_find_first_a (handle h ∷ handle d ∷ int32 vol ∷ []) junk conn)

unfoldable pub eci_dict_find_next_a :
    ℕ → ℕ → ℕ → Bool → Remote (ℕ × Option Copy × Option Copy × Option ℕ)
eci_dict_find_next_a h d vol has_part junk conn =
    with_answer (λ a. let r = entry_in a.extra in (a.rv, r.0, r.1, part_in has_part a.extra r.2))
      (ask Function.eci_dict_find_next_a (handle h ∷ handle d ∷ int32 vol ∷ []) junk conn)

unfoldable pub eci_dict_lookup_a :
    ℕ → ℕ → ℕ → Option (List ℕ) → Bool → Remote (ℕ × Option Copy × Option ℕ)
eci_dict_lookup_a h d vol key has_part junk conn =
    with_answer
      (λ a. (a.rv, copied true dict_copy a.extra, part_in has_part a.extra (text_at a.extra 0).1))
      (ask Function.eci_dict_lookup_a (handle h ∷ handle d ∷ int32 vol ∷ string_or_null key ∷ [])
        junk conn)
