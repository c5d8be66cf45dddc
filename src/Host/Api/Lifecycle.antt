-- ===== src/Host/Api/Lifecycle.antt =====
-- The lifecycle functions of the ECI interface, host/shim_libeci.c.
use eloquence.Base.{
  ℕ, zero, suc, Bool, true, false, ◌||◌, not, less, Option, none, some, List, [], ◌∷◌, ltb, ◌==◌,
  if◌then◌else◌, minus_one,
}
use eloquence.Wire.Function
use eloquence.Wire.Function.{max_string_len, fn_id}
use eloquence.Wire.Encode.{int32, handle}
use eloquence.Wire.Decode.{rpc_decode_int32}
use eloquence.Host.Connection.{Conn}
use eloquence.Host.Api.Remote.{
  Remote, Answer, value_of, told, ask, do_rpc, with_answer, handle_in, Copy, copied, whole_copy,
  is_open,
}

unfoldable pub eci_reset : ℕ → Remote ℕ
eci_reset h = value_of Function.eci_reset (handle h ∷ [])

unfoldable pub eci_is_being_reentered : ℕ → Remote ℕ
eci_is_being_reentered h = value_of Function.eci_is_being_reentered (handle h ∷ [])

unfoldable pub eci_prog_status : ℕ → Remote ℕ
eci_prog_status h = value_of Function.eci_prog_status (handle h ∷ [])

unfoldable pub eci_test_phrase : ℕ → Remote ℕ
eci_test_phrase h = value_of Function.eci_test_phrase (handle h ∷ [])

-- `eciNew` and `eciNewEx` behind the call: the handle, and whether the callback thread is started.
unfoldable pub opened : Option (Answer × Conn) → Option ((ℕ × Bool) × Conn)
opened none = none
opened (some (a, conn)) =
    let hid = handle_in a.extra in
    some (if not a.ok || (hid == 0) then (0, false) else (hid, is_open conn.cb), conn)

unfoldable pub eci_new : Remote (ℕ × Bool)
unfolding opened
eci_new junk conn = opened (do_rpc (fn_id Function.eci_new) [] junk conn)

unfoldable pub eci_new_ex : ℕ → Remote (ℕ × Bool)
unfolding opened
eci_new_ex lang junk conn = opened (ask Function.eci_new_ex (int32 lang ∷ []) junk conn)

unfoldable pub eci_delete : ℕ → Remote ℕ
eci_delete h = told Function.eci_delete (handle h ∷ []) 0

unfoldable pub eci_clear_errors : ℕ → Remote (Unit {0})
eci_clear_errors h = told Function.eci_clear_errors (handle h ∷ []) tt

-- The text in the reply is copied whole: the buffer is trusted to have room for it.
unfoldable pub eci_version : Bool → Remote (Option Copy)
eci_version false junk conn = some (none, conn)
eci_version true junk conn =
    with_answer (λ a. copied true whole_copy a.extra)
      (do_rpc (fn_id Function.eci_version) [] junk conn)

unfoldable pub eci_error_message : ℕ → Bool → Remote (Option Copy)
eci_error_message h false junk conn = some (none, conn)
eci_error_message h true junk conn =
    with_answer (λ a. copied true whole_copy a.extra)
      (ask Function.eci_error_message (handle h ∷ []) junk conn)

-- The loop over the languages: at most `max` of them, up to the first that cannot be decoded.
abbrev pub lang_then : Option ℕ → List ℕ → List ℕ
lang_then none rest = []
lang_then (some lang) rest = lang ∷ rest

unfoldable pub langs_in : List ℕ → ℕ → ℕ → List ℕ
langs_in extra zero pos = []
langs_in extra (suc max) pos =
    let r = rpc_decode_int32 extra pos in let rest = langs_in extra max r.1 in lang_then r.0 rest

-- The rounds of `i < max` on an `int`.
abbrev pub rounds : ℕ → ℕ
rounds max = if ltb max 2_147_483_648 then max else 0

-- From the number of languages in the reply on: the value, the languages that are written into the
-- application's array, and what `*nLanguages` is then; `none` for a NULL pointer.
unfoldable pub langs_out : Bool → Option ℕ → Answer → Option ℕ × ℕ → ℕ × List ℕ × Option ℕ
unfolding langs_in
langs_out has_array n a (none, pos) = (minus_one, [], n)
langs_out has_array none a (some count, pos) = (a.rv, [], none)
langs_out has_array (some max) a (some count, pos) =
    let m = if less count max then count else max in
    (a.rv, if has_array then langs_in a.extra (rounds m) pos else [], some count)

unfoldable pub eci_get_available_languages : Bool → Option ℕ → Remote (ℕ × List ℕ × Option ℕ)
unfolding langs_out
eci_get_available_languages has_array n junk conn =
    with_answer
      (λ a.
        if a.ok then langs_out has_array n a (rpc_decode_int32 a.extra 0) else (minus_one, [], n))
      (do_rpc (fn_id Function.eci_get_available_langs) [] junk conn)
