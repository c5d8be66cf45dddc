-- ===== src/Bridge/Reply.antt =====
-- What a case of the switch in `dispatch_rpc` (arm/bridge_dispatch.c) does: it decodes its
-- arguments, calls the engine, changes the client's state, and ends in `send_response`.
use eloquence.Base.{ℕ, Bool, true, false, not, Option, none, some, List, [], ◌∷◌, ◌++◌, ◌==◌}
use eloquence.Handle.{
  hmap_get, hmap_remove, hmap_add, HandleType, htype_eci, htype_dict, htype_filter,
}
use eloquence.Wire.Decode.{Parser}
use eloquence.Bridge.Engine.{Text, CString}
use eloquence.Wire.Encode.{arg_bytes, string}
use eloquence.Bridge.Client.{Client}

-- The arguments of `send_response` behind `fd` and `seq`.
pub record Response : Type 0 where
  pub retval : ℕ
  pub error : ℕ
  pub extra : List ℕ

abbrev pub answer : ℕ → Response
answer retval = record { retval = retval; error = 0; extra = [] }

abbrev pub answer_with : ℕ → List ℕ → Response
answer_with retval extra = record { retval = retval; error = 0; extra = extra }

-- `send_response(client->rpc_fd, seq, 0, 1, NULL, 0)`, the end of every failed decoding.
abbrev pub refusal : Response
refusal = record { retval = 0; error = 1; extra = [] }

-- A case behind its decoding: one that only calls the engine, and one that changes the client.
abbrev pub Query : Type 0 → Type 0
Query E = Client → E → Response × E

abbrev pub Update : Type 0 → Type 0
Update E = Client → E → Response × Client × E

pub data Handler (E : Type 0) : Type 0 where
  query : Parser (Query E) → Handler E
  update : Parser (Update E) → Handler E

-- The pointer behind an id, 0 for NULL, and the test `if (h)`.
abbrev pub eci_ptr : Client → ℕ → ℕ
eci_ptr c hid = hmap_get c.handles htype_eci hid

abbrev pub dict_ptr : Client → ℕ → ℕ
dict_ptr c hid = hmap_get c.handles htype_dict hid

abbrev pub filter_ptr : Client → ℕ → ℕ
filter_ptr c hid = hmap_get c.handles htype_filter hid

abbrev pub found : ℕ → Bool
found p = not (p == 0)

-- `test && f->fn ? f->fn(...) : other`.
abbrev pub guarded {ℓ κ} :
    {E : Type 0} {F : Type ℓ} {R : Type κ} → Bool → Option F → (F → E → R × E) → R → E → R × E
guarded true (some fn) call other e = call fn e
guarded true none call other e = (other, e)
guarded false fn call other e = (other, e)

-- `return send_response(client->rpc_fd, seq, ret, 0, NULL, 0)`.
abbrev pub returning : {E : Type 0} → ℕ × E → Response × E
returning r = (answer r.0, r.1)

-- `make_cstr`: the bytes with a final NUL, in a copy.
pub make_cstr : Option (List ℕ) → Text
make_cstr none = none
make_cstr (some s) = some (s ++ (0 ∷ []))

-- Replies that carry a text: `rpc_encode_string` of the buffer that the engine wrote.
abbrev pub with_text : {E : Type 0} → CString × E → Response × E
with_text r = (answer_with 0 (arg_bytes (string r.0)), r.1)

abbrev pub with_text_and_ret : {E : Type 0} → (ℕ × CString) × E → Response × E
with_text_and_ret ((ret, s), e) = (answer_with ret (arg_bytes (string s)), e)

-- `test ? hmap_add(&client->handles, type, ptr) : other`, and the client behind it.
abbrev pub entered : Bool → Client → HandleType → ℕ → ℕ → ℕ × Client
entered false c type ptr other = (other, c)
entered true c type ptr other =
    let added = hmap_add c.handles type ptr in (added.0, record c { handles = added.1 })

-- `if (h && p && f->fn) { f->fn(h, p); hmap_remove(&client->handles, type, id); }`, and the reply.
abbrev pub dropped :
    {E : Type 0}
    → Bool
    → Option (ℕ → ℕ → E → E)
    → HandleType
    → ℕ
    → ℕ
    → ℕ
    → Client
    → E
    → Response × Client × E
dropped true (some fn) type id h p c e =
    (answer 0, record c { handles = hmap_remove c.handles type id }, fn h p e)
dropped true none type id h p c e = (answer 0, c, e)
dropped false fn type id h p c e = (answer 0, c, e)
