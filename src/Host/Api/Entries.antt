-- ===== src/Host/Api/Entries.antt =====
-- `eciDictFindFirstA` and `eciGetAvailableLanguages` of host/shim_libeci.c, from the application to the engine
-- and back.
use eloquence.Base.{
  ℕ, ◌<◌, ◌≤◌, ◌≡◌, refl, true, ◌&&◌, List, [], ◌∷◌, ◌++◌, Option, none, some, arith, length,
  minus_one,
}
use eloquence.Wire.Function.{Function, fn_id, max_msg_size, max_string_len, msg_rpc_response}
use eloquence.Wire.Encode.{Arg}
use eloquence.Wire.Decode.Position.{At-start, At-advance}
use eloquence.Wire.Decode.RoundTrip.{args_bytes}
use eloquence.Wire.Header.{request_header_bytes}
use eloquence.Bridge.Engine.{EciFuncs, Outside, CString}
use eloquence.Bridge.Client.{Client}
use eloquence.Bridge.Reply.{eci_ptr, dict_ptr, found, guarded}
use eloquence.Bridge.Dispatch.{handler, serve, run_query, dispatch_rpc}
use eloquence.Bridge.Dispatch.Request.{request_bytes}
use eloquence.Bridge.Dispatch.Dict
use eloquence.Bridge.Dispatch.Dict.{or_empty, with_entry_a}
use eloquence.Bridge.Callback.{Channel}
use eloquence.Frame.Exact.{stream, NoRefusal}
use eloquence.Frame.RoundTrip.{msg_bytes}
use eloquence.Host.Connection.{Conn}
use eloquence.Host.Api.{Param, hand, word, arg_of}
use eloquence.Host.Api.Reading.{Read-params}
use eloquence.Host.Api.Refinement.{ask-serve}
use eloquence.Host.Api.Lookup.{eci_dict_find_first_a, dict_copy}
use eloquence.Host.Api.Texts.{entry_in-entry_bytes}
use eloquence.Base.{map}

abbrev find_params : ℕ → ℕ → ℕ → List Param
find_params h d vol = hand h ∷ hand d ∷ word vol ∷ []

abbrev pub find_args : ℕ → ℕ → ℕ → List Arg
find_args h d vol = map arg_of (find_params h d vol)

-- What the engine finds: its result, a key and a translation that may be NULL, and a part of speech; -1 and
-- nothing where there is no such handle or function.
abbrev pub engine_finds :
    {E : Type 0}
    → EciFuncs E
    → ℕ
    → ℕ
    → ℕ
    → Client
    → E
    → (ℕ × Option CString × Option CString × ℕ) × E
engine_finds f h d vol c e =
    guarded (found (eci_ptr c h) && found (dict_ptr c d)) f.eci_dict_find_first_a
      (λ fn. fn (eci_ptr c h) (dict_ptr c d) vol) (minus_one, none, none, 0) e

module _ {E : Type 0} (o : Outside E) where
  open o use {funcs as f}

  finds :
      (h d vol seq : ℕ) (c : Client) (e : E)
      → let r = engine_finds f h d vol c e in
        (serve o
          (handler o Function.eci_dict_find_first_a)
          (request_bytes seq
            (fn_id Function.eci_dict_find_first_a)
            (args_bytes (find_args h d vol)))
          6
          c
          e).0
        ≡ (with_entry_a r).0
  unfolding serve handler run_query Dict.dict_find_first_a
  finds h d vol seq c e =
      let buf =
        request_bytes seq (fn_id Function.eci_dict_find_first_a) (args_bytes (find_args h d vol)) in
      let r =
        Read-params (find_params h d vol) buf 6
          (At-advance buf (request_header_bytes seq (fn_id Function.eci_dict_find_first_a)) _ 0 6
            (At-start buf (omega arith)) refl)
          (tt, (tt, (tt, tt))) in
      rw (r.0, r.1.0, r.1.1.0)

  -- `eciDictFindFirstA` on an open connection, with a place for the part of speech, hands back the engine's
  -- result, -1 where an id has no handle or the engine no such function, passes its part of speech on, and copies
  -- its key and translation, empty for NULL, into the host's buffers of 4096 bytes, each at most up to its first
  -- 4095 bytes: where the bridge's response arrives, in whatever pieces, writing does not fail, the key and the
  -- translation have at most 64 KiB each, and the response has fewer than 4 MiB.
  pub eci_dict_find_first_a-engine_finds :
      (h d vol : ℕ) (more : List ℕ) (junk : ℕ) (conn : Conn) (ch : Channel) (c : Client) (e : E)
      (bytes : List ℕ)
      → let r = (engine_finds f h d vol c e).0 in
        conn.connected ≡ true
        → conn.rpc ≡ some ch
        → NoRefusal ch.output.uptakes
        → (dispatch_rpc o
            (request_bytes conn.next_seq
              (fn_id Function.eci_dict_find_first_a)
              (args_bytes (find_args h d vol)))
            c
            e).0
          ≡ some bytes
        → length bytes < max_msg_size
        → stream ch.input ≡ msg_bytes msg_rpc_response bytes ++ more
        → length (or_empty r.1) ≤ max_string_len
        → length (or_empty r.2) ≤ max_string_len
        → (conn' : Conn) × (conn'.connected ≡ true)
          × (eci_dict_find_first_a h d vol true junk conn
              ≡ some (
                (r.0, some (dict_copy (or_empty r.1)), some (dict_copy (or_empty r.2)), some r.3),
                conn',
              ))
  unfolding eci_dict_find_first_a
  eci_dict_find_first_a-engine_finds h d vol more junk conn ch c e bytes up here willing given short
        arrives small_key small_val =
      let r = (engine_finds f h d vol c e).0 in
      let (conn', open_, asked) =
        ask-serve o Function.eci_dict_find_first_a (find_args h d vol) more junk conn ch c e bytes
          up here willing (omega arith) given short arrives in
      let (k, v, p) = entry_in-entry_bytes (or_empty r.1) (or_empty r.2) r.3 small_key small_val in
      (conn', open_, rw (asked, finds h d vol conn.next_seq c e, k, v, p))
