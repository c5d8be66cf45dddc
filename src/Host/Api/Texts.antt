-- ===== src/Host/Api/Texts.antt =====
-- The functions of host/shim_libeci.c that hand back texts and lists, against the replies of the bridge.
use eloquence.Base.{
  ℕ, zero, suc, ◌+◌, ◌≤◌, ◌≡◌, refl, true, List, [], ◌∷◌, ◌++◌, some, arith, sym, append-nil,
  length, take, length-append, subst, lt→ltb,
}
use eloquence.Wire.Function.{arg_int32, max_string_len}
use eloquence.Wire.Encode.{int32, string, arg_bytes}
use eloquence.Wire.Decode.{rpc_decode_int32}
use eloquence.Wire.Decode.Position.{At, At-start, At-advance}
use eloquence.Wire.Decode.RoundTrip.{decode_tag_i32-tagged, rpc_decode_string-string}
use eloquence.Bridge.Dispatch.Lifecycle.{langs_bytes}
use eloquence.Host.Api.Remote.{text_at, Copy, copied}
use eloquence.Host.Api.Lifecycle.{langs_in}
use eloquence.Host.Api.Lookup.{entry_in, part_in, dict_copy}

-- A text that stands in a reply is found, and the position moves behind it.
pub text_at-string :
    (extra rest s : List ℕ) (pos : ℕ)
    → At extra pos (arg_bytes (string s) ++ rest)
    → length s ≤ max_string_len
    → text_at extra pos ≡ (some s, pos + (5 + length s))
unfolding text_at
text_at-string extra rest s pos a h = rw (rpc_decode_string-string extra rest s pos a h)

-- A reply's text is what is copied, if it has at most 64 KiB.
pub copied-string :
    (copy : List ℕ → Copy) (s : List ℕ)
    → length s ≤ max_string_len
    → copied true copy (arg_bytes (string s)) ≡ some (copy s)
unfolding copied
copied-string copy s h =
    let a : At (arg_bytes (string s)) 0 (arg_bytes (string s) ++ []) =
      subst (At (arg_bytes (string s)) 0) (sym (append-nil (arg_bytes (string s))))
        (At-start (arg_bytes (string s)) (omega (arith, h))) in
    rw (
      text_at-string (arg_bytes (string s)) [] s 0 a h,
      lt→ltb 0 (length (arg_bytes (string s))) (omega arith),
    )

-- The languages that a reply lists are read in order, as many as there is room for.
pub langs_in-langs_bytes :
    (ls rest extra : List ℕ) (max pos : ℕ)
    → At extra pos (langs_bytes ls ++ rest)
    → max ≤ length ls
    → langs_in extra max pos ≡ take max ls
unfolding langs_in langs_bytes rpc_decode_int32
langs_in-langs_bytes ls rest extra zero pos a h = refl
langs_in-langs_bytes [] rest extra (suc max) pos a h = elim h [ ]
langs_in-langs_bytes (l ∷ ls) rest extra (suc max) pos a h = rw (
  decode_tag_i32-tagged extra _ pos arg_int32 l a,
  langs_in-langs_bytes ls rest extra max (pos + 5)
      (At-advance extra (arg_bytes (int32 l)) _ pos 5 a refl) (omega arith),
)

-- A reply with a key, its translation and a part of speech, as the bridge sends it.
abbrev pub entry_bytes : List ℕ → List ℕ → ℕ → List ℕ
entry_bytes key val part =
    arg_bytes (string key) ++ (arg_bytes (string val) ++ arg_bytes (int32 part))

-- The key and the translation of a reply are copied, and the part of speech behind them is found, if the
-- texts have at most 64 KiB.
pub entry_in-entry_bytes :
    (key val : List ℕ) (part : ℕ)
    → length key ≤ max_string_len
    → length val ≤ max_string_len
    → let r = entry_in (entry_bytes key val part) in
      (r.0 ≡ some (dict_copy key))
      × (r.1 ≡ some (dict_copy val))
      × (part_in true (entry_bytes key val part) r.2 ≡ some part)
unfolding entry_in part_in rpc_decode_int32
entry_in-entry_bytes key val part hk hv =
    let extra = entry_bytes key val part in
    let a0 : At extra 0 extra = At-start extra (
      omega (
        arith,
        hk,
        hv,
        length-append (arg_bytes (string key)) (arg_bytes (string val) ++ arg_bytes (int32 part)),
        length-append (arg_bytes (string val)) (arg_bytes (int32 part)),
      )) in
    let k = text_at-string extra (arg_bytes (string val) ++ arg_bytes (int32 part)) key 0 a0 hk in
    let a1 = At-advance extra (arg_bytes (string key)) _ 0 (5 + length key) a0 (ground arith) in
    let v = text_at-string extra (arg_bytes (int32 part)) val (0 + (5 + length key)) a1 hv in
    let a2 =
      At-advance extra (arg_bytes (string val)) _ (0 + (5 + length key)) (5 + length val) a1
        (ground arith) in
    let there = lt→ltb 0 (length extra) (omega arith) in
    (
      rw (there, k),
      rw (there, k, v),
      rw (there, k, v, decode_tag_i32-tagged extra [] _ arg_int32 part a2),
    )
