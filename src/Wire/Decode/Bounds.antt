-- ===== src/Wire/Decode/Bounds.antt =====
-- The decoders of proto/rpc_msg.c on any bytes, also those that no encoder wrote.
use eloquence.Base.{
  ℕ, ◌+◌, ◌≤◌, ◌≡◌, List, Option, none, some, arith, true, length, length-take, leb→le, ltb→ge, sym,
  ap, ◌∙◌, some_injective, length-drop, take, drop, add32, Bool-cases, inl, inr, ltb, leb,
}
use eloquence.Wire.Function.{max_string_len, max_buffer_size, arg_string, arg_buffer}
use eloquence.Wire.Decode.{
  check_remaining, byte_at, load_be32, decode_tag_i32, decode_counted, take_counted,
  rpc_decode_string, rpc_decode_buffer,
}

-- A message of at most 2 ^ 31 bytes with the position inside it, as `rpc_read_msg` delivers one.
pub record IsCursor (buf : List ℕ) (pos : ℕ) : Type 0 where
  pub inside : pos ≤ length buf
  pub small : length buf ≤ 2_147_483_648

-- A word is decoded from five bytes inside the message, and the position moves behind them.
pub decode_tag_i32_bounds :
    (tag : ℕ) (buf : List ℕ) (pos v q : ℕ)
    → IsCursor buf pos
    → decode_tag_i32 tag buf pos ≡ (some v, q)
    → (q ≡ pos + 5) × (q ≤ length buf) × (byte_at buf pos ≡ tag) × (v ≡ load_be32 buf (pos + 1))
unfolding decode_tag_i32 check_remaining
decode_tag_i32_bounds tag buf pos v q c e = ground arith

none-ne-some {ℓ} :
    {A : Type ℓ} {p q : ℕ} {a : A} → (let r : Option A × ℕ = (none, p) in r) ≡ (some a, q) → ⊥
none-ne-some e = cc (ap (λ r. r.0) e)

done_injective {ℓ} :
    {A : Type ℓ} {a b : A} {p q : ℕ}
    → (let r : Option A × ℕ = (some a, p) in r) ≡ (some b, q)
    → (a ≡ b) × (p ≡ q)
done_injective e = (some_injective (ap (λ r. r.0) e), ap (λ r. r.1) e)

-- A string or buffer whose length has been read.
take_counted_bounds :
    (max slen : ℕ) (buf s : List ℕ) (pos q : ℕ)
    → IsCursor buf pos
    → max ≤ 2_097_152
    → take_counted max slen buf pos ≡ (some (some s), q)
    → (q ≤ length buf)
      × (slen ≤ max)
      × (length s ≡ slen)
      × (q ≡ pos + slen)
      × (s ≡ take slen (drop pos buf))
unfolding take_counted check_remaining
take_counted_bounds max slen buf s pos q c m e = elim (Bool-cases (ltb max slen)) [
  | inl long ↦ absurd (none-ne-some (rw long at e))
  | inr fits ↦ elim (Bool-cases (leb (add32 pos slen) (length buf))) [
    | inl room ↦
        let (es, eq) = done_injective (rw (fits, room) at e) in
        let le : slen ≤ max = ltb→ge max slen fits in
        let end : add32 pos slen ≡ pos + slen = omega arith in
        let in_buf : pos + slen ≤ length buf = rw end at (leb→le _ (length buf) room) in
        let got : take slen (drop pos buf) ≡ s = some_injective es in
        let len : length s ≡ slen =
          rw (← got)
            (omega (arith, length-take slen (drop pos buf), length-drop pos buf, in_buf)) in
        (rw (← eq, end) in_buf, le, len, sym eq ∙ end, sym got)
    | inr short ↦ absurd (none-ne-some (rw (fits, short) at e))
  ]
]

-- A text decoded at `pos`: it and its length lie inside the message, behind the tag, and it is as
-- long as the length says and no longer than the limit.
pub record IsSlice (buf : List ℕ) (pos max q : ℕ) (s : List ℕ) : Type 0 where
  pub inside : q ≤ length buf
  pub limit : length s ≤ max
  pub counted : length s ≡ load_be32 buf (pos + 1)
  pub behind : q ≡ pos + 5 + length s
  pub there : s ≡ take (length s) (drop (pos + 5) buf)

decode_counted_bounds :
    (max : ℕ) (buf s : List ℕ) (pos q : ℕ)
    → IsCursor buf (pos + 5)
    → max ≤ 2_097_152
    → decode_counted max buf (pos + 1) ≡ (some (some s), q)
    → IsSlice buf pos max q s
unfolding decode_counted
decode_counted_bounds max buf s pos q c m e =
    let p : add32 (pos + 1) 4 ≡ pos + 5 = omega arith in
    let (inside, limit, len, behind, there) =
      take_counted_bounds max (load_be32 buf (pos + 1)) buf s (pos + 5) q c m (rw p at e) in
    record {
      inside = inside;
      limit = rw len limit;
      counted = len;
      behind = rw len behind;
      there = rw len there;
    }

-- Whether a string or a buffer is decoded, the tag says which, and no byte outside the message is
-- read.
text_bounds :
    (max : ℕ) (buf s : List ℕ) (pos q : ℕ)
    → IsCursor buf pos
    → max ≤ 2_097_152
    → check_remaining buf pos 5 ≡ true
    → decode_counted max buf (add32 pos 1) ≡ (some (some s), q)
    → IsSlice buf pos max q s
unfolding check_remaining
text_bounds max buf s pos q c m room e =
    let p5 : add32 pos 5 ≡ pos + 5 = omega arith in
    let p1 : add32 pos 1 ≡ pos + 1 = omega arith in
    decode_counted_bounds max buf s pos q
      (record { inside = rw p5 at (leb→le _ (length buf) room); small = c.small }) m (rw p1 at e)

-- A decoded string is a slice of the message behind its tag and length, within the limit.
pub rpc_decode_string_bounds :
    (buf s : List ℕ) (pos q : ℕ)
    → IsCursor buf pos
    → rpc_decode_string buf pos ≡ (some (some s), q)
    → (byte_at buf pos ≡ arg_string) × IsSlice buf pos max_string_len q s
unfolding rpc_decode_string
rpc_decode_string_bounds buf s pos q c e =
    let slice = text_bounds max_string_len buf s pos q c (omega arith) in ground (arith, slice)

-- A decoded buffer is a slice of the message behind its tag and length, within the limit.
pub rpc_decode_buffer_bounds :
    (buf s : List ℕ) (pos q : ℕ)
    → IsCursor buf pos
    → rpc_decode_buffer buf pos ≡ (some (some s), q)
    → (byte_at buf pos ≡ arg_buffer) × IsSlice buf pos max_buffer_size q s
unfolding rpc_decode_buffer
rpc_decode_buffer_bounds buf s pos q c e =
    let slice = text_bounds max_buffer_size buf s pos q c (omega arith) in ground (arith, slice)
