-- ===== src/Frame/RoundTrip.antt =====
-- `rpc_write_msg` and `rpc_read_msg` (proto/rpc_io.c) against the bytes of a message on the wire.
use eloquence.Base.{
  ℕ, ◌+◌, ◌-◌, ◌<◌, ◌≡◌, refl, ◌∙◌, List, [], ◌∷◌, ◌++◌, some, true, arith, length, length-append,
  Bool-cases, Option-cases, inl, inr, none, leb, leb→le, leb→gt, length-drop, ◌≤◌, ltb, ◌||◌, ap,
  append_assoc, take-append, drop-append, add32, be32, of_be32-be32, ge→ltb,
}
use eloquence.Wire.Function.{max_msg_size}
use eloquence.Frame.{
  Arrival, Outlet, rpc_read_exact, rpc_write_exact, rpc_read_msg, rpc_write_msg, Message, net_len,
}
use eloquence.Frame.Exact.{stream, read_exact-Reads, NoRefusal, write_exact_sends}

-- A message on the wire: the length of type and payload, the type, the payload.
abbrev pub msg_bytes : ℕ → List ℕ → List ℕ
msg_bytes msg_type payload = be32 (length payload + 1) ++ (msg_type ∷ payload)

-- Where no call of write fails, a message whose length fits 32 bits goes out whole.
pub write_msg_sends :
    (o : Outlet) (msg_type : ℕ) (payload : List ℕ)
    → NoRefusal o.uptakes
    → length payload < 4_294_967_295
    → ((rpc_write_msg o msg_type payload).0 ≡ true)
      × ((rpc_write_msg o msg_type payload).1.sent ≡ o.sent ++ msg_bytes msg_type payload)
unfolding rpc_write_msg
write_msg_sends o msg_type payload h small =
    let n : add32 1 (length payload) ≡ length payload + 1 = omega arith in
    let len = be32 (length payload + 1) in
    let (ok1, sent1, h1) = write_exact_sends o len h in
    let o1 = (rpc_write_exact o len).1 in
    let (ok2, sent2, h2) = write_exact_sends o1 (msg_type ∷ []) h1 in
    let o2 = (rpc_write_exact o1 (msg_type ∷ [])).1 in
    let (ok3, sent3, h3) = write_exact_sends o2 payload h2 in
    rw (n, ok1, ok2, ok3) (refl, rw (sent3, sent2, sent1) (simp append_assoc))

-- A socket that refuses no write does so behind a message as well.
pub write_msg_willing :
    (o : Outlet) (msg_type : ℕ) (payload : List ℕ)
    → NoRefusal o.uptakes
    → NoRefusal (rpc_write_msg o msg_type payload).1.uptakes
unfolding rpc_write_msg
write_msg_willing o msg_type payload h =
    let len = be32 (add32 1 (length payload)) in
    let (ok1, sent1, h1) = write_exact_sends o len h in
    let o1 = (rpc_write_exact o len).1 in
    let (ok2, sent2, h2) = write_exact_sends o1 (msg_type ∷ []) h1 in
    let (ok3, sent3, h3) = write_exact_sends (rpc_write_exact o1 (msg_type ∷ [])).1 payload h2 in
    rw (ok1, ok2) h3

-- Reading takes the front off a stream that begins with it.
reads_front :
    (arrivals : List Arrival) (front more : List ℕ) (n : ℕ)
    → stream arrivals ≡ front ++ more
    → n ≡ length front
    → ((rpc_read_exact arrivals n).0 ≡ some front) × (stream (rpc_read_exact arrivals n).1 ≡ more)
reads_front arrivals front more n e len =
    let all = read_exact-Reads arrivals n in
    let (got, left) = all.enough (rw (e, len) (omega (arith, length-append front more))) in
    (got ∙ rw (e, take-append front more n len), left ∙ rw (e, drop-append front more n len))

-- A message at the front of the stream is read with its type and payload, however the stream is cut,
-- and what follows it is left, if type and payload have at most 4 MiB.
pub read_msg_receives :
    (arrivals : List Arrival) (msg_type : ℕ) (payload more : List ℕ)
    → stream arrivals ≡ msg_bytes msg_type payload ++ more
    → length payload < max_msg_size
    → ((rpc_read_msg arrivals).0 ≡ some (record { msg_type = msg_type; payload = payload }))
      × (stream (rpc_read_msg arrivals).1 ≡ more)
unfolding rpc_read_msg
read_msg_receives arrivals msg_type payload more e small =
    let n = length payload + 1 in
    let (got4, left4) = reads_front arrivals (be32 n) _ 4 e refl in
    let rest4 = (rpc_read_exact arrivals 4).1 in
    let (got1, left1) = reads_front rest4 (msg_type ∷ []) (payload ++ more) 1 left4 refl in
    let rest1 = (rpc_read_exact rest4 1).1 in
    let (gotp, leftp) = reads_front rest1 payload more (n - 1) left1 (omega arith) in
    rw
      (
        got4,
        of_be32-be32 n,
        ge→ltb n 1 (omega arith),
        ge→ltb max_msg_size n (omega arith),
        got1,
        gotp,
      )
      (refl, leftp)

-- A read that succeeds had the bytes, and leaves what stands behind them.
read_exact-some :
    (arrivals : List Arrival) (n : ℕ) (bs : List ℕ)
    → (rpc_read_exact arrivals n).0 ≡ some bs
    → length (stream (rpc_read_exact arrivals n).1) + n ≡ length (stream arrivals)
read_exact-some arrivals n bs h =
    let all = read_exact-Reads arrivals n in
    elim (Bool-cases (leb n (length (stream arrivals)))) [
      | inl e ↦
          let le : n ≤ length (stream arrivals) = leb→le n (length (stream arrivals)) e in
          rw (all.enough le).1 (omega (arith, length-drop n (stream arrivals)))
      | inr e ↦ cc (h, all.short (omega (arith, leb→gt n (length (stream arrivals)) e)))
    ]

-- A message that is read takes bytes off the stream.
pub read_msg_shrinks :
    (arrivals : List Arrival) (m : Message)
    → (rpc_read_msg arrivals).0 ≡ some m
    → length (stream (rpc_read_msg arrivals).1) < length (stream arrivals)
unfolding rpc_read_msg
read_msg_shrinks arrivals m h = elim (Option-cases (rpc_read_exact arrivals 4).0) [
  | inl e ↦ cc (rw e at h)
  | inr (l, e) ↦
      let rest4 = (rpc_read_exact arrivals 4).1 in
      let first = read_exact-some arrivals 4 l e in
      elim (Bool-cases (ltb (net_len l) 1 || ltb max_msg_size (net_len l))) [
        | inl bad ↦ cc (rw (e, bad) at h)
        | inr good ↦ elim (Option-cases (rpc_read_exact rest4 1).0) [
          | inl none_ ↦ cc (rw (e, good, none_) at h)
          | inr (t, d) ↦
              let rest1 = (rpc_read_exact rest4 1).1 in
              let second = read_exact-some rest4 1 t d in
              elim (Option-cases (rpc_read_exact rest1 (net_len l - 1)).0) [
                | inl none_ ↦ cc (rw (e, good, d, none_) at h)
                | inr (p, c) ↦
                    rw (e, good, d, c)
                      (omega (arith, first, second, read_exact-some rest1 (net_len l - 1) p c))
              ]
        ]
      ]
]

-- Nothing is read from a stream that has ended.
pub read_msg_ends :
    (arrivals : List Arrival) → stream arrivals ≡ [] → (rpc_read_msg arrivals).0 ≡ none
unfolding rpc_read_msg
read_msg_ends arrivals e = rw ((read_exact-Reads arrivals 4).short (omega (arith, ap length e)))
