-- ===== src/Frame/Exact.antt =====
-- `rpc_read_exact` and `rpc_write_exact` (proto/rpc_io.c) against the stream of bytes.
use eloquence.Base.{
  ℕ, zero, suc, ◌-◌, ◌≤◌, ◌<◌, ◌≡◌, refl, sym, ap, ◌∙◌, List, [], ◌∷◌, ◌++◌, Option, none, some,
  true, arith, length, take, drop, length-append, leb→le, leb→gt, take-append_ge, take-append_le,
  drop-append_ge, drop-append_le, append_assoc, append-nil, take-append-drop, leb, Bool-cases, inl,
  inr,
}
use eloquence.Frame.{
  Arrival, bytes, eintr, fail, eof, left_over, rpc_read_exact, Uptake, takes, interrupted, refuses,
  Outlet, write_loop, rpc_write_exact,
}

-- The bytes that a socket gives before its first error or its end, however they are cut.
abbrev pub stream : List Arrival → List ℕ
stream [] = []
stream (bytes b bs ∷ rest) = b ∷ bs ++ stream rest
stream (eintr ∷ rest) = stream rest
stream (fail ∷ rest) = []
stream (eof ∷ rest) = []

stream-left_over :
    (bs : List ℕ) (rest : List Arrival) → stream (left_over bs rest) ≡ bs ++ stream rest
stream-left_over [] rest = refl
stream-left_over (b ∷ bs) rest = refl

-- What a read of `n` bytes should come to, given the whole stream.
pub record Reads (n : ℕ) (s : List ℕ) (out : Option (List ℕ) × List Arrival) : Type 0 where
  pub enough : n ≤ length s → (out.0 ≡ some (take n s)) × (stream out.1 ≡ drop n s)
  pub short : length s < n → out.0 ≡ none

pub read_exact-Reads :
    (arrivals : List Arrival) (n : ℕ) → Reads n (stream arrivals) (rpc_read_exact arrivals n)
unfolding rpc_read_exact
read_exact-Reads arrivals zero = record { enough = λ h. (refl, refl); short = λ h. elim h [ ] }
read_exact-Reads [] (suc n) = record { enough = λ h. elim h [ ]; short = λ h. refl }
read_exact-Reads (eintr ∷ rest) (suc n) = read_exact-Reads rest (suc n)
read_exact-Reads (fail ∷ rest) (suc n) = record { enough = λ h. elim h [ ]; short = λ h. refl }
read_exact-Reads (eof ∷ rest) (suc n) = record { enough = λ h. elim h [ ]; short = λ h. refl }
read_exact-Reads (bytes b bs ∷ rest) (suc n) =
    let later = read_exact-Reads rest (n - length bs) in
    elim (Bool-cases (leb (length bs) n)) [
      | inl whole ↦ rw whole (
          let le : length bs ≤ n = leb→le _ _ whole in
          record {
            enough = λ h.
                let (got, left) = later.enough (omega (arith, length-append bs (stream rest))) in
                (
                  rw (got, take-append_ge bs (stream rest) n le),
                  rw (left, drop-append_ge bs (stream rest) n le),
                );
            short = λ h. rw (later.short (omega (arith, length-append bs (stream rest))));
          })
      | inr part ↦ rw part (
          let le : n ≤ length bs = omega (arith, leb→gt _ _ part) in
          record {
            enough = λ h. (
              rw (take-append_le bs (stream rest) n le),
              rw (stream-left_over, drop-append_le bs (stream rest) n le),
            );
            short = λ h. absurd (omega (arith, length-append bs (stream rest)));
          })
    ]

-- Where the stream has `n` bytes, exactly its first `n` are read, whatever pieces they come in and
-- however often the call is interrupted, and the rest of the stream is left.
pub read_exact_enough :
    (arrivals : List Arrival) (n : ℕ)
    → n ≤ length (stream arrivals)
    → ((rpc_read_exact arrivals n).0 ≡ some (take n (stream arrivals)))
      × (stream (rpc_read_exact arrivals n).1 ≡ drop n (stream arrivals))
read_exact_enough arrivals n h = (read_exact-Reads arrivals n).enough h

-- Where the stream ends before `n` bytes, the read fails.
pub read_exact_short :
    (arrivals : List Arrival) (n : ℕ)
    → length (stream arrivals) < n
    → (rpc_read_exact arrivals n).0 ≡ none
read_exact_short arrivals n h = (read_exact-Reads arrivals n).short h

-- No call of write fails.
abbrev pub NoRefusal : List Uptake → Type 0
NoRefusal [] = Unit
NoRefusal (takes _ ∷ rest) = NoRefusal rest
NoRefusal (interrupted ∷ rest) = NoRefusal rest
NoRefusal (refuses ∷ rest) = ⊥

write_loop_sends :
    (uptakes : List Uptake) (sent buf : List ℕ)
    → NoRefusal uptakes
    → ((write_loop uptakes sent buf).0 ≡ true)
      × ((write_loop uptakes sent buf).1.sent ≡ sent ++ buf)
      × NoRefusal (write_loop uptakes sent buf).1.uptakes
unfolding write_loop
write_loop_sends uptakes sent [] h = (refl, sym (append-nil sent), h)
write_loop_sends [] sent (b ∷ bs) h = (refl, refl, tt)
write_loop_sends (interrupted ∷ rest) sent (b ∷ bs) h = write_loop_sends rest sent (b ∷ bs) h
write_loop_sends (refuses ∷ rest) sent (b ∷ bs) h = absurd h
write_loop_sends (takes n ∷ rest) sent (b ∷ bs) h =
    let (ok, out, left) = write_loop_sends rest (sent ++ b ∷ take n bs) (drop n bs) h in
    (
      ok,
      out
          ∙ append_assoc sent (b ∷ take n bs) (drop n bs)
          ∙ ap (λ t. sent ++ b ∷ t) (take-append-drop n bs),
      left,
    )

-- Where no call of write fails, all bytes go out in order, in whatever pieces the kernel takes them.
pub write_exact_sends :
    (o : Outlet) (buf : List ℕ)
    → NoRefusal o.uptakes
    → ((rpc_write_exact o buf).0 ≡ true)
      × ((rpc_write_exact o buf).1.sent ≡ o.sent ++ buf)
      × NoRefusal (rpc_write_exact o buf).1.uptakes
unfolding rpc_write_exact
write_exact_sends o buf h = write_loop_sends o.uptakes o.sent buf h
