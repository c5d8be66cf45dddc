-- ===== src/Frame.antt =====
-- Framed socket I/O, proto/rpc_io.c. The kernel decides how a transfer is cut into pieces: a socket
-- to read from is the list of what its calls of read(2) have to give, and a socket to write to has
-- the list of what its calls of write(2) do. `malloc` is taken to succeed.
pub mod Exact
pub mod RoundTrip
use eloquence.Base.{
  ℕ, zero, suc, ◌+◌, ◌-◌, List, [], ◌∷◌, ◌++◌, Option, none, some, length, take, drop, ltb, leb,
  Bool, true, false, ◌||◌, if◌then◌else◌, be32, of_be32, get_or, add32,
}
use mathlib.Core.Option
use eloquence.Wire.Function.{max_msg_size}

-- What read(2) has to give: a first byte and more that have arrived with it, EINTR, another error,
-- or the end of the stream.
pub data Arrival : Type 0 where
  bytes : ℕ → List ℕ → Arrival
  eintr : Arrival
  fail : Arrival
  eof : Arrival

-- The rest of what has arrived, behind the bytes that a call of read(2) took.
abbrev pub left_over : List ℕ → List Arrival → List Arrival
left_over [] rest = rest
left_over (b ∷ bs) rest = bytes b bs ∷ rest

-- The bytes of one call of read(2) in front of those that the later rounds of the loop read.
abbrev pub before : List ℕ → Option (List ℕ) → Option (List ℕ)
before bs none = none
before bs (some more) = some (bs ++ more)

-- `rpc_read_exact`: the bytes read, `none` for -1, and what the socket still has to give. A call of
-- read(2) takes at most `remaining` bytes of what has arrived. Where no arrival is left the peer is
-- gone, which read(2) reports like `eof`.
pub rpc_read_exact : List Arrival → ℕ → Option (List ℕ) × List Arrival
rpc_read_exact arrivals zero = (some [], arrivals)
rpc_read_exact [] (suc n) = (none, [])
rpc_read_exact (eintr ∷ rest) (suc n) = rpc_read_exact rest (suc n)
rpc_read_exact (fail ∷ rest) (suc n) = (none, rest)
rpc_read_exact (eof ∷ rest) (suc n) = (none, rest)
rpc_read_exact (bytes b bs ∷ rest) (suc n) =
    let more = rpc_read_exact rest (n - length bs) in
    if leb (length bs) n
    then (before (b ∷ bs) more.0, more.1)
    else (some (b ∷ take n bs), left_over (drop n bs) rest)

-- What write(2) does: it takes one byte and at most so many more, reports EINTR, or fails.
pub data Uptake : Type 0 where
  takes : ℕ → Uptake
  interrupted : Uptake
  refuses : Uptake

-- A socket to write to: what the coming calls of write(2) do, and what has gone out so far. With
-- no more uptakes listed the kernel takes all that it is given.
pub record Outlet : Type 0 where
  pub uptakes : List Uptake
  pub sent : List ℕ

-- `rpc_write_exact`: whether all bytes were written, and the socket behind the call.
pub write_loop : List Uptake → List ℕ → List ℕ → Bool × Outlet
write_loop uptakes sent [] = (true, record { uptakes = uptakes; sent = sent })
write_loop [] sent (b ∷ bs) = (true, record { uptakes = []; sent = sent ++ b ∷ bs })
write_loop (interrupted ∷ rest) sent (b ∷ bs) = write_loop rest sent (b ∷ bs)
write_loop (refuses ∷ rest) sent (b ∷ bs) = (false, record { uptakes = rest; sent = sent })
write_loop (takes n ∷ rest) sent (b ∷ bs) = write_loop rest (sent ++ b ∷ take n bs) (drop n bs)

pub rpc_write_exact : Outlet → List ℕ → Bool × Outlet
rpc_write_exact o buf = write_loop o.uptakes o.sent buf

-- A message that was read: its type and its payload behind the type.
pub record Message : Type 0 where
  pub msg_type : ℕ
  pub payload : List ℕ

-- The four bytes of a length, by `ntohl`.
abbrev pub net_len : List ℕ → ℕ
net_len bs = of_be32 (get_or bs 0 0) (get_or bs 1 0) (get_or bs 2 0) (get_or bs 3 0)

-- `rpc_read_msg` from each of its reads on, given what that read returned and left. An empty payload
-- reads nothing more, which `rpc_read_exact` of 0 bytes does too.
abbrev on_payload : ℕ → Option (List ℕ) → List Arrival → Option Message × List Arrival
on_payload t none rest = (none, rest)
on_payload t (some p) rest = (some (record { msg_type = t; payload = p }), rest)

abbrev on_type : ℕ → Option (List ℕ) → List Arrival → Option Message × List Arrival
on_type payload_len none rest = (none, rest)
on_type payload_len (some t) rest =
    let r = rpc_read_exact rest (payload_len - 1) in on_payload (get_or t 0 0) r.0 r.1

abbrev on_length : Option (List ℕ) → List Arrival → Option Message × List Arrival
on_length none rest = (none, rest)
on_length (some l) rest =
    let r = rpc_read_exact rest 1 in
    if ltb (net_len l) 1 || ltb max_msg_size (net_len l)
    then (none, rest)
    else on_type (net_len l) r.0 r.1

pub rpc_read_msg : List Arrival → Option Message × List Arrival
rpc_read_msg arrivals = let r = rpc_read_exact arrivals 4 in on_length r.0 r.1

-- The next call of write is made if the last one has succeeded.
abbrev and_then : Bool → Outlet → List ℕ → Bool × Outlet
and_then true o bs = rpc_write_exact o bs
and_then false o bs = (false, o)

-- `rpc_write_msg`. A NULL payload is the empty one; `1 + len` is a `uint32_t`.
pub rpc_write_msg : Outlet → ℕ → List ℕ → Bool × Outlet
rpc_write_msg o msg_type buf =
    let head = rpc_write_exact o (be32 (add32 1 (length buf))) in
    let typed = and_then head.0 head.1 (msg_type ∷ []) in and_then typed.0 typed.1 buf
