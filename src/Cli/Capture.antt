-- ===== src/Cli/Capture.antt =====
-- The buffer of samples and `my_callback` of cli/eloquence.c.
pub mod Collect
use eloquence.Base.{
  ℕ, zero, suc, ◌*◌, ◌%◌, Bool, true, false, ◌||◌, not, Option, none, some, List, [], ◌++◌, take,
  ◌==◌, if◌then◌else◌, less, leb, add32,
}

-- `g_pcm_buf` up to `g_pcm_len`, and `g_pcm_cap`; both numbers are of type `int`.
pub record Pcm : Type 0 where
  pub samples : List ℕ
  pub len : ℕ
  pub cap : ℕ

abbrev pub initial_pcm : Pcm
initial_pcm = record { samples = []; len = 0; cap = 0 }

-- What the loop that grows the buffer comes to: room, or a failed `realloc` at some capacity.
pub data Grown : Type 0 where
  room : ℕ → Grown
  refused : ℕ → Grown

abbrev pub next_cap : ℕ → ℕ
next_cap cap = if cap == 0 then 65_536 else cap * 2 % 4_294_967_296

-- `while (need > cap)`; `none` where the fuel runs out. `has_memory` says whether `realloc` succeeds.
unfoldable pub grow_capacity : ℕ → (ℕ → Bool) → ℕ → ℕ → Option Grown
grow_capacity zero has_memory need cap = none
grow_capacity (suc fuel) has_memory need cap =
    let rest = grow_capacity fuel has_memory need (next_cap cap) in
    if less cap need
    then if has_memory (next_cap cap) then rest else some (refused cap)
    else some (room cap)

-- 65536 doubled 15 times passes every `int`.
abbrev pub grow_fuel : ℕ
grow_fuel = 18

abbrev pub data_processed : ℕ
data_processed = 1

abbrev pub data_abort : ℕ
data_abort = 2

abbrev pub captured : List ℕ → ℕ → Pcm → Option Grown → Option (ℕ × Pcm)
captured cb_buffer n pcm none = none
captured cb_buffer n pcm (some (refused cap)) = some (data_abort, record pcm { cap = cap })
captured cb_buffer n pcm (some (room cap)) = some (
  data_processed,
  record { samples = pcm.samples ++ take n cb_buffer; len = add32 pcm.len n; cap = cap },
)

-- `my_callback` with `g_cb_buffer`; a waveform is the message 0.
unfoldable pub my_callback : (ℕ → Bool) → List ℕ → ℕ → ℕ → Pcm → Option (ℕ × Pcm)
my_callback has_memory cb_buffer msg lparam pcm =
    let n = lparam % 4_294_967_296 in
    if not (msg == 0) || not (less 0 n)
    then some (data_processed, pcm)
    else captured cb_buffer n pcm (grow_capacity grow_fuel has_memory (add32 pcm.len n) pcm.cap)
