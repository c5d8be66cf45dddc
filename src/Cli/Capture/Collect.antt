-- ===== src/Cli/Capture/Collect.antt =====
-- The samples that `my_callback` of cli/eloquence.c collects.
use eloquence.Base.{
  ℕ, zero, suc, ◌+◌, ◌*◌, ◌%◌, ◌<◌, ◌≤◌, ◌≡◌, refl, ap, ◌∙◌, true, false, All, Option, none, some,
  List, [], ◌∷◌, ◌++◌, length, take, length-take, length-append, append-nil, sym, append_assoc,
  arith, less, add32, Bool-cases, ◌⊎◌, inl, inr,
}
use eloquence.Cli.Capture.{
  Pcm, Grown, room, next_cap, grow_capacity, grow_fuel, data_processed, my_callback,
}

-- The buffer holds what was captured, within its capacity.
pub record PcmOk (p : Pcm) : Type 0 where
  pub len : p.len ≡ length p.samples
  pub fits : p.len ≤ p.cap
  pub cap : p.cap ≤ 1_073_741_824
  pub start : (p.cap ≡ 0) ⊎ (65_536 ≤ p.cap)

abbrev doubled : ℕ → ℕ → ℕ
doubled zero cap = cap
doubled (suc n) cap = doubled n (cap * 2)

-- What the growth comes to: a capacity for the need.
record Room (need : ℕ) (r : Option Grown) : Type 0 where
  cap : ℕ
  result : r ≡ some (room cap)
  enough : need ≤ cap
  small : cap ≤ 1_073_741_824
  least : 65_536 ≤ cap

grow_capacity-more :
    (fuel need cap : ℕ)
    → less cap need ≡ true
    → grow_capacity (suc fuel) (λ n. true) need cap
      ≡ grow_capacity fuel (λ n. true) need (next_cap cap)
unfolding grow_capacity
grow_capacity-more fuel need cap h = rw h

grow_capacity-done :
    (fuel need cap : ℕ)
    → less cap need ≡ false
    → grow_capacity (suc fuel) (λ n. true) need cap ≡ some (room cap)
unfolding grow_capacity
grow_capacity-done fuel need cap h = rw h

-- With doublings left that take the capacity beyond the need, there is room. The need is at most 2 ^ 29.
grow_capacity-Room :
    (fuel need cap : ℕ)
    → need ≤ 536_870_912
    → cap ≤ 1_073_741_824
    → 65_536 ≤ cap
    → need ≤ doubled fuel cap
    → Room need (grow_capacity (suc fuel) (λ n. true) need cap)
grow_capacity-Room zero need cap small h k enough =
    let e : less cap need ≡ false = ground arith in
    record {
      cap = cap;
      result = grow_capacity-done 0 need cap e;
      enough = enough;
      small = h;
      least = k;
    }
grow_capacity-Room (suc fuel) need cap small h k enough = elim (Bool-cases (less cap need)) [
  | inr b ↦ record {
    cap = cap;
    result = grow_capacity-done (suc fuel) need cap b;
    enough = ground arith;
    small = h;
    least = k;
  }
  | inl b ↦
      let below : cap < need = ground arith in
      let next : next_cap cap ≡ cap * 2 = ground arith in
      let r = grow_capacity-Room fuel need (cap * 2) small (omega arith) (omega arith) enough in
      record {
        cap = r.cap;
        result =
            grow_capacity-more (suc fuel) need cap b
            ∙ ap (grow_capacity (suc fuel) (λ n. true) need) next
            ∙ r.result;
        enough = r.enough;
        small = r.small;
        least = r.least;
      }
]

grow_capacity-fresh :
    (need : ℕ)
    → 0 < need
    → need ≤ 536_870_912
    → Room need (grow_capacity grow_fuel (λ n. true) need 0)
grow_capacity-fresh need h small =
    let r = grow_capacity-Room 16 need 65_536 small (omega arith) (omega arith) (omega arith) in
    record {
      cap = r.cap;
      result = grow_capacity-more 17 need 0 (ground arith) ∙ r.result;
      enough = r.enough;
      small = r.small;
      least = r.least;
    }

found-Room :
    (need cap : ℕ)
    → 0 < need
    → need ≤ 536_870_912
    → cap ≤ 1_073_741_824
    → (cap ≡ 0) ⊎ (65_536 ≤ cap)
    → Room need (grow_capacity grow_fuel (λ n. true) need cap)
found-Room need cap h small k (inl e) = rw e (grow_capacity-fresh need h small)
found-Room need cap h small k (inr l) = grow_capacity-Room 17 need cap small k l (omega arith)

my_callback-room :
    (cb_buffer : List ℕ) (n cap : ℕ) (p : Pcm)
    → 0 < n
    → p.len + n ≤ 536_870_912
    → grow_capacity grow_fuel (λ c. true) (p.len + n) p.cap ≡ some (room cap)
    → my_callback (λ c. true) cb_buffer 0 n p
      ≡ some (
        data_processed,
        record { samples = p.samples ++ take n cb_buffer; len = p.len + n; cap = cap },
      )
unfolding my_callback
my_callback-room cb_buffer n cap p pos small e =
    let whole : n % 4_294_967_296 ≡ n = omega arith in
    let sum : add32 p.len n ≡ p.len + n = omega arith in
    let some_ : less 0 n ≡ true = ground arith in rw (whole, some_, sum, e, sum)

-- A waveform is appended to what has been captured, and the buffer keeps its bounds, if memory is left and
-- there are at most 2 ^ 29 samples in all.
pub my_callback_appends :
    (cb_buffer : List ℕ) (n : ℕ) (p : Pcm)
    → 0 < n
    → n ≤ length cb_buffer
    → p.len + n ≤ 536_870_912
    → PcmOk p
    → (p' : Pcm) × (my_callback (λ cap. true) cb_buffer 0 n p ≡ some (data_processed, p'))
      × (p'.samples ≡ p.samples ++ take n cb_buffer)
      × PcmOk p'
my_callback_appends cb_buffer n p pos has small ok =
    let r = found-Room (p.len + n) p.cap (omega arith) small ok.cap ok.start in
    (
      record { samples = p.samples ++ take n cb_buffer; len = p.len + n; cap = r.cap },
      my_callback-room cb_buffer n r.cap p pos small r.result,
      refl,
      record {
        len =
            omega
              (arith, ok.len, length-append p.samples (take n cb_buffer), length-take n cb_buffer);
        fits = r.enough;
        cap = r.small;
        start = inr r.least;
      },
    )

-- The callbacks of a synthesis: each with the buffer and the number of samples in it.
abbrev pub collect_on : (Pcm → Option Pcm) → Option (ℕ × Pcm) → Option Pcm
collect_on go none = none
collect_on go (some (r, p)) = go p

unfoldable pub collect : List (List ℕ × ℕ) → Pcm → Option Pcm
collect [] p = some p
collect ((cb_buffer, n) ∷ rest) p =
    collect_on (collect rest) (my_callback (λ cap. true) cb_buffer 0 n p)

abbrev pub all_samples : List (List ℕ × ℕ) → List ℕ
all_samples [] = []
all_samples ((cb_buffer, n) ∷ rest) = take n cb_buffer ++ all_samples rest

-- A buffer has as many samples as the callback is told.
abbrev pub IsFilled : List ℕ × ℕ → Type 0
IsFilled e = (0 < e.1) × (e.1 ≤ length e.0)

-- The callbacks of a synthesis collect all samples in their order, behind those that were there, if memory is
-- left and there are at most 2 ^ 29 samples in all.
pub collect_lem :
    (events : List (List ℕ × ℕ)) (p : Pcm)
    → PcmOk p
    → All IsFilled events
    → length p.samples + length (all_samples events) ≤ 536_870_912
    → (p' : Pcm) × (collect events p ≡ some p')
      × (p'.samples ≡ p.samples ++ all_samples events)
      × PcmOk p'
unfolding collect
collect_lem [] p ok k small = (p, refl, sym (append-nil p.samples), ok)
collect_lem ((cb_buffer, n) ∷ rest) p ok k small =
    let took = length-take n cb_buffer in
    let total = length-append (take n cb_buffer) (all_samples rest) in
    let (p1, e, s, ok1) =
      my_callback_appends cb_buffer n p k.0.0 k.0.1 (omega (arith, ok.len, took, total, k.0.1))
        ok in
    let (p', e', s', ok') =
      collect_lem rest p1 ok1 k.1
        (omega (arith, ap length s, length-append p.samples (take n cb_buffer), total)) in
    (p', rw e e', rw (s', s, append_assoc p.samples (take n cb_buffer) (all_samples rest)), ok')
