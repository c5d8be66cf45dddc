-- ===== src/Speech/Settings/Scales.antt =====
-- What `module_set` of spd/sd_eloquence.c makes of the dispatcher's scales, -100 to 100.
use eloquence.Base.{
  ℕ, ◌+◌, ◌-◌, ◌*◌, ◌/◌, ◌≤◌, ◌≡◌, arith, sub32, if◌then◌else◌, ltb, List, some, refl, atoi, codes,
  same,
}
use eloquence.Speech.Settings.{State}
use eloquence.Speech.Settings.Set.{eci_speed_of, eci_pitch_of, eci_volume_of, module_set, set_text}

-- A value of the dispatcher, 100 below `n`.
scales_lem :
    (n : ℕ)
    → n ≤ 200
    → (eci_speed_of (sub32 n 100) ≡ 2 * n - 150)
      × (eci_pitch_of (sub32 n 100) ≡ (if ltb n 100 then (n + 1) / 2 else n / 2))
      × (eci_volume_of (sub32 n 100) ≡ n / 2)
scales_lem n h = (ground arith, ground arith, ground arith)

-- Where the dispatcher sets its rate, its pitch or its volume to a text that atoi reads as `n` - 100, for `n` from
-- 0 to 200, `module_set` succeeds and changes nothing but the module's own speed, pitch or volume: the speed to
-- twice what `n` has above 75, so that it is 0 for every rate up to -25, and the pitch and the volume to half of
-- `n`, the pitch rounded up below 100.
pub module_set-scales :
    (n : ℕ) (val : List ℕ) (s : State)
    → n ≤ 200
    → atoi val ≡ sub32 n 100
    → (module_set (some (codes "rate")) (some val) s ≡ (0, record s { eci_speed = 2 * n - 150 }))
      × (module_set (some (codes "pitch")) (some val) s
          ≡ (0, record s { eci_pitch = if ltb n 100 then (n + 1) / 2 else n / 2 }))
      × (module_set (some (codes "volume")) (some val) s ≡ (0, record s { eci_volume = n / 2 }))
unfolding module_set set_text same
module_set-scales n val s h e =
    let (speed, pitch, volume) = scales_lem n h in
    (rw (e, speed) refl, rw (e, pitch) refl, rw (e, volume) refl)
