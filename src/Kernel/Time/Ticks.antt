-- ===== src/Kernel/Time/Ticks.antt =====
-- Conversion of ticks to durations and back.
use kruspix.Base.{ℕ, ◌+◌, ◌*◌, ◌/◌, ◌%◌, ◌^◌, ◌<◌, ◌≤◌, ◌≡◌, arith}
use native.Mathlib.Decide.{dec_lt}
use native.Mathlib.Nat.{div-add-mod', mod-lt, mul-le-mul_right, div-mul-le_self}
use kruspix.Kernel.Time.{nanos_per_sec, convert_duration_to_ticks, convert_ticks_to_duration}

-- The nanoseconds of a rest of ticks are less than a second.
nanos-lt : (f r : ℕ) → r < f → r * nanos_per_sec / f < nanos_per_sec
nanos-lt f r h = elim (dec_lt (r * nanos_per_sec / f) nanos_per_sec) [
  | yes lt ↦ lt
  | no ge ↦
      let most = div-mul-le_self (r * nanos_per_sec) f in
      let least : nanos_per_sec * f ≤ r * nanos_per_sec / f * f =
        mul-le-mul_right f (omega (arith, ge)) in
      absurd (omega (arith, most, least))
]

secs-le : (f t : ℕ) → 0 < f → t / f ≤ t
secs-le f t h = elim (dec_lt t (t / f)) [
  | yes lt ↦
      let whole = div-mul-le_self t f in
      let many : t / f * 1 ≤ t / f * f = grind arith in absurd (omega (arith, lt, whole, many))
  | no ge ↦ omega (arith, ge)
]

-- For a timer of at most 10^9 ticks a second: a count of ticks below 2^64 becomes a duration of less than
-- 10^9 nanoseconds beside the seconds, which is not longer than the ticks take and shorter by less than a
-- nanosecond; turned back into ticks, it gives the count again or one tick less.
pub convert_duration-convert_ticks :
    (f t : ℕ)
    → 0 < f
    → f ≤ nanos_per_sec
    → t < 2 ^ 64
    → let d = convert_ticks_to_duration f t in
      let back = convert_duration_to_ticks f d in
      (d.subsec_nanos < nanos_per_sec)
      × ((d.secs * nanos_per_sec + d.subsec_nanos) * f ≤ t * nanos_per_sec)
      × (t * nanos_per_sec < (d.secs * nanos_per_sec + d.subsec_nanos) * f + f)
      × (back ≤ t)
      × (t ≤ back + 1)
unfolding convert_ticks_to_duration convert_duration_to_ticks
convert_duration-convert_ticks f t pos small range =
    let r = t % f in
    let q = r * nanos_per_sec / f in
    let below = mod-lt t pos in
    let nanos = nanos-lt f r below in
    let secs = secs-le f t pos in
    let cast_secs : t / f % 2 ^ 64 ≡ t / f = omega (arith, secs) in
    let cast_nanos : q % 2 ^ 32 ≡ q = omega (arith, nanos) in
    let split = div-add-mod' t f in
    let rest = div-add-mod' (r * nanos_per_sec) f in
    let part = mod-lt (r * nanos_per_sec) pos in
    let expand : (t / f * nanos_per_sec + q) * f ≡ t / f * f * nanos_per_sec + q * f =
      grind arith in
    rw (cast_secs, cast_nanos, expand)
      (
        nanos,
        omega (arith, split, rest),
        omega (arith, split, rest, part),
        omega (arith, split, rest),
        omega (arith, split, rest, part),
      )
