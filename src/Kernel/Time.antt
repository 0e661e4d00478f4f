-- ===== src/Kernel/Time.antt =====
-- src/kernel/time.rs: ticks of a timer and durations.
pub mod Ticks
pub mod Registry
mod Tests
use kruspix.Base.{
  Bool, true, false, Option, none, some, List, [], ◌∷◌, ◌++◌, ◌&&◌, ◌||◌, if◌then◌else◌, ltb, ◌==◌,
  ℕ, ◌+◌, ◌*◌, ◌/◌, ◌%◌, ◌^◌, max,
}
use kruspix.Base.Outcome.{Outcome, ok, panic, ◌>>=◌}

abbrev pub nanos_per_sec : ℕ
nanos_per_sec = 1000000000

-- `core::time::Duration`
pub record Duration : Type 0 where
  pub secs : ℕ
  pub subsec_nanos : ℕ

unfoldable pub from_nanos : ℕ → Duration
from_nanos nanos = record { secs = nanos / nanos_per_sec; subsec_nanos = nanos % nanos_per_sec }

-- of a frequency that is not 0
unfoldable pub finest_duration : ℕ → Duration
finest_duration frequency_hz = from_nanos (max 1 (nanos_per_sec / frequency_hz % 2 ^ 64))

-- A division by 0 panics.
unfoldable pub calc_resolution : ℕ → Outcome Duration
calc_resolution frequency_hz =
    if frequency_hz == 0 then panic else ok (finest_duration frequency_hz)

unfoldable pub convert_duration_to_ticks : ℕ → Duration → ℕ
convert_duration_to_ticks frequency_hz duration =
    let secs_ticks = duration.secs * frequency_hz in
    let nanos_ticks = duration.subsec_nanos * frequency_hz / nanos_per_sec in
    (secs_ticks + nanos_ticks) % 2 ^ 64

-- A frequency of 0 is a panic in the source; the theorem asks for another one.
-- `Duration::new` would carry nanoseconds beyond a second; here there are none (`Ticks.nanos-lt`).
unfoldable pub convert_ticks_to_duration : ℕ → ℕ → Duration
convert_ticks_to_duration frequency_hz ticks =
    let nanos = ticks % frequency_hz * nanos_per_sec / frequency_hz in
    record { secs = ticks / frequency_hz % 2 ^ 64; subsec_nanos = nanos % 2 ^ 32 }

-- `<` of `Duration`: the seconds first
abbrev pub shorter : Duration → Duration → Bool
shorter a b = ltb a.secs b.secs || ((a.secs == b.secs) && ltb a.subsec_nanos b.subsec_nanos)

-- A timer, or an alarm, as far as the registry looks at it.
pub record Timer : Type 0 where
  pub id : ℕ
  pub frequency_hz : ℕ

abbrev pub resolution : Timer → Outcome Duration
resolution t = calc_resolution t.frequency_hz

-- `GLOBAL_TIMERS` and `GLOBAL_SYSTEM_TIMER`; those of the alarms have the same form.
pub record Timers : Type 0 where
  pub global_timers : List Timer
  pub system_timer : Option Timer

unfoldable pub choose : Timer → Option Timer → Outcome (Option Timer)
choose t none = ok (some t)
choose t (some existing) = resolution t >>= λ a.
    resolution existing >>= λ b. ok (if shorter a b then some t else some existing)

unfoldable pub register_global_timer : Timer → Timers → Outcome Timers
register_global_timer t s = choose t s.system_timer >>= λ system_timer.
    ok (record { global_timers = s.global_timers ++ t ∷ []; system_timer = system_timer })
