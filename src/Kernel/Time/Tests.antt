-- ===== src/Kernel/Time/Tests.antt =====
-- The generic timer of the board, at 54 MHz.
use kruspix.Base.{some, [], ◌∷◌, ◌≡◌, refl, ◌<◌, ◌≤◌, ◌+◌, ◌*◌, arith}
use kruspix.Base.Outcome.{ok}
use kruspix.Kernel.Time.Registry.{register_all, nobody, IsChosen, register_timers-IsChosen}
use kruspix.Kernel.Time.{
  Timer, Timers, choose, finest_duration, register_global_timer, nanos_per_sec,
  convert_duration_to_ticks, convert_ticks_to_duration, calc_resolution, from_nanos,
}
use kruspix.Kernel.Time.Ticks.{convert_duration-convert_ticks}

nanos_at_54_mhz : calc_resolution 54000000 ≡ ok (record { secs = 0; subsec_nanos = 18 })
unfolding calc_resolution finest_duration from_nanos
nanos_at_54_mhz = refl

convert_duration-convert_ticks_example :
    let d = convert_ticks_to_duration 54000000 100000001 in
    let back = convert_duration_to_ticks 54000000 d in
    (d.subsec_nanos < nanos_per_sec)
    × ((d.secs * nanos_per_sec + d.subsec_nanos) * 54000000 ≤ 100000001 * nanos_per_sec)
    × (100000001 * nanos_per_sec < (d.secs * nanos_per_sec + d.subsec_nanos) * 54000000 + 54000000)
    × (back ≤ 100000001)
    × (100000001 ≤ back + 1)
convert_duration-convert_ticks_example =
    convert_duration-convert_ticks 54000000 100000001 (omega arith) (omega arith) (omega arith)

abbrev slow : Timer
slow = record { id = 1; frequency_hz = 1000000 }

abbrev fast : Timer
fast = record { id = 2; frequency_hz = 54000000 }

abbrev all_three : Timers
all_three = record { global_timers = slow ∷ fast ∷ slow ∷ []; system_timer = some fast }

fast_chosen : register_all (slow ∷ fast ∷ slow ∷ []) nobody ≡ ok all_three
unfolding register_all register_global_timer choose calc_resolution finest_duration from_nanos
fast_chosen = refl

register_timers-IsChosen_example :
    (s : Timers) × (register_all (slow ∷ fast ∷ slow ∷ []) nobody ≡ ok s)
    × (s.global_timers ≡ slow ∷ fast ∷ slow ∷ [])
    × IsChosen s
register_timers-IsChosen_example =
    register_timers-IsChosen slow (fast ∷ slow ∷ [])
      ((λ e. omega (arith, e)), ((λ e. omega (arith, e)), ((λ e. omega (arith, e)), tt)))
