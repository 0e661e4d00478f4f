-- ===== src/Kernel/Time/Registry.antt =====
-- The choice of the system timer.
use kruspix.Base.{
  ℕ, ◌≡◌, ◌≢◌, refl, ap, sym, ◌∙◌, true, false, none, some, List, [], ◌∷◌, ◌++◌, if◌then◌else◌,
  arith, inl, inr, Bool-cases, ne→not_==, append-nil, append_assoc,
}
use kruspix.Base.Outcome.{Outcome, ok, ◌>>=◌}
use mathlib.Core.List.{Mem, mem-append_left, mem-append_right, mem-cons_self}
use kruspix.Kernel.Time.{
  Duration, Timer, Timers, finest_duration, calc_resolution, shorter, choose, register_global_timer,
}

unfoldable pub register_all : List Timer → Timers → Outcome Timers
register_all [] s = ok s
register_all (t ∷ ts) s = register_global_timer t s >>= register_all ts

abbrev pub nobody : Timers
nobody = record { global_timers = []; system_timer = none }

-- what is registered is asked for its resolution
abbrev pub Ticking : List Timer → Type 0
Ticking [] = Unit {0}
Ticking (t ∷ ts) = (t.frequency_hz ≢ 0) × Ticking ts

-- no timer of the list has a finer resolution than `t`
abbrev pub Finest : Timer → List Timer → Type 0
Finest t [] = Unit {0}
Finest t (u ∷ us) =
    (shorter (finest_duration u.frequency_hz) (finest_duration t.frequency_hz) ≡ false)
    × Finest t us

-- The system timer is a registered one of the finest resolution, and it ticks.
abbrev pub IsChosen : Timers → Type 0
IsChosen s =
    (t : Timer) × (s.system_timer ≡ some t)
    × (t.frequency_hz ≢ 0)
    × Mem t s.global_timers
    × Finest t s.global_timers

shorter_irrefl : (a : Duration) → shorter a a ≡ false
shorter_irrefl a = ground arith

not_shorter_trans :
    (a b c : Duration) → shorter a b ≡ true → shorter c b ≡ false → shorter c a ≡ false
not_shorter_trans a b c h k = ground arith

abbrev duration : Timer → Duration
duration t = finest_duration t.frequency_hz

Finest-append :
    (t u : Timer) (us : List Timer)
    → Finest t us
    → shorter (duration u) (duration t) ≡ false
    → Finest t (us ++ u ∷ [])
Finest-append t u [] f h = (h, tt)
Finest-append t u (x ∷ us) f h = (f.0, Finest-append t u us f.1 h)

Finest-shorter :
    (t b : Timer) (us : List Timer)
    → shorter (duration t) (duration b) ≡ true
    → Finest b us
    → Finest t us
Finest-shorter t b [] h f = tt
Finest-shorter t b (u ∷ us) h f =
    (not_shorter_trans (duration t) (duration b) (duration u) h f.0, Finest-shorter t b us h f.1)

calc_resolution-ok : (f : ℕ) → f ≢ 0 → calc_resolution f ≡ ok (finest_duration f)
unfolding calc_resolution
calc_resolution-ok f ne = rw (ne→not_== f 0 ne) refl

choose-finer :
    (t b : Timer)
    → t.frequency_hz ≢ 0
    → b.frequency_hz ≢ 0
    → choose t (some b) ≡ ok (if shorter (duration t) (duration b) then some t else some b)
unfolding choose
choose-finer t b h k =
    rw (calc_resolution-ok t.frequency_hz h, calc_resolution-ok b.frequency_hz k) refl

-- with the timer that is there from then on
register-chosen :
    (t b c : Timer) (s : Timers)
    → s.system_timer ≡ some b
    → choose t (some b) ≡ ok (some c)
    → register_global_timer t s
      ≡ ok (record { global_timers = s.global_timers ++ t ∷ []; system_timer = some c })
unfolding register_global_timer
register-chosen t b c s e h = rw (e, h) refl

register-IsChosen :
    (t : Timer) (s : Timers)
    → t.frequency_hz ≢ 0
    → IsChosen s
    → (s' : Timers) × (register_global_timer t s ≡ ok s')
      × (s'.global_timers ≡ s.global_timers ++ t ∷ [])
      × IsChosen s'
register-IsChosen t s ticks (b, e, k, m, f) =
    elim (Bool-cases (shorter (duration t) (duration b))) [
      | inl h ↦ (
        record { global_timers = s.global_timers ++ t ∷ []; system_timer = some t },
        register-chosen t b t s e
            (choose-finer t b ticks k ∙ ap (λ c. ok (if c then some t else some b)) h),
        refl,
        (
          t,
          refl,
          ticks,
          mem-append_right s.global_timers mem-cons_self,
          Finest-append t t s.global_timers (Finest-shorter t b s.global_timers h f)
              (shorter_irrefl (duration t)),
        ),
      )
      | inr h ↦ (
        record { global_timers = s.global_timers ++ t ∷ []; system_timer = some b },
        register-chosen t b b s e
            (choose-finer t b ticks k ∙ ap (λ c. ok (if c then some t else some b)) h),
        refl,
        (b, refl, k, mem-append_left (t ∷ []) m, Finest-append b t s.global_timers f h),
      )
    ]

-- what is registered after a list of timers
abbrev Registered : List Timer → Timers → Outcome Timers → Type 0
Registered ts s run =
    (s' : Timers) × (run ≡ ok s') × (s'.global_timers ≡ s.global_timers ++ ts) × IsChosen s'

register_all-IsChosen :
    (ts : List Timer) (s : Timers) → Ticking ts → IsChosen s → Registered ts s (register_all ts s)
unfolding register_all
register_all-IsChosen [] s h c = (s, refl, sym (append-nil s.global_timers), c)
register_all-IsChosen (t ∷ ts) s (h, hs) c =
    let (s1, e, g, c1) = register-IsChosen t s h c in
    let (s2, e2, g2, c2) = register_all-IsChosen ts s1 hs c1 in
    (s2, rw e e2, g2 ∙ ap (λ gs. gs ++ ts) g ∙ append_assoc s.global_timers (t ∷ []) ts, c2)

-- After one timer at least is registered, all with frequencies that are not 0: no registration panics, the
-- timers are those that were registered, in order, the system timer is one of them, and none of them has a
-- shorter resolution.
pub register_timers-IsChosen :
    (t : Timer) (ts : List Timer)
    → Ticking (t ∷ ts)
    → (s : Timers) × (register_all (t ∷ ts) nobody ≡ ok s) × (s.global_timers ≡ t ∷ ts) × IsChosen s
unfolding register_all register_global_timer choose
register_timers-IsChosen t ts (h, hs) =
    register_all-IsChosen ts (record { global_timers = t ∷ []; system_timer = some t }) hs
      (t, refl, h, mem-cons_self, (shorter_irrefl (duration t), tt))
