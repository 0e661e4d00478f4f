-- ===== src/Kernel/Sync/SpinLock/Interrupts.antt =====
-- The mask of interrupts comes back as it was.
use kruspix.Base.{ℕ, ◌≡◌, refl, sym, ap, ◌∙◌, Bool, none, some, List, [], ◌∷◌, arith}
use kruspix.Kernel.Sync.SpinLock.{
  SpinLock, Point, outside, spinning, holding, Event, lock, lock_irq, try_lock, try_lock_irq, swap,
  drop, new, spin, begin_lock, begin_lock_irq, do_try_lock, do_try_lock_irq, drop_guard, step, run,
}

-- whether the caller's interrupts are on once it is outside again
unfoldable pub on_outside : Point → Bool → Bool
on_outside outside on = on
on_outside (spinning none) on = on
on_outside (spinning (some b)) on = b
on_outside (holding none) on = on
on_outside (holding (some b)) on = b

step-on_outside :
    (event : Event) (s : SpinLock) (d : ℕ)
    → on_outside ((step event s).points d) ((step event s).interrupts_on d)
      ≡ on_outside (s.points d) (s.interrupts_on d)
unfolding step begin_lock begin_lock_irq do_try_lock do_try_lock_irq spin drop_guard on_outside
step-on_outside (lock c) s d = go (s.points c) refl
  where
    go :
        (p : Point)
        → s.points c ≡ p
        → on_outside ((begin_lock c p s).points d) ((begin_lock c p s).interrupts_on d)
          ≡ on_outside (s.points d) (s.interrupts_on d)
    go outside e = ground arith
    go (spinning h) e = refl
    go (holding h) e = refl
step-on_outside (lock_irq c) s d = go (s.points c) refl
  where
    go :
        (p : Point)
        → s.points c ≡ p
        → on_outside ((begin_lock_irq c p s).points d) ((begin_lock_irq c p s).interrupts_on d)
          ≡ on_outside (s.points d) (s.interrupts_on d)
    go outside e = ground arith
    go (spinning h) e = refl
    go (holding h) e = refl
step-on_outside (try_lock c) s d = go (s.points c) refl
  where
    go :
        (p : Point)
        → s.points c ≡ p
        → on_outside ((do_try_lock c p s).points d) ((do_try_lock c p s).interrupts_on d)
          ≡ on_outside (s.points d) (s.interrupts_on d)
    go outside e = ground arith
    go (spinning h) e = refl
    go (holding h) e = refl
step-on_outside (try_lock_irq c) s d = go (s.points c) refl
  where
    go :
        (p : Point)
        → s.points c ≡ p
        → on_outside ((do_try_lock_irq c p s).points d) ((do_try_lock_irq c p s).interrupts_on d)
          ≡ on_outside (s.points d) (s.interrupts_on d)
    go outside e = ground arith
    go (spinning h) e = refl
    go (holding h) e = refl
step-on_outside (swap c) s d = go (s.points c) refl
  where
    go :
        (p : Point)
        → s.points c ≡ p
        → on_outside ((spin c p s).points d) ((spin c p s).interrupts_on d)
          ≡ on_outside (s.points d) (s.interrupts_on d)
    go outside e = refl
    go (spinning none) e = ground arith
    go (spinning (some b)) e = ground arith
    go (holding h) e = refl
step-on_outside (drop c) s d = go (s.points c) refl
  where
    go :
        (p : Point)
        → s.points c ≡ p
        → on_outside ((drop_guard c p s).points d) ((drop_guard c p s).interrupts_on d)
          ≡ on_outside (s.points d) (s.interrupts_on d)
    go outside e = refl
    go (spinning h) e = refl
    go (holding none) e = ground arith
    go (holding (some b)) e = ground arith

run-on_outside :
    (events : List Event) (s : SpinLock) (d : ℕ)
    → on_outside ((run events s).points d) ((run events s).interrupts_on d)
      ≡ on_outside (s.points d) (s.interrupts_on d)
unfolding run
run-on_outside [] s d = refl
run-on_outside (event ∷ events) s d =
    run-on_outside events (step event s) d ∙ step-on_outside event s d

-- Whatever the callers of a new lock do, one that neither holds the lock nor waits for it has its interrupts
-- on or off as it had them before.
pub interrupts-outside :
    (on : ℕ → Bool) (events : List Event) (c : ℕ)
    → (run events (new on)).points c ≡ outside
    → (run events (new on)).interrupts_on c ≡ on c
unfolding new on_outside
interrupts-outside on events c e =
    sym (ap (λ p. on_outside p ((run events (new on)).interrupts_on c)) e)
    ∙ run-on_outside events (new on) c
