-- ===== src/Kernel/Sync/SpinLock/Tests.antt =====
-- Two callers at one lock.
use kruspix.Base.{ℕ, ◌≡◌, refl, Bool, true, some, List, [], ◌∷◌}
use kruspix.Kernel.Sync.SpinLock.{
  outside, holding, Event, lock, lock_irq, try_lock, try_lock_irq, swap, drop, new, run, step, spin,
  begin_lock, begin_lock_irq, do_try_lock, do_try_lock_irq, drop_guard,
}
use kruspix.Kernel.Sync.SpinLock.Exclusion.{holds, lock_excludes}
use kruspix.Kernel.Sync.SpinLock.Interrupts.{interrupts-outside}

abbrev on : ℕ → Bool
on c = true

abbrev events : List Event
events = lock_irq 1 ∷ swap 1 ∷ lock 2 ∷ swap 2 ∷ try_lock 3 ∷ []

first_holds : (run events (new on)).points 1 ≡ holding (some true)
unfolding run step new spin begin_lock begin_lock_irq do_try_lock
first_holds = refl

second_waits : ((run (drop 1 ∷ []) (run events (new on))).points 1 ≡ outside)
unfolding run step new spin begin_lock begin_lock_irq do_try_lock drop_guard
second_waits = refl

lock_excludes_example :
    ((c d : ℕ)
      → holds ((run events (new on)).points c) ≡ true
      → holds ((run events (new on)).points d) ≡ true
      → c ≡ d)
    × ((c : ℕ)
        → holds ((run events (new on)).points c) ≡ true
        → (run events (new on)).locked ≡ true)
    × ((run events (new on)).locked ≡ true
        → (c : ℕ) × (holds ((run events (new on)).points c) ≡ true))
lock_excludes_example = lock_excludes on events

abbrev turns : List Event
turns = lock_irq 1 ∷ swap 1 ∷ try_lock_irq 2 ∷ drop 1 ∷ []

first_outside : (run turns (new on)).points 1 ≡ outside
unfolding run step new spin begin_lock_irq do_try_lock_irq drop_guard
first_outside = refl

interrupts-outside_example : (run turns (new on)).interrupts_on 1 ≡ true
interrupts-outside_example = interrupts-outside on turns 1 first_outside
