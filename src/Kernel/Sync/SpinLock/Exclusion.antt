-- ===== src/Kernel/Sync/SpinLock/Exclusion.antt =====
-- One guard at a time.
use kruspix.Base.{
  ℕ, ◌≡◌, refl, ap, Bool, true, false, Option, none, some, List, [], ◌∷◌, arith, if◌then◌else◌,
}
use kruspix.Kernel.Sync.SpinLock.{
  SpinLock, Point, outside, spinning, holding, Event, lock, lock_irq, try_lock, try_lock_irq, swap,
  drop, move, switch, new, spin, begin_lock, begin_lock_irq, do_try_lock, do_try_lock_irq,
  drop_guard, step, run,
}

unfoldable pub holds : Point → Bool
holds outside = false
holds (spinning h) = false
holds (holding h) = true

pub record IsValid (s : SpinLock) : Type 0 where
  pub one_holder : (c d : ℕ) → holds (s.points c) ≡ true → holds (s.points d) ≡ true → c ≡ d
  pub holder_locked : (c : ℕ) → holds (s.points c) ≡ true → s.locked ≡ true
  pub some_holder : s.locked ≡ true → (c : ℕ) × (holds (s.points c) ≡ true)

-- A caller without a guard that gets none.
waits-IsValid :
    (s : SpinLock) (c : ℕ) (p : Point) (on : ℕ → Bool)
    → IsValid s
    → holds (s.points c) ≡ false
    → holds p ≡ false
    → IsValid (record s { points = move c p s.points; interrupts_on = on })
waits-IsValid s c p on v e f = record {
  one_holder = λ d g h i. ground (arith, v.one_holder d g);
  holder_locked = λ d h. ground (arith, v.holder_locked d);
  some_holder = λ l. let (d, h) = v.some_holder l in (d, ground arith);
}

-- A caller that takes a free lock.
takes-IsValid :
    (s : SpinLock) (c : ℕ) (handle : Option Bool) (on : ℕ → Bool)
    → IsValid s
    → s.locked ≡ false
    → IsValid
        (record s { locked = true; points = move c (holding handle) s.points; interrupts_on = on })
unfolding holds
takes-IsValid s c handle on v e = record {
  one_holder = λ d g h i. ground (arith, v.holder_locked d, v.holder_locked g);
  holder_locked = λ d h. refl;
  some_holder = λ l. (c, ground arith);
}

drops-IsValid :
    (s : SpinLock) (c : ℕ) (on : ℕ → Bool)
    → IsValid s
    → holds (s.points c) ≡ true
    → IsValid (record s { locked = false; points = move c outside s.points; interrupts_on = on })
unfolding holds
drops-IsValid s c on v e = record {
  one_holder = λ d g h i. ground (arith, v.one_holder d g);
  holder_locked = λ d h. ground (arith, v.one_holder d c);
  some_holder = λ l. absurd (cc l);
}

if-IsValid :
    (test : Bool) {s t : SpinLock}
    → (test ≡ true → IsValid s)
    → (test ≡ false → IsValid t)
    → IsValid (if test then s else t)
if-IsValid true v w = v refl
if-IsValid false v w = w refl

step-IsValid : (event : Event) (s : SpinLock) → IsValid s → IsValid (step event s)
unfolding step begin_lock begin_lock_irq do_try_lock do_try_lock_irq spin drop_guard holds
step-IsValid (lock c) s v = go (s.points c) refl
  where
    go : (p : Point) → s.points c ≡ p → IsValid (begin_lock c p s)
    go outside e = waits-IsValid s c (spinning none) s.interrupts_on v (ap holds e) refl
    go (spinning h) e = v
    go (holding h) e = v
step-IsValid (lock_irq c) s v = go (s.points c) refl
  where
    go : (p : Point) → s.points c ≡ p → IsValid (begin_lock_irq c p s)
    go outside e = waits-IsValid s c (spinning (some (s.interrupts_on c))) _ v (ap holds e) refl
    go (spinning h) e = v
    go (holding h) e = v
step-IsValid (try_lock c) s v = go (s.points c)
  where
    go : (p : Point) → IsValid (do_try_lock c p s)
    go outside = if-IsValid s.locked (λ e. v) (λ e. takes-IsValid s c none s.interrupts_on v e)
    go (spinning h) = v
    go (holding h) = v
step-IsValid (try_lock_irq c) s v = go (s.points c)
  where
    go : (p : Point) → IsValid (do_try_lock_irq c p s)
    go outside =
        if-IsValid s.locked
          (λ e. (record {
            one_holder = v.one_holder;
            holder_locked = v.holder_locked;
            some_holder = v.some_holder;
          }))
          (λ e. takes-IsValid s c (some (s.interrupts_on c)) (switch c false s.interrupts_on) v e)
    go (spinning h) = v
    go (holding h) = v
step-IsValid (swap c) s v = go (s.points c)
  where
    go : (p : Point) → IsValid (spin c p s)
    go outside = v
    go (spinning h) = if-IsValid s.locked (λ e. v) (λ e. takes-IsValid s c h s.interrupts_on v e)
    go (holding h) = v
step-IsValid (drop c) s v = go (s.points c) refl
  where
    go : (p : Point) → s.points c ≡ p → IsValid (drop_guard c p s)
    go outside e = v
    go (spinning h) e = v
    go (holding none) e = drops-IsValid s c s.interrupts_on v (ap holds e)
    go (holding (some on)) e = drops-IsValid s c (switch c on s.interrupts_on) v (ap holds e)

pub run-IsValid : (events : List Event) (s : SpinLock) → IsValid s → IsValid (run events s)
unfolding run
run-IsValid [] s v = v
run-IsValid (event ∷ events) s v = run-IsValid events (step event s) (step-IsValid event s v)

pub new-IsValid : (on : ℕ → Bool) → IsValid (new on)
unfolding new holds
new-IsValid on = record {
  one_holder = λ c d h i. absurd (cc h);
  holder_locked = λ c h. absurd (cc h);
  some_holder = λ h. absurd (cc h);
}

-- Whatever the callers of a new lock do, in whatever order: no two of them hold it, and it is locked
-- exactly while one does.
pub lock_excludes :
    (on : ℕ → Bool) (events : List Event)
    → ((c d : ℕ)
        → holds ((run events (new on)).points c) ≡ true
        → holds ((run events (new on)).points d) ≡ true
        → c ≡ d)
      × ((c : ℕ)
          → holds ((run events (new on)).points c) ≡ true
          → (run events (new on)).locked ≡ true)
      × ((run events (new on)).locked ≡ true
          → (c : ℕ) × (holds ((run events (new on)).points c) ≡ true))
lock_excludes on events =
    let v = run-IsValid events (new on) (new-IsValid on) in
    (v.one_holder, v.holder_locked, v.some_holder)
