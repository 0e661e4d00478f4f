-- ===== src/Kernel/Sync/SpinLock.antt =====
-- `SpinLock<T>` of src/kernel/sync/spin_lock.rs and its guard. A caller is a number; it holds at most one
-- guard of the lock, and has interrupts of its own. What only the caller sees is in the step of the access
-- to the lock beside it: the mask of interrupts.
pub mod Exclusion
pub mod Interrupts
mod Tests
use kruspix.Base.{ℕ, ◌≡◌, Bool, true, false, Option, none, some, List, [], ◌∷◌, if◌then◌else◌, ◌==◌}

-- A guard is its `irq_handle`: `some b` if the lock was taken by `lock_irq` or `try_lock_irq`, where `b` says
-- whether interrupts were on.
pub data Point : Type 0 where
  outside : Point
  spinning holding : Option Bool → Point

pub record SpinLock : Type 0 where
  pub locked : Bool
  pub points : ℕ → Point
  pub interrupts_on : ℕ → Bool

pub data Event : Type 0 where
  lock lock_irq try_lock try_lock_irq swap drop : ℕ → Event

abbrev pub move : ℕ → Point → (ℕ → Point) → ℕ → Point
move c p points d = if d == c then p else points d

abbrev pub switch : ℕ → Bool → (ℕ → Bool) → ℕ → Bool
switch c on interrupts d = if d == c then on else interrupts d

unfoldable pub new : (ℕ → Bool) → SpinLock
new interrupts_on = record { locked = false; points = λ c. outside; interrupts_on = interrupts_on }

-- One round of the loop of `lock` and `lock_irq`.
unfoldable pub spin : ℕ → Point → SpinLock → SpinLock
spin c outside s = s
spin c (spinning handle) s =
    if s.locked then s else record s { locked = true; points = move c (holding handle) s.points }
spin c (holding handle) s = s

-- The begin of `lock` and of `lock_irq`, up to the loop.
unfoldable pub begin_lock : ℕ → Point → SpinLock → SpinLock
begin_lock c outside s = record s { points = move c (spinning none) s.points }
begin_lock c (spinning handle) s = s
begin_lock c (holding handle) s = s

unfoldable pub begin_lock_irq : ℕ → Point → SpinLock → SpinLock
begin_lock_irq c outside s = record s {
  points = move c (spinning (some (s.interrupts_on c))) s.points;
  interrupts_on = switch c false s.interrupts_on;
}
begin_lock_irq c (spinning handle) s = s
begin_lock_irq c (holding handle) s = s

unfoldable pub do_try_lock : ℕ → Point → SpinLock → SpinLock
do_try_lock c outside s =
    if s.locked then s else record s { locked = true; points = move c (holding none) s.points }
do_try_lock c (spinning handle) s = s
do_try_lock c (holding handle) s = s

unfoldable pub do_try_lock_irq : ℕ → Point → SpinLock → SpinLock
do_try_lock_irq c outside s =
    let handle = s.interrupts_on c in
    let off = switch c false s.interrupts_on in
    if s.locked then record s { interrupts_on = switch c handle off } else record s {
      locked = true;
      points = move c (holding (some handle)) s.points;
      interrupts_on = off;
    }
do_try_lock_irq c (spinning handle) s = s
do_try_lock_irq c (holding handle) s = s

-- `Drop` of the guard
unfoldable pub drop_guard : ℕ → Point → SpinLock → SpinLock
drop_guard c outside s = s
drop_guard c (spinning handle) s = s
drop_guard c (holding none) s = record s { locked = false; points = move c outside s.points }
drop_guard c (holding (some on)) s = record s {
  locked = false;
  points = move c outside s.points;
  interrupts_on = switch c on s.interrupts_on;
}

unfoldable pub step : Event → SpinLock → SpinLock
step (lock c) s = begin_lock c (s.points c) s
step (lock_irq c) s = begin_lock_irq c (s.points c) s
step (try_lock c) s = do_try_lock c (s.points c) s
step (try_lock_irq c) s = do_try_lock_irq c (s.points c) s
step (swap c) s = spin c (s.points c) s
step (drop c) s = drop_guard c (s.points c) s

unfoldable pub run : List Event → SpinLock → SpinLock
run [] s = s
run (event ∷ events) s = run events (step event s)
