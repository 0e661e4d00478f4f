-- ===== src/Kernel/Sync/OnceLock.antt =====
-- `OnceLock<T>` of src/kernel/sync/once_lock.rs. A call of `set` is a number, and stands at a point of the
-- function; a step takes it to the next access to what is shared.
pub mod Inv
pub mod Steps
pub mod Progress
mod Tests
use kruspix.Base.{
  ℕ, ◌+◌, ◌≡◌, Bool, true, false, Option, none, some, List, [], ◌∷◌, if◌then◌else◌, ltb, ◌==◌,
}

-- UNINITIALIZED, INITIALIZING, INITIALIZED
abbrev pub uninitialized : ℕ
uninitialized = 0

abbrev pub initializing : ℕ
initializing = 1

abbrev pub initialized : ℕ
initialized = 2

-- Where a call of `set` stands: not begun, before the match on the status that it loaded, before the write
-- of the data, before the store of the status, or returned.
pub data Point (A : Type 0) : Type 0 where
  idle : Point A
  matching : ℕ → A → Point A
  writing publishing set_ok set_err : A → Point A
  unreachable : Point A

pub record OnceLock (A : Type 0) : Type 0 where
  pub status : ℕ
  pub data_cell : Option A
  pub calls : ℕ → Point A

module _ {A : Type 0} where
  unfoldable pub new : OnceLock A
  new = record { status = uninitialized; data_cell = none; calls = λ c. idle }

  abbrev pub is_initialized : OnceLock A → Bool
  is_initialized s = s.status == initialized

  abbrev pub get : OnceLock A → Option A
  get s = if s.status == initialized then s.data_cell else none

  abbrev pub move : ℕ → Point A → (ℕ → Point A) → ℕ → Point A
  move c p calls d = if d == c then p else calls d

  -- The match: a failed `compare_exchange` and a further load both give the current status.
  unfoldable pub match_status : ℕ → ℕ → A → OnceLock A → OnceLock A
  match_status c seen value s =
      if seen == initialized
      then record s { calls = move c (set_err value) s.calls }
      else if seen == initializing
      then record s { calls = move c (matching s.status value) s.calls }
      else if seen == uninitialized
      then (if s.status == uninitialized
          then record s { status = initializing; calls = move c (writing value) s.calls }
          else record s { calls = move c (matching s.status value) s.calls })
      else record s { calls = move c unreachable s.calls }

  -- What call `c`, at point `p`, does next.
  unfoldable pub advance : ℕ → Point A → OnceLock A → OnceLock A
  advance c idle s = s
  advance c (matching seen value) s = match_status c seen value s
  advance c (writing value) s = record s {
    data_cell = some value;
    calls = move c (publishing value) s.calls;
  }
  advance c (publishing value) s = record s {
    status = initialized;
    calls = move c (set_ok value) s.calls;
  }
  advance c (set_ok value) s = s
  advance c (set_err value) s = s
  advance c unreachable s = s

  -- A call begins with a load of the status.
  unfoldable pub begin : ℕ → A → Point A → OnceLock A → OnceLock A
  begin c value idle s = record s { calls = move c (matching s.status value) s.calls }
  begin c value p s = s

pub data Event (A : Type 0) : Type 0 where
  set : ℕ → A → Event A
  next : ℕ → Event A

module _ {A : Type 0} where
  unfoldable pub step : Event A → OnceLock A → OnceLock A
  step (set c value) s = begin c value (s.calls c) s
  step (next c) s = advance c (s.calls c) s

  unfoldable pub run : List (Event A) → OnceLock A → OnceLock A
  run [] s = s
  run (event ∷ events) s = run events (step event s)
