-- ===== src/Kernel/Sync/OnceLock/Tests.antt =====
-- Two calls that meet.
use kruspix.Base.{ℕ, ◌≡◌, refl, true, some, List, [], ◌∷◌}
use kruspix.Kernel.Sync.OnceLock.{
  Event, set, next, set_ok, set_err, new, run, step, begin, advance, match_status, get,
}
use kruspix.Kernel.Sync.OnceLock.Inv.{succeeded, is_sane}
use kruspix.Kernel.Sync.OnceLock.Progress.{set_alone}
use kruspix.Kernel.Sync.OnceLock.Steps.{set_once}

-- Call 1 wins the exchange, call 2 spins meanwhile.
abbrev events : List (Event ℕ)
events = set 1 10 ∷ set 2 20 ∷ next 1 ∷ next 2 ∷ next 2 ∷ next 1 ∷ next 1 ∷ next 2 ∷ next 2 ∷ []

first_ok : (run events new).calls 1 ≡ set_ok 10
unfolding run step begin advance match_status new
first_ok = refl

second_err : (run events new).calls 2 ≡ set_err 20
unfolding run step begin advance match_status new
second_err = refl

set_once_example :
    ((c d : ℕ)
      → succeeded ((run events new).calls c) ≡ true
      → succeeded ((run events new).calls d) ≡ true
      → c ≡ d)
    × ((c value : ℕ)
        → (run events new).calls c ≡ set_ok value
        → get (run (set 3 30 ∷ []) (run events new)) ≡ some value)
    × ((c : ℕ) → is_sane ((run events new).calls c) ≡ true)
set_once_example = set_once events (set 3 30 ∷ [])

set_alone_example :
    let s' = run {A = ℕ} (set 1 10 ∷ next 1 ∷ next 1 ∷ next 1 ∷ []) new in
    (s'.calls 1 ≡ set_ok 10) × (get s' ≡ some 10)
unfolding new
set_alone_example = set_alone new 1 10 refl refl
