-- ===== src/Kernel/Sync/OnceLock/Progress.antt =====
-- A call that nothing disturbs.
use kruspix.Base.{ℕ, ◌≡◌, refl, some, [], ◌∷◌, eq→==}
use kruspix.Kernel.Sync.OnceLock.{
  Point, OnceLock, get, move, match_status, advance, begin, step, run, set, next, idle, set_ok,
}

module _ {A : Type 0} where
  move_self : (c : ℕ) (p : Point A) (calls : ℕ → Point A) → move c p calls c ≡ p
  move_self c p calls = rw (eq→== c c refl) refl

  -- On a cell that is not set and that no other call is setting, a call of `set` that runs alone returns `Ok`
  -- after its load, its exchange and its two writes, and the cell gives its value.
  pub set_alone :
      (s : OnceLock A) (c : ℕ) (value : A)
      → s.status ≡ 0
      → s.calls c ≡ idle
      → let s' = run (set c value ∷ next c ∷ next c ∷ next c ∷ []) s in
        (s'.calls c ≡ set_ok value) × (get s' ≡ some value)
  unfolding run step begin advance match_status
  set_alone s c value e i =
      rw (i, eq→== c c refl, e)
        (rw (eq→== c c refl) (rw (eq→== c c refl) (rw (eq→== c c refl) (refl, refl))))
