-- ===== src/Kernel/Sync/OnceLock/Steps.antt =====
-- Every step keeps the cell valid, and a cell that is set keeps its value.
use kruspix.Base.{
  ℕ, ◌≡◌, refl, sym, ap, ◌∙◌, inl, inr, true, false, some, List, [], ◌∷◌, arith, ltb, ◌==◌,
  Bool-cases, ==→eq,
}
use kruspix.Kernel.Sync.OnceLock.{
  Point, OnceLock, new, is_initialized, get, match_status, advance, begin, Event, step, run, set,
  next, idle, matching, writing, publishing, set_ok, set_err, unreachable,
}
use kruspix.Kernel.Sync.OnceLock.Inv.{
  owns, knows_set, succeeded, written, is_sane, IsValid, new-IsValid, loops-IsValid, wins-IsValid,
  writes-IsValid, publishes-IsValid,
}

module _ {A : Type 0} where
  match_status-IsValid :
      (c seen : ℕ) (value : A) (s : OnceLock A)
      → IsValid s
      → s.calls c ≡ matching seen value
      → IsValid (match_status c seen value s)
  unfolding match_status owns knows_set succeeded written is_sane
  match_status-IsValid c seen value s v e =
      let no_owner : owns (s.calls c) ≡ false = ap owns e in
      let small : ltb seen 3 ≡ true = sym (ap is_sane e) ∙ v.sane c in
      elim (Bool-cases (seen == 2)) [
        | inl q ↦ rw q (
            loops-IsValid s c (set_err value) v no_owner refl refl refl refl
              (λ k. v.known c (ap knows_set e ∙ q)))
        | inr q ↦ rw q (elim (Bool-cases (seen == 1)) [
          | inl r ↦ rw r (
              loops-IsValid s c (matching s.status value) v no_owner refl refl refl
                (let b = v.known_status in ground arith) (λ k. ==→eq s.status 2 k))
          | inr r ↦ rw r (elim (Bool-cases (seen == 0)) [
            | inl z ↦ rw z (elim (Bool-cases (s.status == 0)) [
              | inl y ↦ rw y (wins-IsValid s c value v (==→eq s.status 0 y))
              | inr y ↦ rw y (
                  loops-IsValid s c (matching s.status value) v no_owner refl refl refl
                    (let b = v.known_status in ground arith) (λ k. ==→eq s.status 2 k))
            ])
            | inr z ↦ absurd (ground arith)
          ])
        ])
      ]

  advance-IsValid :
      (c : ℕ) (p : Point A) (s : OnceLock A) → IsValid s → s.calls c ≡ p → IsValid (advance c p s)
  unfolding advance owns written
  advance-IsValid c idle s v e = v
  advance-IsValid c (matching seen value) s v e = match_status-IsValid c seen value s v e
  advance-IsValid c (writing value) s v e = writes-IsValid s c value v (ap owns e)
  advance-IsValid c (publishing value) s v e =
      publishes-IsValid s c value v (ap owns e) (ap written e)
  advance-IsValid c (set_ok value) s v e = v
  advance-IsValid c (set_err value) s v e = v
  advance-IsValid c unreachable s v e = v

  begin-IsValid :
      (c : ℕ) (value : A) (p : Point A) (s : OnceLock A)
      → IsValid s
      → s.calls c ≡ p
      → IsValid (begin c value p s)
  unfolding begin owns knows_set succeeded written is_sane
  begin-IsValid c value idle s v e =
      loops-IsValid s c (matching s.status value) v (ap owns e) refl refl refl
        (let b = v.known_status in ground arith) (λ k. ==→eq s.status 2 k)
  begin-IsValid c value (matching n w) s v e = v
  begin-IsValid c value (writing w) s v e = v
  begin-IsValid c value (publishing w) s v e = v
  begin-IsValid c value (set_ok w) s v e = v
  begin-IsValid c value (set_err w) s v e = v
  begin-IsValid c value unreachable s v e = v

  step-IsValid : (event : Event A) (s : OnceLock A) → IsValid s → IsValid (step event s)
  unfolding step
  step-IsValid (set c value) s v = begin-IsValid c value (s.calls c) s v refl
  step-IsValid (next c) s v = advance-IsValid c (s.calls c) s v refl

  pub run-IsValid : (events : List (Event A)) (s : OnceLock A) → IsValid s → IsValid (run events s)
  unfolding run
  run-IsValid [] s v = v
  run-IsValid (event ∷ events) s v = run-IsValid events (step event s) (step-IsValid event s v)

  -- The cell is set, to `value`.
  abbrev pub HasValue : A → OnceLock A → Type 0
  HasValue value s = (s.status ≡ 2) × (s.data_cell ≡ some value)

  advance-HasValue :
      (value : A) (c : ℕ) (p : Point A) (s : OnceLock A)
      → IsValid s
      → s.calls c ≡ p
      → HasValue value s
      → HasValue value (advance c p s)
  unfolding advance owns match_status
  advance-HasValue value c idle s v e h = h
  advance-HasValue value c (matching seen w) s v e h =
      let (full, held) = h in (ground arith, ground arith)
  advance-HasValue value c (writing w) s v e h =
      absurd (let o = v.owned c (ap owns e) in let t = h.0 in omega arith)
  advance-HasValue value c (publishing w) s v e h =
      absurd (let o = v.owned c (ap owns e) in let t = h.0 in omega arith)
  advance-HasValue value c (set_ok w) s v e h = h
  advance-HasValue value c (set_err w) s v e h = h
  advance-HasValue value c unreachable s v e h = h

  begin-HasValue :
      (value w : A) (c : ℕ) (p : Point A) (s : OnceLock A)
      → HasValue value s
      → HasValue value (begin c w p s)
  unfolding begin
  begin-HasValue value w c idle s h = h
  begin-HasValue value w c (matching n x) s h = h
  begin-HasValue value w c (writing x) s h = h
  begin-HasValue value w c (publishing x) s h = h
  begin-HasValue value w c (set_ok x) s h = h
  begin-HasValue value w c (set_err x) s h = h
  begin-HasValue value w c unreachable s h = h

  pub run-HasValue :
      (value : A) (events : List (Event A)) (s : OnceLock A)
      → IsValid s
      → HasValue value s
      → HasValue value (run events s)
  unfolding run step
  run-HasValue value [] s v h = h
  run-HasValue value (set c w ∷ events) s v h =
      run-HasValue value events (step (set c w) s) (step-IsValid (set c w) s v)
        (begin-HasValue value w c (s.calls c) s h)
  run-HasValue value (next c ∷ events) s v h =
      run-HasValue value events (step (next c) s) (step-IsValid (next c) s v)
        (advance-HasValue value c (s.calls c) s v refl h)

  -- Of the calls of `set` on a new cell, in whatever order their steps come, at most one returns `Ok`; then
  -- the cell gives its value, at once and after any further steps. None reaches `unreachable!`.
  pub set_once :
      (events later : List (Event A))
      → ((c d : ℕ)
          → succeeded ((run events new).calls c) ≡ true
          → succeeded ((run events new).calls d) ≡ true
          → c ≡ d)
        × ((c : ℕ) (value : A)
            → (run events new).calls c ≡ set_ok value
            → get (run later (run events new)) ≡ some value)
        × ((c : ℕ) → is_sane ((run events new).calls c) ≡ true)
  unfolding knows_set written
  set_once events later =
      let v = run-IsValid events new new-IsValid in
      (
        v.one_success,
        (λ c value e.
            let (full, held) =
              run-HasValue value later (run events new) v
                (v.known c (ap knows_set e), v.holds c value (ap written e)) in
            rw full held),
        v.sane,
      )

  -- A call of `set` on a new cell returns `Err` only after the cell was set.
  pub set_err-is_initialized :
      (events : List (Event A)) (c : ℕ) (value : A)
      → (run events new).calls c ≡ set_err value
      → is_initialized (run events new) ≡ true
  unfolding knows_set
  set_err-is_initialized events c value e =
      let full = (run-IsValid events new new-IsValid).known c (ap knows_set e) in ground arith
