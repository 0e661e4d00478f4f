-- ===== src/Kernel/Sync/OnceLock/Inv.antt =====
-- The cell is set once, whatever the order of the steps.
use kruspix.Base.{ℕ, ◌<◌, ◌≡◌, refl, ◌||◌, Bool, true, false, Option, none, some, arith, ltb, ◌==◌}
use kruspix.Kernel.Sync.OnceLock.{
  Point, OnceLock, new, move, idle, matching, writing, publishing, set_ok, set_err, unreachable,
}

module _ {A : Type 0} where
  -- the call has won the exchange and not yet stored the last status
  unfoldable pub owns : Point A → Bool
  owns idle = false
  owns (matching n v) = false
  owns (writing v) = true
  owns (publishing v) = true
  owns (set_ok v) = false
  owns (set_err v) = false
  owns unreachable = false

  -- the call has learnt that the cell is set
  unfoldable pub knows_set : Point A → Bool
  knows_set idle = false
  knows_set (matching n v) = n == 2
  knows_set (writing v) = false
  knows_set (publishing v) = false
  knows_set (set_ok v) = true
  knows_set (set_err v) = true
  knows_set unreachable = false

  unfoldable pub succeeded : Point A → Bool
  succeeded idle = false
  succeeded (matching n v) = false
  succeeded (writing v) = false
  succeeded (publishing v) = false
  succeeded (set_ok v) = true
  succeeded (set_err v) = false
  succeeded unreachable = false

  -- the value that the call has written
  unfoldable pub written : Point A → Option A
  written idle = none
  written (matching n v) = none
  written (writing v) = none
  written (publishing v) = some v
  written (set_ok v) = some v
  written (set_err v) = none
  written unreachable = none

  unfoldable pub is_sane : Point A → Bool
  is_sane idle = true
  is_sane (matching n v) = ltb n 3
  is_sane (writing v) = true
  is_sane (publishing v) = true
  is_sane (set_ok v) = true
  is_sane (set_err v) = true
  is_sane unreachable = false

  pub record IsValid (s : OnceLock A) : Type 0 where
    pub known_status : s.status < 3
    pub sane : (c : ℕ) → is_sane (s.calls c) ≡ true
    pub owned : (c : ℕ) → owns (s.calls c) ≡ true → s.status ≡ 1
    pub one_owner : (c d : ℕ) → owns (s.calls c) ≡ true → owns (s.calls d) ≡ true → c ≡ d
    pub known : (c : ℕ) → knows_set (s.calls c) ≡ true → s.status ≡ 2
    pub one_success :
        (c d : ℕ) → succeeded (s.calls c) ≡ true → succeeded (s.calls d) ≡ true → c ≡ d
    pub holds : (c : ℕ) (v : A) → written (s.calls c) ≡ some v → s.data_cell ≡ some v

  pub new-IsValid : IsValid new
  unfolding new owns knows_set succeeded written is_sane
  new-IsValid = record {
    known_status = omega arith;
    sane = λ c. refl;
    owned = λ c h. cc;
    one_owner = λ c d h k. cc;
    known = λ c h. cc;
    one_success = λ c d h k. cc;
    holds = λ c v h. cc;
  }

  -- A call that stays in the loop, or returns an error.
  pub loops-IsValid :
      (s : OnceLock A) (c : ℕ) (p : Point A)
      → IsValid s
      → owns (s.calls c) ≡ false
      → owns p ≡ false
      → succeeded p ≡ false
      → written p ≡ none
      → is_sane p ≡ true
      → (knows_set p ≡ true → s.status ≡ 2)
      → IsValid (record s { calls = move c p s.calls })
  loops-IsValid s c p v o np ns nw sp k = record {
    known_status = v.known_status;
    sane = λ d. ground (arith, v.sane d);
    owned = λ d h. ground (arith, v.owned d);
    one_owner = λ d e h i. ground (arith, v.one_owner d e);
    known = λ d h. ground (arith, v.known d);
    one_success = λ d e h i. ground (arith, v.one_success d e);
    holds = λ d w h. ground (arith, v.holds d w);
  }

  pub succeeded-knows_set : (p : Point A) → succeeded p ≡ true → knows_set p ≡ true
  unfolding succeeded knows_set
  succeeded-knows_set (set_ok v) h = refl
  succeeded-knows_set idle h = cc
  succeeded-knows_set (matching n v) h = cc
  succeeded-knows_set (writing v) h = cc
  succeeded-knows_set (publishing v) h = cc
  succeeded-knows_set (set_err v) h = cc
  succeeded-knows_set unreachable h = cc

  written-owns_or_knows :
      (p : Point A) (v : A) → written p ≡ some v → (owns p || knows_set p) ≡ true
  unfolding written owns knows_set
  written-owns_or_knows (set_ok v) w h = refl
  written-owns_or_knows idle w h = cc
  written-owns_or_knows (matching n v) w h = cc
  written-owns_or_knows (writing v) w h = cc
  written-owns_or_knows (publishing v) w h = refl
  written-owns_or_knows (set_err v) w h = cc
  written-owns_or_knows unreachable w h = cc

  -- The call whose exchange succeeds.
  pub wins-IsValid :
      (s : OnceLock A) (c : ℕ) (value : A)
      → IsValid s
      → s.status ≡ 0
      → IsValid (record s { status = 1; calls = move c (writing value) s.calls })
  unfolding owns knows_set succeeded written is_sane
  wins-IsValid s c value v e = record {
    known_status = omega arith;
    sane = λ d. ground (arith, v.sane d);
    owned = λ d h. refl;
    one_owner = λ d f h i. ground (arith, v.owned d, v.owned f);
    known = λ d h. ground (arith, v.known d);
    one_success = λ d f h i. ground (arith, v.one_success d f);
    holds = λ d w h. ground (arith, v.holds d w);
  }

  pub writes-IsValid :
      (s : OnceLock A) (c : ℕ) (value : A)
      → IsValid s
      → owns (s.calls c) ≡ true
      → IsValid (record s { data_cell = some value; calls = move c (publishing value) s.calls })
  unfolding owns knows_set succeeded written is_sane
  writes-IsValid s c value v o = record {
    known_status = v.known_status;
    sane = λ d. ground (arith, v.sane d);
    owned = λ d h. ground (arith, v.owned d, v.owned c o);
    one_owner = λ d f h i. ground (arith, v.one_owner d f, v.one_owner d c, v.one_owner c f);
    known = λ d h. ground (arith, v.known d);
    one_success = λ d f h i. ground (arith, v.one_success d f);
    holds = λ d w h.
        ground
          (arith, written-owns_or_knows (s.calls d) w, v.one_owner d c, v.known d, v.owned c o);
  }

  pub publishes-IsValid :
      (s : OnceLock A) (c : ℕ) (value : A)
      → IsValid s
      → owns (s.calls c) ≡ true
      → written (s.calls c) ≡ some value
      → IsValid (record s { status = 2; calls = move c (set_ok value) s.calls })
  unfolding owns knows_set succeeded written is_sane
  publishes-IsValid s c value v o w = record {
    known_status = omega arith;
    sane = λ d. ground (arith, v.sane d);
    owned = λ d h. ground (arith, v.one_owner d c);
    one_owner = λ d f h i. ground (arith, v.one_owner d f);
    known = λ d h. refl;
    one_success = λ d f h i. ground (
      arith,
      v.one_success d f,
      succeeded-knows_set (s.calls d),
      succeeded-knows_set (s.calls f),
      v.known d,
      v.known f,
      v.owned c o,
    );
    holds = λ d u h. ground (arith, v.holds d u, v.holds c value w);
  }
