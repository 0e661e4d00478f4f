-- ===== src/Mm/AvailableMem/Cover.antt =====
-- The addresses that a list of regions covers.
use kruspix.Base.{
  ℕ, zero, suc, ◌≡◌, refl, ◌∙◌, Bool, true, false, ◌||◌, List, [], ◌∷◌, ◌++◌, arith, take,
  replicate,
}
use mathlib.Core.List.{Perm, Permᴰ}
use mathlib.Core.Bool.{Bool-set}
use mathlib.Core.Logic.{∥∥₁_elim}
use kruspix.Mm.Region.{Region, Fits, contains}
use kruspix.Mm.AvailableMem.{is_used}

unfoldable pub covered : List Region → ℕ → Bool
covered [] a = false
covered (r ∷ rs) a = contains r a || covered rs a

abbrev pub AllFit : List Region → Type 0
AllFit [] = Unit
AllFit (r ∷ rs) = Fits r × AllFit rs

-- Every region of the list has a size.
abbrev pub AllUsed : List Region → Type 0
AllUsed [] = Unit
AllUsed (r ∷ rs) = (is_used r ≡ true) × AllUsed rs

abbrev pub AllEmpty : List Region → Type 0
AllEmpty [] = Unit
AllEmpty (r ∷ rs) = (is_used r ≡ false) × AllEmpty rs

pub AllEmpty-take : (n : ℕ) (xs : List Region) → AllEmpty xs → AllEmpty (take n xs)
AllEmpty-take zero xs f = tt
AllEmpty-take (suc n) [] f = tt
AllEmpty-take (suc n) (x ∷ xs) f = (f.0, AllEmpty-take n xs f.1)

pub AllEmpty-replicate : (n a : ℕ) → AllEmpty (replicate n (a, 0))
AllEmpty-replicate zero a = tt
AllEmpty-replicate (suc n) a = (refl, AllEmpty-replicate n a)

pub covered-empty : (xs : List Region) (a : ℕ) → AllEmpty xs → covered xs a ≡ false
unfolding covered
covered-empty [] a e = refl
covered-empty ((s, n) ∷ xs) a e = ground (arith, covered-empty xs a e.1)

pub covered-append :
    (xs ys : List Region) (a : ℕ) → covered (xs ++ ys) a ≡ (covered xs a || covered ys a)
unfolding covered
covered-append [] ys a = refl
covered-append (x ∷ xs) ys a = ground (arith, covered-append xs ys a)

pub covered-replicate : (n a : ℕ) → covered (replicate n (0, 0)) a ≡ false
unfolding covered
covered-replicate zero a = refl
covered-replicate (suc n) a = ground (arith, covered-replicate n a)

pub covered-take :
    (n : ℕ) (xs : List Region) (a : ℕ) → covered (take n xs) a ≡ true → covered xs a ≡ true
unfolding covered
covered-take zero xs a h = cc
covered-take (suc n) [] a h = cc
covered-take (suc n) (x ∷ xs) a h = ground (arith, covered-take n xs a)

pub AllFit-append : (xs ys : List Region) → AllFit xs → AllFit ys → AllFit (xs ++ ys)
AllFit-append [] ys f g = g
AllFit-append (x ∷ xs) ys f g = (f.0, AllFit-append xs ys f.1 g)

pub AllFit-take : (n : ℕ) (xs : List Region) → AllFit xs → AllFit (take n xs)
AllFit-take zero xs f = tt
AllFit-take (suc n) [] f = tt
AllFit-take (suc n) (x ∷ xs) f = (f.0, AllFit-take n xs f.1)

pub AllFit-replicate : (n : ℕ) → AllFit (replicate n (0, 0))
AllFit-replicate zero = tt
AllFit-replicate (suc n) = (omega arith, AllFit-replicate n)

pub AllUsed-append : (xs ys : List Region) → AllUsed xs → AllUsed ys → AllUsed (xs ++ ys)
AllUsed-append [] ys f g = g
AllUsed-append (x ∷ xs) ys f g = (f.0, AllUsed-append xs ys f.1 g)

or_left_comm : (p q r : Bool) → (p || (q || r)) ≡ (q || (p || r))
or_left_comm p q r = ground arith

covered-permᴰ : {xs ys : List Region} (a : ℕ) → Permᴰ xs ys → covered xs a ≡ covered ys a
unfolding covered
covered-permᴰ a Permᴰ.nil = refl
covered-permᴰ a (Permᴰ.cons e p) = rw (e, covered-permᴰ a p)
covered-permᴰ a (Permᴰ.swap {a' = x} {b' = y} {l = l} e e') =
    rw (e, e') (or_left_comm (contains y a) (contains x a) (covered l a))
covered-permᴰ a (Permᴰ.trans p q) = covered-permᴰ a p ∙ covered-permᴰ a q

-- A reordering covers the same addresses.
pub covered-perm : (xs ys : List Region) (a : ℕ) → Perm xs ys → covered xs a ≡ covered ys a
covered-perm xs ys a p = ∥∥₁_elim p (Bool-set _ _) (covered-permᴰ a)
