-- ===== src/Mm/HeapAllocator/Distinct.antt =====
-- Lists of addresses without repetition.
use kruspix.Base.{ℕ, ◌≢◌, sym, List, [], ◌∷◌, ◌++◌}

unfoldable pub NotIn : ℕ → List ℕ → Type 0
NotIn a [] = Unit {0}
NotIn a (x ∷ xs) = (a ≢ x) × NotIn a xs

unfoldable pub NoDup : List ℕ → Type 0
NoDup [] = Unit {0}
NoDup (x ∷ xs) = NotIn x xs × NoDup xs

unfoldable pub All : (ℕ → Type 0) → List ℕ → Type 0
All P [] = Unit {0}
All P (x ∷ xs) = P x × All P xs

pub All-map : {P Q : ℕ → Type 0} (xs : List ℕ) → ((x : ℕ) → P x → Q x) → All P xs → All Q xs
unfolding All
All-map [] f h = tt
All-map (x ∷ xs) f (p, h) = (f x p, All-map xs f h)

pub NotIn-append : (a : ℕ) (xs ys : List ℕ) → NotIn a xs → NotIn a ys → NotIn a (xs ++ ys)
unfolding NotIn
NotIn-append a [] ys h k = k
NotIn-append a (x ∷ xs) ys (e, h) k = (e, NotIn-append a xs ys h k)

pub NotIn-left : (a : ℕ) (xs ys : List ℕ) → NotIn a (xs ++ ys) → NotIn a xs
unfolding NotIn
NotIn-left a [] ys h = tt
NotIn-left a (x ∷ xs) ys (e, h) = (e, NotIn-left a xs ys h)

pub NotIn-right : (a : ℕ) (xs ys : List ℕ) → NotIn a (xs ++ ys) → NotIn a ys
unfolding NotIn
NotIn-right a [] ys h = h
NotIn-right a (x ∷ xs) ys (e, h) = NotIn-right a xs ys h

NotIn-middle : (a y : ℕ) (xs ys : List ℕ) → NotIn a (xs ++ y ∷ ys) → (a ≢ y) × NotIn a (xs ++ ys)
unfolding NotIn
NotIn-middle a y [] ys h = h
NotIn-middle a y (x ∷ xs) ys (e, h) = let (n, k) = NotIn-middle a y xs ys h in (n, (e, k))

pub NoDup-insert :
    (y : ℕ) (xs ys : List ℕ) → NotIn y (xs ++ ys) → NoDup (xs ++ ys) → NoDup (xs ++ y ∷ ys)
unfolding NoDup NotIn
NoDup-insert y [] ys n h = (n, h)
NoDup-insert y (x ∷ xs) ys (e, n) (m, h) = (
  NotIn-append x xs (y ∷ ys) (NotIn-left x xs ys m) ((λ q. e (sym q)), NotIn-right x xs ys m),
  NoDup-insert y xs ys n h,
)

pub NoDup-delete :
    (y : ℕ) (xs ys : List ℕ) → NoDup (xs ++ y ∷ ys) → NotIn y (xs ++ ys) × NoDup (xs ++ ys)
unfolding NoDup NotIn
NoDup-delete y [] ys h = h
NoDup-delete y (x ∷ xs) ys (m, h) =
    let (n, k) = NoDup-delete y xs ys h in
    let (e, m') = NotIn-middle x y xs ys m in (((λ q. e (sym q)), n), (m', k))

pub NoDup-right : (xs ys : List ℕ) → NoDup (xs ++ ys) → NoDup ys
unfolding NoDup
NoDup-right [] ys h = h
NoDup-right (x ∷ xs) ys (m, h) = NoDup-right xs ys h
