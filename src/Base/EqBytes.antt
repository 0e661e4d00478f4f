-- ===== src/Base/EqBytes.antt =====
-- The test of two byte strings and their equality.
use kruspix.Base.{ℕ, ◌≡◌, ◌≢◌, refl, ap₂, true, false, ◌∷◌, [], arith, ==→eq, subst}
use kruspix.Base.Text.{Bytes, eq_bytes}

pub eq_bytes-eq : (a b : Bytes) → eq_bytes a b ≡ true → a ≡ b
eq_bytes-eq [] [] h = refl
eq_bytes-eq [] (y ∷ b) h = cc
eq_bytes-eq (x ∷ a) [] h = cc
eq_bytes-eq (x ∷ a) (y ∷ b) h =
    ap₂ (λ (c : ℕ) (cs : Bytes). c ∷ cs) (==→eq x y (ground arith)) (eq_bytes-eq a b (ground arith))

eq_bytes-same : (a : Bytes) → eq_bytes a a ≡ true
eq_bytes-same [] = refl
eq_bytes-same (x ∷ a) = let ih = eq_bytes-same a in ground arith

pub eq_bytes-ne : (a b : Bytes) → eq_bytes a b ≡ false → a ≢ b
eq_bytes-ne a b h e =
    let same : eq_bytes a b ≡ true = subst (λ c. eq_bytes a c ≡ true) e (eq_bytes-same a) in cc
