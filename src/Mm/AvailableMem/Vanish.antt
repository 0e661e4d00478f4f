-- ===== src/Mm/AvailableMem/Vanish.antt =====
-- A class of inputs for which `calc_available_mem` hands out memory of the kernel. The first reserved
-- region splits the memory region, the second covers the part before the split. That part vanishes,
-- and the round for the split-off part skips one region in use: the split-off part itself.
use kruspix.Base.{
  ℕ, zero, suc, ◌+◌, ◌-◌, ◌<◌, ◌≤◌, ◌^◌, ◌≡◌, refl, true, List, [], ◌∷◌, arith, replicate,
}
use kruspix.Mm.Region.{Region}
use kruspix.Mm.AvailableMem.{is_used, reserved_iter}

module _ (s n p q k m : ℕ) (hp : 0 < p) (hq : 0 < q) (inside : p + q < n) (top : s + n < 2 ^ 64)
    (after : s + p + q ≤ k) (end : k + m ≤ s + n) (hm : 0 < m) where
  is_used_pos : (x y : ℕ) → 0 < y → is_used (x, y) ≡ true
  is_used_pos x y h = ground arith

  abbrev rsvs : List Region
  rsvs = (s + p, q) ∷ (s, p) ∷ (k, m) ∷ []

  abbrev piece : Region
  piece = (s + p + q, n - p - q)

  iter : (z : ℕ) → reserved_iter ((s + p, q) ∷ (s, p) ∷ replicate z (0, 0)) (k, m) ≡ rsvs
  unfolding reserved_iter
  iter z = rw (is_used_pos (s + p) q hq, is_used_pos s p hp, zeros z)
    where
      zeros : (z : ℕ) → reserved_iter (replicate z (0, 0)) (k, m) ≡ (k, m) ∷ []
      zeros zero = refl
      zeros (suc z) = zeros z

  abbrev out : List Region
  out = (0, 0) ∷ piece ∷ replicate 30 (0, 0)
