-- ===== src/Base/Bits.antt =====
-- Single bits of a machine word: test, set, clear, and the run of ones at the low end.
use Prim.Native.Nat.{ℕ, zero, suc, ◌+◌, ◌-◌, ◌*◌, ◌/◌, ◌%◌, ◌^◌, ◌≤◌, ◌<◌}
use mathlib.Core.Path.{◌≡◌, refl, ◌∙◌}
use mathlib.Core.Logic.{inl, inr}
use mathlib.Core.Bool.{Bool, true, false}
use native.Mathlib.Omega.{arith}
use native.Mathlib.Nat.{pow-suc}
use kruspix.Base.Tests.{◌==◌, ltb, if◌then◌else◌, Bool-cases}

unfoldable pub bit : ℕ → ℕ → Bool
bit w zero = w % 2 == 1
bit w (suc k) = bit (w / 2) k

-- `w | 1 << k`
unfoldable pub set_bit : ℕ → ℕ → ℕ
set_bit w zero = 2 * (w / 2) + 1
set_bit w (suc k) = 2 * set_bit (w / 2) k + w % 2

-- `w & !(1 << k)`
unfoldable pub clear_bit : ℕ → ℕ → ℕ
clear_bit w zero = 2 * (w / 2)
clear_bit w (suc k) = 2 * clear_bit (w / 2) k + w % 2

-- `trailing_ones` of a word of `n` bits
unfoldable pub trailing_ones : ℕ → ℕ → ℕ
trailing_ones zero w = 0
trailing_ones (suc n) w = let rest = trailing_ones n (w / 2) in if w % 2 == 1 then suc rest else 0

half_double : (x b : ℕ) → b < 2 → (2 * x + b) / 2 ≡ x
half_double x b h = omega arith

low_double : (x b : ℕ) → b < 2 → (2 * x + b) % 2 ≡ b
low_double x b h = omega arith

pub bit-set_bit : (w k j : ℕ) → bit (set_bit w k) j ≡ (if j == k then true else bit w j)
unfolding bit set_bit
bit-set_bit w zero zero = ground (arith, low_double (w / 2) 1)
bit-set_bit w zero (suc j) =
    let e : (2 * (w / 2) + 1) / 2 ≡ w / 2 = half_double (w / 2) 1 (omega arith) in
    rw e (ground arith)
bit-set_bit w (suc k) zero =
    let e : (2 * set_bit (w / 2) k + w % 2) % 2 ≡ w % 2 =
      low_double (set_bit (w / 2) k) (w % 2) (omega arith) in
    rw e (ground arith)
bit-set_bit w (suc k) (suc j) =
    let e : (2 * set_bit (w / 2) k + w % 2) / 2 ≡ set_bit (w / 2) k =
      half_double (set_bit (w / 2) k) (w % 2) (omega arith) in
    rw (e, bit-set_bit (w / 2) k j) (ground arith)

pub bit-clear_bit : (w k j : ℕ) → bit (clear_bit w k) j ≡ (if j == k then false else bit w j)
unfolding bit clear_bit
bit-clear_bit w zero zero = ground (arith, low_double (w / 2) 0)
bit-clear_bit w zero (suc j) =
    let e : (2 * (w / 2)) / 2 ≡ w / 2 = omega arith in rw e (ground arith)
bit-clear_bit w (suc k) zero =
    let e : (2 * clear_bit (w / 2) k + w % 2) % 2 ≡ w % 2 =
      low_double (clear_bit (w / 2) k) (w % 2) (omega arith) in
    rw e (ground arith)
bit-clear_bit w (suc k) (suc j) =
    let e : (2 * clear_bit (w / 2) k + w % 2) / 2 ≡ clear_bit (w / 2) k =
      half_double (clear_bit (w / 2) k) (w % 2) (omega arith) in
    rw (e, bit-clear_bit (w / 2) k j) (ground arith)

-- Below the run's end every bit is set; the bit at its end is not, unless the word is all ones.
pub trailing_ones-le : (n w : ℕ) → trailing_ones n w ≤ n
unfolding trailing_ones
trailing_ones-le zero w = omega arith
trailing_ones-le (suc n) w = ground (arith, trailing_ones-le n (w / 2))

pub bit-below_ones : (n w j : ℕ) → j < trailing_ones n w → bit w j ≡ true
unfolding trailing_ones bit
bit-below_ones zero w j h = absurd (omega arith)
bit-below_ones (suc n) w zero h = ground arith
bit-below_ones (suc n) w (suc j) h = bit-below_ones n (w / 2) j (ground arith)

pub bit-at_ones : (n w : ℕ) → trailing_ones n w < n → bit w (trailing_ones n w) ≡ false
unfolding trailing_ones bit
bit-at_ones zero w h = absurd (omega arith)
bit-at_ones (suc n) w h = elim (Bool-cases (w % 2 == 1)) [
  | inl e ↦ rw e (bit-at_ones n (w / 2) (ground arith))
  | inr e ↦ rw e e
]

pub all_ones : (n w : ℕ) → w < 2 ^ n → trailing_ones n w ≡ n → w + 1 ≡ 2 ^ n
unfolding trailing_ones
all_ones zero w h e = omega arith
all_ones (suc n) w h e =
    let p = pow-suc 2 n in
    elim (Bool-cases (w % 2 == 1)) [
      | inl o ↦ ground (arith, all_ones n (w / 2), p)
      | inr o ↦ absurd (ground arith)
    ]

pub bit-zero : (j : ℕ) → bit 0 j ≡ false
unfolding bit
bit-zero zero = refl
bit-zero (suc j) = bit-zero j

pub pow_pos : (r : ℕ) → 0 < 2 ^ r
pow_pos zero = omega arith
pow_pos (suc r) = omega (arith, pow-suc 2 r, pow_pos r)

-- The mask of the low `r` bits.
pub bit-mask : (r j : ℕ) → bit (2 ^ r - 1) j ≡ ltb j r
unfolding bit
bit-mask zero j = bit-zero j ∙ ground arith
bit-mask (suc r) zero =
    let odd : (2 ^ suc r - 1) % 2 ≡ 1 = omega (arith, pow-suc 2 r, pow_pos r) in
    rw odd (ground arith)
bit-mask (suc r) (suc j) =
    let h : (2 ^ suc r - 1) / 2 ≡ 2 ^ r - 1 = omega (arith, pow-suc 2 r, pow_pos r) in
    rw (h, bit-mask r j) (ground arith)

pub set_bit-lt : (n w k : ℕ) → w < 2 ^ n → k < n → set_bit w k < 2 ^ n
unfolding set_bit
set_bit-lt zero w k h lt = absurd (omega arith)
set_bit-lt (suc n) w zero h lt = omega (arith, pow-suc 2 n, pow_pos n)
set_bit-lt (suc n) w (suc k) h lt =
    let p = pow-suc 2 n in let r = set_bit-lt n (w / 2) k (omega arith) (omega arith) in omega arith

pub clear_bit-le : (w k : ℕ) → clear_bit w k ≤ w
unfolding clear_bit
clear_bit-le w zero = omega arith
clear_bit-le w (suc k) = omega (arith, clear_bit-le (w / 2) k)

pub pow_mono : (r n : ℕ) → r ≤ n → 2 ^ r ≤ 2 ^ n
pow_mono zero n h = pow_pos n
pow_mono (suc r) zero h = absurd (omega arith)
pow_mono (suc r) (suc n) h = omega (arith, pow-suc 2 r, pow-suc 2 n, pow_mono r n (omega arith))
