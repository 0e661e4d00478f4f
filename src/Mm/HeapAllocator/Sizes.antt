-- ===== src/Mm/HeapAllocator/Sizes.antt =====
-- The size and the list of blocks that a layout gets.
use kruspix.Base.{
  ℕ, zero, suc, ◌+◌, ◌-◌, ◌/◌, ◌%◌, ◌^◌, ◌<◌, ◌≤◌, ◌≡◌, refl, ap, ◌∙◌, inl, inr, false, Bool-cases,
  leb, ◌==◌, leb→le, not_leb→lt, max, arith, ne→not_==, subst,
}
use native.Mathlib.Nat.{pow-suc}
use native.Mathlib.Decide.{dec_lt}
use kruspix.Base.Bits.{pow_mono}
use kruspix.Mm.HeapAllocator.{
  Layout, exponent_from, next_power_of_two, trailing_zeros, block_size, head_index,
}

-- A power of two below the top of the address space, at most a page.
pub record IsLayout (layout : Layout) : Type 0 where
  pub log : ℕ
  pub power : layout.align ≡ 2 ^ log
  pub small : layout.align ≤ 4096
  pub bounded : layout.size < 2 ^ 63

trailing_zeros-pow : (bits e : ℕ) → e < bits → trailing_zeros bits (2 ^ e) ≡ e
unfolding trailing_zeros
trailing_zeros-pow zero e h = absurd (omega arith)
trailing_zeros-pow (suc bits) zero h = refl
trailing_zeros-pow (suc bits) (suc e) h =
    let half : 2 ^ suc e / 2 ≡ 2 ^ e = omega (arith, pow-suc 2 e) in
    let even : (2 ^ suc e % 2 == 1) ≡ false =
      ne→not_== (2 ^ suc e % 2) 1 (λ o. omega (arith, pow-suc 2 e, o)) in
    rw even (ap suc (ap (trailing_zeros bits) half ∙ trailing_zeros-pow bits e (omega arith)))

exponent_from-le : (fuel k n : ℕ) → n ≤ 2 ^ (k + fuel) → n ≤ 2 ^ exponent_from fuel k n
unfolding exponent_from
exponent_from-le zero k n h = let e : k + 0 ≡ k = omega arith in rw e at h
exponent_from-le (suc fuel) k n h = elim (Bool-cases (leb n (2 ^ k))) [
  | inl b ↦ rw b (leb→le n (2 ^ k) b)
  | inr b ↦
      let e : k + suc fuel ≡ k + 1 + fuel = omega arith in
      rw b (exponent_from-le fuel (k + 1) n (rw e at h))
]

-- The power before the one that is found is below `n`.
exponent_from-least : (fuel k e n : ℕ) → exponent_from fuel k n ≡ suc e → k ≤ e → 2 ^ e < n
unfolding exponent_from
exponent_from-least zero k e n h le = absurd (omega arith)
exponent_from-least (suc fuel) k e n h le = elim (Bool-cases (leb n (2 ^ k))) [
  | inl b ↦ let h' = rw b at h in absurd (omega (arith, h', le))
  | inr b ↦
      let h' : exponent_from fuel (k + 1) n ≡ suc e = rw b at h in
      elim (dec_lt k e) [
        | yes lt ↦ exponent_from-least fuel (k + 1) e n h' (omega arith)
        | no eq ↦
            let same : k ≡ e = omega arith in subst (λ j. 2 ^ j < n) same (not_leb→lt n (2 ^ k) b)
      ]
]

-- What is requested is at least a minimal block.
wanted : Layout → ℕ
wanted layout = max (max layout.size layout.align) 16

wanted-bounds : (l : Layout) → (l.size ≤ wanted l) × (l.align ≤ wanted l) × (16 ≤ wanted l)
unfolding wanted
wanted-bounds l = (omega arith, omega arith, omega arith)

wanted-le : (l : Layout) (n : ℕ) → l.size ≤ n → l.align ≤ n → 16 ≤ n → wanted l ≤ n
unfolding wanted
wanted-le l n h k m = omega arith

-- Where a layout's block stands among the sizes.
pub record HasBlock (l : Layout) : Type 0 where
  pub exponent : ℕ
  pub from_four : 4 ≤ exponent
  pub is_size : block_size l ≡ 2 ^ exponent
  pub is_index : head_index l ≡ exponent - 4
  pub holds_size : l.size ≤ 2 ^ exponent
  pub holds_align : l.align ≤ 2 ^ exponent
  pub least : 13 ≤ exponent → 4096 < l.size

pub HasBlock-layout : (l : Layout) → IsLayout l → HasBlock l
unfolding block_size next_power_of_two wanted trailing_zeros
HasBlock-layout l h =
    let e = exponent_from 64 0 (wanted l) in
    let (s, a, m) = wanted-bounds l in
    let below : wanted l ≤ 2 ^ (0 + 64) =
      wanted-le l (2 ^ 64) (omega (arith, h.bounded)) (omega (arith, h.small)) (omega arith) in
    let le : wanted l ≤ 2 ^ e = exponent_from-le 64 0 (wanted l) below in
    let big : 13 ≤ e → 4096 < l.size = λ g.
      let p = exponent_from-least 64 0 (e - 1) (wanted l) (omega (arith, g)) (omega arith) in
      let q = pow_mono 12 (e - 1) (omega (arith, g)) in
      (elim (dec_lt 4096 l.size) [
        | yes lt ↦ lt
        | no le' ↦
            let w = wanted-le l 4096 (omega (arith, le')) h.small (omega arith) in
            absurd (omega (arith, p, q, w))
      ]) in
    let four : 4 ≤ e = elim (dec_lt e 4) [
      | yes lt ↦ let q = pow_mono e 3 (omega (arith, lt)) in absurd (omega (arith, q, le, m))
      | no ge ↦ omega (arith, ge)
    ] in
    let fits : e < 64 = elim (dec_lt e 64) [
      | yes lt ↦ lt
      | no ge ↦
          let p = exponent_from-least 64 0 (e - 1) (wanted l) (omega (arith, ge)) (omega arith) in
          let q = pow_mono 63 (e - 1) (omega (arith, ge)) in
          let w =
            wanted-le l (2 ^ 63) (omega (arith, h.bounded)) (omega (arith, h.small))
              (omega arith) in
          absurd (omega (arith, p, q, w))
    ] in
    record {
      exponent = e;
      from_four = four;
      is_size = refl;
      is_index = ap (λ n. n - 4) (trailing_zeros-pow 64 e fits);
      holds_size = omega (arith, s, le);
      holds_align = omega (arith, a, le);
      least = big;
    }
