-- ===== src/Arch/Mmu/Bits.antt =====
-- The bits of a descriptor that its attributes do not change.
use kruspix.Base.{
  ℕ, zero, suc, ◌+◌, ◌*◌, ◌/◌, ◌%◌, ◌^◌, ◌<◌, ◌≡◌, refl, ap, ◌∙◌, true, false, arith, ==→eq, inl,
  inr, Bool, Bool-cases, ◌==◌,
}
use native.Mathlib.Nat.{pow-suc}
use kruspix.Base.Bits.{set_bit, clear_bit}
use kruspix.Base.Outcome.{ok, ok-injective}
use kruspix.Arch.Mmu.{
  set_execute_never, set_accessed, set_shareability, set_mem_attr_index, new_descriptor, masked,
  page_attributes, MemoryRegionAttrIndex, device, normal_non_cacheable, normal_write_back,
  ShareabilityAttribute, non_shareable, outer_shareable, inner_shareable,
}

-- A word around one of its bits.
record Split (w k : ℕ) : Type 0 where
  high : ℕ
  digit : ℕ
  low : ℕ
  whole : w ≡ high * 2 ^ suc k + digit * 2 ^ k + low
  digit_lt : digit < 2
  low_lt : low < 2 ^ k
  when_set : set_bit w k ≡ high * 2 ^ suc k + 2 ^ k + low
  when_clear : clear_bit w k ≡ high * 2 ^ suc k + low

twice : (h n : ℕ) → h * 2 ^ suc n ≡ 2 * (h * 2 ^ n)
twice h n = let p : 2 ^ suc n ≡ 2 ^ n * 2 = pow-suc 2 n in grind (arith, p)

split : (k w : ℕ) → Split w k
unfolding set_bit clear_bit
split zero w = record {
  high = w / 2;
  digit = w % 2;
  low = 0;
  whole = omega arith;
  digit_lt = omega arith;
  low_lt = omega arith;
  when_set = omega arith;
  when_clear = omega arith;
}
split (suc k) w =
    let s = split k (w / 2) in
    let h = twice s.high (suc k) in
    let d = twice s.digit k in
    let p : 2 ^ suc k ≡ 2 ^ k * 2 = pow-suc 2 k in
    record {
      high = s.high;
      digit = s.digit;
      low = 2 * s.low + w % 2;
      whole = omega (arith, s.whole, h, d);
      digit_lt = s.digit_lt;
      low_lt = omega (arith, s.low_lt, p);
      when_set = omega (arith, s.when_set, h, p);
      when_clear = omega (arith, s.when_clear, h);
    }

-- A word with the type and the address of another one.
abbrev pub Keeps : ℕ → ℕ → Type 0
Keeps w v = (v % 4 ≡ w % 4) × (v / 4096 % 2 ^ 36 ≡ w / 4096 % 2 ^ 36)

Keeps-trans : (a b c : ℕ) → Keeps a b → Keeps b c → Keeps a c
Keeps-trans a b c (p, q) (r, s) = (r ∙ p, s ∙ q)

abbrev AtBit : ℕ → Type 0
AtBit k = (w : ℕ) → Keeps w (set_bit w k) × Keeps w (clear_bit w k)

at_2 : AtBit 2
at_2 w =
    let s = split 2 w in
    let whole = s.whole in
    let digit = s.digit_lt in
    let low = s.low_lt in
    let when_set = s.when_set in
    let when_clear = s.when_clear in ((omega arith, omega arith), (omega arith, omega arith))

at_3 : AtBit 3
at_3 w =
    let s = split 3 w in
    let whole = s.whole in
    let digit = s.digit_lt in
    let low = s.low_lt in
    let when_set = s.when_set in
    let when_clear = s.when_clear in ((omega arith, omega arith), (omega arith, omega arith))

at_4 : AtBit 4
at_4 w =
    let s = split 4 w in
    let whole = s.whole in
    let digit = s.digit_lt in
    let low = s.low_lt in
    let when_set = s.when_set in
    let when_clear = s.when_clear in ((omega arith, omega arith), (omega arith, omega arith))

at_8 : AtBit 8
at_8 w =
    let s = split 8 w in
    let whole = s.whole in
    let digit = s.digit_lt in
    let low = s.low_lt in
    let when_set = s.when_set in
    let when_clear = s.when_clear in ((omega arith, omega arith), (omega arith, omega arith))

at_9 : AtBit 9
at_9 w =
    let s = split 9 w in
    let whole = s.whole in
    let digit = s.digit_lt in
    let low = s.low_lt in
    let when_set = s.when_set in
    let when_clear = s.when_clear in ((omega arith, omega arith), (omega arith, omega arith))

at_10 : AtBit 10
at_10 w =
    let s = split 10 w in
    let whole = s.whole in
    let digit = s.digit_lt in
    let low = s.low_lt in
    let when_set = s.when_set in
    let when_clear = s.when_clear in ((omega arith, omega arith), (omega arith, omega arith))

at_54 : AtBit 54
at_54 w =
    let s = split 54 w in
    let whole = s.whole in
    let digit = s.digit_lt in
    let low = s.low_lt in
    let when_set = s.when_set in
    let when_clear = s.when_clear in ((omega arith, omega arith), (omega arith, omega arith))

clear-Keeps : (w v k : ℕ) → AtBit k → Keeps w v → Keeps w (clear_bit v k)
clear-Keeps w v k at h = Keeps-trans w v (clear_bit v k) h (at v).1

set-Keeps : (w v k : ℕ) → AtBit k → Keeps w v → Keeps w (set_bit v k)
set-Keeps w v k at h = Keeps-trans w v (set_bit v k) h (at v).0

set_shareability-Keeps :
    (a : ShareabilityAttribute) (w v : ℕ) → Keeps w v → Keeps w (set_shareability a v)
unfolding set_shareability
set_shareability-Keeps non_shareable w v h =
    clear-Keeps w (clear_bit v 8) 9 at_9 (clear-Keeps w v 8 at_8 h)
set_shareability-Keeps outer_shareable w v h =
    set-Keeps w (clear_bit (clear_bit v 8) 9) 9 at_9
      (clear-Keeps w (clear_bit v 8) 9 at_9 (clear-Keeps w v 8 at_8 h))
set_shareability-Keeps inner_shareable w v h =
    set-Keeps w (set_bit (clear_bit (clear_bit v 8) 9) 8) 9 at_9 (
      set-Keeps w (clear_bit (clear_bit v 8) 9) 8 at_8
        (clear-Keeps w (clear_bit v 8) 9 at_9 (clear-Keeps w v 8 at_8 h)))

set_accessed-Keeps : (w v : ℕ) → Keeps w v → Keeps w (set_accessed true v)
unfolding set_accessed
set_accessed-Keeps w v h = set-Keeps w v 10 at_10 h

set_execute_never-Keeps : (xn : Bool) (w v : ℕ) → Keeps w v → Keeps w (set_execute_never xn v)
unfolding set_execute_never
set_execute_never-Keeps true w v h = set-Keeps w v 54 at_54 h
set_execute_never-Keeps false w v h = clear-Keeps w v 54 at_54 h

cleared-Keeps : (w v : ℕ) → Keeps w v → Keeps w (clear_bit (clear_bit (clear_bit v 2) 3) 4)
cleared-Keeps w v h =
    clear-Keeps w (clear_bit (clear_bit v 2) 3) 4 at_4
      (clear-Keeps w (clear_bit v 2) 3 at_3 (clear-Keeps w v 2 at_2 h))

set_mem_attr_index-Keeps :
    (a : MemoryRegionAttrIndex) (w v : ℕ) → Keeps w v → Keeps w (set_mem_attr_index a v)
unfolding set_mem_attr_index
set_mem_attr_index-Keeps device w v h = cleared-Keeps w v h
set_mem_attr_index-Keeps normal_non_cacheable w v h =
    set-Keeps w (clear_bit (clear_bit (clear_bit v 2) 3) 4) 2 at_2 (cleared-Keeps w v h)
set_mem_attr_index-Keeps normal_write_back w v h =
    set-Keeps w (clear_bit (clear_bit (clear_bit v 2) 3) 4) 3 at_3 (cleared-Keeps w v h)

pub attributes-Keeps : (a : MemoryRegionAttrIndex) (w : ℕ) → Keeps w (page_attributes a w)
attributes-Keeps a w =
    let v1 = set_shareability inner_shareable w in
    let v2 = set_accessed true v1 in
    let v3 = set_execute_never true v2 in
    set_mem_attr_index-Keeps a w v3 (
      set_execute_never-Keeps true w v2
        (set_accessed-Keeps w v1 (set_shareability-Keeps inner_shareable w w (refl, refl))))

-- A descriptor that refers to a table or a page.
pub record RefersTo (address d : ℕ) : Type 0 where
  pub is_entry : d % 4 ≡ 3
  pub is_at : masked d ≡ address

pub new_descriptor-RefersTo :
    (pa d : ℕ) → pa < 2 ^ 48 → new_descriptor pa ≡ ok d → (pa % 4096 ≡ 0) × RefersTo pa d
unfolding new_descriptor set_bit
new_descriptor-RefersTo pa d lt e = elim (Bool-cases (pa % 4096 == 0)) [
  | inl a ↦
      let aligned = ==→eq (pa % 4096) 0 a in
      let made = ok-injective (rw a at e) in
      (aligned, record { is_entry = omega arith; is_at = omega arith })
  | inr a ↦ let none_made = rw a at e in cc
]

pub attributes-RefersTo :
    (a : MemoryRegionAttrIndex) (pa d : ℕ) → RefersTo pa d → RefersTo pa (page_attributes a d)
attributes-RefersTo a pa d r =
    let (p, q) = attributes-Keeps a d in
    record { is_entry = p ∙ r.is_entry; is_at = ap (λ n. n * 4096) q ∙ r.is_at }
