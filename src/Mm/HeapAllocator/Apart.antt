-- ===== src/Mm/HeapAllocator/Apart.antt =====
-- What the invariant of the heap means for those who hold its memory.
use kruspix.Base.{
  ℕ, zero, suc, ◌+◌, ◌-◌, ◌*◌, ◌/◌, ◌%◌, ◌^◌, ◌<◌, ◌≤◌, ◌≡◌, ◌⊎◌, inl, inr, refl, sym, ap, ◌∙◌,
  Bool-cases, [], ◌∷◌, ◌==◌, arith, subst, not_leb→lt, not_==→ne,
}
use native.Mathlib.Nat.{pow-suc, mod-add-div', mul-mod_left}
use native.Mathlib.Decide.{dec_lt}
use kruspix.Base.Bits.{pow_pos, pow_mono}
use kruspix.Mm.HeapAllocator.{Layout, head_index, size_in_pages, heap_map_offset}
use kruspix.Mm.HeapAllocator.Sizes.{IsLayout, HasBlock-layout}
use kruspix.Mm.HeapAllocator.Distinct.{NotIn, NoDup, NoDup-right}
use kruspix.Mm.HeapAllocator.Inv.{
  Live, Owners, Held, AllHeld, class, class_rec, offset_of, is_large, extent, starts, Inv,
  held_in_held,
}
use kruspix.Mm.HeapAllocator.Writes.{starts-in}
use kruspix.Mm.HeapAllocator.Fresh.{size_in_pages_pos}

-- Two allocations have no byte in common.
abbrev pub Apart : ℕ → Layout → ℕ → Layout → Type 0
Apart a l b m = (a + l.size ≤ b) ⊎ (b + m.size ≤ a)

unfoldable pub ApartFromAll : ℕ → Layout → Live → Type 0
ApartFromAll a l [] = Unit {0}
ApartFromAll a l ((b, m) ∷ live) = Apart a l b m × ApartFromAll a l live

-- An allocation lies in the first `size` bytes of the heap, aligned.
pub record InHeap (size a : ℕ) (l : Layout) : Type 0 where
  pub above : heap_map_offset ≤ a
  pub below : a + l.size ≤ heap_map_offset + size
  pub on_align : a % l.align ≡ 0

unfoldable pub AreApart : ℕ → Live → Type 0
AreApart size [] = Unit {0}
AreApart size ((a, l) ∷ live) = InHeap size a l × ApartFromAll a l live × AreApart size live

-- A power of two divides what a larger one divides.
pub pow_split : (d j : ℕ) → 2 ^ (d + j) ≡ 2 ^ d * 2 ^ j
pow_split zero j =
    let e : zero + j ≡ j = omega arith in
    let one : 2 ^ j ≡ 2 ^ zero * 2 ^ j = omega arith in ap (λ n. 2 ^ n) e ∙ one
pow_split (suc d) j =
    let e : suc d + j ≡ suc (d + j) = omega arith in
    let ih : 2 ^ (d + j) ≡ 2 ^ d * 2 ^ j = pow_split d j in
    let two : 2 ^ suc d ≡ 2 ^ d * 2 = pow-suc 2 d in
    let regroup : 2 ^ (d + j) * 2 ≡ 2 ^ suc d * 2 ^ j = grind (arith, ih, two) in
    ap (λ n. 2 ^ n) e ∙ pow-suc 2 (d + j) ∙ regroup

pow_divides : (j k x : ℕ) → j ≤ k → x % 2 ^ k ≡ 0 → x % 2 ^ j ≡ 0
pow_divides j k x le h =
    let back : k ≡ (k - j) + j = omega (arith, le) in
    let split : 2 ^ k ≡ 2 ^ (k - j) * 2 ^ j = ap (λ n. 2 ^ n) back ∙ pow_split (k - j) j in
    let whole : x ≡ x / 2 ^ k * 2 ^ k = omega (arith, mod-add-div' x (2 ^ k), h) in
    let regroup : x ≡ (x / 2 ^ k * 2 ^ (k - j)) * 2 ^ j = whole ∙ grind (arith, split) in
    ap (λ n. n % 2 ^ j) regroup ∙ mul-mod_left (x / 2 ^ k * 2 ^ (k - j)) (2 ^ j)

align_lem :
    (l : Layout) → IsLayout l → (k a : ℕ) → l.align ≤ 2 ^ k → a % 2 ^ k ≡ 0 → a % l.align ≡ 0
align_lem l h k a le e =
    let below : h.log ≤ k = elim (dec_lt k h.log) [
      | yes lt ↦
          let p = pow_mono (suc k) h.log lt in
          absurd (omega (arith, p, pow-suc 2 k, pow_pos k, h.power, le))
      | no ge ↦ omega (arith, ge)
    ] in
    ap (λ n. a % n) h.power ∙ pow_divides h.log k a below e

abbrev BlockEnds : ℕ → Type 0
BlockEnds size =
    (x pages : ℕ)
    → x % size ≡ 0
    → x / 4096 < pages
    → (x + size ≤ 4096 * pages) × ((heap_map_offset + x) % size ≡ 0)

block_ends : (i : ℕ) → i < 9 → BlockEnds (2 ^ (i + 4))
block_ends =
    class_rec BlockEnds (λ x p h l. (omega arith, omega arith))
      (λ x p h l. (omega arith, omega arith)) (λ x p h l. (omega arith, omega arith))
      (λ x p h l. (omega arith, omega arith)) (λ x p h l. (omega arith, omega arith))
      (λ x p h l. (omega arith, omega arith)) (λ x p h l. (omega arith, omega arith))
      (λ x p h l. (omega arith, omega arith)) (λ x p h l. (omega arith, omega arith))

class-lt : (l : Layout) → class l < 10
class-lt l = elim (Bool-cases (is_large l)) [
  | inl e ↦ rw e (omega arith)
  | inr e ↦ let lt = not_leb→lt 9 (head_index l) e in rw e (omega (arith, lt))
]

first_apart :
    (a : ℕ) (l : Layout) (live : Live)
    → NoDup (starts (class l) ((a, l) ∷ live))
    → NotIn a (starts (class l) live)
unfolding NoDup
first_apart a l live d = (subst NoDup (starts-in (class l) a l live refl) d).0

rest_apart :
    (c a : ℕ) (l : Layout) (live : Live) → NoDup (starts c ((a, l) ∷ live)) → NoDup (starts c live)
unfolding NoDup starts
rest_apart c a l live d = elim (Bool-cases (class l == c)) [
  | inl e ↦ (rw e at d).1
  | inr e ↦ rw e at d
]

-- what a layout asks for lies in what it gets
pub size-extent : (l : Layout) → IsLayout l → l.size ≤ extent l
unfolding extent
size-extent l h = elim (Bool-cases (is_large l)) [
  | inl e ↦ rw e (omega arith)
  | inr e ↦
      let b = HasBlock-layout l h in
      let same : head_index l + 4 ≡ b.exponent = omega (arith, b.is_index, b.from_four) in
      rw e (subst (λ n. l.size ≤ 2 ^ n) (sym same) b.holds_size)
]

Apart-held :
    (owner : Owners) (pages a b : ℕ) (l m : Layout)
    → Held owner pages a l
    → Held owner pages b m
    → (class l ≡ class m → a ≡ b → ⊥)
    → Apart a l b m
Apart-held owner pages a b l m h k distinct =
    let sl = size-extent l h.layout in
    let sm = size-extent m k.layout in
    elim (dec_lt b a) [
      | no le ↦ elim (dec_lt b (a + extent l)) [
        | yes lt ↦
            let (c, e) =
              held_in_held owner pages a b l m h k (size_in_pages_pos m k.layout)
                (omega (arith, le)) lt in
            absurd (distinct c e)
        | no ge ↦ inl (omega (arith, ge, sl))
      ]
      | yes lt ↦ elim (dec_lt a (b + extent m)) [
        | yes lt' ↦
            let (c, e) =
              held_in_held owner pages b a m l k h (size_in_pages_pos l h.layout)
                (omega (arith, lt)) lt' in
            absurd (distinct (sym c) (sym e))
        | no ge ↦ inr (omega (arith, ge, sm))
      ]
    ]

ApartFromAll-held :
    (owner : Owners) (pages a : ℕ) (l : Layout) (live : Live)
    → Held owner pages a l
    → AllHeld owner pages live
    → NotIn a (starts (class l) live)
    → ApartFromAll a l live
unfolding ApartFromAll AllHeld starts NotIn
ApartFromAll-held owner pages a l [] h all n = tt
ApartFromAll-held owner pages a l ((b, m) ∷ live) h (k, all) n =
    elim (Bool-cases (class m == class l)) [
      | inl e ↦
          let (ne, rest) = rw e at n in
          (
            Apart-held owner pages a b l m h k (λ c same. ne same),
            ApartFromAll-held owner pages a l live h all rest,
          )
      | inr e ↦
          let rest = rw e at n in
          (
            Apart-held owner pages a b l m h k (λ c same. not_==→ne (class m) (class l) e (sym c)),
            ApartFromAll-held owner pages a l live h all rest,
          )
    ]

InHeap-held :
    (owner : Owners) (pages a : ℕ) (l : Layout) → Held owner pages a l → InHeap (4096 * pages) a l
InHeap-held owner pages a l h = elim (Bool-cases (is_large l)) [
  | inl e ↦
      let g = h.whole_pages e in
      let inside : 4096 * g.first + 4096 * size_in_pages l ≤ 4096 * pages =
        omega (arith, g.inside) in
      record {
        above = omega (arith, g.start);
        below = omega (arith, g.start, inside);
        on_align =
            align_lem l h.layout 12 a (omega (arith, h.layout.small)) (omega (arith, g.start));
      }
  | inr e ↦
      let g = h.block e in
      let b = HasBlock-layout l h.layout in
      let i = head_index l in
      let lt : i < 9 = not_leb→lt 9 i e in
      let same : i + 4 ≡ b.exponent = omega (arith, b.is_index, b.from_four) in
      let fits : l.size ≤ 2 ^ (i + 4) = subst (λ n. l.size ≤ 2 ^ n) (sym same) b.holds_size in
      let asked : l.align ≤ 2 ^ (i + 4) = subst (λ n. l.align ≤ 2 ^ n) (sym same) b.holds_align in
      let (ends, starts_at) = block_ends i lt (offset_of a) pages g.on_block g.inside in
      record {
        above = g.above;
        below = omega (arith, g.above, ends, fits);
        on_align =
            align_lem l h.layout (i + 4) a asked
              (subst (λ n. n % 2 ^ (i + 4) ≡ 0) (omega (arith, g.above)) starts_at);
      }
]

-- The addresses of allocations that are held, as the invariant has them.
AreApart-held :
    (owner : Owners) (pages : ℕ) (live : Live)
    → AllHeld owner pages live
    → ((c : ℕ) → c < 10 → NoDup (starts c live))
    → AreApart (4096 * pages) live
unfolding AreApart AllHeld
AreApart-held owner pages [] h d = tt
AreApart-held owner pages ((a, l) ∷ live) (k, h) d = (
  InHeap-held owner pages a l k,
  ApartFromAll-held owner pages a l live k h (first_apart a l live (d (class l) (class-lt l))),
  AreApart-held owner pages live h (λ c lt. rest_apart c a l live (d c lt)),
)

pub Inv-AreApart :
    (heads mem : ℕ → ℕ) (size : ℕ) (live : Live) → Inv heads mem size live → AreApart size live
Inv-AreApart heads mem size live inv =
    subst (λ n. AreApart n live) (sym inv.whole)
      (AreApart-held inv.owner inv.pages live inv.held (λ c lt. elim (dec_lt c 9) [
        | yes small ↦ NoDup-right (inv.free c) (starts c live) (inv.distinct c small)
        | no nine ↦ subst (λ n. NoDup (starts n live)) (omega (arith, lt, nine)) inv.distinct_pages
      ]))
