-- ===== src/Mm/HeapAllocator/Inv.antt =====
-- Which blocks are free and which are held, and what is true of them between two calls.
use kruspix.Base.{
  ℕ, zero, suc, ◌+◌, ◌-◌, ◌*◌, ◌/◌, ◌%◌, ◌^◌, ◌<◌, ◌≤◌, ◌≡◌, inl, inr, refl, sym, ap, ◌∙◌, Bool,
  true, false, Bool-cases, List, [], ◌∷◌, ◌++◌, if◌then◌else◌, leb, ◌==◌, arith, subst, not_leb→lt,
}
use kruspix.Mm.HeapAllocator.{Layout, heap_map_offset, head_index, size_in_pages}
use kruspix.Mm.HeapAllocator.Sizes.{IsLayout}
use kruspix.Mm.HeapAllocator.Distinct.{NoDup, All}

-- a map of lists with one replaced
abbrev pub set_free : ℕ → List ℕ → (ℕ → List ℕ) → ℕ → List ℕ
set_free i xs free j = if j == i then xs else free j

-- What holds of the nine block sizes.
pub class_rec :
    (P : ℕ → Type 0)
    → P 16
    → P 32
    → P 64
    → P 128
    → P 256
    → P 512
    → P 1024
    → P 2048
    → P 4096
    → (i : ℕ) → i < 9
    → P (2 ^ (i + 4))
class_rec P a b c d e f g h k zero lt = a
class_rec P a b c d e f g h k (suc zero) lt = b
class_rec P a b c d e f g h k (suc (suc zero)) lt = c
class_rec P a b c d e f g h k (suc (suc (suc zero))) lt = d
class_rec P a b c d e f g h k (suc (suc (suc (suc zero)))) lt = e
class_rec P a b c d e f g h k (suc (suc (suc (suc (suc zero))))) lt = f
class_rec P a b c d e f g h k (suc (suc (suc (suc (suc (suc zero)))))) lt = g
class_rec P a b c d e f g h k (suc (suc (suc (suc (suc (suc (suc zero))))))) lt = h
class_rec P a b c d e f g h k (suc (suc (suc (suc (suc (suc (suc (suc zero)))))))) lt = k
class_rec P a b c d e f g h k (suc (suc (suc (suc (suc (suc (suc (suc (suc i))))))))) lt =
    absurd (omega arith)

abbrev InBlock : ℕ → Type 0
InBlock size =
    (x y : ℕ) → x % size ≡ 0 → x ≤ y → y < x + size → (y / 4096 ≡ x / 4096) × (y % size ≡ 0 → x ≡ y)

-- A place in a block is in its page, and at its start if it is at the start of any block of that size.
in_block : (i : ℕ) → i < 9 → InBlock (2 ^ (i + 4))
in_block =
    class_rec InBlock (λ x y h l u. (omega arith, λ e. omega arith))
      (λ x y h l u. (omega arith, λ e. omega arith)) (λ x y h l u. (omega arith, λ e. omega arith))
      (λ x y h l u. (omega arith, λ e. omega arith)) (λ x y h l u. (omega arith, λ e. omega arith))
      (λ x y h l u. (omega arith, λ e. omega arith)) (λ x y h l u. (omega arith, λ e. omega arith))
      (λ x y h l u. (omega arith, λ e. omega arith)) (λ x y h l u. (omega arith, λ e. omega arith))

abbrev pub offset_of : ℕ → ℕ
offset_of a = a - heap_map_offset

abbrev pub page : ℕ → ℕ
page a = offset_of a / 4096

-- Who has a page: a list of blocks by its index, or an allocation of pages by 9 and its first page.
abbrev pub Owners : Type 0
Owners = ℕ → ℕ

-- The nodes of a list in memory.
unfoldable pub Chain : (ℕ → ℕ) → ℕ → List ℕ → Type 0
Chain mem p [] = p ≡ 0
Chain mem p (a ∷ rest) = (p ≡ a) × Chain mem (mem a) rest

pub record Block (owner : Owners) (pages i a : ℕ) : Type 0 where
  pub above : heap_map_offset ≤ a
  pub inside : page a < pages
  pub owned : owner (page a) ≡ i
  pub on_block : offset_of a % 2 ^ (i + 4) ≡ 0

pub record Pages (owner : Owners) (pages n a : ℕ) : Type 0 where
  pub first : ℕ
  pub start : a ≡ heap_map_offset + 4096 * first
  pub inside : first + n ≤ pages
  pub owned : (p : ℕ) → first ≤ p → p < first + n → owner p ≡ 9 + first

abbrev pub is_large : Layout → Bool
is_large l = leb 9 (head_index l)

-- An allocation, where it lies and what it holds.
pub record Held (owner : Owners) (pages a : ℕ) (l : Layout) : Type 0 where
  pub layout : IsLayout l
  pub block : is_large l ≡ false → Block owner pages (head_index l) a
  pub whole_pages : is_large l ≡ true → Pages owner pages (size_in_pages l) a

unfoldable pub extent : Layout → ℕ
extent l = if is_large l then 4096 * size_in_pages l else 2 ^ (head_index l + 4)

abbrev pub class : Layout → ℕ
class l = if is_large l then 9 else head_index l

abbrev pub Live : Type 0
Live = List (ℕ × Layout)

-- the addresses of the allocations of a class
unfoldable pub starts : ℕ → Live → List ℕ
starts c [] = []
starts c ((a, l) ∷ live) = let rest = starts c live in if class l == c then a ∷ rest else rest

unfoldable pub AllHeld : Owners → ℕ → Live → Type 0
AllHeld owner pages [] = Unit {0}
AllHeld owner pages ((a, l) ∷ live) = Held owner pages a l × AllHeld owner pages live

-- `size` is the size of the heap.
pub record Inv (heads mem : ℕ → ℕ) (size : ℕ) (live : Live) : Type 0 where
  pub owner : Owners
  pub pages : ℕ
  pub free : ℕ → List ℕ
  pub whole : size ≡ 4096 * pages
  pub bounded : 4096 * pages ≤ 2 ^ 44
  pub chain : (i : ℕ) → i < 9 → Chain mem (heads i) (free i)
  pub free_blocks : (i : ℕ) → i < 9 → All (Block owner pages i) (free i)
  pub held : AllHeld owner pages live
  pub distinct : (i : ℕ) → i < 9 → NoDup (free i ++ starts i live)
  pub distinct_pages : NoDup (starts 9 live)

-- A block in a block is that block.
same_start :
    (owner : Owners) (pages i j a b : ℕ)
    → i < 9
    → Block owner pages i a
    → Block owner pages j b
    → a ≤ b
    → b < a + 2 ^ (i + 4)
    → (i ≡ j) × (a ≡ b)
same_start owner pages i j a b lt g k le u =
    let (same_page, same) =
      in_block i lt (offset_of a) (offset_of b) g.on_block (omega (arith, g.above, k.above, le))
        (omega (arith, g.above, k.above, u)) in
    let e : i ≡ j = sym g.owned ∙ ap owner (sym same_page) ∙ k.owned in
    let p : offset_of a ≡ offset_of b =
      same (subst (λ n. offset_of b % 2 ^ (n + 4) ≡ 0) (sym e) k.on_block) in
    (e, omega (arith, p, g.above, k.above))

-- A block has no place in whole pages.
not_in_whole :
    (owner : Owners) (pages j n a b : ℕ)
    → j < 9
    → Pages owner pages n a
    → Block owner pages j b
    → a ≤ b
    → b < a + 4096 * n
    → ⊥
not_in_whole owner pages j n a b lt g k le u =
    let o = g.owned (page b) (omega (arith, g.start)) (omega (arith, g.start, k.above, le, u)) in
    absurd (omega (arith, o, k.owned, lt))

small-index : (l : Layout) → is_large l ≡ false → head_index l < 9
small-index l e = not_leb→lt 9 (head_index l) e

-- A free block that lies in an allocation is that allocation's block.
pub free_in_held :
    (owner : Owners) (pages a b j : ℕ) (l : Layout)
    → j < 9
    → Held owner pages a l
    → Block owner pages j b
    → a ≤ b
    → b < a + extent l
    → (class l ≡ j) × (a ≡ b)
unfolding extent
free_in_held owner pages a b j l lt h k le u = elim (Bool-cases (is_large l)) [
  | inl e ↦
      absurd
        (not_in_whole owner pages j (size_in_pages l) a b lt (h.whole_pages e) k le (rw e at u))
  | inr e ↦
      rw e
        (same_start owner pages (head_index l) j a b (small-index l e) (h.block e) k le (rw e at u))
]

-- An allocation that begins in another one is that one.
pub held_in_held :
    (owner : Owners) (pages a b : ℕ) (l m : Layout)
    → Held owner pages a l
    → Held owner pages b m
    → (is_large m ≡ true → 0 < size_in_pages m)
    → a ≤ b
    → b < a + extent l
    → (class l ≡ class m) × (a ≡ b)
unfolding extent
held_in_held owner pages a b l m h k pos le u = elim (Bool-cases (is_large m)) [
  | inr e ↦
      rw e (free_in_held owner pages a b (head_index m) l (small-index m e) h (k.block e) le u)
  | inl e ↦
      let g = k.whole_pages e in
      let o = g.owned g.first (omega arith) (omega (arith, pos e)) in
      elim (Bool-cases (is_large l)) [
        | inl d ↦
            let f = h.whole_pages d in
            let u' : b < a + 4096 * size_in_pages l = rw d at u in
            let o' =
              f.owned g.first (omega (arith, f.start, g.start, le))
                (omega (arith, f.start, g.start, u')) in
            (rw (d, e) refl, omega (arith, o, o', f.start, g.start))
        | inr d ↦
            let f = h.block d in
            let u' : b < a + 2 ^ (head_index l + 4) = rw d at u in
            let (same_page, same) =
              in_block (head_index l) (small-index l d) (offset_of a) (offset_of b) f.on_block
                (omega (arith, f.above, g.start, le)) (omega (arith, f.above, g.start, u')) in
            let here : page b ≡ g.first = omega (arith, g.start) in
            let o' : owner g.first ≡ head_index l = ap owner (sym here ∙ same_page) ∙ f.owned in
            absurd (omega (arith, o, o', small-index l d))
      ]
]
