-- ===== src/Mm/HeapAllocator/Grow.antt =====
-- New pages: one that is cut into free blocks, or some that an allocation gets.
use kruspix.Base.{
  ℕ, zero, suc, ◌+◌, ◌-◌, ◌*◌, ◌/◌, ◌%◌, ◌^◌, ◌<◌, ◌≡◌, refl, ap, ◌∙◌, true, List, [], ◌∷◌, ◌++◌,
  ◌==◌, arith, eq→==,
}
use kruspix.Mm.HeapAllocator.{heap_map_offset, store, link_blocks}
use kruspix.Mm.HeapAllocator.Distinct.{NotIn, NoDup, All, All-map}
use kruspix.Mm.HeapAllocator.Inv.{Owners, Block, Chain, class_rec}
use kruspix.Mm.HeapAllocator.Writes.{Chain-store}

-- The list of the blocks of a page on top of `acc`.
unfoldable pub linked : ℕ → ℕ → ℕ → List ℕ → List ℕ
linked zero node size acc = acc
linked (suc n) node size acc = linked n (node + size) size (node ∷ acc)

abbrev pub Below : ℕ → List ℕ → Type 0
Below node xs = All (λ b. b < node) xs

pub Below-NotIn : (node : ℕ) (xs : List ℕ) → Below node xs → NotIn node xs
unfolding All NotIn
Below-NotIn node [] h = tt
Below-NotIn node (x ∷ xs) (lt, h) = ((λ e. omega (arith, lt, e)), Below-NotIn node xs h)

Below-up : (node size : ℕ) (xs : List ℕ) → 0 < size → Below node xs → Below (node + size) xs
Below-up node size xs pos h = All-map xs (λ x lt. omega (arith, lt, pos)) h

-- What lies below the page is as before.
pub Chain-link_blocks :
    (n node size head q : ℕ) (mem : ℕ → ℕ) (xs : List ℕ)
    → 0 < size
    → Below node xs
    → Chain mem q xs
    → Chain (link_blocks n node size head mem).1 q xs
unfolding link_blocks
Chain-link_blocks zero node size head q mem xs pos b c = c
Chain-link_blocks (suc n) node size head q mem xs pos b c =
    Chain-link_blocks n (node + size) size node q (store node head mem) xs pos
      (Below-up node size xs pos b) (Chain-store mem node head q xs (Below-NotIn node xs b) c)

pub Chain-linked :
    (n node size head : ℕ) (mem : ℕ → ℕ) (acc : List ℕ)
    → 0 < size
    → Below node acc
    → Chain mem head acc
    → Chain
        (link_blocks n node size head mem).1
        (link_blocks n node size head mem).0
        (linked n node size acc)
unfolding link_blocks linked Chain All
Chain-linked zero node size head mem acc pos b c = c
Chain-linked (suc n) node size head mem acc pos b c =
    let self : (node == node) ≡ true = eq→== node node refl in
    Chain-linked n (node + size) size node (store node head mem) (node ∷ acc) pos
      (omega (arith, pos), Below-up node size acc pos b)
      (refl, rw self (Chain-store mem node head head acc (Below-NotIn node acc b) c))

Below-append : (node : ℕ) (xs ys : List ℕ) → Below node xs → Below node ys → Below node (xs ++ ys)
unfolding All
Below-append node [] ys h k = k
Below-append node (x ∷ xs) ys (lt, h) k = (lt, Below-append node xs ys h k)

pub NoDup-linked :
    (n node size : ℕ) (acc others : List ℕ)
    → 0 < size
    → Below node acc
    → Below node others
    → NoDup (acc ++ others)
    → NoDup (linked n node size acc ++ others)
unfolding linked NoDup All
NoDup-linked zero node size acc others pos b o d = d
NoDup-linked (suc n) node size acc others pos b o d =
    NoDup-linked n (node + size) size (node ∷ acc) others pos
      (omega (arith, pos), Below-up node size acc pos b) (Below-up node size others pos o)
      (Below-NotIn node (acc ++ others) (Below-append node acc others b o), d)

-- where the `k`th block of a page lies
abbrev OnPage : ℕ → Type 0
OnPage size =
    (pages k : ℕ)
    → k < 4096 / size
    → ((4096 * pages + k * size) / 4096 ≡ pages) × ((4096 * pages + k * size) % size ≡ 0)

on_page : (i : ℕ) → i < 9 → OnPage (2 ^ (i + 4))
on_page =
    class_rec OnPage (λ p k h. (omega arith, omega arith)) (λ p k h. (omega arith, omega arith))
      (λ p k h. (omega arith, omega arith)) (λ p k h. (omega arith, omega arith))
      (λ p k h. (omega arith, omega arith)) (λ p k h. (omega arith, omega arith))
      (λ p k h. (omega arith, omega arith)) (λ p k h. (omega arith, omega arith))
      (λ p k h. (omega arith, omega arith))

pub Block-linked :
    (owner : Owners) (pages i n k node : ℕ) (acc : List ℕ)
    → i < 9
    → owner pages ≡ i
    → k + n ≡ 4096 / 2 ^ (i + 4)
    → node ≡ heap_map_offset + (4096 * pages + k * 2 ^ (i + 4))
    → All (Block owner (pages + 1) i) acc
    → All (Block owner (pages + 1) i) (linked n node (2 ^ (i + 4)) acc)
unfolding linked All
Block-linked owner pages i zero k node acc lt o e at h = h
Block-linked owner pages i (suc n) k node acc lt o e at h =
    let size = 2 ^ (i + 4) in
    let (p, q) = on_page i lt pages k (omega (arith, e)) in
    let offset_of : node - heap_map_offset ≡ 4096 * pages + k * size = omega (arith, at) in
    let here : (node - heap_map_offset) / 4096 ≡ pages = ap (λ x. x / 4096) offset_of ∙ p in
    let next : (k + 1) * size ≡ k * size + size = grind arith in
    Block-linked owner pages i n (k + 1) (node + size) (node ∷ acc) lt o (omega (arith, e))
      (omega (arith, at, next))
      (
        record {
          above = omega (arith, at);
          inside = omega (arith, here);
          owned = ap owner here ∙ o;
          on_block = ap (λ x. x % size) offset_of ∙ q;
        },
        h,
      )
