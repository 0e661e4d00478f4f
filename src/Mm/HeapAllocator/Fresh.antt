-- ===== src/Mm/HeapAllocator/Fresh.antt =====
-- The heap with new pages is as it should be.
use kruspix.Base.{
  ℕ, ◌+◌, ◌-◌, ◌*◌, ◌/◌, ◌^◌, ◌<◌, ◌≤◌, ◌≡◌, inl, inr, refl, sym, ap, ◌∙◌, true, Bool-cases, List,
  [], ◌∷◌, ◌++◌, if◌then◌else◌, ltb, ◌==◌, arith, subst, ==→eq, eq→==, ne→not_==, lt→ltb,
  le→not_ltb, leb→le,
}
use kruspix.Base.Bits.{pow_pos}
use kruspix.Mm.HeapAllocator.{
  Layout, head_index, size_in_pages, heap_map_offset, store, link_blocks,
}
use kruspix.Mm.HeapAllocator.Sizes.{IsLayout, HasBlock-layout}
use kruspix.Mm.HeapAllocator.Distinct.{NoDup, All, All-map}
use kruspix.Mm.HeapAllocator.Inv.{
  Live, Owners, Block, Pages, Held, AllHeld, class, is_large, starts, set_free, Inv,
}
use kruspix.Mm.HeapAllocator.Writes.{starts-in, starts-out}
use kruspix.Mm.HeapAllocator.Grow.{
  Below, linked, Chain-link_blocks, Chain-linked, NoDup-linked, Block-linked, Below-NotIn,
}

pub size_in_pages_pos : (l : Layout) → IsLayout l → is_large l ≡ true → 0 < size_in_pages l
size_in_pages_pos l h e =
    let b = HasBlock-layout l h in
    let nine = leb→le 9 (head_index l) e in
    let big = b.least (omega (arith, nine, b.is_index)) in omega (arith, big)

-- Owners of more pages, the same for those that there were.
module _ (owner owner' : Owners) (pages more : ℕ)
    (agree : (p : ℕ) → p < pages → owner' p ≡ owner p) where
  Block-more : (i a : ℕ) → Block owner pages i a → Block owner' (pages + more) i a
  Block-more i a b = record {
    above = b.above;
    inside = omega (arith, b.inside);
    owned = agree ((a - heap_map_offset) / 4096) b.inside ∙ b.owned;
    on_block = b.on_block;
  }

  Blocks-more :
      (i : ℕ) (xs : List ℕ) → All (Block owner pages i) xs → All (Block owner' (pages + more) i) xs
  Blocks-more i xs h = All-map xs (λ a. Block-more i a) h

  Pages-more : (n a : ℕ) → Pages owner pages n a → Pages owner' (pages + more) n a
  Pages-more n a g = record {
    first = g.first;
    start = g.start;
    inside = omega (arith, g.inside);
    owned = λ p lo hi. agree p (omega (arith, g.inside, hi)) ∙ g.owned p lo hi;
  }

  AllHeld-more : (live : Live) → AllHeld owner pages live → AllHeld owner' (pages + more) live
  unfolding AllHeld
  AllHeld-more [] h = tt
  AllHeld-more ((a, l) ∷ live) (k, h) = (
    record {
      layout = k.layout;
      block = λ e. Block-more (head_index l) a (k.block e);
      whole_pages = λ e. Pages-more (size_in_pages l) a (k.whole_pages e);
    },
    AllHeld-more live h,
  )

Block-lt :
    (owner : Owners) (pages i a : ℕ) → Block owner pages i a → a < heap_map_offset + 4096 * pages
Block-lt owner pages i a b = omega (arith, b.above, b.inside)

Blocks-Below :
    (owner : Owners) (pages i : ℕ) (xs : List ℕ)
    → All (Block owner pages i) xs
    → Below (heap_map_offset + 4096 * pages) xs
Blocks-Below owner pages i xs h = All-map xs (λ a. Block-lt owner pages i a) h

Held-lt :
    (owner : Owners) (pages a : ℕ) (l : Layout)
    → Held owner pages a l
    → a < heap_map_offset + 4096 * pages
Held-lt owner pages a l k = elim (Bool-cases (is_large l)) [
  | inl e ↦
      let g = k.whole_pages e in omega (arith, g.start, g.inside, size_in_pages_pos l k.layout e)
  | inr e ↦ Block-lt owner pages (head_index l) a (k.block e)
]

starts-Below :
    (owner : Owners) (pages c : ℕ) (live : Live)
    → AllHeld owner pages live
    → Below (heap_map_offset + 4096 * pages) (starts c live)
unfolding starts AllHeld All
starts-Below owner pages c [] h = tt
starts-Below owner pages c ((a, l) ∷ live) (k, h) = elim (Bool-cases (class l == c)) [
  | inl e ↦ rw e (Held-lt owner pages a l k, starts-Below owner pages c live h)
  | inr e ↦ rw e (starts-Below owner pages c live h)
]

module _ (heads mem : ℕ → ℕ) (size : ℕ) (live : Live) (inv : Inv heads mem size live) where
  va_is : heap_map_offset + size ≡ heap_map_offset + 4096 * inv.pages
  va_is = ap (λ n. heap_map_offset + n) inv.whole

  -- A new page of blocks of class `i`.
  pub Inv-refill :
      (i : ℕ)
      → i < 9
      → size + 4096 ≤ 2 ^ 44
      → Inv
          (store i
            (link_blocks
              (4096 / 2 ^ (i + 4))
              (heap_map_offset + size)
              (2 ^ (i + 4))
              (heads i)
              mem).0
            heads)
          (link_blocks (4096 / 2 ^ (i + 4)) (heap_map_offset + size) (2 ^ (i + 4)) (heads i) mem).1
          (size + 4096)
          live
  Inv-refill i lt fits =
      let block = 2 ^ (i + 4) in
      let pos : 0 < block = pow_pos (i + 4) in
      let va = heap_map_offset + size in
      let owner' : Owners = λ p. if p == inv.pages then i else inv.owner p in
      let agree : (p : ℕ) → p < inv.pages → owner' p ≡ inv.owner p =
        (λ p h. rw (ne→not_== p inv.pages (λ e. omega (arith, h, e))) refl) in
      let new_free : List ℕ = linked (4096 / block) va block (inv.free i) in
      let below : (j : ℕ) → j < 9 → Below va (inv.free j) = λ j lt'.
        subst (λ v. Below v (inv.free j)) (sym va_is)
          (Blocks-Below inv.owner inv.pages j (inv.free j) (inv.free_blocks j lt')) in
      let mine : owner' inv.pages ≡ i = rw (eq→== inv.pages inv.pages refl) refl in
      let new_blocks : All (Block owner' (inv.pages + 1) i) new_free =
        Block-linked owner' inv.pages i (4096 / block) 0 va (inv.free i) lt mine (omega arith)
          (omega (arith, va_is))
          (Blocks-more inv.owner owner' inv.pages 1 agree i (inv.free i) (inv.free_blocks i lt)) in
      let others : Below va (starts i live) =
        subst (λ v. Below v (starts i live)) (sym va_is)
          (starts-Below inv.owner inv.pages i live inv.held) in
      record {
        owner = owner';
        pages = inv.pages + 1;
        free = set_free i new_free inv.free;
        whole = omega (arith, inv.whole);
        bounded = omega (arith, inv.whole, fits);
        chain = λ j lt'. (elim (Bool-cases (j == i)) [
          | inl d ↦ rw d (
              Chain-linked (4096 / block) va block (heads i) mem (inv.free i) pos (below i lt)
                (inv.chain i lt))
          | inr d ↦ rw d (
              Chain-link_blocks (4096 / block) va block (heads i) (heads j) mem (inv.free j) pos
                (below j lt') (inv.chain j lt'))
        ]);
        free_blocks = λ j lt'. (elim (Bool-cases (j == i)) [
          | inl d ↦ rw d (
              subst (λ n. All (Block owner' (inv.pages + 1) n) new_free) (sym (==→eq j i d))
                new_blocks)
          | inr d ↦ rw d (
              Blocks-more inv.owner owner' inv.pages 1 agree j (inv.free j) (inv.free_blocks j lt'))
        ]);
        held = AllHeld-more inv.owner owner' inv.pages 1 agree live inv.held;
        distinct = λ j lt'. (elim (Bool-cases (j == i)) [
          | inl d ↦ rw d (
              subst (λ n. NoDup (new_free ++ starts n live)) (sym (==→eq j i d))
                (NoDup-linked (4096 / block) va block (inv.free i) (starts i live) pos (below i lt)
                  others (inv.distinct i lt)))
          | inr d ↦ rw d (inv.distinct j lt')
        ]);
        distinct_pages = inv.distinct_pages;
      }

  -- An allocation of new pages.
  pub Inv-pages :
      (l : Layout)
      → IsLayout l
      → is_large l ≡ true
      → size + 4096 * size_in_pages l ≤ 2 ^ 44
      → Inv heads mem (size + 4096 * size_in_pages l) ((heap_map_offset + size, l) ∷ live)
  unfolding AllHeld NoDup
  Inv-pages l h large fits =
      let n = size_in_pages l in
      let va = heap_map_offset + size in
      let owner' : Owners = λ p. if ltb p inv.pages then inv.owner p else 9 + inv.pages in
      let agree : (p : ℕ) → p < inv.pages → owner' p ≡ inv.owner p =
        (λ p lt. rw (lt→ltb p inv.pages lt) refl) in
      let nine : class l ≡ 9 = rw large refl in
      let others : Below va (starts 9 live) =
        subst (λ v. Below v (starts 9 live)) (sym va_is)
          (starts-Below inv.owner inv.pages 9 live inv.held) in
      record {
        owner = owner';
        pages = inv.pages + n;
        free = inv.free;
        whole = omega (arith, inv.whole);
        bounded = omega (arith, inv.whole, fits);
        chain = inv.chain;
        free_blocks = λ j lt.
            Blocks-more inv.owner owner' inv.pages n agree j (inv.free j) (inv.free_blocks j lt);
        held = (
          record {
            layout = h;
            block = λ e. absurd (ground arith);
            whole_pages = λ e. record {
              first = inv.pages;
              start = va_is;
              inside = omega arith;
              owned = λ p lo hi. rw (le→not_ltb p inv.pages lo) refl;
            };
          },
          AllHeld-more inv.owner owner' inv.pages n agree live inv.held,
        );
        distinct = λ j lt.
            subst (λ xs. NoDup (inv.free j ++ xs))
              (sym (starts-out j va l live (λ k. omega (arith, lt, sym nine ∙ k))))
              (inv.distinct j lt);
        distinct_pages =
            subst NoDup (sym (starts-in 9 va l live nine))
              (Below-NotIn va (starts 9 live) others, inv.distinct_pages);
      }
