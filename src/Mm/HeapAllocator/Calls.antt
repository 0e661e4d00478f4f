-- ===== src/Mm/HeapAllocator/Calls.antt =====
-- The calls of the allocator keep the heap as it should be.
use kruspix.Base.{
  ℕ, zero, suc, ◌+◌, ◌-◌, ◌*◌, ◌/◌, ◌^◌, ◌<◌, ◌≤◌, ◌≡◌, ◌≢◌, inl, inr, refl, sym, ap, ◌∙◌, true,
  false, Bool-cases, ◌∷◌, ◌++◌, if◌then◌else◌, ◌==◌, arith, subst, eq→==, ne→not_==, not_==→ne,
  le→not_ltb, not_leb→lt, add64,
}
use kruspix.Base.Outcome.{Outcome, ok, ◌>>=◌, >>=-eq-ok, ok-injective}
use kruspix.Mm.HeapAllocator.{
  Layout, Heap, head_index, block_size, size_in_pages, heap_map_offset, store, link_blocks,
  alloc_heap_page, refill_head, more_pages, alloc_pages, take_head, take_head_if_any, alloc_block,
  alloc, free_pages, free_block, dealloc,
}
use kruspix.Mm.HeapAllocator.Sizes.{IsLayout, HasBlock-layout}
use kruspix.Mm.HeapAllocator.Inv.{Live, class_rec, extent, is_large, Inv}
use kruspix.Mm.HeapAllocator.Writes.{Inv-store, Inv-forget, Inv-push, Inv-take_head}
use kruspix.Mm.HeapAllocator.Returns.{alloc_heap_page-ok, more_pages-ok, refill_head-ok}
use kruspix.Mm.HeapAllocator.Fresh.{size_in_pages_pos, Inv-refill, Inv-pages}

block_size-index : (l : Layout) → IsLayout l → block_size l ≡ 2 ^ (head_index l + 4)
block_size-index l h =
    let b = HasBlock-layout l h in
    b.is_size ∙ ap (λ e. 2 ^ e) (omega (arith, b.is_index, b.from_four))

link_blocks-ge :
    (n node size head : ℕ) (mem : ℕ → ℕ) → 0 < n → node ≤ (link_blocks n node size head mem).0
unfolding link_blocks
link_blocks-ge zero node size head mem h = absurd (omega arith)
link_blocks-ge (suc zero) node size head mem h = omega arith
link_blocks-ge (suc (suc n)) node size head mem h =
    omega
      (arith, link_blocks-ge (suc n) (node + size) size node (store node head mem) (omega arith))

some_blocks : (i : ℕ) → i < 9 → 0 < 4096 / 2 ^ (i + 4)
some_blocks =
    class_rec (λ size. 0 < 4096 / size) (omega arith) (omega arith) (omega arith) (omega arith)
      (omega arith) (omega arith) (omega arith) (omega arith) (omega arith)

module _ {W : Type 0} (alloc_frame : W → ℕ × W) (map_page : ℕ → ℕ → W → Outcome W) where
  abbrev pub HeapInv : Heap W → Live → Type 0
  HeapInv h live = Inv h.heads h.mem h.heap_size live

  alloc_pages-Inv :
      (l : Layout) (h h' : Heap W) (p : ℕ) (live : Live)
      → IsLayout l
      → is_large l ≡ true
      → HeapInv h live
      → alloc_pages alloc_frame map_page l h ≡ ok (p, h')
      → h'.heap_size ≤ 2 ^ 44
      → HeapInv h' ((p, l) ∷ live)
  unfolding alloc_pages
  alloc_pages-Inv l h h' p live lay large inv e fits =
      let small : h.heap_size ≤ 2 ^ 44 = omega (arith, inv.whole, inv.bounded) in
      let pos = size_in_pages_pos l lay large in
      let rest = λ (r : ℕ × Heap W).
        more_pages alloc_frame map_page (size_in_pages l - 1) r.1 >>= λ (g : Heap W). ok (r.0, g) in
      let (r, p1, q1) = >>=-eq-ok (alloc_heap_page alloc_frame map_page h) rest e in
      let (w, same) = alloc_heap_page-ok alloc_frame map_page h r p1 (omega (arith, small)) in
      let va = add64 heap_map_offset h.heap_size in
      let h1 : Heap W = record h { heap_size = h.heap_size + 4096; world = w } in
      let q1' : rest (va, h1) ≡ ok (p, h') =
        subst (λ (s : ℕ × Heap W). rest s ≡ ok (p, h')) same q1 in
      let (g, p2, q2) =
        >>=-eq-ok (more_pages alloc_frame map_page (size_in_pages l - 1) h1)
          (λ (g : Heap W). ok (va, g)) q1' in
      let (w', all) =
        more_pages-ok alloc_frame map_page (size_in_pages l - 1) h1 g p2
          (omega (arith, small, lay.bounded)) in
      let sum : h.heap_size + 4096 + 4096 * (size_in_pages l - 1)
          ≡ h.heap_size + 4096 * size_in_pages l =
        omega (arith, pos) in
      let va' : va ≡ heap_map_offset + h.heap_size = omega (arith, small) in
      let last : Heap W = record h {
        heap_size = h.heap_size + 4096 * size_in_pages l;
        world = w';
      } in
      let whole : (heap_map_offset + h.heap_size, last) ≡ (p, h') =
        ap (λ (s : ℕ). (s, last)) (sym va')
        ∙ ap (λ (s : ℕ). (va, record h { heap_size = s; world = w' })) (sym sum)
        ∙ ap (λ (s : Heap W). (va, s)) (sym all)
        ∙ ok-injective q2 in
      let bound : h.heap_size + 4096 * size_in_pages l ≤ 2 ^ 44 =
        subst (λ (s : ℕ × Heap W). s.1.heap_size ≤ 2 ^ 44) (sym whole) fits in
      subst (λ (s : ℕ × Heap W). HeapInv s.1 ((s.0, l) ∷ live)) whole
        (Inv-pages h.heads h.mem h.heap_size live inv l lay large bound)

  take_head-Inv :
      (i : ℕ) (l : Layout) (h : Heap W) (live : Live)
      → i < 9
      → IsLayout l
      → is_large l ≡ false
      → head_index l ≡ i
      → h.heads i ≢ 0
      → HeapInv h live
      → HeapInv
          (take_head alloc_frame map_page i h).1
          (((take_head alloc_frame map_page i h).0, l) ∷ live)
  unfolding take_head
  take_head-Inv i l h live lt lay small e ne inv =
      Inv-take_head h.heads h.mem h.heap_size i l live lt lay small e ne inv

  take_head_if_any-take_head :
      (i : ℕ) (g : Heap W)
      → g.heads i ≢ 0
      → take_head_if_any alloc_frame map_page i g ≡ take_head alloc_frame map_page i g
  unfolding take_head_if_any
  take_head_if_any-take_head i g ne = rw (ne→not_== (g.heads i) 0 ne) refl

  take_head-size :
      (i : ℕ) (g : Heap W) → (take_head alloc_frame map_page i g).1.heap_size ≡ g.heap_size
  unfolding take_head
  take_head-size i g = refl

  -- the heap after a refill
  abbrev refilled : ℕ → Heap W → W → Heap W
  refilled i h w =
      let (head, mem) =
        link_blocks (4096 / 2 ^ (i + 4)) (heap_map_offset + h.heap_size) (2 ^ (i + 4)) (h.heads i)
          h.mem in
      record h {
        heads = store i head h.heads;
        mem = mem;
        heap_size = h.heap_size + 4096;
        world = w;
      }

  refilled-head : (i : ℕ) (h : Heap W) (w : W) → i < 9 → (refilled i h w).heads i ≢ 0
  refilled-head i h w lt e =
      let va = heap_map_offset + h.heap_size in
      let self : (i == i) ≡ true = eq→== i i refl in
      let e' : (link_blocks (4096 / 2 ^ (i + 4)) va (2 ^ (i + 4)) (h.heads i) h.mem).0 ≡ 0 =
        rw self at e in
      omega (
        arith,
        e',
        link_blocks-ge (4096 / 2 ^ (i + 4)) va (2 ^ (i + 4)) (h.heads i) h.mem (some_blocks i lt),
      )

  refilled-Inv :
      (i : ℕ) (l : Layout) (h h' g : Heap W) (p : ℕ) (live : Live) (w : W)
      → i < 9
      → IsLayout l
      → is_large l ≡ false
      → head_index l ≡ i
      → HeapInv h live
      → h'.heap_size ≤ 2 ^ 44
      → g ≡ refilled i h w
      → take_head_if_any alloc_frame map_page i g ≡ (p, h')
      → HeapInv h' ((p, l) ∷ live)
  refilled-Inv i l h h' g p live w lt lay small e inv fits same popped =
      let ne : g.heads i ≢ 0 =
        subst (λ (s : Heap W). s.heads i ≢ 0) (sym same) (refilled-head i h w lt) in
      let result : take_head alloc_frame map_page i g ≡ (p, h') =
        sym (take_head_if_any-take_head i g ne) ∙ popped in
      let size : h.heap_size + 4096 ≡ h'.heap_size =
        ap (λ (s : Heap W). s.heap_size) (sym same)
        ∙ sym (take_head-size i g)
        ∙ ap (λ (s : ℕ × Heap W). s.1.heap_size) result in
      let g-Inv : HeapInv g live =
        subst (λ (s : Heap W). HeapInv s live) (sym same)
          (Inv-refill h.heads h.mem h.heap_size live inv i lt (omega (arith, size, fits))) in
      subst (λ (s : ℕ × Heap W). HeapInv s.1 ((s.0, l) ∷ live)) result
        (take_head-Inv i l g live lt lay small e ne g-Inv)

  alloc_block-Inv :
      (i size : ℕ) (l : Layout) (h h' : Heap W) (p : ℕ) (live : Live)
      → i < 9
      → size ≡ 2 ^ (i + 4)
      → IsLayout l
      → is_large l ≡ false
      → head_index l ≡ i
      → HeapInv h live
      → alloc_block alloc_frame map_page i size h ≡ ok (p, h')
      → h'.heap_size ≤ 2 ^ 44
      → HeapInv h' ((p, l) ∷ live)
  unfolding alloc_block take_head_if_any
  alloc_block-Inv i size l h h' p live lt es lay small e inv run fits =
      elim (Bool-cases (h.heads i == 0)) [
        | inr b ↦
            let run' : ok (take_head alloc_frame map_page i h) ≡ ok (p, h') = rw b at run in
            subst (λ (s : ℕ × Heap W). HeapInv s.1 ((s.0, l) ∷ live)) (ok-injective run')
              (take_head-Inv i l h live lt lay small e (not_==→ne (h.heads i) 0 b) inv)
        | inl b ↦
            let run' : (refill_head alloc_frame map_page i size h >>= λ (g : Heap W).
            ok (take_head_if_any alloc_frame map_page i g))
                ≡ ok (p, h') =
              rw b at run in
            let (g, p1, q1) =
              >>=-eq-ok (refill_head alloc_frame map_page i size h)
                (λ (g : Heap W). ok (take_head_if_any alloc_frame map_page i g)) run' in
            let small_heap : h.heap_size ≤ 2 ^ 44 = omega (arith, inv.whole, inv.bounded) in
            let (w, same) =
              refill_head-ok alloc_frame map_page i (2 ^ (i + 4)) h g
                (subst (λ (s : ℕ). refill_head alloc_frame map_page i s h ≡ ok g) es p1)
                small_heap in
            refilled-Inv i l h h' g p live w lt lay small e inv fits same (ok-injective q1)
      ]

  pub alloc-Inv :
      (l : Layout) (h h' : Heap W) (p : ℕ) (live : Live)
      → IsLayout l
      → HeapInv h live
      → alloc alloc_frame map_page l h ≡ ok (p, h')
      → h'.heap_size ≤ 2 ^ 44
      → HeapInv h' ((p, l) ∷ live)
  unfolding alloc
  alloc-Inv l h h' p live lay inv run fits =
      let run1 : (if is_large l
            then alloc_pages alloc_frame map_page l h
            else alloc_block alloc_frame map_page (head_index l) (block_size l) h)
          ≡ ok (p, h') =
        rw (le→not_ltb 4096 l.align lay.small) at run in
      elim (Bool-cases (is_large l)) [
        | inl b ↦ alloc_pages-Inv l h h' p live lay b inv (rw b at run1) fits
        | inr b ↦
            alloc_block-Inv (head_index l) (block_size l) l h h' p live
              (not_leb→lt 9 (head_index l) b) (block_size-index l lay) lay b refl inv (rw b at run1)
              fits
      ]

  pub dealloc-Inv :
      (a : ℕ) (l : Layout) (h h' : Heap W) (ps qs : Live)
      → HeapInv h (ps ++ (a, l) ∷ qs)
      → IsLayout l
      → dealloc alloc_frame map_page a l h ≡ ok h'
      → HeapInv h' (ps ++ qs)
  unfolding dealloc free_pages free_block extent
  dealloc-Inv a l h h' ps qs inv lay run =
      let run1 : (if is_large l
            then ok (free_pages alloc_frame map_page a l h)
            else ok (free_block alloc_frame map_page a (head_index l) h))
          ≡ ok h' =
        rw (le→not_ltb 4096 l.align lay.small) at run in
      elim (Bool-cases (is_large l)) [
        | inl b ↦
            let pos = size_in_pages_pos l lay b in
            let inside : a + 8 < a + extent l = rw b (omega (arith, pos)) in
            let first =
              Inv-store h.heads h.mem h.heap_size a l ps qs inv a (size_in_pages l) (omega arith)
                (omega (arith, inside)) in
            let mem1 = store a (size_in_pages l) h.mem in
            let second =
              Inv-store h.heads mem1 h.heap_size a l ps qs first (a + 8) h.multi_page_list
                (omega arith) inside in
            let mem2 = store (a + 8) h.multi_page_list mem1 in
            let run2 : ok (free_pages alloc_frame map_page a l h) ≡ ok h' = rw b at run1 in
            subst (λ (s : Heap W). HeapInv s (ps ++ qs)) (ok-injective run2)
              (Inv-forget h.heads mem2 h.heap_size a l ps qs second b)
        | inr b ↦
            let run2 : ok (free_block alloc_frame map_page a (head_index l) h) ≡ ok h' =
              rw b at run1 in
            subst (λ (s : Heap W). HeapInv s (ps ++ qs)) (ok-injective run2)
              (Inv-push h.heads h.mem h.heap_size a l ps qs inv (head_index l)
                (not_leb→lt 9 (head_index l) b) b refl)
      ]

  pub write-Inv :
      (a w v : ℕ) (l : Layout) (h : Heap W) (ps qs : Live)
      → HeapInv h (ps ++ (a, l) ∷ qs)
      → a ≤ w
      → w < a + extent l
      → HeapInv (record h { mem = store w v h.mem }) (ps ++ (a, l) ∷ qs)
  write-Inv a w v l h ps qs inv le lt = Inv-store h.heads h.mem h.heap_size a l ps qs inv w v le lt
