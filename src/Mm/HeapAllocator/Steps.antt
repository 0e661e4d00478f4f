-- ===== src/Mm/HeapAllocator/Steps.antt =====
-- What holds of the size of the heap and of the frames and tables when they are set up, and is kept by every
-- page that the heap maps, holds after any calls.
use kruspix.Base.{
  ℕ, zero, suc, ◌+◌, ◌-◌, ◌/◌, ◌≡◌, inl, inr, Bool-cases, leb, ltb, ◌==◌, ◌*◌, ◌^◌, subst, add64,
}
use kruspix.Base.Outcome.{Outcome, ok, ◌>>=◌, >>=-eq-ok, ok-injective}
use kruspix.Mm.HeapAllocator.{
  Layout, Heap, head_index, block_size, size_in_pages, heap_map_offset, store, link_blocks,
  alloc_heap_page, refill_head, more_pages, alloc_pages, take_head, take_head_if_any, alloc_block,
  alloc, dealloc, free_pages, free_block, fill_heads,
}

module _ {W : Type 0} (alloc_frame : W → ℕ × W) (map_page : ℕ → ℕ → W → Outcome W)
    (P : ℕ → W → Type 0)
    (grows : (size : ℕ) (w w' : W)
      → P size w
      → map_page (add64 heap_map_offset size) (alloc_frame w).0 (alloc_frame w).1 ≡ ok w'
      → P (add64 size 4096) w') where
  alloc_heap_page_grows :
      (h : Heap W) (r : ℕ × Heap W)
      → P h.heap_size h.world
      → alloc_heap_page alloc_frame map_page h ≡ ok r
      → P r.1.heap_size r.1.world
  unfolding alloc_heap_page
  alloc_heap_page_grows h r v run =
      let va = add64 heap_map_offset h.heap_size in
      let (w, mapped, q) =
        >>=-eq-ok (map_page va (alloc_frame h.world).0 (alloc_frame h.world).1)
          (λ (w' : W). ok (va, record h { heap_size = add64 h.heap_size 4096; world = w' })) run in
      subst (λ (t : ℕ × Heap W). P t.1.heap_size t.1.world) (ok-injective q)
        (grows h.heap_size h.world w v mapped)

  pub refill_head_grows :
      (i size : ℕ) (h h' : Heap W)
      → P h.heap_size h.world
      → refill_head alloc_frame map_page i size h ≡ ok h'
      → P h'.heap_size h'.world
  unfolding refill_head
  refill_head_grows i size h h' v run =
      let link = λ (r : ℕ × Heap W). link_blocks (4096 / size) r.0 size (r.1.heads i) r.1.mem in
      let done : ℕ × Heap W → Heap W =
        λ r. record r.1 { heads = store i (link r).0 r.1.heads; mem = (link r).1 } in
      let (r, p, q) =
        >>=-eq-ok (alloc_heap_page alloc_frame map_page h) (λ (r : ℕ × Heap W). ok (done r)) run in
      subst (λ (g : Heap W). P g.heap_size g.world) (ok-injective q) (alloc_heap_page_grows h r v p)

  more_pages_grows :
      (n : ℕ) (h h' : Heap W)
      → P h.heap_size h.world
      → more_pages alloc_frame map_page n h ≡ ok h'
      → P h'.heap_size h'.world
  unfolding more_pages
  more_pages_grows zero h h' v run =
      subst (λ (g : Heap W). P g.heap_size g.world) (ok-injective run) v
  more_pages_grows (suc n) h h' v run =
      let (r, p, q) =
        >>=-eq-ok (alloc_heap_page alloc_frame map_page h)
          (λ (r : ℕ × Heap W). more_pages alloc_frame map_page n r.1) run in
      more_pages_grows n r.1 h' (alloc_heap_page_grows h r v p) q

  alloc_pages_grows :
      (l : Layout) (h : Heap W) (r : ℕ × Heap W)
      → P h.heap_size h.world
      → alloc_pages alloc_frame map_page l h ≡ ok r
      → P r.1.heap_size r.1.world
  unfolding alloc_pages
  alloc_pages_grows l h r v run =
      let rest = λ (s : ℕ × Heap W).
        more_pages alloc_frame map_page (size_in_pages l - 1) s.1 >>= λ (g : Heap W). ok (s.0, g) in
      let (s, p1, q1) = >>=-eq-ok (alloc_heap_page alloc_frame map_page h) rest run in
      let (g, p2, q2) =
        >>=-eq-ok (more_pages alloc_frame map_page (size_in_pages l - 1) s.1)
          (λ (g : Heap W). ok (s.0, g)) q1 in
      subst (λ (t : ℕ × Heap W). P t.1.heap_size t.1.world) (ok-injective q2)
        (more_pages_grows (size_in_pages l - 1) s.1 g (alloc_heap_page_grows h s v p1) p2)

  take_head_grows :
      (i : ℕ) (h : Heap W)
      → P h.heap_size h.world
      → P
          (take_head alloc_frame map_page i h).1.heap_size
          (take_head alloc_frame map_page i h).1.world
  unfolding take_head
  take_head_grows i h v = v

  take_head_if_any_grows :
      (i : ℕ) (h : Heap W)
      → P h.heap_size h.world
      → P
          (take_head_if_any alloc_frame map_page i h).1.heap_size
          (take_head_if_any alloc_frame map_page i h).1.world
  unfolding take_head_if_any
  take_head_if_any_grows i h v = elim (Bool-cases (h.heads i == 0)) [
    | inl e ↦ rw e v
    | inr e ↦ rw e (take_head_grows i h v)
  ]

  alloc_block_grows :
      (i size : ℕ) (h : Heap W) (r : ℕ × Heap W)
      → P h.heap_size h.world
      → alloc_block alloc_frame map_page i size h ≡ ok r
      → P r.1.heap_size r.1.world
  unfolding alloc_block
  alloc_block_grows i size h r v run = elim (Bool-cases (h.heads i == 0)) [
    | inl e ↦
        let run' : (refill_head alloc_frame map_page i size h >>= λ (g : Heap W).
        ok (take_head_if_any alloc_frame map_page i g))
            ≡ ok r =
          rw e at run in
        let (g, p, q) =
          >>=-eq-ok (refill_head alloc_frame map_page i size h)
            (λ (g : Heap W). ok (take_head_if_any alloc_frame map_page i g)) run' in
        subst (λ (t : ℕ × Heap W). P t.1.heap_size t.1.world) (ok-injective q)
          (take_head_if_any_grows i g (refill_head_grows i size h g v p))
    | inr e ↦
        let run' : ok (take_head alloc_frame map_page i h) ≡ ok r = rw e at run in
        subst (λ (t : ℕ × Heap W). P t.1.heap_size t.1.world) (ok-injective run')
          (take_head_grows i h v)
  ]

  pub alloc_grows :
      (l : Layout) (h : Heap W) (r : ℕ × Heap W)
      → P h.heap_size h.world
      → alloc alloc_frame map_page l h ≡ ok r
      → P r.1.heap_size r.1.world
  unfolding alloc
  alloc_grows l h r v run = elim (Bool-cases (ltb 4096 l.align)) [
    | inl e ↦ let run' = rw e at run in cc
    | inr e ↦
        let run' = rw e at run in
        elim (Bool-cases (leb 9 (head_index l))) [
          | inl k ↦ alloc_pages_grows l h r v (rw k at run')
          | inr k ↦ alloc_block_grows (head_index l) (block_size l) h r v (rw k at run')
        ]
  ]

  pub dealloc_grows :
      (p : ℕ) (l : Layout) (h h' : Heap W)
      → P h.heap_size h.world
      → dealloc alloc_frame map_page p l h ≡ ok h'
      → P h'.heap_size h'.world
  unfolding dealloc free_pages free_block
  dealloc_grows p l h h' v run = elim (Bool-cases (ltb 4096 l.align)) [
    | inl e ↦ let run' = rw e at run in cc
    | inr e ↦
        let run' = rw e at run in
        elim (Bool-cases (leb 9 (head_index l))) [
          | inl k ↦ subst (λ (g : Heap W). P g.heap_size g.world) (ok-injective (rw k at run')) v
          | inr k ↦ subst (λ (g : Heap W). P g.heap_size g.world) (ok-injective (rw k at run')) v
        ]
  ]

  pub fill_heads_grows :
      (n index : ℕ) (h h' : Heap W)
      → P h.heap_size h.world
      → fill_heads alloc_frame map_page n index h ≡ ok h'
      → P h'.heap_size h'.world
  unfolding fill_heads
  fill_heads_grows zero index h h' v run =
      subst (λ (g : Heap W). P g.heap_size g.world) (ok-injective run) v
  fill_heads_grows (suc n) index h h' v run =
      let (g, p, q) =
        >>=-eq-ok (refill_head alloc_frame map_page index (16 * 2 ^ index) h)
          (λ (g : Heap W). fill_heads alloc_frame map_page n (index + 1) g) run in
      fill_heads_grows n (index + 1) g h' (refill_head_grows index (16 * 2 ^ index) h g v p) q
