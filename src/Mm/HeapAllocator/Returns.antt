-- ===== src/Mm/HeapAllocator/Returns.antt =====
-- What the functions that map pages do to the heap when they return.
use kruspix.Base.{
  ℕ, zero, suc, ◌+◌, ◌*◌, ◌/◌, ◌^◌, ◌<◌, ◌≤◌, ◌≡◌, sym, ap, ◌∙◌, arith, subst, add64,
}
use kruspix.Base.Outcome.{Outcome, ok, >>=-eq-ok, ok-injective}
use kruspix.Mm.HeapAllocator.{
  Heap, heap_map_offset, store, link_blocks, alloc_heap_page, refill_head, more_pages,
}

module _ {W : Type 0} (alloc_frame : W → ℕ × W) (map_page : ℕ → ℕ → W → Outcome W) where
  pub alloc_heap_page-ok :
      (h : Heap W) (r : ℕ × Heap W)
      → alloc_heap_page alloc_frame map_page h ≡ ok r
      → h.heap_size + 4096 < 2 ^ 64
      → (w : W) × (r ≡ (
        add64 heap_map_offset h.heap_size,
        record h { heap_size = h.heap_size + 4096; world = w },
      ))
  unfolding alloc_heap_page
  alloc_heap_page-ok h r e lt =
      let va = add64 heap_map_offset h.heap_size in
      let (w, p, q) =
        >>=-eq-ok (map_page va (alloc_frame h.world).0 (alloc_frame h.world).1)
          (λ (w' : W). ok (va, record h { heap_size = add64 h.heap_size 4096; world = w' })) e in
      let sum : add64 h.heap_size 4096 ≡ h.heap_size + 4096 = omega (arith, lt) in
      (w, sym (ok-injective q) ∙ ap (λ (s : ℕ). (va, record h { heap_size = s; world = w })) sum)

  pub more_pages-ok :
      (n : ℕ) (h h' : Heap W)
      → more_pages alloc_frame map_page n h ≡ ok h'
      → h.heap_size + 4096 * n < 2 ^ 64
      → (w : W) × (h' ≡ record h { heap_size = h.heap_size + 4096 * n; world = w })
  unfolding more_pages
  more_pages-ok zero h h' e lt =
      (h.world, sym (ok-injective e) ∙ ap (λ (s : ℕ). record h { heap_size = s }) (omega arith))
  more_pages-ok (suc n) h h' e lt =
      let (r, p, q) =
        >>=-eq-ok (alloc_heap_page alloc_frame map_page h)
          (λ (r : ℕ × Heap W). more_pages alloc_frame map_page n r.1) e in
      let (w, same) = alloc_heap_page-ok h r p (omega (arith, lt)) in
      let h1 : Heap W = record h { heap_size = h.heap_size + 4096; world = w } in
      let q' : more_pages alloc_frame map_page n h1 ≡ ok h' =
        subst (λ (s : ℕ × Heap W). more_pages alloc_frame map_page n s.1 ≡ ok h') same q in
      let (w', rest) = more_pages-ok n h1 h' q' (omega (arith, lt)) in
      (w', rest ∙ ap (λ (s : ℕ). record h { heap_size = s; world = w' }) (omega arith))

  pub refill_head-ok :
      (i size : ℕ) (h h' : Heap W)
      → refill_head alloc_frame map_page i size h ≡ ok h'
      → h.heap_size ≤ 2 ^ 44
      → (w : W) × (h' ≡ record h {
        heads =
            store i
              (link_blocks (4096 / size) (heap_map_offset + h.heap_size) size (h.heads i) h.mem).0
              h.heads;
        mem = (link_blocks (4096 / size) (heap_map_offset + h.heap_size) size (h.heads i) h.mem).1;
        heap_size = h.heap_size + 4096;
        world = w;
      })
  unfolding refill_head
  refill_head-ok i size h h' e lt =
      let link = λ (r : ℕ × Heap W). link_blocks (4096 / size) r.0 size (r.1.heads i) r.1.mem in
      let done : ℕ × Heap W → Heap W =
        λ r. record r.1 { heads = store i (link r).0 r.1.heads; mem = (link r).1 } in
      let (r, p, q) =
        >>=-eq-ok (alloc_heap_page alloc_frame map_page h) (λ (r : ℕ × Heap W). ok (done r)) e in
      let (w, same) = alloc_heap_page-ok h r p (omega (arith, lt)) in
      let va : add64 heap_map_offset h.heap_size ≡ heap_map_offset + h.heap_size =
        omega (arith, lt) in
      let same' : r ≡ (
        heap_map_offset + h.heap_size,
        record h { heap_size = h.heap_size + 4096; world = w },
      ) =
        same ∙ ap (λ (v : ℕ). (v, record h { heap_size = h.heap_size + 4096; world = w })) va in
      (w, sym (ok-injective q) ∙ ap done same')
