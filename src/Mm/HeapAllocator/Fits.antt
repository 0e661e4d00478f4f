-- ===== src/Mm/HeapAllocator/Fits.antt =====
-- The heap stays in its region when no page can be mapped where the region ends.
use kruspix.Base.{
  ℕ, ◌+◌, ◌%◌, ◌^◌, ◌<◌, ◌≤◌, ◌≡◌, inl, inr, Bool-cases, ◌==◌, arith, subst, add64, ==→eq,
  not_==→ne, ◌≢◌,
}
use kruspix.Base.Outcome.{Outcome, ok}
use kruspix.Mm.HeapAllocator.{Layout, Heap, heap_map_offset, refill_head, alloc}
use kruspix.Mm.HeapAllocator.Steps.{refill_head_grows, alloc_grows}

-- The size of the heap is one of whole pages, and they are in its region.
pub record IsWhole (size : ℕ) : Type 0 where
  pub pages : size % 4096 ≡ 0
  pub bounded : size ≤ 2 ^ 44

module _ {W : Type 0} (alloc_frame : W → ℕ × W) (map_page : ℕ → ℕ → W → Outcome W)
    (guarded : (pa : ℕ) (w w' : W) → map_page (heap_map_offset + 2 ^ 44) pa w ≢ ok w') where
  pub grown-IsWhole :
      (size : ℕ) (w w' : W)
      → IsWhole size
      → map_page (add64 heap_map_offset size) (alloc_frame w).0 (alloc_frame w).1 ≡ ok w'
      → IsWhole (add64 size 4096)
  grown-IsWhole size w w' v run = elim (Bool-cases (size == 2 ^ 44)) [
    | inl e ↦
        let last : add64 heap_map_offset size ≡ heap_map_offset + 2 ^ 44 =
          omega (arith, ==→eq size (2 ^ 44) e) in
        absurd (
          guarded (alloc_frame w).0 (alloc_frame w).1 w'
            (subst (λ (a : ℕ). map_page a (alloc_frame w).0 (alloc_frame w).1 ≡ ok w') last run))
    | inr e ↦
        let ne : size ≡ 2 ^ 44 → ⊥ = not_==→ne size (2 ^ 44) e in
        let below : size < 2 ^ 44 = omega (arith, ne, v.bounded) in
        record { pages = omega (arith, below, v.pages); bounded = omega (arith, below, v.pages) }
  ]

  pub refill_head-IsWhole :
      (i size : ℕ) (h h' : Heap W)
      → IsWhole h.heap_size
      → refill_head alloc_frame map_page i size h ≡ ok h'
      → IsWhole h'.heap_size
  refill_head-IsWhole =
      refill_head_grows alloc_frame map_page (λ size w. IsWhole size) grown-IsWhole

  pub alloc-IsWhole :
      (l : Layout) (h : Heap W) (r : ℕ × Heap W)
      → IsWhole h.heap_size
      → alloc alloc_frame map_page l h ≡ ok r
      → IsWhole r.1.heap_size
  alloc-IsWhole = alloc_grows alloc_frame map_page (λ size w. IsWhole size) grown-IsWhole
