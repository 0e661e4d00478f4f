-- ===== src/Mm/HeapAllocator/Run.antt =====
-- Any sequence of calls of the allocator and of writes by those who hold its memory.
use kruspix.Base.{
  ℕ, zero, suc, ◌+◌, ◌*◌, ◌^◌, ◌<◌, ◌≤◌, ◌≡◌, ◌≢◌, refl, sym, ap, ◌∙◌, [], ◌∷◌, ◌++◌, arith, subst,
  add64,
}
use kruspix.Base.Outcome.{Outcome, ok, >>=-eq-ok, ok-injective}
use kruspix.Mm.HeapAllocator.{
  Layout, Heap, heap_map_offset, store, refill_head, alloc, dealloc, new, fill_heads, init_heap,
}
use kruspix.Mm.HeapAllocator.Sizes.{IsLayout}
use kruspix.Mm.HeapAllocator.Inv.{Live, Chain, AllHeld, starts, Inv}
use kruspix.Mm.HeapAllocator.Distinct.{All, NoDup}
use kruspix.Mm.HeapAllocator.Fresh.{Inv-refill}
use kruspix.Mm.HeapAllocator.Returns.{refill_head-ok}
use kruspix.Mm.HeapAllocator.Calls.{HeapInv, alloc-Inv, dealloc-Inv, write-Inv}
use kruspix.Mm.HeapAllocator.Steps.{alloc_grows, dealloc_grows, fill_heads_grows}
use kruspix.Mm.HeapAllocator.Fits.{IsWhole, refill_head-IsWhole, alloc-IsWhole}
use kruspix.Mm.HeapAllocator.Apart.{AreApart, Inv-AreApart, pow_split, size-extent}

-- no page, no block and no allocation yet
new-Inv : (mem : ℕ → ℕ) → Inv (λ i. 0) mem 0 []
unfolding Chain All AllHeld NoDup starts
new-Inv mem = record {
  owner = λ p. 0;
  pages = 0;
  free = λ i. [];
  whole = refl;
  bounded = omega arith;
  chain = λ i lt. refl;
  free_blocks = λ i lt. tt;
  held = tt;
  distinct = λ i lt. tt;
  distinct_pages = tt;
}

block_of_head : (i : ℕ) → 16 * 2 ^ i ≡ 2 ^ (i + 4)
block_of_head i = let swap : 16 * 2 ^ i ≡ 2 ^ i * 2 ^ 4 = omega arith in swap ∙ sym (pow_split i 4)

module _ {W : Type 0} (alloc_frame : W → ℕ × W) (map_page : ℕ → ℕ → W → Outcome W) where
  -- The heaps that a machine can be in which began with the frames and tables `start`, with the allocations that are live: after `init_heap`, and after any
  -- calls that returned and writes inside live allocations.
  pub data Reachable (start : W) : Heap W → Live → Type 0 where
    set_up :
        (mem : ℕ → ℕ) {h : Heap W}
        → init_heap alloc_frame map_page (new alloc_frame map_page start mem) ≡ ok h
        → Reachable start h []
    allocated :
        (h : Heap W) {h' : Heap W} {live : Live} {l : Layout} {p : ℕ}
        → Reachable start h live
        → IsLayout l
        → alloc alloc_frame map_page l h ≡ ok (p, h')
        → Reachable start h' ((p, l) ∷ live)
    deallocated :
        (h : Heap W) {h' : Heap W} (a : ℕ) (l : Layout) (before after : Live)
        → Reachable start h (before ++ (a, l) ∷ after)
        → IsLayout l
        → dealloc alloc_frame map_page a l h ≡ ok h'
        → Reachable start h' (before ++ after)
    written :
        {a : ℕ} {l : Layout} (h : Heap W) (before after : Live) (at value : ℕ)
        → Reachable start h (before ++ (a, l) ∷ after)
        → IsLayout l
        → a ≤ at
        → at < a + l.size
        → Reachable start (record h { mem = store at value h.mem }) (before ++ (a, l) ∷ after)

  refill_head-Inv :
      (i : ℕ) (h h' : Heap W) (live : Live)
      → i < 9
      → HeapInv alloc_frame map_page h live
      → refill_head alloc_frame map_page i (16 * 2 ^ i) h ≡ ok h'
      → h'.heap_size ≤ 2 ^ 44
      → HeapInv alloc_frame map_page h' live
  refill_head-Inv i h h' live lt inv run fits =
      let small : h.heap_size ≤ 2 ^ 44 = omega (arith, inv.whole, inv.bounded) in
      let run' =
        subst (λ (n : ℕ). refill_head alloc_frame map_page i n h ≡ ok h') (block_of_head i) run in
      let (w, same) = refill_head-ok alloc_frame map_page i (2 ^ (i + 4)) h h' run' small in
      let grown : h'.heap_size ≡ h.heap_size + 4096 = ap (λ (g : Heap W). g.heap_size) same in
      subst (λ (g : Heap W). HeapInv alloc_frame map_page g live) (sym same)
        (Inv-refill h.heads h.mem h.heap_size live inv i lt (omega (arith, grown, fits)))

  module _ (guarded : (pa : ℕ) (w w' : W) → map_page (heap_map_offset + 2 ^ 44) pa w ≢ ok w') where
    heap_size-IsWhole :
        (h : Heap W) (live : Live) → HeapInv alloc_frame map_page h live → IsWhole h.heap_size
    heap_size-IsWhole h live inv = record {
      pages = omega (arith, inv.whole);
      bounded = omega (arith, inv.whole, inv.bounded);
    }

    fill_heads-Inv :
        (n index : ℕ) (h h' : Heap W)
        → index + n ≤ 9
        → HeapInv alloc_frame map_page h []
        → fill_heads alloc_frame map_page n index h ≡ ok h'
        → HeapInv alloc_frame map_page h' []
    unfolding fill_heads
    fill_heads-Inv zero index h h' le inv run =
        subst (λ (g : Heap W). HeapInv alloc_frame map_page g []) (ok-injective run) inv
    fill_heads-Inv (suc n) index h h' le inv run =
        let (g, p, q) =
          >>=-eq-ok (refill_head alloc_frame map_page index (16 * 2 ^ index) h)
            (λ (g : Heap W). fill_heads alloc_frame map_page n (index + 1) g) run in
        let fits =
          refill_head-IsWhole alloc_frame map_page guarded index (16 * 2 ^ index) h g
            (heap_size-IsWhole h [] inv) p in
        let inv' = refill_head-Inv index h g [] (omega (arith, le)) inv p fits.bounded in
        fill_heads-Inv n (index + 1) g h' (omega (arith, le)) inv' q

    pub Reachable-Inv :
        (start : W) (h : Heap W) (live : Live)
        → Reachable start h live
        → HeapInv alloc_frame map_page h live
    unfolding init_heap
    Reachable-Inv start h live (set_up mem run) =
        fill_heads-Inv 9 0 (new alloc_frame map_page start mem) h (omega arith) (new-Inv mem) run
    Reachable-Inv start h live (allocated h0 {live = live'} {l = l} {p = p} r lay run) =
        let inv = Reachable-Inv start h0 live' r in
        let fits =
          alloc-IsWhole alloc_frame map_page guarded l h0 (p, h) (heap_size-IsWhole h0 live' inv)
            run in
        alloc-Inv alloc_frame map_page l h0 h p live' lay inv run fits.bounded
    Reachable-Inv start h live (deallocated h0 a l before after r lay run) =
        dealloc-Inv alloc_frame map_page a l h0 h before after
          (Reachable-Inv start h0 (before ++ (a, l) ∷ after) r) lay run
    Reachable-Inv start h live (written {a = a} {l = l} h0 before after at value r lay ge lt) =
        write-Inv alloc_frame map_page a at value l h0 before after
          (Reachable-Inv start h0 (before ++ (a, l) ∷ after) r) ge
          (omega (arith, lt, size-extent l lay))

    -- Where no page can be mapped at the end of the heap's region, any two allocations that are live at a time share no address, and every one lies in the pages of the heap and is aligned as its layout asks, whatever was allocated, freed and written before.
    pub live-AreApart :
        (start : W) (h : Heap W) (live : Live) → Reachable start h live → AreApart h.heap_size live
    live-AreApart start h live r =
        Inv-AreApart h.heads h.mem h.heap_size live (Reachable-Inv start h live r)

  module _ (P : ℕ → W → Type 0)
      (grows : (size : ℕ) (w w' : W)
        → P size w
        → map_page (add64 heap_map_offset size) (alloc_frame w).0 (alloc_frame w).1 ≡ ok w'
        → P (add64 size 4096) w') where
    -- what every page that is mapped keeps
    pub reachable_grows :
        (start : W) (h : Heap W) (live : Live)
        → P 0 start
        → Reachable start h live
        → P h.heap_size h.world
    unfolding init_heap
    reachable_grows start h live v (set_up mem run) =
        fill_heads_grows alloc_frame map_page P grows 9 0 (new alloc_frame map_page start mem) h v
          run
    reachable_grows start h live v (allocated h0 {live = live'} {l = l} {p = p} r lay run) =
        alloc_grows alloc_frame map_page P grows l h0 (p, h) (reachable_grows start h0 live' v r)
          run
    reachable_grows start h live v (deallocated h0 a l before after r lay run) =
        dealloc_grows alloc_frame map_page P grows a l h0 h
          (reachable_grows start h0 (before ++ (a, l) ∷ after) v r) run
    reachable_grows start h live v (written {a = a} {l = l} h0 before after at value r lay ge lt) =
        reachable_grows start h0 (before ++ (a, l) ∷ after) v r
