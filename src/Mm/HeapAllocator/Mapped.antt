-- ===== src/Mm/HeapAllocator/Mapped.antt =====
-- The heap on the page tables of src/arch/arm64/mm/mmu: `alloc_heap_page` calls their `map_page`, and both
-- take frames from one allocator.
use kruspix.Base.{
  ℕ, ◌+◌, ◌-◌, ◌*◌, ◌/◌, ◌%◌, ◌^◌, ◌<◌, ◌≤◌, ◌≡◌, ◌≢◌, sym, ◌∙◌, some, arith, subst, add64,
}
use kruspix.Base.Outcome.{ok}
use kruspix.Arch.Mmu.{Mmu, page_desc, map_in, map_page}
use kruspix.Arch.Mmu.Walk.{translate}
use kruspix.Arch.Mmu.Step.{FrameSource, IsMmu}
use kruspix.Mm.HeapAllocator.{Heap, heap_map_offset}
use kruspix.Mm.HeapAllocator.Inv.{Live}
use kruspix.Mm.HeapAllocator.Apart.{AreApart}
use kruspix.Mm.HeapAllocator.Fits.{IsWhole, grown-IsWhole}
use kruspix.Mm.HeapAllocator.Backed.{take_frame, AreBacked, grown_one_more}
use kruspix.Mm.HeapAllocator.Run.{Reachable, live-AreApart, reachable_grows}

some_value : {x y : ℕ} → some x ≡ some y → x ≡ y
some_value e = cc

module _ {W : Type 0} {alloc_frame : W → ℕ × W} (source : FrameSource W alloc_frame) where
  -- the entry of the root behind those of the heap's region is for none
  not_mapped :
      (pa : ℕ) (m m' : Mmu W) → map_page alloc_frame (heap_map_offset + 2 ^ 44) pa m ≢ ok m'
  unfolding map_page map_in page_desc
  not_mapped pa m m' run = cc

  -- While there were 4 frames for each page of the heap, its pages are backed.
  abbrev BackedFrom : Mmu W → ℕ → Mmu W → Type 0
  BackedFrom start size m =
      IsWhole size
      × (4 * (size / 4096) ≤ source.left start.frames
          → (source.left start.frames ≤ source.left m.frames + 4 * (size / 4096))
            × AreBacked source size m)

  grown_backed :
      (start : Mmu W) (size : ℕ) (m m' : Mmu W)
      → BackedFrom start size m
      → map_page alloc_frame
          (add64 heap_map_offset size)
          (take_frame source m).0
          (take_frame source m).1
        ≡ ok m'
      → BackedFrom start (add64 size 4096) m'
  grown_backed start size m m' (whole, backed) run =
      let whole' =
        grown-IsWhole (take_frame source) (map_page alloc_frame) not_mapped size m m' whole run in
      let fits : size < 2 ^ 44 = omega (arith, whole.bounded, whole'.bounded) in
      let sum : add64 size 4096 ≡ size + 4096 = omega (arith, fits) in
      let place : add64 heap_map_offset size ≡ heap_map_offset + size = omega (arith, fits) in
      (
        whole',
        λ enough.
            let (used, b) = backed (omega (arith, enough, sum)) in
            let left : 4 ≤ source.left m.frames = omega (arith, enough, sum, used) in
            let run' =
              subst
                (λ va.
                  map_page alloc_frame va (take_frame source m).0 (take_frame source m).1 ≡ ok m')
                place run in
            let (more, b') =
              grown_one_more source (size / 4096) size m m' (omega (arith, whole.pages)) fits b left
                run' in
            (omega (arith, more, used, sum), subst (λ s. AreBacked source s m') (sym sum) b'),
      )

  started_backed : (start : Mmu W) → IsMmu source start → BackedFrom start 0 start
  started_backed start inv = (
    record { pages = omega arith; bounded = omega arith },
    λ enough. (
      omega arith,
      record {
        inv = inv;
        frame = λ k. 0;
        taken = λ k lt. absurd (omega (arith, lt));
        on_frame = λ k lt. absurd (omega (arith, lt));
        distinct = λ j k lt. absurd (omega (arith, lt));
        at = λ a le lt. absurd (omega (arith, le, lt));
      },
    ),
  )

  -- Each address of the heap is at a place of its own in physical memory.
  abbrev pub ArePlaced : ℕ → Mmu W → Type 0
  ArePlaced size m =
      (a : ℕ)
      → heap_map_offset ≤ a
      → a < heap_map_offset + size
      → (p : ℕ) × (translate m a ≡ some p)
        × ((b : ℕ)
            → heap_map_offset ≤ b
            → b < heap_map_offset + size
            → translate m b ≡ some p
            → b ≡ a)

  AreBacked-ArePlaced :
      (size : ℕ) (m : Mmu W) → size % 4096 ≡ 0 → AreBacked source size m → ArePlaced size m
  AreBacked-ArePlaced size m whole back a le lt =
      let k = (a - heap_map_offset) / 4096 in
      let kept : 4096 * k < size = omega (arith, le, lt) in
      (
        back.frame k + a % 4096,
        back.at a le lt,
        λ b le' lt' same.
            let j = (b - heap_map_offset) / 4096 in
            let kept' : 4096 * j < size = omega (arith, le', lt') in
            let one : back.frame j + b % 4096 ≡ back.frame k + a % 4096 =
              some_value (sym (back.at b le' lt') ∙ same) in
            let pages : j ≡ k =
              back.distinct j k kept' kept
                (omega (arith, one, back.on_frame j kept', back.on_frame k kept)) in
            let inside : b % 4096 ≡ a % 4096 =
              omega (arith, one, back.on_frame j kept', back.on_frame k kept) in
            omega (arith, pages, inside, le, le'),
      )

  -- After init_heap on page tables that are a tree in taken frames, and any calls that returned and any writes inside live allocations, with pages that the kernel's map_page maps, where the frame allocator had 4 frames left for each page that the heap has now: any two allocations that are live share no address, every one lies in the pages of the heap, which lie in its region of 2^44 bytes, aligned as its layout asks, and every address in these pages translates to a physical address that no other of them translates to.
  pub mapped-AreApart :
      (start : Mmu W) (h : Heap (Mmu W)) (live : Live)
      → IsMmu source start
      → Reachable (take_frame source) (map_page alloc_frame) start h live
      → 4 * (h.heap_size / 4096) ≤ source.left start.frames
      → AreApart h.heap_size live × (h.heap_size ≤ 2 ^ 44) × ArePlaced h.heap_size h.world
  mapped-AreApart start h live inv r enough =
      let (whole, backed) =
        reachable_grows (take_frame source) (map_page alloc_frame) (BackedFrom start)
          (grown_backed start) start h live (started_backed start inv) r in
      (
        live-AreApart (take_frame source) (map_page alloc_frame) not_mapped start h live r,
        whole.bounded,
        AreBacked-ArePlaced h.heap_size h.world whole.pages (backed enough).1,
      )
