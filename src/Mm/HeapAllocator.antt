-- ===== src/Mm/HeapAllocator.antt =====
-- src/mm/heap_allocator.rs: free lists of blocks of 16 to 4096 bytes, which are linked through the blocks
-- themselves, and whole pages for what is larger. Memory is a function from a virtual address to the word of
-- 8 bytes that lies there, which is what the machine has while the pages of the heap lie in frames of their
-- own. Out of frames, the source maps every further page at physical address 0; what is written to one of
-- these pages and read through another is not modelled. The fields of a node that are not the first lie 8
-- bytes further.
pub mod Sizes
pub mod Distinct
pub mod Inv
pub mod Writes
pub mod Grow
pub mod Fresh
pub mod Returns
pub mod Calls
pub mod Apart
pub mod Steps
pub mod Fits
pub mod Run
pub mod Backed
pub mod Mapped
mod Tests
use kruspix.Base.{
  ℕ, zero, suc, ◌+◌, ◌-◌, ◌*◌, ◌/◌, ◌%◌, ◌^◌, ◌≡◌, Bool, true, false, List, [], ◌∷◌, if◌then◌else◌,
  ltb, leb, ◌==◌, max, add64,
}
use kruspix.Base.Outcome.{Outcome, ok, panic, ◌>>=◌}

abbrev pub page_size : ℕ
page_size = 4096

abbrev pub min_block_size : ℕ
min_block_size = 16

-- the trailing zeros of the two sizes, less one another, and 1
abbrev pub head_count : ℕ
head_count = 9

abbrev pub heap_map_offset : ℕ
heap_map_offset = 18446638520593285120

-- `core::alloc::Layout`
pub record Layout : Type 0 where
  pub size : ℕ
  pub align : ℕ

-- The statics, and all memory that the heap and its clients write to. `W` is what holds the frames and
-- the page tables.
pub record Heap (W : Type 0) : Type 0 where
  pub heads : ℕ → ℕ
  pub multi_page_list : ℕ
  pub heap_size : ℕ
  pub mem : ℕ → ℕ
  pub world : W

-- a write at one place
abbrev pub store : ℕ → ℕ → (ℕ → ℕ) → ℕ → ℕ
store p value f q = if q == p then value else f q

-- The least exponent from `k` on whose power is not below `n`, with fuel for the powers.
unfoldable pub exponent_from : ℕ → ℕ → ℕ → ℕ
exponent_from zero k n = k
exponent_from (suc fuel) k n =
    let rest = exponent_from fuel (k + 1) n in if leb n (2 ^ k) then k else rest

unfoldable pub next_power_of_two : ℕ → ℕ
next_power_of_two n = 2 ^ exponent_from 64 0 n

unfoldable pub trailing_zeros : ℕ → ℕ → ℕ
trailing_zeros zero n = 0
trailing_zeros (suc bits) n =
    let rest = trailing_zeros bits (n / 2) in if n % 2 == 1 then 0 else suc rest

unfoldable pub block_size : Layout → ℕ
block_size layout = next_power_of_two (max (max layout.size layout.align) min_block_size)

abbrev pub head_index : Layout → ℕ
head_index layout = trailing_zeros 64 (block_size layout) - trailing_zeros 64 min_block_size

-- in whole pages, rounded up
abbrev pub size_in_pages : Layout → ℕ
size_in_pages layout = (layout.size + page_size - 1) / page_size

-- The loop of `refill_head` with the blocks that are left.
unfoldable pub link_blocks : ℕ → ℕ → ℕ → ℕ → (ℕ → ℕ) → ℕ × (ℕ → ℕ)
link_blocks zero node size head mem = (head, mem)
link_blocks (suc n) node size head mem = link_blocks n (node + size) size node (store node head mem)

-- What `mm::alloc_frame` and `map_page` do.
module _ {W : Type 0} (alloc_frame : W → ℕ × W) (map_page : ℕ → ℕ → W → Outcome W) where
  unfoldable pub alloc_heap_page : Heap W → Outcome (ℕ × Heap W)
  alloc_heap_page h =
      let va = add64 heap_map_offset h.heap_size in
      let (pa, w) = alloc_frame h.world in
      map_page va pa w >>= λ w'.
      ok (va, record h { heap_size = add64 h.heap_size page_size; world = w' })

  unfoldable pub refill_head : ℕ → ℕ → Heap W → Outcome (Heap W)
  refill_head index size h = alloc_heap_page h >>= λ r.
      let (head, mem) = link_blocks (page_size / size) r.0 size (r.1.heads index) r.1.mem in
      ok (record r.1 { heads = store index head r.1.heads; mem = mem })

  -- `(1..pages).for_each(…)` with the pages that are left
  unfoldable pub more_pages : ℕ → Heap W → Outcome (Heap W)
  more_pages zero h = ok h
  more_pages (suc n) h = alloc_heap_page h >>= λ r. more_pages n r.1

  unfoldable pub alloc_pages : Layout → Heap W → Outcome (ℕ × Heap W)
  alloc_pages layout h =
      alloc_heap_page h >>= λ r. more_pages (size_in_pages layout - 1) r.1 >>= λ h'. ok (r.0, h')

  unfoldable pub take_head : ℕ → Heap W → ℕ × Heap W
  take_head index h =
      let alloc_ptr = h.heads index in
      (alloc_ptr, record h { heads = store index (h.mem alloc_ptr) h.heads })

  unfoldable pub take_head_if_any : ℕ → Heap W → ℕ × Heap W
  take_head_if_any index h = if h.heads index == 0 then (0, h) else take_head index h

  unfoldable pub alloc_block : ℕ → ℕ → Heap W → Outcome (ℕ × Heap W)
  alloc_block index size h =
      if h.heads index == 0
      then (refill_head index size h >>= λ h'. ok (take_head_if_any index h'))
      else ok (take_head index h)

  unfoldable pub alloc : Layout → Heap W → Outcome (ℕ × Heap W)
  alloc layout h =
      if ltb page_size layout.align
      then panic
      else if leb head_count (head_index layout)
      then alloc_pages layout h
      else alloc_block (head_index layout) (block_size layout) h

  unfoldable pub free_pages : ℕ → Layout → Heap W → Heap W
  free_pages ptr layout h = record h {
    mem = store (ptr + 8) h.multi_page_list (store ptr (size_in_pages layout) h.mem);
    multi_page_list = ptr;
  }

  unfoldable pub free_block : ℕ → ℕ → Heap W → Heap W
  free_block ptr index h = record h {
    mem = store ptr (h.heads index) h.mem;
    heads = store index ptr h.heads;
  }

  unfoldable pub dealloc : ℕ → Layout → Heap W → Outcome (Heap W)
  dealloc ptr layout h =
      if ltb page_size layout.align
      then panic
      else if leb head_count (head_index layout)
      then ok (free_pages ptr layout h)
      else ok (free_block ptr (head_index layout) h)

  -- `Heap::new`
  abbrev pub new : W → (ℕ → ℕ) → Heap W
  new w mem = record {
    heads = λ index. 0;
    multi_page_list = 0;
    heap_size = 0;
    mem = mem;
    world = w;
  }

  -- The loop of `init_heap` with the heads that are left.
  unfoldable pub fill_heads : ℕ → ℕ → Heap W → Outcome (Heap W)
  fill_heads zero index h = ok h
  fill_heads (suc n) index h =
      refill_head index (min_block_size * 2 ^ index) h >>= λ h'. fill_heads n (index + 1) h'

  unfoldable pub init_heap : Heap W → Outcome (Heap W)
  init_heap h = fill_heads head_count 0 h
