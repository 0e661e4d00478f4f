-- ===== src/Mm/HeapAllocator/Tests.antt =====
-- A machine whose frames are counted, with two allocations.
use kruspix.Base.{
  ℕ, ◌+◌, ◌-◌, ◌*◌, ◌^◌, ◌≤◌, ◌≡◌, ◌≢◌, refl, true, [], ◌∷◌, arith, if◌then◌else◌, ◌==◌, Bool-cases,
  inl, inr, ==→eq,
}
use kruspix.Base.Outcome.{is_ok, result, result-ok}
use kruspix.Mm.HeapAllocator.{
  Layout, Heap, exponent_from, next_power_of_two, trailing_zeros, block_size, link_blocks,
  alloc_heap_page, refill_head, more_pages, alloc_pages, take_head, alloc_block, alloc, new,
  fill_heads, init_heap,
}
use kruspix.Base.Bits.{set_bit, clear_bit}
use kruspix.Arch.Mmu.{
  Mmu, descriptor, set_execute_never, set_accessed, set_shareability, set_mem_attr_index,
  new_descriptor, page_desc, alloc_page, match_descriptor, get_or_create_next_leve_table,
  store_page, map_in, map_page,
}
use kruspix.Arch.Mmu
use kruspix.Mm.HeapAllocator.Mapped.{ArePlaced, mapped-AreApart}
use kruspix.Mm.HeapAllocator.Backed.{take_frame}
use kruspix.Arch.Mmu.Step.{FrameSource, IsMmu}
use kruspix.Mm.HeapAllocator.Sizes.{IsLayout}
use kruspix.Mm.HeapAllocator.Apart.{AreApart}
use kruspix.Mm.HeapAllocator.Run.{Reachable, set_up, allocated}

abbrev next_frame : ℕ → ℕ × ℕ
next_frame n = (4096 * (n + 1), n + 1)

abbrev counting : FrameSource ℕ next_frame
counting = record {
  Taken = λ n p. p ≤ 4096 * n;
  left = λ n. 1000 - n;
  nonzero = λ n h e. omega (arith, e);
  on_frame = λ n h. omega arith;
  below = λ n h. omega (arith, h);
  unused = λ n h le. omega (arith, le);
  marked = λ n h. omega arith;
  kept = λ n p le. omega (arith, le);
  fewer = λ n. omega arith;
}

abbrev root_only : ℕ → ℕ
root_only t = if t == 4096 then 4 else 0

is_root : (t : ℕ) → root_only t ≢ 0 → t ≡ 4096
is_root t ne = elim (Bool-cases (t == 4096)) [
  | inl e ↦ ==→eq t 4096 e
  | inr e ↦ absurd ((rw e at ne) refl)
]

abbrev tables : Mmu ℕ
tables = record {
  kernel_table = 18446603336221200384;
  user_table = 0;
  tables = λ t i. 0;
  frames = 1;
}

tables-IsMmu : IsMmu counting tables
tables-IsMmu = record {
  tree = record {
    depth = root_only;
    path = λ t. 65535;
    root_depth = refl;
    root_path = refl;
    child = λ l t i e lt v. absurd (omega (arith, v));
  };
  taken = λ t ne. omega (arith, is_root t ne);
  low = λ t ne. omega (arith, is_root t ne);
}

abbrev small : Layout
small = record { size = 24; align = 8 }

abbrev large : Layout
large = record { size = 9000; align = 8 }

small-IsLayout : IsLayout small
small-IsLayout = record { log = 3; power = refl; small = omega arith; bounded = omega arith }

large-IsLayout : IsLayout large
large-IsLayout = record { log = 3; power = refl; small = omega arith; bounded = omega arith }

abbrev empty : Heap (Mmu ℕ)
empty = new (take_frame counting) (map_page next_frame) tables (λ a. 0)

abbrev started : Heap (Mmu ℕ)
started = result empty (init_heap (take_frame counting) (map_page next_frame) empty)

abbrev first : ℕ × Heap (Mmu ℕ)
first = result (0, empty) (alloc (take_frame counting) (map_page next_frame) small started)

abbrev second : ℕ × Heap (Mmu ℕ)
second = result (0, empty) (alloc (take_frame counting) (map_page next_frame) large first.1)

started-ok : is_ok (init_heap (take_frame counting) (map_page next_frame) empty) ≡ true
unfolding map_page map_in page_desc new_descriptor store_page get_or_create_next_leve_table
    descriptor match_descriptor Mmu.new alloc_page set_bit clear_bit set_execute_never set_accessed
    set_shareability set_mem_attr_index init_heap fill_heads refill_head alloc_heap_page
started-ok = refl

first-ok : is_ok (alloc (take_frame counting) (map_page next_frame) small started) ≡ true
unfolding map_page map_in page_desc new_descriptor store_page get_or_create_next_leve_table
    descriptor match_descriptor Mmu.new alloc_page set_bit clear_bit set_execute_never set_accessed
    set_shareability set_mem_attr_index init_heap fill_heads refill_head alloc_heap_page alloc
    alloc_block alloc_pages more_pages block_size next_power_of_two exponent_from trailing_zeros
    link_blocks take_head
first-ok = refl

second-ok : is_ok (alloc (take_frame counting) (map_page next_frame) large first.1) ≡ true
unfolding map_page map_in page_desc new_descriptor store_page get_or_create_next_leve_table
    descriptor match_descriptor Mmu.new alloc_page set_bit clear_bit set_execute_never set_accessed
    set_shareability set_mem_attr_index init_heap fill_heads refill_head alloc_heap_page alloc
    alloc_block alloc_pages more_pages block_size next_power_of_two exponent_from trailing_zeros
    link_blocks take_head
second-ok = refl

two_live-Reachable :
    Reachable
      (take_frame counting)
      (map_page next_frame)
      tables
      second.1
      ((second.0, large) ∷ (first.0, small) ∷ [])
two_live-Reachable =
    allocated first.1
      (allocated started
        (set_up (λ a. 0)
          (result-ok empty (init_heap (take_frame counting) (map_page next_frame) empty)
            started-ok))
        small-IsLayout
        (result-ok (0, empty) (alloc (take_frame counting) (map_page next_frame) small started)
          first-ok))
      large-IsLayout
      (result-ok (0, empty) (alloc (take_frame counting) (map_page next_frame) large first.1)
        second-ok)

-- 9 pages of blocks, and 3 for the large allocation
twelve_pages : second.1.heap_size ≡ 49152
unfolding map_page map_in page_desc new_descriptor store_page get_or_create_next_leve_table
    descriptor match_descriptor Mmu.new alloc_page set_bit clear_bit set_execute_never set_accessed
    set_shareability set_mem_attr_index init_heap fill_heads refill_head alloc_heap_page alloc
    alloc_block alloc_pages more_pages block_size next_power_of_two exponent_from trailing_zeros
    link_blocks take_head
twelve_pages = refl

mapped-AreApart_example :
    AreApart second.1.heap_size ((second.0, large) ∷ (first.0, small) ∷ [])
    × (second.1.heap_size ≤ 2 ^ 44)
    × ArePlaced counting second.1.heap_size second.1.world
mapped-AreApart_example =
    mapped-AreApart counting tables second.1 ((second.0, large) ∷ (first.0, small) ∷ [])
      tables-IsMmu two_live-Reachable (omega (arith, twelve_pages))
