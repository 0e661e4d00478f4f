-- ===== src/Arch/Mmu/Tests.antt =====
-- One empty table and an allocator that counts.
use kruspix.Base.{
  some, ◌<◌, ℕ, ◌+◌, ◌-◌, ◌*◌, ◌≤◌, ◌≡◌, ◌≢◌, refl, true, if◌then◌else◌, ◌==◌, arith, Bool-cases,
  inl, inr, ==→eq,
}
use kruspix.Base.Outcome.{is_ok, result, result-ok}
use kruspix.Base.Bits.{set_bit, clear_bit}
use kruspix.Arch.Mmu.{
  Mmu, descriptor, set_execute_never, set_accessed, set_shareability, set_mem_attr_index,
  new_descriptor, page_desc, alloc_page, new, match_descriptor, get_or_create_next_leve_table,
  store_page, map_in, map_page,
}
use kruspix.Arch.Mmu.Step.{FrameSource, IsMmu}
use kruspix.Arch.Mmu.Walk.{translate}
use kruspix.Arch.Mmu.IoRegion.{
  io_peripherals_map_offset, map_pages, map_io_region, map_io_region-Maps,
}
use kruspix.Arch.Mmu.MapPage.{Maps, map_page-Maps}

abbrev next_frame : ℕ → ℕ × ℕ
next_frame n = (4096 * (n + 1), n + 1)

abbrev counting : FrameSource ℕ next_frame
counting = record {
  Taken = λ n p. p ≤ 4096 * n;
  left = λ n. 1000 - n;
  nonzero = λ n h e. omega (arith, e);
  on_frame = λ n h. omega arith;
  below = λ n h. omega (arith, h);
  unused = λ n h le. omega (arith, le);
  marked = λ n h. omega arith;
  kept = λ n p le. omega (arith, le);
  fewer = λ n. omega arith;
}

abbrev empty : Mmu ℕ
empty = record {
  kernel_table = 18446603336221200384;
  user_table = 0;
  tables = λ t i. 0;
  frames = 1;
}

abbrev root_only : ℕ → ℕ
root_only t = if t == 4096 then 4 else 0

is_root : (t : ℕ) → root_only t ≢ 0 → t ≡ 4096
is_root t ne = elim (Bool-cases (t == 4096)) [
  | inl e ↦ ==→eq t 4096 e
  | inr e ↦ absurd ((rw e at ne) refl)
]

empty-IsMmu : IsMmu counting empty
empty-IsMmu = record {
  tree = record {
    depth = root_only;
    path = λ t. 65535;
    root_depth = refl;
    root_path = refl;
    child = λ l t i e lt v. absurd (omega (arith, v));
  };
  taken = λ t ne. omega (arith, is_root t ne);
  low = λ t ne. omega (arith, is_root t ne);
}

-- the second page of the heap's region
abbrev va : ℕ
va = 18446638520593289216

abbrev mapped : Mmu ℕ
mapped = result empty (map_page next_frame va 40960 empty)

mapped-ok : is_ok (map_page next_frame va 40960 empty) ≡ true
unfolding map_page map_in page_desc new_descriptor store_page get_or_create_next_leve_table
    descriptor match_descriptor new alloc_page set_bit clear_bit set_execute_never set_accessed
    set_shareability set_mem_attr_index
mapped-ok = refl

map_page-Maps_example : Maps counting va 40960 empty mapped
map_page-Maps_example =
    map_page-Maps counting va 40960 empty mapped (omega arith) (omega arith) empty-IsMmu
      (omega arith) (result-ok empty (map_page next_frame va 40960 empty) mapped-ok)

-- 5000 bytes of a device, of which the first are at the end of a page
abbrev io_mapped : ℕ × Mmu ℕ
io_mapped = result (0, empty) (map_io_region next_frame 1059065800 5000 empty)

io_mapped-ok : is_ok (map_io_region next_frame 1059065800 5000 empty) ≡ true
unfolding map_io_region map_pages map_page map_in page_desc new_descriptor store_page
    get_or_create_next_leve_table descriptor match_descriptor new alloc_page set_bit clear_bit
    set_execute_never set_accessed set_shareability set_mem_attr_index
io_mapped-ok = refl

map_io_region-Maps_example :
    (io_mapped.0 ≡ io_peripherals_map_offset + 1059065800)
    × ((k : ℕ) → k < 5000 → translate io_mapped.1 (io_mapped.0 + k) ≡ some (1059065800 + k))
    × IsMmu counting io_mapped.1
map_io_region-Maps_example =
    map_io_region-Maps counting 1059065800 5000 empty io_mapped (omega arith) (omega arith)
      empty-IsMmu (omega arith)
      (result-ok (0, empty) (map_io_region next_frame 1059065800 5000 empty) io_mapped-ok)
