-- ===== src/Arch/Mmu.antt =====
-- src/arch/arm64/mm/mmu: page tables of four levels, with src/mm/mod.rs for the two ways between physical
-- and linear addresses. A table is a function from an index to a descriptor and stands under its physical
-- address, for the kernel and the hardware see the same memory. Barriers and invalidation have no model.
pub mod Bits
pub mod Walk
pub mod Tree
pub mod Step
pub mod MapPage
pub mod IoRegion
mod Tests
use kruspix.Base.{
  ℕ, zero, suc, ◌+◌, ◌-◌, ◌*◌, ◌/◌, ◌%◌, ◌^◌, Bool, true, false, if◌then◌else◌, leb, ltb, ◌==◌,
  add64, Option, some, none,
}
use kruspix.Base.Bits.{set_bit, clear_bit}
use kruspix.Base.Outcome.{Outcome, ok, panic, ◌>>=◌}

abbrev pub linear_map_offset : ℕ
linear_map_offset = 18446603336221196288

abbrev pub kernel_offset : ℕ
kernel_offset = 18446462598732840960

abbrev pub virt_to_phys : ℕ → ℕ
virt_to_phys va = if leb linear_map_offset va then va - linear_map_offset else va

abbrev pub phys_to_virt : ℕ → ℕ
phys_to_virt pa = add64 pa linear_map_offset

abbrev pub level_0_index : ℕ → ℕ
level_0_index va = va / 2 ^ 39 % 512

abbrev pub level_1_index : ℕ → ℕ
level_1_index va = va / 2 ^ 30 % 512

abbrev pub level_2_index : ℕ → ℕ
level_2_index va = va / 2 ^ 21 % 512

abbrev pub level_3_index : ℕ → ℕ
level_3_index va = va / 2 ^ 12 % 512

abbrev pub level_0_linear_index : ℕ
level_0_linear_index = 256

abbrev pub level_0_heap_index : ℕ
level_0_heap_index = 320

abbrev pub level_0_io_index : ℕ
level_0_io_index = 416

pub data VirtualAddressSpace : Type 0 where
  user : VirtualAddressSpace
  kernel : VirtualAddressSpace

abbrev pub address_space : ℕ → VirtualAddressSpace
address_space va = if leb kernel_offset va then kernel else user

pub data TranslationLevel : Type 0 where
  level_0 : TranslationLevel
  level_1 : TranslationLevel
  level_2 : TranslationLevel
  level_3 : TranslationLevel

pub data Descriptor : Type 0 where
  table : Descriptor
  block : Descriptor
  page : Descriptor
  invalid : Descriptor

abbrev pub of_table : TranslationLevel → Outcome Descriptor
of_table level_0 = ok table
of_table level_1 = ok table
of_table level_2 = ok table
of_table level_3 = ok page

abbrev pub of_block : TranslationLevel → Outcome Descriptor
of_block level_0 = panic
of_block level_1 = ok block
of_block level_2 = ok block
of_block level_3 = panic

-- `Descriptor::from`
unfoldable pub descriptor : ℕ → TranslationLevel → Outcome Descriptor
descriptor value level =
    if value % 4 == 3 then of_table level else if value % 4 == 1 then of_block level else ok invalid

pub data ShareabilityAttribute : Type 0 where
  non_shareable : ShareabilityAttribute
  outer_shareable : ShareabilityAttribute
  inner_shareable : ShareabilityAttribute

pub data MemoryRegionAttrIndex : Type 0 where
  device : MemoryRegionAttrIndex
  normal_non_cacheable : MemoryRegionAttrIndex
  normal_write_back : MemoryRegionAttrIndex

unfoldable pub set_execute_never : Bool → ℕ → ℕ
set_execute_never xn d = if xn then set_bit d 54 else clear_bit d 54

unfoldable pub set_accessed : Bool → ℕ → ℕ
set_accessed accessed d = if accessed then set_bit d 10 else clear_bit d 10

unfoldable pub set_shareability : ShareabilityAttribute → ℕ → ℕ
set_shareability non_shareable d = clear_bit (clear_bit d 8) 9
set_shareability outer_shareable d = set_bit (clear_bit (clear_bit d 8) 9) 9
set_shareability inner_shareable d = set_bit (set_bit (clear_bit (clear_bit d 8) 9) 8) 9

unfoldable pub set_mem_attr_index : MemoryRegionAttrIndex → ℕ → ℕ
set_mem_attr_index device d = clear_bit (clear_bit (clear_bit d 2) 3) 4
set_mem_attr_index normal_non_cacheable d = set_bit (clear_bit (clear_bit (clear_bit d 2) 3) 4) 2
set_mem_attr_index normal_write_back d = set_bit (clear_bit (clear_bit (clear_bit d 2) 3) 4) 3

-- `PageDescriptor::new` and `TableDescriptor::new`, which are the same
unfoldable pub new_descriptor : ℕ → Outcome ℕ
new_descriptor output_addr =
    if output_addr % 4096 == 0 then ok (set_bit (set_bit output_addr 0) 1) else panic

-- `BlockDescriptor::new_level_1`
unfoldable pub new_level_1 : ℕ → Outcome ℕ
new_level_1 output_addr = if output_addr % 2 ^ 30 == 0 then ok (set_bit output_addr 0) else panic

-- The bits of `ADDR_MASK`.
abbrev pub masked : ℕ → ℕ
masked d = d / 4096 % 2 ^ 36 * 4096

abbrev pub next_level_table : ℕ → ℕ
next_level_table d = phys_to_virt (masked d)

abbrev pub page_attributes : MemoryRegionAttrIndex → ℕ → ℕ
page_attributes index d =
    set_mem_attr_index index
      (set_execute_never true (set_accessed true (set_shareability inner_shareable d)))

-- The descriptor that `map_page` stores, by the region.
unfoldable pub page_desc : ℕ → ℕ → Outcome ℕ
page_desc va pa =
    if level_0_index va == level_0_linear_index
    then panic
    else if level_0_index va == level_0_heap_index
    then (new_descriptor pa >>= λ d. ok (page_attributes normal_write_back d))
    else if level_0_index va == level_0_io_index
    then (new_descriptor pa >>= λ d. ok (page_attributes device d))
    else panic

abbrev pub Tables : Type 0
Tables = ℕ → ℕ → ℕ

-- The statics `KERNEL_TABLE` and `USER_TABLE`, the memory of the tables, and what holds the frames.
pub record Mmu (W : Type 0) : Type 0 where
  pub kernel_table : ℕ
  pub user_table : ℕ
  pub tables : Tables
  pub frames : W

-- `PageTable::get_descriptor`
abbrev pub get_descriptor : ℕ → ℕ → Tables → ℕ
get_descriptor ptr index tables = tables (virt_to_phys ptr) index

-- `PageTable::set_descriptor`, at the physical address
abbrev pub set_at : ℕ → ℕ → ℕ → Tables → Tables
set_at address index desc tables t i =
    if t == address then (if i == index then desc else tables t i) else tables t i

abbrev pub set_descriptor : ℕ → ℕ → ℕ → Tables → Tables
set_descriptor ptr index desc tables = set_at (virt_to_phys ptr) index desc tables

-- every descriptor of a table
abbrev pub fill_table : ℕ → (ℕ → ℕ) → Tables → Tables
fill_table address value tables t i = if t == address then value i else tables t i

module _ {W : Type 0} (alloc_frame : W → ℕ × W) where
  unfoldable pub alloc_page : W → ℕ × W
  alloc_page w =
      let (frame, w') = alloc_frame w in (if frame == 0 then 0 else phys_to_virt frame, w')

  -- `PageTable::new`
  unfoldable pub new : Mmu W → ℕ × Mmu W
  new m =
      let (ptr, w) = alloc_page m.frames in
      (ptr, record m { tables = fill_table (virt_to_phys ptr) (λ i. 0) m.tables; frames = w })

  unfoldable pub match_descriptor : Descriptor → ℕ → ℕ → Mmu W → Outcome (ℕ × Mmu W)
  match_descriptor table ptr index m = ok (next_level_table (get_descriptor ptr index m.tables), m)
  match_descriptor block ptr index m = panic
  match_descriptor page ptr index m = panic
  match_descriptor invalid ptr index m =
      let (new_table, m') = new m in
      new_descriptor (virt_to_phys new_table) >>= λ d.
      let tables = set_descriptor ptr index d m'.tables in
      ok (next_level_table (get_descriptor ptr index tables), record m' { tables = tables })

  unfoldable pub get_or_create_next_leve_table :
      ℕ → ℕ → TranslationLevel → Mmu W → Outcome (ℕ × Mmu W)
  get_or_create_next_leve_table ptr index level m =
      descriptor (get_descriptor ptr index m.tables) level >>= λ d. match_descriptor d ptr index m

  -- `map_page` once it has the descriptor
  unfoldable pub store_page : ℕ → ℕ → Mmu W → Outcome (Mmu W)
  store_page va desc m =
      get_or_create_next_leve_table m.kernel_table (level_0_index va) level_0 m >>= λ r1.
      get_or_create_next_leve_table r1.0 (level_1_index va) level_1 r1.1 >>= λ r2.
      get_or_create_next_leve_table r2.0 (level_2_index va) level_2 r2.1 >>= λ r3.
      ok (record r3.1 { tables = set_descriptor r3.0 (level_3_index va) desc r3.1.tables })

  unfoldable pub map_in : VirtualAddressSpace → ℕ → ℕ → Mmu W → Outcome (Mmu W)
  map_in user va pa m = panic
  map_in kernel va pa m = page_desc va pa >>= λ d. store_page va d m

  unfoldable pub map_page : ℕ → ℕ → Mmu W → Outcome (Mmu W)
  map_page va pa m = map_in (address_space va) va pa m
