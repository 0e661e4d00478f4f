-- ===== src/Lib.antt =====
-- kruspix, a kernel for the Raspberry Pi (src/, Rust): the parts of it whose logic does not depend on the
-- hardware, as functions on explicit state.
--
-- How the parts meet. At boot the memory map of the device tree, less the reserved regions and the kernel,
-- gives the region of the frame allocator. The heap and the page tables take frames from it, and the heap
-- has its pages mapped by the page tables. The scheduler runs kernel tasks; the
-- timer's interrupt asks it for another task. Interrupt controllers register their lines, drivers register
-- handlers, and the dispatch calls these. The console and the terminal keep their text in ring arrays.
--
-- Files and code:
--   Base: shared names; lists and Boolean tests over machine numbers, outcomes with panics, bits of a word
--   Common/RingArray: src/common/ring_array.rs, `RingArray` and its iterator
--   Mm/Region: src/mm/memory.rs, `region_diff`
--   Mm/AvailableMem: src/mm/memory.rs, `calc_available_mem`
--   Mm/FrameAllocator: src/mm/frame_allocator.rs, `BitMapFrameAllocator`
--   Kernel/Sched: src/kernel/sched.rs, `Scheduler` and the functions around it
--   Kernel/Irq: src/kernel/irq.rs, domains, handlers and dispatch
--   Mm/HeapAllocator: src/mm/heap_allocator.rs, the free lists through memory; in Mapped on Arch/Mmu, where
--     4 frames for each page, its own and those of at most 3 new tables, are enough. Memory is by virtual
--     address; pages that lie at the null frame, when none is left, are not modelled. The region of
--     the heap has 2^44 bytes, HEAP_MAP_SIZE of src/mm/layout.rs, and map_page maps none behind it
--   Arch/Mmu: src/arch/arm64/mm/mmu/, the page tables and `map_page`; Walk is the walk of the hardware,
--     IoRegion is `map_io_region` of src/mm/mod.rs
--   Kernel/Sync: src/kernel/sync/once_lock.rs and spin_lock.rs, as interleavings of the callers' steps;
--     the index of `with_addr_lock` of mod.rs, with src/common/hash.rs
--   Kernel/Time: src/kernel/time.rs, resolution, conversion of ticks, and the choice of the system timer
--   Kernel/Console: src/kernel/console.rs
--   Kernel/Terminal: src/kernel/terminal.rs, the line discipline and `init`
--   Kernel/Shell: src/kernel/shell.rs; in Runs what each command is to do
--   Kernel/Fdt: src/kernel/devicetree/fdt/, fdt_header.rs, fdt_reserve_entry.rs, raw_prop.rs,
--     fdt_structure_block.rs, raw_node.rs and the lookups of mod.rs; in Block the iterators, in Block/Pieces
--     and Block/Forest what lies in memory, in Nodes the lookups,
--     in Nodes/Named the standard names, in Parse the table of memory regions
--   Drivers/Display/FbConsole: src/drivers/display/fb_console.rs
-- In each, a record holds the fields of the struct or the statics of the module, and a function of the
-- source's name takes the state and returns the new one. A child module `Tests` runs the code at a concrete
-- state.
--
-- Numbers and fuel. Sums and differences of `usize` and `u32` are those of a release build: they wrap, and
-- where a theorem needs that they do not, it says so. The loop of `calc_available_mem` gets 33 rounds, one
-- more than the table has entries; the search of `alloc_frame` one round for each word of the bitmap, as in
-- the source; an iteration over a ring array at least as many rounds as there are items; a read of the
-- flattened tree one for each byte, token or entry up to its end, as its theorems state. The powers of two
-- that a size of less than 2^63 is rounded to are searched in 64 rounds.
--
-- Not modelled: code that only reads or writes device registers, assembly, the contexts of tasks, the memory
-- behind references, the pixels of the screen, and, in the parts other than Kernel/Sync, the locks around
-- state: there a call is one step. Other drivers, the tree that is built from the flattened one, and the
-- set-up of the page tables are not modelled. Parameters stand for the allocator of frames below the heap
-- and the page tables, for what the DMA engine answers, for `sort_unstable_by`
-- (it permutes), for what an interrupt controller answers, for what `from_utf8` and `to_str` accept, for
-- what a driver's command, `system_restart` and `system_power_off` do, and for the nodes that the paths of
-- the chosen node lead to.
pub mod Arch
pub mod Base
pub mod Common
pub mod Mm
pub mod Kernel
pub mod Drivers
