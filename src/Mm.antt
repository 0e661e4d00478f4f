-- ===== src/Mm.antt =====
-- src/mm: physical memory regions, the frame allocator and the heap allocator.
pub mod Region
pub mod FrameAllocator
pub mod AvailableMem
pub mod HeapAllocator
