-- ===== src/Arch.antt =====
-- The part of the kernel for arm64, src/arch/arm64.
pub mod Mmu
