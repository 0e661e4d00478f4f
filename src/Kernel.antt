-- ===== src/Kernel.antt =====
-- src/kernel: the scheduler, interrupts, locks, time, consoles, the terminal, the shell and the flattened
-- device tree.
pub mod Sched
pub mod Irq
pub mod Sync
pub mod Time
pub mod Console
pub mod Terminal
pub mod Shell
pub mod Fdt
