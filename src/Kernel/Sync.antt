-- ===== src/Kernel/Sync.antt =====
-- src/kernel/sync: the one-time cell and the spin lock, as steps of callers that interleave freely, where each
-- atomic access is one step and all callers see one order of them; and the lock that an address picks.
pub mod OnceLock
pub mod SpinLock
pub mod AddrLock
