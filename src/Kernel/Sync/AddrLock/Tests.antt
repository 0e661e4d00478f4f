-- ===== src/Kernel/Sync/AddrLock/Tests.antt =====
-- The lock of an address of the kernel.
use kruspix.Base.{◌≡◌, refl}
use kruspix.Kernel.Sync.AddrLock.{addr_lock_index, fibonacci_hash}

of_4096 : addr_lock_index 4096 ≡ 221
unfolding addr_lock_index fibonacci_hash
of_4096 = refl
