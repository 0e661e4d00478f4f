-- ===== src/Kernel/Sync/AddrLock.antt =====
-- `with_addr_lock` of src/kernel/sync/mod.rs and the hash of src/common/hash.rs: the lock of an address.
mod Tests
use kruspix.Base.{ℕ, ◌*◌, ◌+◌, ◌/◌, ◌%◌, ◌^◌, ◌<◌, ◌≡◌, ◌-◌, refl, arith}

abbrev pub golden_ratio_mul : ℕ
golden_ratio_mul = 11400714819323198485

unfoldable pub fibonacci_hash : ℕ → ℕ
fibonacci_hash address = address / 2 ^ 2 * golden_ratio_mul % 2 ^ 64

abbrev pub addr_lock_bits : ℕ
addr_lock_bits = 8

-- `1 << ADDR_LOCK_BITS`
abbrev pub addr_lock_count : ℕ
addr_lock_count = 2 ^ addr_lock_bits

-- The index of the lock in `ADDR_LOCKS`.
unfoldable pub addr_lock_index : ℕ → ℕ
addr_lock_index address = fibonacci_hash address / 2 ^ (64 - addr_lock_bits)

-- Every address has a lock of the table, and an address has the lock of the word of 4 bytes that it is in.
pub addr_lock_index-lt :
    (address : ℕ)
    → (addr_lock_index address < addr_lock_count)
      × (addr_lock_index address ≡ addr_lock_index (address / 4 * 4))
unfolding addr_lock_index fibonacci_hash
addr_lock_index-lt address = (omega arith, omega arith)
