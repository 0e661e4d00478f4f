-- ===== src/Common.antt =====
-- src/common: the ring array and the hash that picks an address lock.
pub mod RingArray
