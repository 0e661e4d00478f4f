-- ===== src/Drivers.antt =====
-- src/drivers: the parts of the drivers that decide more than what a register gets.
pub mod Display
