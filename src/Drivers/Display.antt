-- ===== src/Drivers/Display.antt =====
-- src/drivers/display
pub mod FbConsole
