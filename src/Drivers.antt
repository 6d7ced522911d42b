-- ===== src/Drivers.antt =====
-- The drivers: drivers/.
pub mod Syscon
