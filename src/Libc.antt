-- ===== src/Libc.antt =====
-- The kernel's C library: libc/.
pub mod Printf
pub mod Text
pub mod Memory
