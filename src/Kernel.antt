-- ===== src/Kernel.antt =====
-- The architecture-independent kernel: kernel/ and include/kernel/.
pub mod Error
pub mod EarlyOutput
pub mod Endian
pub mod Fdt
pub mod BootMem
pub mod FdtMem
pub mod Printk
pub mod World
