-- ===== src/Kernel/FdtMem.antt =====
-- kernel/of/fdt_mem.c: handing the memory of the tree over to the boot allocator.
pub mod Trim
pub mod Init
pub mod Memory
