-- ===== src/Kernel/Fdt.antt =====
-- kernel/of/fdt.c and include/kernel/of/fdt.h: reading a flattened device tree where it lies.
-- A pointer is an address, NULL is 0, and pointer arithmetic wraps at 64 bits. Every function reads
-- the memory of a `Machine` and writes nothing. Its loops, and those of the string functions that
-- it calls, run on the fuel that it is given.
pub mod Header
pub mod Reserve
pub mod Token
pub mod Node
pub mod Prop
pub mod Search
pub mod Register
