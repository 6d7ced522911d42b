-- ===== src/Kernel/BootMem.antt =====
-- kernel/mem/boot/free_list.c: the boot allocator.
-- `Placement` is its arithmetic, `FreeList` its doubly linked list of regions over an explicit store.
pub mod Placement
pub mod FreeList
pub mod Dump
