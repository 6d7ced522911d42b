-- ===== src/Lib.antt =====
-- riscy-os: the kernel's early boot code, modelled and verified.
--
-- The program. arch/*/kernel.c starts on a flattened device tree that the firmware leaves in memory. It
-- registers a character output, checks the tree and prints it, finds the memory in it and hands what is
-- not reserved over to the boot allocator, finds the registers that power off and reboot, calls the
-- global constructors, and then shows the keys of the UART, some of which end the run. The parts and
-- their files:
--
-- Kernel.Error         include/kernel/error.h: the codes that all parts return.
-- Kernel.EarlyOutput   kernel/early_output.c: `register_early_putchar`, `unregister_early_putchar`,
--                      `early_putchar` and `early_puts` over a table of eight callbacks. The table is an
--                      argument and a result; a run of the output is the list of the calls made.
--                      Register and Output hold the proofs.
-- Kernel.Printk        `printf` of libc/src/stdio/printf.c in the kernel, where it is `printk` and its
--                      `puts` is `early_puts`. Laws holds the proofs.
-- Kernel.World         what the parts share once the kernel runs: the table of callbacks, the store of
--                      the boot allocator, the two actions of the syscon driver, the reads of the UART
--                      and the calls made so far (`World`); programs on it (`Prog`), with `printk` and
--                      `abort` of libc/src/stdlib/abort.c. Safe and Says carry what the proofs about
--                      programs share.
-- Libc.Printf          libc/src/stdio/printf.c: `pointer_print` and `formatted_print`, the latter as
--                      a state (`State`), the body of its loop (`body`) and the loop. Its output is the
--                      list of the strings handed to `puts`. `format` in Description describes the
--                      output without a buffer; Pointer, Body, Format, Buffer and Edges hold the
--                      proofs, and Format.Clean those about NUL in the text.
-- Libc.Text            libc/src/string/strlen.c, strcmp.c, memcmp.c. Laws holds the proofs.
-- Libc.Memory          libc/src/string/memcpy.c, memmove.c, memset.c, memset_explicit.c, as changes of a
--                      `Machine`. Laws holds the proofs.
-- Kernel.Endian        include/kernel/endian.h, and `Machine`: a byte order and the bytes of memory. Laws holds
--                      proofs, and Overloads the overloads for C++.
-- Kernel.Fdt           kernel/of/fdt.c and include/kernel/of/fdt.h, every function of it: Header (the
--                      checks of the header, the strings), Reserve (the reservation block), Token (the
--                      step from token to token), Node and Prop (the walks), Search (the lookups, the
--                      inherited property), Register (the `reg` property). Token.Progress and
--                      Token.Walk carry what the walks' proofs share. Token.Trace lists the tokens
--                      that the walks run over (`Trace`); against that list stand Token.After,
--                      Prop.First, Node.Seek, Node.Slots, Node.Ancestors, Node.Parents, Node.Children,
--                      Search.First, Search.Every, Search.DeviceType, Search.Phandle and
--                      Search.Inherited.
-- Kernel.BootMem       kernel/mem/boot/free_list.c: Placement (where an allocation goes in a region)
--                      and FreeList (the list of free regions and its surgery, as writes to a store of
--                      structs by address), and Dump (`boot_mem_dump`). Placement.Bounds, FreeList.Scan,
--                      FreeList.Placed, FreeList.Free and FreeList.Merge hold proofs about one call.
--                      Against a list of regions ordered by address, FreeList.Ordered says what such a list is, Splice
--                      and Relink replace or drop a region in the linked store, Runs computes both
--                      placements, Refines relates the store to the list, and Allocate
--                      has the theorems on one call and on sequences of calls.
-- Kernel.FdtMem        kernel/of/fdt_mem.c: Trim (`trim_or_split_around_reserved`), Init
--                      (`try_boot_free_region`) and Memory (`fdt_boot_mem_init`), which read the tree
--                      with Kernel.Fdt and give regions to `boot_free` of Kernel.BootMem.
--                      Trim.Coverage, Init.Reserved, Init.Safety and Init.Handover hold proofs about one
--                      region, Memory.Visits and Memory.Rounds those about the loops over the
--                      nodes and their blocks, Init.Ready about a region freed into an empty list, and
--                      Memory.Printed and Memory.OneBlock about a tree with
--                      one block of memory, from the tree to the blocks that `boot_alloc` gives.
-- Drivers.Syscon       drivers/syscon/syscon.c: the search for the register that powers off or reboots,
--                      over Kernel.Fdt, and the word that is written to it.
-- Arch                 arch/riscv/kernel.c and arch/arm64/kernel.c: Console (the loop over the UART, with
--                      `syscon_reboot` and `syscon_shutdown`) and Start (`kmain` of both, and the rest
--                      of the files). Console.Safe, Start.Quiet and Start.Safe hold the proofs about
--                      assertions and resets, Console.Echo, Console.Answer and Console.Typed those about
--                      the loop on keys that are held, and Start.Invalid those about a tree that is
--                      refused.
-- Prelude              the tests, lists, words, bits and integers that the files share.
-- Examples             every result below that has hypotheses, at a concrete input.
--
-- Conventions. The kernel is built for 64 bits: `size_t`, pointers and `uintptr_t` are natural numbers
-- below 2^64, and their sums and differences wrap (`add64`, `sub64`); NULL is 0. A 32-bit sum wraps at
-- 2^32 where the source computes it so. `ssize_t` and `word_t` are integers. `Run` (Prelude.Fallible) is
-- what a computation may do: return, not return (`no_return`: its fuel ran out, or an assertion failed),
-- or do what C leaves undefined (`undefined`). Memory that the tree and the C strings lie in is the
-- `Machine`, which only Libc.Memory writes; the structs of the boot allocator are the `Store`.
--
-- Fuel. A function with a loop over the tree takes `fuel`, which bounds the rounds of each of its loops and
-- of `strlen` and `strcmp`. `IsBlob` asks for a NUL byte at an address `top` behind the structure block,
-- and for at least as much fuel as there are bytes from the start of the structure block to `top`:
-- every step of a walk goes forward by at least four bytes, and every name ends at `top` at the latest,
-- so this fuel suffices, and the theorems on the walks say that they return. `Suffice` asks for the
-- rounds of the walk over the reserve entries, one for each 16 bytes up to the structure block. The search by phandle
-- has no such bound, and it is shown where it does not end. The loop of `boot_alloc` takes `rounds`,
-- more than the list has regions. The `depth` of `try_boot_free_region` exceeds the size of the region: each
-- half of a split is smaller than the region. The `rounds` of the loop over the UART exceed the number of
-- keys. `boot_free`, the output table, the printing and the trims run on no
-- fuel.
--
-- Parameters. The addresses of the string literals are the linker's choice and come in as `Literals`
-- and `Names`, the end of the kernel's image as `kernel_end`; `Board` gathers them for the start, with
-- the arrays of constructors and destructors, which are programs. What a callback does with a character, and
-- what the hardware does with a register write, is outside: the calls and the write are results. The one
-- callback that the start registers stores its character in the UART's register, so that what it hears
-- is what the UART shows; reads of that register come from the list `input`.
--
-- Not modelled. The entry code, which is assembly; `printf_puts` of the build outside of the kernel,
-- which is a stub; the headers of libc, which declare types and prototypes; the build files, the linker scripts, the
-- configuration and the device tree source.
pub mod Prelude
pub mod Kernel
pub mod Libc
pub mod Drivers
pub mod Arch
pub mod Examples
