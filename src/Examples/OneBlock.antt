-- ===== src/Examples/OneBlock.antt =====
-- The tree of Nested, whose node "m" has one block of memory, at the start of the boot allocator.
use riscy_os.Prelude.{ℕ, ◌≡◌, refl, true, false, List, [], ◌∷◌, inl, null, arith, ok, set}
use riscy_os.Kernel.Endian.{
  load16, join16, first_byte16, sys_little_endian, be32toh, be64toh, bswap64, load64, bswap32,
  bswap16, load32,
}
use riscy_os.Prelude.Int.{◌+ℤ◌, ◌-ℤ◌}
use riscy_os.Examples.Bytes.{byte_of, base}
use riscy_os.Examples.Nested.{machine, literals, all_items, all_items-Trace, memory_text, start_at}
use riscy_os.Prelude.{◌↔◌, ◌++◌}
use riscy_os.Libc.Text.Laws.{strlen_lem}
use riscy_os.Examples.Nested.{memory_at}
use riscy_os.Kernel.EarlyOutput.{initial_array}
use riscy_os.Kernel.EarlyOutput.Output.{heard}
use riscy_os.Kernel.World.{World, done, text_at, ◌>>=◌}
use riscy_os.Drivers.Syscon.{initial_action}
use mathlib.Core.Path.{subst}
use riscy_os.Kernel.BootMem.Placement.{
  consider, region_size_alloc_after, region_size_alloc_before, to_ssize, one_shl,
  alloc_after_unalignment, alloc_before_unalignment,
}
use riscy_os.Kernel.BootMem.FreeList.Runs.{after_store}
use riscy_os.Kernel.BootMem.FreeList.Ordered.{InList}
use riscy_os.Kernel.BootMem.FreeList.Allocate.{Calls, none_yet, given, Disjoint}
use riscy_os.Kernel.BootMem.FreeList.{
  Store, write, store, set_head, load, boot_free, boot_alloc, alloc_loop, alloc_best, alloc_after,
}
use riscy_os.Kernel.Fdt.Reserve.{fdt_reserve_entry_begin, entry_or_null}
use riscy_os.Kernel.FdtMem.Trim.{trim_or_split_around_reserved}
use riscy_os.Kernel.FdtMem.Trim.Coverage.{Within}
use riscy_os.Kernel.FdtMem.Init.{
  one, try_boot_free_region, free_region, carve_all, above_kernel, reserve_loop, without_fdt, carve,
}
use riscy_os.Kernel.FdtMem.Init.Reserved.{Visits-ne}
use riscy_os.Kernel.FdtMem.Init.Handover.{IsUsable}
use riscy_os.Kernel.FdtMem.Init.Ready.{LeavesOne, Ready}
use riscy_os.Kernel.FdtMem.Memory.{fdt_boot_mem_init}
use riscy_os.Kernel.FdtMem.Memory.Printed.{block_line, report_text}
use riscy_os.Kernel.FdtMem.Memory.Rounds.{
  MemoryNode, LookedUp, run_rounds, fdt_boot_mem_init-run_rounds,
}
use riscy_os.Kernel.FdtMem.Memory.Visits.{report}
use riscy_os.Kernel.FdtMem.Memory.OneBlock.{
  HasOneBlock, fdt_boot_mem_init-Ready, fdt_boot_mem_init-blocks,
}
use riscy_os.Kernel.Fdt.Header.{field, fdt_size, fdt_string_from_offset}
use riscy_os.Libc.Text.{strcmp, strcmp_loop, strlen, strlen_loop, memcmp, memcmp_loop}
use riscy_os.Kernel.Fdt.Token.{
  fdt_next_token, skip_token, fdt_struct_ptr_invalid, fdt_token_begin, fdt_prop_val_len, cells_of,
}
use riscy_os.Kernel.Fdt.Node.{
  fdt_node_begin, node_begin_loop, fdt_next_node, next_node_loop, max_depth_loop, fdt_max_depth,
  store_branch, load_branch, branch_loop, copy_parents, fdt_node_get_parents,
}
use riscy_os.Kernel.Fdt.Prop.{
  fdt_get_prop_by_name, fdt_node_prop_begin, fdt_node_next_prop, prop_loop, by_name_loop,
  name_matches, fdt_prop_name, fdt_prop_name_offset, fdt_prop_num_cells, fdt_prop_val,
  fdt_prop_get_cell,
}
use riscy_os.Kernel.Fdt.Search.{
  device_type_is, fdt_node_name, parents_loop, fdt_node_get_inherited_prop,
}
use riscy_os.Kernel.Fdt.Search.Every.{over, pass, fail}
use riscy_os.Kernel.Fdt.Register.{
  cell_or, fdt_node_get_address_cells, fdt_node_get_size_cells, num_blocks,
  fdt_node_num_register_blocks, read_cells, register_block, fdt_node_get_register_block,
}

size_at : fdt_size machine base ≡ 184
unfolding fdt_size field load32 load16 join16 be32toh sys_little_endian first_byte16 bswap32 bswap16
    byte_of
size_at = refl

memory_type :
    (device_type_is literals machine 128 base 4280 6 4152 ≡ ok false)
    × (device_type_is literals machine 128 base 4280 6 4176 ≡ ok false)
    × (device_type_is literals machine 128 base 4280 6 4184 ≡ ok false)
    × (device_type_is literals machine 128 base 4280 6 4200 ≡ ok true)
unfolding byte_of load16 join16 first_byte16 sys_little_endian be32toh bswap32 bswap16 load32 field
    fdt_get_prop_by_name fdt_node_prop_begin fdt_node_next_prop prop_loop by_name_loop name_matches
    fdt_prop_name fdt_prop_name_offset fdt_next_token skip_token fdt_struct_ptr_invalid
    fdt_prop_val_len cells_of fdt_string_from_offset strcmp strcmp_loop strlen strlen_loop memcmp
    memcmp_loop device_type_is fdt_prop_val
memory_type = (refl, refl, refl, refl)

registers_at :
    (fdt_node_num_register_blocks literals machine 128 base 4200 ≡ ok 1)
    × (fdt_node_get_register_block literals machine 128 base 4200 0 ≡ ok (0x10000, 0x8000))
unfolding byte_of load16 join16 first_byte16 sys_little_endian be32toh be64toh bswap64 bswap32
    bswap16 load32 load64 ◌+ℤ◌ ◌-ℤ◌ field fdt_get_prop_by_name fdt_node_prop_begin
    fdt_node_next_prop prop_loop by_name_loop name_matches fdt_prop_name fdt_prop_name_offset
    fdt_next_token skip_token fdt_struct_ptr_invalid fdt_prop_val_len cells_of
    fdt_string_from_offset strcmp strcmp_loop strlen strlen_loop fdt_prop_val fdt_prop_num_cells
    fdt_prop_get_cell fdt_node_begin node_begin_loop fdt_token_begin fdt_next_node next_node_loop
    max_depth_loop fdt_max_depth store_branch load_branch branch_loop copy_parents
    fdt_node_get_parents parents_loop fdt_node_get_inherited_prop cell_or fdt_node_get_address_cells
    fdt_node_get_size_cells num_blocks fdt_node_num_register_blocks read_cells register_block
    fdt_node_get_register_block
registers_at = (refl, refl)

name_at : text_at machine 128 (fdt_node_name literals machine 4200) ≡ ok (b'm' ∷ [])
unfolding byte_of text_at fdt_node_name
name_at = refl

no_entries : fdt_reserve_entry_begin machine base ≡ null
unfolding fdt_reserve_entry_begin entry_or_null field load64 load32 load16 join16 be32toh
    sys_little_endian first_byte16 bswap32 bswap16 byte_of
no_entries = refl

-- The kernel ends in the block.
kernel_in_block : carve_all machine 128 base 0x11000 0x10000 0x8000 ≡ ok (one 0x11000 0x7000)
unfolding fdt_reserve_entry_begin entry_or_null fdt_size field load64 load32 load16 join16 be32toh
    sys_little_endian first_byte16 bswap32 bswap16 byte_of carve_all above_kernel reserve_loop
    without_fdt carve trim_or_split_around_reserved
kernel_in_block = refl

leaves_one : LeavesOne machine 128 base 0x11000 0x10000 0x8000 0x11000 0x7000
leaves_one = record {
  carved = kernel_in_block;
  above_null = omega arith;
  low = omega arith;
  blob_fits = omega (arith, size_at);
  blob_low = omega (arith, start_at);
  entries = λ e v. absurd (Visits-ne v no_entries);
  enough = (omega arith, inl no_entries);
}

has_one_block :
    HasOneBlock literals machine 128 4 base 0x11000 4280 4200 0x11000 0x7000 0x10000 0x8000
      (b'm' ∷ [])
has_one_block =
    let (root, a, b, m) = memory_type in
    record {
      len = 6;
      measured =
          strlen_lem machine 128 4280 memory_text (omega arith) (omega arith) (omega arith)
            memory_at;
      items = all_items;
      short = omega arith;
      trace = all_items-Trace;
      only = fail root (fail a (fail b (pass m over)));
      one_block = registers_at.0;
      block = registers_at.1;
      named = name_at;
      text = (omega arith, tt);
    }

abbrev memory_node : MemoryNode
memory_node = record { count = 1; address = 0x10000; size = 0x8000; name = b'm' ∷ [] }

memory_node-LookedUp : LookedUp literals machine 128 5 base 0x11000 4280 4200 memory_node
memory_node-LookedUp = record {
  count_at = registers_at.0;
  block_at = registers_at.1;
  name_at = name_at;
}

fdt_boot_mem_init-run_rounds_example :
    fdt_boot_mem_init literals machine 128 5 base 0x11000 4280 ≡ (
      run_rounds literals machine 128 5 base 0x11000 4280
        ((0, memory_node) ∷ [])
        (record { seen = 0; freed = 0 })
      >>= report)
fdt_boot_mem_init-run_rounds_example =
    let (root, a, b, m) = memory_type in
    fdt_boot_mem_init-run_rounds literals machine 128 5 base 0x11000 4280 6
      (strlen_lem machine 128 4280 memory_text (omega arith) (omega arith) (omega arith) memory_at)
      all_items (4200 ∷ []) (memory_node ∷ []) (omega arith) all_items-Trace
      (fail root (fail a (fail b (pass m over)))) (memory_node-LookedUp, tt)

-- The callback at 64 is the only one, and no memory is free.
abbrev first_world : World
first_world = record {
  array = set initial_array 7 64;
  store = record { region = λ p. record { next = null; prev = null; size = 0 }; head = null };
  reboot = initial_action;
  shutdown = initial_action;
  input = [];
  output = [];
}

fdt_boot_mem_init-Ready_example :
    (freed : ℕ) × (t : Store) × (calls : List (ℕ × ℕ)) × (fdt_boot_mem_init literals machine 128 5
        base 0x11000 4280 first_world
      ≡ done tt (record first_world { store = t; output = calls }))
    × (try_boot_free_region 5 machine 128 base 0x11000 0x10000 0x8000 first_world.store
        ≡ ok (freed, t))
    × (heard 64 calls ≡ block_line (b'm' ∷ []) 0x10000 0x8000 ++ report_text 0x8000 freed)
    × Ready 0x11000 0x7000 freed t
    × ((a : ℕ)
        → Within a 0x11000 0x7000 ↔ (Within a 0x10000 0x8000 × IsUsable machine 128 base 0x11000 a))
fdt_boot_mem_init-Ready_example =
    fdt_boot_mem_init-Ready literals machine 128 4 base 0x11000 4280 4200 0x11000 0x7000 0x10000
      0x8000 (b'm' ∷ []) has_one_block leaves_one 64 (omega arith) first_world refl refl

abbrev freed_store : Store
freed_store =
    record (write first_world.store 0x11000 (record { next = null; prev = null; size = 0x7000 })) {
      head = 0x11000;
    }

freed_at :
    try_boot_free_region 5 machine 128 base 0x11000 0x10000 0x8000 first_world.store
    ≡ ok (0x7000, freed_store)
unfolding fdt_reserve_entry_begin entry_or_null fdt_size field load64 load32 load16 join16 be32toh
    sys_little_endian first_byte16 bswap32 bswap16 byte_of carve_all above_kernel reserve_loop
    without_fdt carve trim_or_split_around_reserved try_boot_free_region free_region boot_free store
    set_head
freed_at = refl

-- The run of the initialisation, with the calls of the callback left open.
init_at :
    (calls : List (ℕ × ℕ)) × (fdt_boot_mem_init literals machine 128 5 base 0x11000 4280 first_world
      ≡ done tt (record first_world { store = freed_store; output = calls }))
init_at =
    let (freed, t, calls, run, handed, hears, ready, exact) =
      fdt_boot_mem_init-Ready literals machine 128 4 base 0x11000 4280 4200 0x11000 0x7000 0x10000
        0x8000 (b'm' ∷ []) has_one_block leaves_one 64 (omega arith) first_world refl refl in
    let given_store = freed_at in
    let same : t ≡ freed_store = cc in
    (
      calls,
      subst
          (λ x.
            fdt_boot_mem_init literals machine 128 5 base 0x11000 4280 first_world
            ≡ done tt (record first_world { store = x; output = calls }))
          same run,
    )

first_call :
    boot_alloc 2 0x1000 4 freed_store ≡ ok (0x17000, after_store freed_store 0x11000 0x6000)
unfolding boot_alloc alloc_loop consider region_size_alloc_after region_size_alloc_before to_ssize
    one_shl alloc_after_unalignment alloc_before_unalignment alloc_best alloc_after load store ◌-ℤ◌
first_call = refl

one_call : Calls 2 freed_store ((0x17000, 0x1000) ∷ []) (after_store freed_store 0x11000 0x6000)
one_call = given 0x1000 4 0x17000 (omega arith) (omega arith) none_yet first_call (omega arith)

fdt_boot_mem_init-blocks_example :
    ((a : ℕ)
      → InList a ((0x17000, 0x1000) ∷ [])
      → Within a 0x10000 0x8000 × IsUsable machine 128 base 0x11000 a)
    × Disjoint ((0x17000, 0x1000) ∷ [])
fdt_boot_mem_init-blocks_example =
    fdt_boot_mem_init-blocks literals machine 128 4 base 0x11000 4280 4200 0x11000 0x7000 0x10000
      0x8000 (b'm' ∷ []) has_one_block leaves_one 64 (omega arith) first_world
      (record first_world { store = freed_store; output = init_at.0 }) 2 ((0x17000, 0x1000) ∷ [])
      (after_store freed_store 0x11000 0x6000) refl refl init_at.1 (omega arith) one_call
