-- ===== src/Kernel/Fdt/Reserve.antt =====
-- The memory reservation block: struct fdt_reserve_entry and its walk.
pub mod Steps
use riscy_os.Prelude.{ℕ, Bool, Ptr, null, ltb, leb, ◌==◌, if◌then◌else◌, ◌&&◌, ◌||◌, add64}
use riscy_os.Kernel.Endian.{Machine, load64, be64toh}
use riscy_os.Kernel.Fdt.Header.{off_mem_rsvmap, off_dt_struct}

pub fdt_memrsv_ptr_invalid : Machine → Ptr → Ptr → Bool
fdt_memrsv_ptr_invalid m fdt ptr =
    let start = add64 fdt (off_mem_rsvmap m fdt) in
    let end = add64 fdt (off_dt_struct m fdt) in ltb ptr start || leb end ptr

-- The fields `address` and `size` as they are stored.
abbrev raw_address : Machine → Ptr → ℕ
raw_address m entry = load64 m entry

abbrev raw_size : Machine → Ptr → ℕ
raw_size m entry = load64 m (add64 entry 8)

-- An entry of two zeros ends the block.
unfoldable pub entry_or_null : Machine → Ptr → Ptr
entry_or_null m entry = if raw_address m entry == 0 && raw_size m entry == 0 then null else entry

unfoldable pub fdt_reserve_entry_begin : Machine → Ptr → Ptr
fdt_reserve_entry_begin m fdt = entry_or_null m (add64 fdt (off_mem_rsvmap m fdt))

pub fdt_next_reserve_entry : Machine → Ptr → Ptr → Ptr
fdt_next_reserve_entry m fdt entry =
    let entry = add64 entry 16 in
    let final_byte_of_entry = add64 entry 15 in
    if fdt_memrsv_ptr_invalid m fdt final_byte_of_entry then null else entry_or_null m entry

pub fdt_reserve_entry_address : Machine → Ptr → Ptr
fdt_reserve_entry_address m entry = be64toh m (raw_address m entry)

pub fdt_reserve_entry_size : Machine → Ptr → ℕ
fdt_reserve_entry_size m entry = be64toh m (raw_size m entry)
