-- ===== src/Kernel/Fdt/Reserve/Steps.antt =====
-- The walk over the reserve entries goes forward and stays below the structure block.
use riscy_os.Prelude.{◌+◌, ◌^◌, ◌<◌, ◌≡◌, ◌⊎◌, Ptr, null, arith}
use riscy_os.Kernel.Endian.{Machine}
use riscy_os.Kernel.Fdt.Reserve.{fdt_memrsv_ptr_invalid, entry_or_null, fdt_next_reserve_entry}
use riscy_os.Kernel.Fdt.Token.{struct_start}

-- The next entry is NULL, or the one 16 bytes on, which ends below the structure block.
pub fdt_next_reserve_entry-cases :
    (m : Machine) (fdt entry : Ptr)
    → entry + 31 < 2 ^ 64
    → (fdt_next_reserve_entry m fdt entry ≡ null)
      ⊎ ((fdt_next_reserve_entry m fdt entry ≡ entry + 16) × (entry + 31 < struct_start m fdt))
unfolding fdt_next_reserve_entry entry_or_null fdt_memrsv_ptr_invalid
fdt_next_reserve_entry-cases m fdt entry low = ground arith
