-- ===== src/Kernel/FdtMem/Init.antt =====
-- `try_boot_free_region` of kernel/of/fdt_mem.c.
-- The memory that holds the tree is read through the `Machine`; the structs of the boot allocator
-- are in its store. `kernel_end` is the linker's symbol __kernel_end.
pub mod Reserved
pub mod Safety
pub mod Handover
pub mod Ready
use riscy_os.Prelude.{
  ℕ, zero, suc, Option, none, some, Ptr, null, ltb, leb, ◌==◌, if◌then◌else◌, add64, sub64, ◌>>=◌,
  Run, ok, no_return,
}
use riscy_os.Kernel.Endian.{Machine}
use riscy_os.Kernel.Error.{success}
use riscy_os.Kernel.Fdt.Header.{fdt_size}
use riscy_os.Kernel.Fdt.Reserve.{
  fdt_reserve_entry_begin, fdt_next_reserve_entry, fdt_reserve_entry_address,
  fdt_reserve_entry_size,
}
use riscy_os.Kernel.Fdt.Search.{Literals, fdt_find_node_by_device_type}
use riscy_os.Kernel.Fdt.Register.{fdt_node_num_register_blocks, fdt_node_get_register_block}
use riscy_os.Kernel.BootMem.FreeList.{Cmd, pure, ◌>>-◌, boot_free}
use riscy_os.Kernel.FdtMem.Trim.{trim_or_split_around_reserved}

-- What a trim leaves: nothing, one region, or two.
pub data Carved : Type 0 where
  gone : Carved
  one : Ptr → ℕ → Carved
  two : Ptr → ℕ → Ptr → ℕ → Carved

abbrev pub carved : Ptr → ℕ → Option (Ptr × ℕ) → Carved
carved start size (some (split_start, split_size)) = two start size split_start split_size
carved start size none = if size == 0 then gone else one start size

unfoldable pub carve : Ptr → ℕ → Ptr → ℕ → Carved
carve start size resv_start resv_size =
    let t = trim_or_split_around_reserved start size resv_start resv_size in
    carved t.start t.size t.split

-- The part of a region that is not below the end of the kernel.
unfoldable pub above_kernel : Ptr → Ptr → ℕ → Carved
above_kernel kernel_end start size =
    if size == 0
    then gone
    else if ltb start kernel_end
    then (if leb (add64 start size) kernel_end
        then gone
        else one kernel_end (sub64 (add64 start size) kernel_end))
    else one start size

-- The loop over the reserve entries, which ends at the first split.
unfoldable pub reserve_loop : Machine → ℕ → Ptr → Ptr → Ptr → ℕ → Run Carved
reserve_loop m zero fdt entry start size = no_return
reserve_loop m (suc rounds) fdt entry start size =
    let rest = reserve_loop m rounds fdt (fdt_next_reserve_entry m fdt entry) in
    let cut =
      carve start size (fdt_reserve_entry_address m entry) (fdt_reserve_entry_size m entry) in
    if entry == null
    then ok (one start size)
    else elim cut [ gone ↦ ok gone | one p n ↦ rest p n | two p n q k ↦ ok (two p n q k) ]

-- The tree itself is carved out last.
unfoldable pub without_fdt : Machine → Ptr → Carved → Carved
without_fdt m fdt gone = gone
without_fdt m fdt (one start size) = carve start size fdt (fdt_size m fdt)
without_fdt m fdt (two p n q k) = two p n q k

abbrev and_then : Carved → (Ptr → ℕ → Run Carved) → Run Carved
and_then gone f = ok gone
and_then (one p n) f = f p n
and_then (two p n q k) f = ok (two p n q k)

-- All that is done to a region before it is freed, or before it is taken up again as two.
unfoldable pub carve_all : Machine → ℕ → Ptr → Ptr → Ptr → ℕ → Run Carved
carve_all m fuel fdt kernel_end start size = do
  left ←
      and_then (above_kernel kernel_end start size)
        (λ p n. reserve_loop m fuel fdt (fdt_reserve_entry_begin m fdt) p n)
  ok (without_fdt m fdt left)

-- The bytes that were freed: `boot_free` may refuse.
unfoldable pub free_region : Ptr → ℕ → Cmd ℕ
free_region start size =
    boot_free start size >>- λ code. pure (elim code [ success ↦ size | _ ↦ 0 ])

abbrev pub dispatch : (Ptr → ℕ → Cmd ℕ) → Carved → Cmd ℕ
dispatch again gone = pure 0
dispatch again (one p n) = free_region p n
dispatch again (two p n q k) = again p n >>- λ a. again q k >>- λ b. pure (add64 a b)

-- `depth` bounds how often a region is split again. C leaves open which half is freed first; the
-- model takes the operands of `+` from left to right.
unfoldable pub try_boot_free_region : ℕ → Machine → ℕ → Ptr → Ptr → Ptr → ℕ → Cmd ℕ
try_boot_free_region zero m fuel fdt kernel_end start size s = no_return
try_boot_free_region (suc depth) m fuel fdt kernel_end start size s =
    let again = try_boot_free_region depth m fuel fdt kernel_end in
    carve_all m fuel fdt kernel_end start size >>= λ c. dispatch again c s
