-- ===== src/Kernel/Fdt/Header.antt =====
-- The header of the tree: struct fdt, `fdt_verify`, `fdt_size`, `fdt_string_from_offset`.
pub mod Laws
use riscy_os.Prelude.{ℕ, not, Ptr, null, ltb, leb, ◌==◌, if◌then◌else◌, ◌||◌, add64}
use riscy_os.Kernel.Endian.{Machine, load32, be32toh}

-- A big-endian field of 32 bits, `offset` bytes into a packed struct.
unfoldable pub field : Machine → Ptr → ℕ → ℕ
field m p offset = be32toh m (load32 m (add64 p offset))

-- struct fdt
abbrev pub magic : Machine → Ptr → ℕ
magic m fdt = field m fdt 0

abbrev pub totalsize : Machine → Ptr → ℕ
totalsize m fdt = field m fdt 4

abbrev pub off_dt_struct : Machine → Ptr → ℕ
off_dt_struct m fdt = field m fdt 8

abbrev pub off_dt_strings : Machine → Ptr → ℕ
off_dt_strings m fdt = field m fdt 12

abbrev pub off_mem_rsvmap : Machine → Ptr → ℕ
off_mem_rsvmap m fdt = field m fdt 16

abbrev pub last_comp_version : Machine → Ptr → ℕ
last_comp_version m fdt = field m fdt 24

abbrev pub size_dt_strings : Machine → Ptr → ℕ
size_dt_strings m fdt = field m fdt 32

abbrev pub size_dt_struct : Machine → Ptr → ℕ
size_dt_struct m fdt = field m fdt 36

abbrev pub header_magic : ℕ
header_magic = 0xd00dfeed

abbrev pub compat_version : ℕ
compat_version = 17

-- enum fdt_error
pub data FdtError : Type 0 where
  valid bad_magic incompatible : FdtError

unfoldable pub fdt_verify : Machine → Ptr → FdtError
fdt_verify m fdt =
    if not (magic m fdt == header_magic)
    then bad_magic
    else if ltb compat_version (last_comp_version m fdt)
    then incompatible
    else valid

unfoldable pub fdt_size : Machine → Ptr → ℕ
fdt_size m fdt = totalsize m fdt

unfoldable pub fdt_string_from_offset : Machine → Ptr → ℕ → Ptr
fdt_string_from_offset m fdt offset =
    let strings_start = add64 fdt (off_dt_strings m fdt) in
    let strings_end = add64 strings_start (size_dt_strings m fdt) in
    let s = add64 strings_start offset in
    if ltb s strings_start || leb strings_end s then null else s
