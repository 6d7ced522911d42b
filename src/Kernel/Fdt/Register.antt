-- ===== src/Kernel/Fdt/Register.antt =====
-- The `reg` property of a node: the widths of its fields, and its blocks.
use riscy_os.Prelude.{
  ℕ, ◌+◌, ◌*◌, ◌/◌, Option, none, some, Ptr, null, ltb, ◌==◌, if◌then◌else◌, u32, u64, add64, ◌>>=◌,
  Run, ok,
}
use riscy_os.Kernel.Endian.{Machine, load32, load64, be32toh, be64toh}
use riscy_os.Kernel.Fdt.Token.{fdt_prop_val_len}
use riscy_os.Kernel.Fdt.Prop.{
  fdt_prop_val, fdt_get_prop_by_name, fdt_prop_num_cells, fdt_prop_get_cell,
}
use riscy_os.Kernel.Fdt.Search.{Literals, fdt_node_get_inherited_prop}

-- The first cell of an inherited property, with the value that stands for its absence.
unfoldable pub cell_or : Machine → ℕ → Ptr → ℕ
cell_or m absent prop =
    if prop == null
    then absent
    else if fdt_prop_num_cells m prop == 0
    then 0
    else fdt_prop_get_cell m prop 0

unfoldable pub fdt_node_get_address_cells : Literals → Machine → ℕ → Ptr → Ptr → Run ℕ
fdt_node_get_address_cells lits m fuel fdt node = do
  prop ← fdt_node_get_inherited_prop m fuel fdt node lits.address_cells
  ok (cell_or m 2 prop)

unfoldable pub fdt_node_get_size_cells : Literals → Machine → ℕ → Ptr → Ptr → Run ℕ
fdt_node_get_size_cells lits m fuel fdt node = do
  prop ← fdt_node_get_inherited_prop m fuel fdt node lits.size_cells
  ok (cell_or m 1 prop)

-- The blocks that `reg_cells` cells hold; the sum of the widths has 32 bits.
unfoldable pub num_blocks : ℕ → ℕ → ℕ → ℕ
num_blocks reg_cells address_cells size_cells =
    let reg_block_cells = u32 (address_cells + size_cells) in
    if reg_block_cells == 0 then 0 else reg_cells / reg_block_cells

unfoldable pub fdt_node_num_register_blocks : Literals → Machine → ℕ → Ptr → Ptr → Run ℕ
fdt_node_num_register_blocks lits m fuel fdt node = do
  reg ← fdt_get_prop_by_name m fuel fdt node null lits.reg
  if reg == null then ok 0 else do
    address_cells ← fdt_node_get_address_cells lits m fuel fdt node
    size_cells ← fdt_node_get_size_cells lits m fuel fdt node
    ok (num_blocks (fdt_prop_num_cells m reg) address_cells size_cells)

-- A field of one or of two cells; `none` is the `default` of both switches.
unfoldable pub read_cells : Machine → ℕ → Ptr → Option ℕ
read_cells m cells p =
    if cells == 1
    then some (be32toh m (load32 m p))
    else if cells == 2
    then some (be64toh m (load64 m p))
    else none

-- *address and *size: NULL and 0 on an error.
abbrev pub err_exit : Ptr × ℕ
err_exit = (null, 0)

abbrev block_of : Option ℕ → Option ℕ → Ptr × ℕ
block_of (some address) (some size) = (address, size)
block_of _ _ = err_exit

-- The part of `fdt_node_get_register_block` behind the lookups. The index is scaled by 4 in the
-- check of the length and not in the address that is read.
unfoldable pub register_block : Machine → Ptr → ℕ → ℕ → ℕ → Ptr × ℕ
register_block m reg address_cells size_cells index =
    let reg_block_cells = u32 (address_cells + size_cells) in
    let min_size_for_index = u64 (index * reg_block_cells * 4) in
    let address_ptr = add64 (fdt_prop_val reg) (u64 (index * reg_block_cells)) in
    let size_ptr = add64 address_ptr (u64 (address_cells * 4)) in
    if ltb (fdt_prop_val_len m reg) min_size_for_index
    then err_exit
    else block_of (read_cells m address_cells address_ptr) (read_cells m size_cells size_ptr)

unfoldable pub fdt_node_get_register_block : Literals → Machine → ℕ → Ptr → Ptr → ℕ → Run (Ptr × ℕ)
fdt_node_get_register_block lits m fuel fdt node index = do
  reg ← fdt_get_prop_by_name m fuel fdt node null lits.reg
  if reg == null then ok err_exit else do
    address_cells ← fdt_node_get_address_cells lits m fuel fdt node
    size_cells ← fdt_node_get_size_cells lits m fuel fdt node
    ok (register_block m reg address_cells size_cells index)
