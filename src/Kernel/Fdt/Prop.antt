-- ===== src/Kernel/Fdt/Prop.antt =====
-- The properties of a node: struct fdt_prop, their walk, and their values.
pub mod Walks
pub mod Lookup
pub mod First
use riscy_os.Prelude.{
  ℕ, zero, suc, ◌*◌, ◌/◌, Bool, false, Ptr, null, leb, ◌==◌, if◌then◌else◌, add64, ◌>>=◌, Run, ok,
  no_return,
}
use riscy_os.Kernel.Endian.{Machine, load32, be32toh}
use riscy_os.Libc.Text.{strcmp, is_zero}
use riscy_os.Kernel.Fdt.Header.{field, fdt_string_from_offset}
use riscy_os.Kernel.Fdt.Token.{prop_token, nop, token_at, fdt_next_token, fdt_prop_val_len}

unfoldable pub fdt_prop_val : Ptr → Ptr
fdt_prop_val prop = add64 prop 12

unfoldable pub fdt_prop_name_offset : Machine → Ptr → ℕ
fdt_prop_name_offset m prop = field m prop 8

-- The loop of `fdt_node_prop_begin` and of `fdt_node_next_prop`.
unfoldable pub prop_loop : Machine → ℕ → ℕ → Ptr → Ptr → Run Ptr
prop_loop m zero fuel fdt token_ptr = no_return
prop_loop m (suc rounds) fuel fdt token_ptr =
    let token = token_at m token_ptr in
    let rest = prop_loop m rounds fuel fdt in
    if token_ptr == null
    then ok null
    else if token == prop_token
    then ok token_ptr
    else if token == nop
    then (do next ← fdt_next_token m fuel fdt token_ptr; rest next)
    else ok null

unfoldable pub fdt_node_prop_begin : Machine → ℕ → Ptr → Ptr → Run Ptr
fdt_node_prop_begin m fuel fdt node = do
  token_ptr ← fdt_next_token m fuel fdt node
  prop_loop m fuel fuel fdt token_ptr

unfoldable pub fdt_node_next_prop : Machine → ℕ → Ptr → Ptr → Run Ptr
fdt_node_next_prop m fuel fdt prop = do
  token_ptr ← fdt_next_token m fuel fdt prop
  prop_loop m fuel fuel fdt token_ptr

unfoldable pub fdt_prop_name : Machine → Ptr → Ptr → Ptr
fdt_prop_name m fdt prop = fdt_string_from_offset m fdt (fdt_prop_name_offset m prop)

-- `prop_name != NULL && strcmp(name, prop_name) == 0`
unfoldable pub name_matches : Machine → ℕ → Ptr → Ptr → Ptr → Run Bool
name_matches m fuel fdt name prop =
    let prop_name = fdt_prop_name m fdt prop in
    if prop_name == null then ok false else (do c ← strcmp m fuel name prop_name; ok (is_zero c))

unfoldable pub by_name_loop : Machine → ℕ → ℕ → Ptr → Ptr → Ptr → Run Ptr
by_name_loop m zero fuel fdt name prop = no_return
by_name_loop m (suc rounds) fuel fdt name prop =
    let rest = by_name_loop m rounds fuel fdt name in
    if prop == null then ok null else (do
      found ← name_matches m fuel fdt name prop
      if found then ok prop else (do next ← fdt_node_next_prop m fuel fdt prop; rest next))

-- `start` NULL begins with the first property of `node`.
unfoldable pub fdt_get_prop_by_name : Machine → ℕ → Ptr → Ptr → Ptr → Ptr → Run Ptr
fdt_get_prop_by_name m fuel fdt node start name = do
  prop ←
      if start == null
      then fdt_node_prop_begin m fuel fdt node
      else fdt_node_next_prop m fuel fdt start
  by_name_loop m fuel fuel fdt name prop

-- sizeof(uint32_t) is 4.
unfoldable pub fdt_prop_num_cells : Machine → Ptr → ℕ
fdt_prop_num_cells m prop = fdt_prop_val_len m prop / 4

unfoldable pub fdt_prop_get_cell : Machine → Ptr → ℕ → ℕ
fdt_prop_get_cell m prop index =
    if leb (fdt_prop_num_cells m prop) index
    then 0
    else be32toh m (load32 m (add64 (fdt_prop_val prop) (4 * index)))
