-- ===== src/Kernel/Fdt/Search.antt =====
-- The searches for a node, and the property that a node inherits.
-- The addresses of the string literals are the linker's choice and are given by `Literals`.
pub mod Laws
pub mod First
pub mod Every
pub mod DeviceType
pub mod Inherited
pub mod Phandle
use riscy_os.Prelude.{
  ℕ, zero, suc, Bool, true, false, not, List, [], ◌∷◌, Ptr, null, ltb, ◌==◌, if◌then◌else◌, ◌||◌,
  add64, sub64, ◌>>=◌, Run, ok, no_return,
}
use riscy_os.Kernel.Endian.{Machine}
use riscy_os.Libc.Text.{strlen, strcmp, memcmp, is_zero}
use riscy_os.Kernel.Fdt.Token.{fdt_prop_val_len}
use riscy_os.Kernel.Fdt.Prop.{
  fdt_prop_val, fdt_get_prop_by_name, fdt_prop_num_cells, fdt_prop_get_cell,
}
use riscy_os.Kernel.Fdt.Node.{
  fdt_node_begin, next_node, fdt_max_depth, fdt_node_get_parents, num_slots,
}
use riscy_os.Prelude.Int.{pos, ltb_ℤ}

pub record Literals : Type 0 where
  pub compatible : Ptr
  pub device_type : Ptr
  pub phandle : Ptr
  pub address_cells : Ptr
  pub size_cells : Ptr
  pub reg : Ptr
  pub nameless_node : Ptr

-- FDT_DEBUG_DEBUG_NAMELESS_NODES is defined.
unfoldable pub fdt_node_name : Literals → Machine → Ptr → Ptr
fdt_node_name lits m node =
    if not (m.byte (add64 node 4) == 0) then add64 node 4 else lits.nameless_node

-- The walk over the strings of a `compatible` property; `strings_len` wraps below 0.
pub compatible_loop : Machine → ℕ → ℕ → Ptr → Ptr → ℕ → Run Bool
compatible_loop m zero fuel compat strings strings_len = no_return
compatible_loop m (suc rounds) fuel compat strings strings_len =
    let rest = compatible_loop m rounds fuel compat in
    if ltb 0 strings_len
    then (do
      len ← strlen m fuel strings
      c ← strcmp m fuel strings compat
      let curr_len = add64 len 1
      let later = rest (add64 strings curr_len) (sub64 strings_len curr_len)
      if is_zero c then ok true else later)
    else ok false

unfoldable pub fdt_node_is_compatible : Literals → Machine → ℕ → Ptr → Ptr → Ptr → Run Bool
fdt_node_is_compatible lits m fuel fdt node compat = do
  prop ← fdt_get_prop_by_name m fuel fdt node null lits.compatible
  if prop == null
      then ok false
      else compatible_loop m fuel fuel compat (fdt_prop_val prop) (fdt_prop_val_len m prop)

-- The first node to look at: behind `start`, or the first of the tree.
unfoldable pub first_node : Machine → ℕ → Ptr → Ptr → Run Ptr
first_node m fuel fdt start =
    if not (start == null) then next_node m fuel fdt start else fdt_node_begin m fuel fdt

-- A loop that tests each node from `node` on and returns the first that passes.
unfoldable pub find_loop : Machine → (Ptr → Run Bool) → ℕ → ℕ → Ptr → Ptr → Run Ptr
find_loop m test zero fuel fdt node = no_return
find_loop m test (suc rounds) fuel fdt node =
    let rest = find_loop m test rounds fuel fdt in
    if node == null then ok null else (do
      found ← test node
      if found then ok node else (do next ← next_node m fuel fdt node; rest next))

unfoldable pub fdt_find_compatible_node : Literals → Machine → ℕ → Ptr → Ptr → Ptr → Run Ptr
fdt_find_compatible_node lits m fuel fdt start compat = do
  node ← first_node m fuel fdt start
  find_loop m (λ n. fdt_node_is_compatible lits m fuel fdt n compat) fuel fuel fdt node

-- The `device_type` of a node is compared with and without its terminator.
unfoldable pub device_type_is : Literals → Machine → ℕ → Ptr → Ptr → ℕ → Ptr → Run Bool
device_type_is lits m fuel fdt type_name len node = do
  prop ← fdt_get_prop_by_name m fuel fdt node null lits.device_type
  let prop_len = fdt_prop_val_len m prop
  if prop == null
      then ok false
      else if prop_len == add64 len 1 || prop_len == len
      then (do c ← memcmp m type_name (fdt_prop_val prop) prop_len; ok (is_zero c))
      else ok false

unfoldable pub fdt_find_node_by_device_type : Literals → Machine → ℕ → Ptr → Ptr → Ptr → Run Ptr
fdt_find_node_by_device_type lits m fuel fdt start type_name = do
  node ← first_node m fuel fdt start
  len ← strlen m fuel type_name
  find_loop m (device_type_is lits m fuel fdt type_name len) fuel fuel fdt node

unfoldable pub fdt_find_node_by_unit_name : Literals → Machine → ℕ → Ptr → Ptr → Ptr → Run Ptr
fdt_find_node_by_unit_name lits m fuel fdt start name = do
  node ← first_node m fuel fdt start
  find_loop m (λ n. do c ← strcmp m fuel name (fdt_node_name lits m n); ok (is_zero c)) fuel fuel
      fdt node

-- The loop of `fdt_find_node_by_phandle`: a node whose property has not one cell is looked at again.
unfoldable pub phandle_loop : Literals → Machine → ℕ → ℕ → Ptr → ℕ → Ptr → Run Ptr
phandle_loop lits m zero fuel fdt phandle node = no_return
phandle_loop lits m (suc rounds) fuel fdt phandle node =
    let rest = phandle_loop lits m rounds fuel fdt phandle in
    let again = phandle_loop lits m rounds fuel fdt phandle node in
    let on = (do next ← next_node m fuel fdt node; rest next) in
    if node == null then ok null else (do
      prop ← fdt_get_prop_by_name m fuel fdt node null lits.phandle
      if prop == null
          then on
          else if not (fdt_prop_num_cells m prop == 1)
          then again
          else if fdt_prop_get_cell m prop 0 == phandle
          then ok node
          else on)

unfoldable pub fdt_find_node_by_phandle : Literals → Machine → ℕ → Ptr → Ptr → ℕ → Run Ptr
fdt_find_node_by_phandle lits m fuel fdt start phandle = do
  node ← first_node m fuel fdt start
  phandle_loop lits m fuel fuel fdt phandle node

-- The search through the ancestors, nearest first.
unfoldable pub parents_loop : Machine → ℕ → Ptr → Ptr → List Ptr → Run Ptr
parents_loop m fuel fdt prop_name [] = ok null
parents_loop m fuel fdt prop_name (parent ∷ parents) =
    let rest = parents_loop m fuel fdt prop_name parents in
    do
      prop ← fdt_get_prop_by_name m fuel fdt parent null prop_name
      if prop == null then rest else ok prop

-- The array of the parents has `max_depth` elements. Where that is 0, ISO C leaves its declaration
-- undefined; here it is the empty array that GCC and Clang make.
unfoldable pub fdt_node_get_inherited_prop : Machine → ℕ → Ptr → Ptr → Ptr → Run Ptr
fdt_node_get_inherited_prop m fuel fdt node prop_name = do
  prop ← fdt_get_prop_by_name m fuel fdt node null prop_name
  if not (prop == null) then ok prop else do
    max_depth ← fdt_max_depth m fuel fdt
    if ltb_ℤ max_depth (pos 0) then ok null else do
      parents ← fdt_node_get_parents m fuel fdt node (num_slots max_depth)
      parents_loop m fuel fdt prop_name parents
