-- ===== src/Kernel/Fdt/Node.antt =====
-- The walks over the nodes of the tree, their depth and their ancestors.
-- `rounds` is the fuel of the walk and `fuel` that of the string functions under it; a depth is a
-- signed word, whose overflow C leaves undefined, and is modelled as an integer.
pub mod Walks
pub mod Seek
pub mod Slots
pub mod Ancestors
pub mod Parents
pub mod Children
use riscy_os.Prelude.{
  ℕ, zero, suc, ◌+◌, ◌-◌, ◌^◌, Option, none, some, List, [], ◌∷◌, Ptr, null, ltb, ◌==◌,
  if◌then◌else◌, length, set, get_elem?, replicate, ◌||◌, ◌>>=◌, Run, ok, no_return, undefined,
}
use riscy_os.Kernel.Endian.{Machine}
use riscy_os.Prelude.Int.{ℤ, pos, negsuc, ◌+ℤ◌, ◌-ℤ◌, ltb_ℤ}
use riscy_os.Kernel.Fdt.Token.{
  begin_node, end_node, prop_token, nop, token_at, fdt_token_begin, fdt_next_token,
  fdt_next_token_after_node,
}

unfoldable pub node_begin_loop : Machine → ℕ → ℕ → Ptr → Ptr → Run Ptr
node_begin_loop m zero fuel fdt token_ptr = no_return
node_begin_loop m (suc rounds) fuel fdt token_ptr =
    let rest = node_begin_loop m rounds fuel fdt in
    if token_ptr == null
    then ok null
    else if token_at m token_ptr == begin_node
    then ok token_ptr
    else (do next ← fdt_next_token m fuel fdt token_ptr; rest next)

unfoldable pub fdt_node_begin : Machine → ℕ → Ptr → Run Ptr
fdt_node_begin m fuel fdt = node_begin_loop m fuel fuel fdt (fdt_token_begin m fdt)

-- The node that follows, and `*depth` behind the call.
unfoldable pub next_node_loop : Machine → ℕ → ℕ → Ptr → Ptr → ℤ → ℤ → Run (Ptr × ℤ)
next_node_loop m zero fuel fdt token_ptr depth depth_increase = no_return
next_node_loop m (suc rounds) fuel fdt token_ptr depth depth_increase =
    let token = token_at m token_ptr in
    let increase = if token == end_node then depth_increase -ℤ pos 1 else depth_increase in
    let rest = next_node_loop m rounds fuel fdt in
    if token_ptr == null
    then ok (null, depth)
    else if token == begin_node
    then ok (token_ptr, depth +ℤ increase)
    else (do next ← fdt_next_token m fuel fdt token_ptr; rest next depth increase)

unfoldable pub fdt_next_node : Machine → ℕ → Ptr → Ptr → ℤ → Run (Ptr × ℤ)
fdt_next_node m fuel fdt node depth = do
  token_ptr ← fdt_next_token m fuel fdt node
  next_node_loop m fuel fuel fdt token_ptr depth (pos 1)

-- A call with `depth` NULL.
unfoldable pub next_node : Machine → ℕ → Ptr → Ptr → Run Ptr
next_node m fuel fdt node = do (next, _) ← fdt_next_node m fuel fdt node (pos 0); ok next

unfoldable pub max_depth_loop : Machine → ℕ → ℕ → Ptr → Ptr → ℤ → ℤ → Run ℤ
max_depth_loop m zero fuel fdt node depth max_depth = no_return
max_depth_loop m (suc rounds) fuel fdt node depth max_depth =
    let max_depth' = if ltb_ℤ max_depth depth then depth else max_depth in
    let rest = max_depth_loop m rounds fuel fdt in
    if node == null
    then ok max_depth
    else (do (next, depth') ← fdt_next_node m fuel fdt node depth; rest next depth' max_depth')

unfoldable pub fdt_max_depth : Machine → ℕ → Ptr → Run ℤ
fdt_max_depth m fuel fdt = do
  node ← fdt_node_begin m fuel fdt
  max_depth_loop m fuel fuel fdt node (pos 0) (pos 0)

-- A walk to the first child, or on to the next sibling: `accepts` is the switch.
unfoldable pub subnode_loop : Machine → ℕ → ℕ → Ptr → Ptr → Run Ptr
subnode_loop m zero fuel fdt token_ptr = no_return
subnode_loop m (suc rounds) fuel fdt token_ptr =
    let token = token_at m token_ptr in
    let rest = subnode_loop m rounds fuel fdt in
    if token_ptr == null
    then ok null
    else if token == begin_node
    then ok token_ptr
    else if token == nop || token == prop_token
    then (do next ← fdt_next_token m fuel fdt token_ptr; rest next)
    else ok null

unfoldable pub fdt_node_subnode_begin : Machine → ℕ → Ptr → Ptr → Run Ptr
fdt_node_subnode_begin m fuel fdt node = do
  token_ptr ← fdt_next_token m fuel fdt node
  subnode_loop m fuel fuel fdt token_ptr

unfoldable pub fdt_node_next_subnode : Machine → ℕ → Ptr → Ptr → Run Ptr
fdt_node_next_subnode m fuel fdt subnode = do
  token_ptr ← fdt_next_token_after_node m fuel fdt subnode
  subnode_loop m fuel fuel fdt token_ptr

-- A store and a read in an array on the stack, at a signed index. A slot that has not been written
-- has no value.
unfoldable pub store_branch : List (Option Ptr) → ℤ → Ptr → Run (List (Option Ptr))
store_branch branch (negsuc i) node = undefined
store_branch branch (pos i) node =
    if ltb i (length branch) then ok (set branch i (some node)) else undefined

abbrev pub present : Option (Option Ptr) → Run Ptr
present none = undefined
present (some none) = undefined
present (some (some node)) = ok node

unfoldable pub load_branch : List (Option Ptr) → ℤ → Run Ptr
load_branch branch (negsuc i) = undefined
load_branch branch (pos i) = present (get_elem? branch i)

-- The walk of `fdt_node_get_parents`: the branch that leads to `node`, and its depth.
unfoldable pub branch_loop :
    Machine → ℕ → ℕ → Ptr → Ptr → Ptr → ℤ → List (Option Ptr) → Run (ℤ × List (Option Ptr))
branch_loop m zero fuel fdt node curr depth branch = no_return
branch_loop m (suc rounds) fuel fdt node curr depth branch =
    let rest = branch_loop m rounds fuel fdt node in
    if curr == null || curr == node then ok (depth, branch) else (do
      branch' ← store_branch branch depth curr
      (next, depth') ← fdt_next_node m fuel fdt curr depth
      rest next depth' branch')

-- The copy into `parents`, nearest ancestor first: `left` entries from index `i` on.
unfoldable pub copy_parents : List (Option Ptr) → ℤ → ℕ → ℕ → Run (List Ptr)
copy_parents branch depth zero i = ok []
copy_parents branch depth (suc left) i = do
  parent ← load_branch branch (depth -ℤ pos (i + 1))
  later ← copy_parents branch depth left (i + 1)
  ok (parent ∷ later)

-- (size_t)depth
abbrev pub size_of_depth : ℤ → ℕ
size_of_depth (pos n) = n
size_of_depth (negsuc n) = 2 ^ 64 - 1 - n

abbrev pub num_slots : ℤ → ℕ
num_slots (pos n) = n
num_slots (negsuc n) = 0

-- The ancestors that are written to `parents`, which has `parents_len` slots.
unfoldable pub fdt_node_get_parents : Machine → ℕ → Ptr → Ptr → ℕ → Run (List Ptr)
fdt_node_get_parents m fuel fdt node parents_len = do
  max_depth ← fdt_max_depth m fuel fdt
  let too_low = ltb_ℤ max_depth (pos 0)
  curr ← fdt_node_begin m fuel fdt
  let slots = replicate (num_slots max_depth + 1) none
  if too_low then ok [] else do
    (depth, branch) ← branch_loop m fuel fuel fdt node curr (pos 0) slots
    let num = if ltb parents_len (size_of_depth depth) then parents_len else size_of_depth depth
    copy_parents branch depth num 0
