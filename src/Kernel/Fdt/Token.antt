-- ===== src/Kernel/Fdt/Token.antt =====
-- The structure block: its tokens and the step from one to the next.

pub mod Progress
pub mod Walk
pub mod Trace
pub mod After
use riscy_os.Prelude.{
  ℕ, zero, suc, ◌+◌, ◌-◌, ◌*◌, Bool, true, false, Ptr, null, ltb, leb, ◌==◌, if◌then◌else◌, ◌||◌,
  add64, shr, low_bits, ◌>>=◌, Run, ok, no_return,
}
use riscy_os.Kernel.Endian.{Machine}
use riscy_os.Libc.Text.{strlen}
use riscy_os.Kernel.Fdt.Header.{field, off_dt_struct, size_dt_struct}

abbrev pub begin_node : ℕ
begin_node = 0x1

abbrev pub end_node : ℕ
end_node = 0x2

abbrev pub prop_token : ℕ
prop_token = 0x3

abbrev pub nop : ℕ
nop = 0x4

abbrev pub end_token : ℕ
end_token = 0x9

abbrev pub struct_start : Machine → Ptr → Ptr
struct_start m fdt = add64 fdt (off_dt_struct m fdt)

abbrev pub struct_end : Machine → Ptr → Ptr
struct_end m fdt = add64 (struct_start m fdt) (size_dt_struct m fdt)

unfoldable pub fdt_struct_ptr_invalid : Machine → Ptr → Ptr → Bool
fdt_struct_ptr_invalid m fdt ptr =
    if ltb ptr (struct_start m fdt) || leb (struct_end m fdt) ptr then true else false

unfoldable pub fdt_token_begin : Machine → Ptr → Ptr
fdt_token_begin m fdt = struct_start m fdt

-- be32toh( *token )
abbrev pub token_at : Machine → Ptr → ℕ
token_at m token = field m token 0

-- The 32-bit cells that `len` bytes take up.
unfoldable pub cells_of : ℕ → ℕ
cells_of len = shr len 2 + (if low_bits len 2 == 0 then 0 else 1)

-- struct fdt_prop: `len` stands behind the token.
unfoldable pub fdt_prop_val_len : Machine → Ptr → ℕ
fdt_prop_val_len m prop = field m prop 4

-- The switch of `fdt_next_token`.
unfoldable pub skip_token : Machine → ℕ → Ptr → Run Ptr
skip_token m fuel token =
    let val = token_at m token in
    if val == nop || val == end_node
    then ok (add64 token 4)
    else if val == begin_node
    then (do
      len ← strlen m fuel (add64 token 4)
      let str_len = add64 len 1
      ok (add64 (add64 token 4) (4 * cells_of str_len)))
    else if val == prop_token
    then ok (add64 (add64 token 4) (4 * (2 + cells_of (fdt_prop_val_len m token))))
    else ok null

unfoldable pub fdt_next_token : Machine → ℕ → Ptr → Ptr → Run Ptr
fdt_next_token m fuel fdt token = do
  next ← skip_token m fuel token
  ok (if fdt_struct_ptr_invalid m fdt next then null else next)

-- The loop of `fdt_next_token_after_node`; `depth` is a signed word in the source, and only its
-- test against 0 is read: a first token that ends a node makes it negative, and ends the loop.
pub after_node_loop : Machine → ℕ → ℕ → Ptr → Ptr → ℕ → Run Ptr
after_node_loop m zero fuel fdt token_ptr depth = no_return
after_node_loop m (suc rounds) fuel fdt token_ptr depth =
    let token = token_at m token_ptr in
    let depth =
      if token == begin_node then depth + 1 else if token == end_node then depth - 1 else depth in
    let rest = after_node_loop m rounds fuel fdt in
    do
      next ← fdt_next_token m fuel fdt token_ptr
      let again = rest next depth
      if next == null then ok null else if ltb 0 depth then again else ok next

pub fdt_next_token_after_node : Machine → ℕ → Ptr → Ptr → Run Ptr
fdt_next_token_after_node m fuel fdt node =
    if node == null then ok null else after_node_loop m fuel fuel fdt node 0
