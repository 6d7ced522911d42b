-- ===== src/Kernel/Fdt/Token/Progress.antt =====
-- The step from a token to the next goes forward, stays in the structure block, and returns.
use riscy_os.Prelude.{
  ℕ, ◌+◌, ◌*◌, ◌%◌, ◌^◌, ◌≤◌, ◌<◌, ◌≡◌, refl, ◌⊎◌, Ptr, null, ◌==◌, if◌then◌else◌, arith, ◌||◌,
  add64, ◌>>=◌, bind_returned, ok, Returns, Returns-if, Returns-bind, Gives,
}
use riscy_os.Kernel.Endian.{Machine, IsBytes}
use riscy_os.Libc.Text.{strlen}
use riscy_os.Libc.Text.Laws.{strlen-lt, strlen-ok}
use riscy_os.Kernel.Fdt.Header.{field}
use riscy_os.Kernel.Fdt.Header.Laws.{field-lt}
use riscy_os.Kernel.Fdt.Token.{
  begin_node, end_node, prop_token, nop, struct_start, struct_end, fdt_struct_ptr_invalid, token_at,
  cells_of, fdt_prop_val_len, skip_token, fdt_next_token,
}

-- `p` is in the structure block.
abbrev pub InBlock : Machine → Ptr → Ptr → Type 0
InBlock m fdt p = (struct_start m fdt ≤ p) × (p < struct_end m fdt)

cells_of_bounds : (len : ℕ) → (len ≤ 4 * cells_of len) × (4 * cells_of len < len + 4)
unfolding cells_of
cells_of_bounds len = ground arith

-- The address behind the name of a node.
name_end-lt :
    (m : Machine) (fuel token next : ℕ)
    → fuel ≤ 2 ^ 62
    → token < 2 ^ 62
    → (strlen m fuel (add64 token 4) >>= λ len.
        ok (add64 (add64 token 4) (4 * cells_of (add64 len 1))))
      ≡ ok next
    → (token + 4 ≤ next) × (next % 4 ≡ token % 4)
name_end-lt m fuel token next small low e =
    let (n, measured, at) = bind_returned (strlen m fuel (add64 token 4)) _ e in
    let n_lt = strlen-lt m fuel (add64 token 4) n (omega arith) measured in
    let same : next ≡ add64 (add64 token 4) (4 * cells_of (add64 n 1)) = cc at in
    let padded = cells_of_bounds (add64 n 1) in let cells : ℕ = cells_of (add64 n 1) in omega arith

skip_token-lt :
    (m : Machine) (fuel token next : ℕ)
    → IsBytes m
    → fuel ≤ 2 ^ 62
    → token < 2 ^ 62
    → skip_token m fuel token ≡ ok next
    → (next ≡ null) ⊎ ((token + 4 ≤ next) × (next % 4 ≡ token % 4))
unfolding skip_token fdt_prop_val_len
skip_token-lt m fuel token next bytes small low e = ground (
  arith,
  field-lt m bytes token 4,
  cells_of_bounds (field m token 4),
  name_end-lt m fuel token next,
)

fdt_next_token-lands :
    (m : Machine) (fuel fdt token next : ℕ)
    → IsBytes m
    → fuel ≤ 2 ^ 62
    → token < 2 ^ 62
    → fdt_next_token m fuel fdt token ≡ ok next
    → (next ≡ null) ⊎ ((token + 4 ≤ next) × (next % 4 ≡ token % 4) × InBlock m fdt next)
unfolding fdt_next_token fdt_struct_ptr_invalid
fdt_next_token-lands m fuel fdt token next bytes small low e =
    let (n, stepped, at) = bind_returned (skip_token m fuel token) _ e in
    let moved = skip_token-lt m fuel token n bytes small low stepped in ground arith

-- A tree in memory, with a NUL byte at `top`, behind its structure block, that bounds every name,
-- and with fuel for a walk from the start of the block to `top`.
pub record IsBlob (m : Machine) (fuel fdt top : ℕ) : Type 0 where
  pub bytes : IsBytes m
  pub not_null : 0 < struct_start m fdt
  pub ends : struct_end m fdt + 4 ≤ top
  pub nul : m.byte top ≡ 0
  pub low : top < 2 ^ 62
  pub enough : top < struct_start m fdt + fuel
  pub small : fuel ≤ 2 ^ 62

module _ (m : Machine) (fuel fdt top : ℕ) (blob : IsBlob m fuel fdt top) where
  skip_token-ok : (token : Ptr) → InBlock m fdt token → Returns (skip_token m fuel token)
  unfolding skip_token
  skip_token-ok token inside =
      let (len, measured) =
        strlen-ok m fuel (add64 token 4) top blob.nul blob.low (omega arith) (omega arith)
          (omega arith) in
      Returns-if (token_at m token == nop || token_at m token == end_node) _ _ (add64 token 4, refl)
        (Returns-if (token_at m token == begin_node) _ _
          (Returns-bind (strlen m fuel (add64 token 4)) _ (len, measured) λ n e. (_, refl))
          (Returns-if (token_at m token == prop_token) _ _ (_, refl) (null, refl)))

  -- A step from a token in the block returns, and gives NULL or a later token of the block, at the
  -- same alignment.
  pub fdt_next_token-Gives :
      (token : Ptr)
      → InBlock m fdt token
      → Gives
          (λ next.
            (next ≡ null) ⊎ ((token + 4 ≤ next) × (next % 4 ≡ token % 4) × InBlock m fdt next))
          (fdt_next_token m fuel fdt token)
  unfolding fdt_next_token
  fdt_next_token-Gives token inside =
      let (n, stepped) = skip_token-ok token inside in
      let next : Ptr = if fdt_struct_ptr_invalid m fdt n then null else n in
      let run : fdt_next_token m fuel fdt token ≡ ok next = rw stepped in
      (
        next,
        run,
        fdt_next_token-lands m fuel fdt token next blob.bytes blob.small (omega arith) run,
      )
