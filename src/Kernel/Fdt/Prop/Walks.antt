-- ===== src/Kernel/Fdt/Prop/Walks.antt =====
-- The walks over properties return, and land on properties.
use riscy_os.Prelude.{
  ℕ, zero, suc, ◌+◌, ◌≤◌, ◌<◌, refl, inl, inr, Ptr, null, ◌==◌, arith, ◌>>=◌, Gives, Gives-if,
  Gives-then, ==→eq,
}
use riscy_os.Kernel.Endian.{Machine}
use riscy_os.Kernel.Fdt.Token.{prop_token, nop, struct_end, token_at, fdt_next_token}
use riscy_os.Kernel.Fdt.Token.Progress.{InBlock, IsBlob}
use riscy_os.Kernel.Fdt.Token.Walk.{Enough, After, Lands, Stepped, advance, advance_first}
use riscy_os.Kernel.Fdt.Prop.{prop_loop, fdt_node_prop_begin, fdt_node_next_prop}

module _ (m : Machine) (fuel fdt top : ℕ) (blob : IsBlob m fuel fdt top) where
  prop_loop-Gives :
      (rounds low : ℕ) (token : Ptr)
      → Enough m fuel fdt top rounds token
      → After m fuel fdt top low token
      → Gives (Lands m fuel fdt top prop_token low) (prop_loop m rounds fuel fdt token)
  unfolding prop_loop
  prop_loop-Gives zero low token h after = absurd (omega arith)
  prop_loop-Gives (suc rounds) low token h after =
      Gives-if _ (token == null) _ _ (λ e. (null, refl, inl refl))
        λ ne.
          let inside : InBlock m fdt token × (struct_end m fdt < token + suc rounds) =
            ground arith in
          let above : low ≤ token = ground arith in
          let step =
            Gives-then _ (Stepped m fuel fdt top rounds token) (fdt_next_token m fuel fdt token)
              (λ next. prop_loop m rounds fuel fdt next)
              (advance m fuel fdt top blob rounds token inside.0 inside.1)
              λ next stepped. prop_loop-Gives rounds low next stepped.0 (ground arith) in
          Gives-if _ (token_at m token == prop_token) _ _
            (λ e. (token, refl, inr (above, inside.0, ==→eq _ _ e)))
            λ other.
              Gives-if _ (token_at m token == nop) _ _ (λ e. step) (λ e. (null, refl, inl refl))

  -- From a token of the structure block, such as a node or a property, the search for the next
  -- property returns: it gives NULL, or a property of the block that lies behind the token.
  pub fdt_node_prop-Gives :
      (token : Ptr)
      → InBlock m fdt token
      → Gives (Lands m fuel fdt top prop_token (token + 4)) (fdt_node_prop_begin m fuel fdt token)
        × Gives (Lands m fuel fdt top prop_token (token + 4)) (fdt_node_next_prop m fuel fdt token)
  unfolding fdt_node_prop_begin fdt_node_next_prop
  fdt_node_prop-Gives token inside = (walk, walk)
    where
      walk :
          Gives
            (Lands m fuel fdt top prop_token (token + 4))
            (fdt_next_token m fuel fdt token >>= λ t. prop_loop m fuel fuel fdt t)
      walk =
          Gives-then _ (Stepped m fuel fdt top fuel token) (fdt_next_token m fuel fdt token) _
            (advance_first m fuel fdt top blob token inside)
            λ next stepped. prop_loop-Gives fuel (token + 4) next stepped.0 stepped.1
