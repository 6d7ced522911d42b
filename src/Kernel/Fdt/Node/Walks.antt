-- ===== src/Kernel/Fdt/Node/Walks.antt =====
-- The walks over nodes return, and land on nodes.
use riscy_os.Prelude.{
  ℕ, zero, suc, ◌+◌, ◌≤◌, ◌<◌, refl, inl, inr, Ptr, null, ◌==◌, if◌then◌else◌, arith, ◌||◌, Gives,
  Gives-if, Gives-then, ==→eq,
}
use riscy_os.Kernel.Endian.{Machine}
use riscy_os.Kernel.Fdt.Token.{
  begin_node, prop_token, nop, struct_start, struct_end, token_at, fdt_token_begin, fdt_next_token,
}
use riscy_os.Kernel.Fdt.Token.Progress.{InBlock, IsBlob}
use riscy_os.Kernel.Fdt.Token.Walk.{Enough, After, Lands, Stepped, advance, advance_first}
use riscy_os.Prelude.Int.{ℤ, pos, ◌≤ℤ◌, ltb_ℤ}
use riscy_os.Kernel.Fdt.Node.{
  node_begin_loop, fdt_node_begin, next_node_loop, fdt_next_node, next_node, max_depth_loop,
  fdt_max_depth, subnode_loop, fdt_node_subnode_begin,
}

module _ (m : Machine) (fuel fdt top : ℕ) (blob : IsBlob m fuel fdt top) where
  node_begin_loop-Gives :
      (rounds low : ℕ) (token : Ptr)
      → Enough m fuel fdt top rounds token
      → After m fuel fdt top low token
      → Gives (Lands m fuel fdt top begin_node low) (node_begin_loop m rounds fuel fdt token)
  unfolding node_begin_loop
  node_begin_loop-Gives zero low token h after = absurd (omega arith)
  node_begin_loop-Gives (suc rounds) low token h after =
      Gives-if _ (token == null) _ _ (λ e. (null, refl, inl refl))
        λ ne.
          let inside : InBlock m fdt token × (struct_end m fdt < token + suc rounds) =
            ground arith in
          let above : low ≤ token = ground arith in
          let step =
            Gives-then _ (Stepped m fuel fdt top rounds token) (fdt_next_token m fuel fdt token)
              (λ next. node_begin_loop m rounds fuel fdt next)
              (advance m fuel fdt top blob rounds token inside.0 inside.1)
              λ next stepped. node_begin_loop-Gives rounds low next stepped.0 (ground arith) in
          Gives-if _ (token_at m token == begin_node) _ _
            (λ e. (token, refl, inr (above, inside.0, ==→eq _ _ e))) λ other. step

  subnode_loop-Gives :
      (rounds low : ℕ) (token : Ptr)
      → Enough m fuel fdt top rounds token
      → After m fuel fdt top low token
      → Gives (Lands m fuel fdt top begin_node low) (subnode_loop m rounds fuel fdt token)
  unfolding subnode_loop
  subnode_loop-Gives zero low token h after = absurd (omega arith)
  subnode_loop-Gives (suc rounds) low token h after =
      Gives-if _ (token == null) _ _ (λ e. (null, refl, inl refl))
        λ ne.
          let inside : InBlock m fdt token × (struct_end m fdt < token + suc rounds) =
            ground arith in
          let above : low ≤ token = ground arith in
          let step =
            Gives-then _ (Stepped m fuel fdt top rounds token) (fdt_next_token m fuel fdt token)
              (λ next. subnode_loop m rounds fuel fdt next)
              (advance m fuel fdt top blob rounds token inside.0 inside.1)
              λ next stepped. subnode_loop-Gives rounds low next stepped.0 (ground arith) in
          Gives-if _ (token_at m token == begin_node) _ _
            (λ e. (token, refl, inr (above, inside.0, ==→eq _ _ e)))
            λ other.
              Gives-if _ (token_at m token == nop || token_at m token == prop_token) _ _ (λ e. step)
                (λ e. (null, refl, inl refl))

  -- The node and the depth: the node is as for the other walks.
  abbrev pub LandsPair : ℕ → Ptr × ℤ → Type 0
  LandsPair low r = Lands m fuel fdt top begin_node low r.0

  next_node_loop-Gives :
      (rounds low : ℕ) (token : Ptr) (depth increase : ℤ)
      → Enough m fuel fdt top rounds token
      → After m fuel fdt top low token
      → Gives (LandsPair low) (next_node_loop m rounds fuel fdt token depth increase)
  unfolding next_node_loop
  next_node_loop-Gives zero low token depth increase h after = absurd (omega arith)
  next_node_loop-Gives (suc rounds) low token depth increase h after =
      Gives-if _ (token == null) _ _ (λ e. ((null, depth), refl, inl refl))
        λ ne.
          let inside : InBlock m fdt token × (struct_end m fdt < token + suc rounds) =
            ground arith in
          let above : low ≤ token = ground arith in
          Gives-if _ (token_at m token == begin_node) _ _
            (λ e. ((token, _), refl, inr (above, inside.0, ==→eq _ _ e)))
            λ other.
              Gives-then _ (Stepped m fuel fdt top rounds token) (fdt_next_token m fuel fdt token) _
                (advance m fuel fdt top blob rounds token inside.0 inside.1)
                λ next stepped.
                  next_node_loop-Gives rounds low next depth _ stepped.0 (ground arith)

  -- From a token of the block the next node is found with its depth.
  pub fdt_next_node-Gives :
      (node : Ptr) (depth : ℤ)
      → InBlock m fdt node
      → Gives (LandsPair (node + 4)) (fdt_next_node m fuel fdt node depth)
  unfolding fdt_next_node
  fdt_next_node-Gives node depth inside =
      Gives-then _ (Stepped m fuel fdt top fuel node) (fdt_next_token m fuel fdt node) _
        (advance_first m fuel fdt top blob node inside)
        λ next stepped. next_node_loop-Gives fuel (node + 4) next depth (pos 1) stepped.0 stepped.1

  pub next_node-Gives :
      (node : Ptr)
      → InBlock m fdt node
      → Gives (Lands m fuel fdt top begin_node (node + 4)) (next_node m fuel fdt node)
  unfolding next_node
  next_node-Gives node inside =
      Gives-then _ (LandsPair (node + 4)) (fdt_next_node m fuel fdt node (pos 0)) _
        (fdt_next_node-Gives node (pos 0) inside) λ r lands. (r.0, refl, lands)

  pub fdt_node_begin-Gives :
      InBlock m fdt (struct_start m fdt)
      → Gives (Lands m fuel fdt top begin_node (struct_start m fdt)) (fdt_node_begin m fuel fdt)
  unfolding fdt_node_begin fdt_token_begin
  fdt_node_begin-Gives inside =
      let e = blob.enough in
      let t = blob.ends in
      node_begin_loop-Gives fuel (struct_start m fdt) (struct_start m fdt) (ground arith)
        (ground arith)

  fdt_node_subnode_begin-Gives :
      (node : Ptr)
      → InBlock m fdt node
      → Gives (Lands m fuel fdt top begin_node (node + 4)) (fdt_node_subnode_begin m fuel fdt node)
  unfolding fdt_node_subnode_begin
  fdt_node_subnode_begin-Gives node inside =
      Gives-then _ (Stepped m fuel fdt top fuel node) (fdt_next_token m fuel fdt node) _
        (advance_first m fuel fdt top blob node inside)
        λ next stepped. subnode_loop-Gives fuel (node + 4) next stepped.0 stepped.1

  -- Every walk over nodes ends. From a token of the block, the next node, whatever depth is kept, and
  -- the first child are NULL or a node of the block that lies behind the token; and if the block is
  -- not empty, the first node of the tree is NULL or a node of the block.
  pub node_walks-Gives :
      (node : Ptr) (depth : ℤ)
      → InBlock m fdt node
      → Gives (LandsPair (node + 4)) (fdt_next_node m fuel fdt node depth)
        × Gives
            (Lands m fuel fdt top begin_node (node + 4))
            (fdt_node_subnode_begin m fuel fdt node)
        × Gives (Lands m fuel fdt top begin_node (struct_start m fdt)) (fdt_node_begin m fuel fdt)
  node_walks-Gives node depth inside = (
    fdt_next_node-Gives node depth inside,
    fdt_node_subnode_begin-Gives node inside,
    fdt_node_begin-Gives (omega arith),
  )

  max_depth_loop-Gives :
      (rounds : ℕ) (node : Ptr) (depth max_depth : ℤ)
      → Enough m fuel fdt top rounds node
      → pos 0 ≤ℤ max_depth
      → Gives (λ d. pos 0 ≤ℤ d) (max_depth_loop m rounds fuel fdt node depth max_depth)
  unfolding max_depth_loop
  max_depth_loop-Gives zero node depth max_depth h positive = absurd (omega arith)
  max_depth_loop-Gives (suc rounds) node depth max_depth h positive =
      Gives-if _ (node == null) _ _ (λ e. (max_depth, refl, positive))
        λ ne.
          let inside : InBlock m fdt node × (struct_end m fdt < node + suc rounds) = ground arith in
          Gives-then _ (LandsPair (node + 4)) (fdt_next_node m fuel fdt node depth) _
            (fdt_next_node-Gives node depth inside.0)
            λ r lands.
              max_depth_loop-Gives rounds r.0 r.1
                (if ltb_ℤ max_depth depth then depth else max_depth) (ground arith) (ground arith)

  -- For a block that is not empty `fdt_max_depth` returns, and its result is never negative, so that the
  -- tests for a corrupted tree behind it never hold.
  pub fdt_max_depth-Gives :
      InBlock m fdt (struct_start m fdt) → Gives (λ d. pos 0 ≤ℤ d) (fdt_max_depth m fuel fdt)
  unfolding fdt_max_depth
  fdt_max_depth-Gives inside =
      Gives-then _ (Lands m fuel fdt top begin_node (struct_start m fdt))
        (fdt_node_begin m fuel fdt) _ (fdt_node_begin-Gives inside)
        λ node lands.
          let e = blob.enough in
          let t = blob.ends in
          max_depth_loop-Gives fuel node (pos 0) (pos 0) (ground arith) (omega arith)
