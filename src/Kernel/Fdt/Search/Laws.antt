-- ===== src/Kernel/Fdt/Search/Laws.antt =====
-- What the searches over the nodes find, and where the search by phandle does not end.
use riscy_os.Prelude.{
  ℕ, zero, suc, ◌+◌, ◌<◌, ◌≡◌, refl, ◌≢◌, Bool, true, ◌⊎◌, inl, inr, Ptr, null, ◌==◌, arith, ap,
  ◌∙◌, Run, ok, no_return, Returns, Gives, Gives-if, Gives-bind, Gives-then, ne→==,
}
use riscy_os.Kernel.Endian.{Machine}
use riscy_os.Kernel.Fdt.Token.{begin_node, struct_end}
use riscy_os.Kernel.Fdt.Token.Progress.{InBlock, IsBlob}
use riscy_os.Kernel.Fdt.Token.Walk.{Enough, Lands}
use riscy_os.Kernel.Fdt.Node.{next_node}
use riscy_os.Kernel.Fdt.Node.Walks.{next_node-Gives}
use riscy_os.Kernel.Fdt.Prop.{fdt_get_prop_by_name, fdt_prop_num_cells}
use riscy_os.Kernel.Fdt.Search.{Literals, find_loop, phandle_loop}

module _ (m : Machine) (fuel fdt top : ℕ) (blob : IsBlob m fuel fdt top) (test : Ptr → Run Bool)
    (returns : (node : Ptr) → Returns (test node)) where
  -- NULL, or a node of the block from `low` on that passes the test.
  abbrev pub Found : ℕ → Ptr → Type 0
  Found low r = Lands m fuel fdt top begin_node low r × ((r ≡ null) ⊎ (test r ≡ ok true))

  -- The loop that the searches share, from NULL or a node of the block on, returns if the test does;
  -- it gives NULL, or a node of the block that passes the test and does not lie before the first.
  pub find_loop-Gives :
      (rounds low : ℕ) (node : Ptr)
      → Lands m fuel fdt top begin_node low node
      → Enough m fuel fdt top rounds node
      → Gives (Found low) (find_loop m test rounds fuel fdt node)
  unfolding find_loop
  find_loop-Gives zero low node lands h = absurd (omega arith)
  find_loop-Gives (suc rounds) low node lands h =
      Gives-if _ (node == null) _ _ (λ e. (null, refl, (inl refl, inl refl)))
        λ ne.
          let inside : InBlock m fdt node × (struct_end m fdt < node + suc rounds) = ground arith in
          Gives-bind _ (test node) _ (returns node) λ found passed.
            Gives-if _ found _ _ (λ e. (node, refl, (lands, inr (passed ∙ ap ok e))))
              λ e.
                Gives-then _ (Lands m fuel fdt top begin_node (node + 4))
                  (next_node m fuel fdt node) _ (next_node-Gives m fuel fdt top blob node inside.0)
                  λ next next_lands. find_loop-Gives rounds low next (ground arith) (ground arith)

-- A node whose `phandle` property has not exactly one cell is never left: from it the search by
-- phandle does not return, with any fuel.
pub phandle_loop-stuck :
    (lits : Literals) (m : Machine) (rounds fuel fdt phandle node prop : ℕ)
    → node ≢ null
    → fdt_get_prop_by_name m fuel fdt node null lits.phandle ≡ ok prop
    → prop ≢ null
    → fdt_prop_num_cells m prop ≢ 1
    → phandle_loop lits m rounds fuel fdt phandle node ≡ no_return
unfolding phandle_loop
phandle_loop-stuck lits m zero fuel fdt phandle node prop ne found some_prop cells = refl
phandle_loop-stuck lits m (suc rounds) fuel fdt phandle node prop ne found some_prop cells =
    rw (ne→== node 0 ne, found, ne→== prop 0 some_prop, ne→== (fdt_prop_num_cells m prop) 1 cells)
      (phandle_loop-stuck lits m rounds fuel fdt phandle node prop ne found some_prop cells)
