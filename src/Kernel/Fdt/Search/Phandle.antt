-- ===== src/Kernel/Fdt/Search/Phandle.antt =====
-- The search by phandle, in a tree in which it ends, against the list of the nodes.
use riscy_os.Prelude.{
  Returns, ◌&&◌, ◌⊎◌, List, Gives, inr, inl, refl, ℕ, ◌≡◌, ◌≢◌, Bool, not, Ptr, null, ◌==◌, Run, ok,
  ◌>>=◌, ne→==,
}
use riscy_os.Kernel.Endian.{Machine}
use riscy_os.Kernel.Fdt.Token.Trace.{Each, Each-map, Item, First, first_of-First}
use riscy_os.Kernel.Fdt.Prop.{fdt_get_prop_by_name, fdt_prop_num_cells, fdt_prop_get_cell}
use riscy_os.Kernel.Fdt.Search.{Literals, phandle_loop, fdt_find_node_by_phandle}
use riscy_os.Kernel.Fdt.Search.First.{nodes, Searches, Ahead, search_begin}

module _ (lits : Literals) (m : Machine) (fuel fdt : ℕ) where
  -- The node has no property `phandle`, or one of one cell.
  abbrev pub OneCell : Ptr → Type 0
  OneCell node =
      (prop : Ptr) × (fdt_get_prop_by_name m fuel fdt node null lits.phandle ≡ ok prop)
      × ((prop ≡ null) ⊎ ((prop ≢ null) × (fdt_prop_num_cells m prop ≡ 1)))

  -- The node has a property `phandle` whose first cell is the number.
  pub phandle_is : ℕ → Ptr → Run Bool
  phandle_is phandle node = do
    prop ← fdt_get_prop_by_name m fuel fdt node null lits.phandle
    ok (not (prop == null) && fdt_prop_get_cell m prop 0 == phandle)

  phandle_is-Returns :
      (phandle node prop : ℕ)
      → fdt_get_prop_by_name m fuel fdt node null lits.phandle ≡ ok prop
      → Returns (phandle_is phandle node)
  unfolding phandle_is
  phandle_is-Returns phandle node prop found = rw found (_, refl)

  phandle_loop-Searches :
      (phandle : ℕ)
      → Searches m fuel fdt
          (phandle_is phandle)
          OneCell
          (λ rounds node. phandle_loop lits m rounds fuel fdt phandle node)
  unfolding phandle_loop phandle_is
  phandle_loop-Searches phandle = record {
    ends = λ rounds. refl;
    goes_on = λ rounds node next ne (prop, found, cells) run. elim cells [
      | inl absent ↦ rw (ne→== node 0 ne, found, absent, run) refl
      | inr (present, one) ↦ rw (ne→== node 0 ne, found, ne→== prop 0 present, one, run) refl
    ];
  }

  -- For the tokens of the whole block if `start` is NULL, and else for those behind the node `start`, if
  -- they are fewer than the fuel, and if at each node among them the lookup of the property `phandle`
  -- returns and finds none, or one of one cell: the search by phandle gives the first of these nodes whose
  -- property holds the number, and NULL if there is none.
  pub fdt_find_node_by_phandle-First :
      (start phandle : ℕ) (items : List Item)
      → Ahead m fuel fdt start items
      → Each OneCell (nodes items)
      → Gives
          (First (phandle_is phandle) (nodes items))
          (fdt_find_node_by_phandle lits m fuel fdt start phandle)
  unfolding fdt_find_node_by_phandle
  fdt_find_node_by_phandle-First start phandle items ahead each =
      let (node, begins, walk) = search_begin m fuel fdt start items ahead in
      let returns =
        Each-map (nodes items) (λ n (prop, found, cells). phandle_is-Returns phandle n prop found)
          each in
      rw (begins, walk (phandle_is phandle) OneCell _ (phandle_loop-Searches phandle) each)
        (first_of-First (phandle_is phandle) (nodes items) returns)
