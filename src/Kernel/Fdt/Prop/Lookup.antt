-- ===== src/Kernel/Fdt/Prop/Lookup.antt =====
-- The lookup of a property by its name.
use riscy_os.Prelude.{
  ℕ, zero, suc, ◌+◌, ◌<◌, ◌≡◌, refl, ◌≢◌, true, false, not, List, [], ◌∷◌, ◌⊎◌, inl, inr, Ptr, null,
  ◌==◌, length, arith, Bool-cases, ap, ◌&&◌, ◌∙◌, add64, ok, Returns, Returns-if, Gives, Gives-if,
  Gives-bind, Gives-then, ne→==,
}
use riscy_os.Kernel.Endian.{Machine}
use riscy_os.Libc.Text.{strcmp, strcmp_loop, is_zero}
use riscy_os.Libc.Text.Laws.{Holds}
use riscy_os.Kernel.Fdt.Token.{prop_token, struct_end}
use riscy_os.Kernel.Fdt.Token.Progress.{InBlock, IsBlob}
use riscy_os.Kernel.Fdt.Token.Walk.{Enough, Lands}
use riscy_os.Kernel.Fdt.Prop.{
  fdt_node_prop_begin, fdt_node_next_prop, fdt_prop_name, name_matches, by_name_loop,
  fdt_get_prop_by_name,
}
use riscy_os.Kernel.Fdt.Prop.Walks.{fdt_node_prop-Gives}

strcmp_loop-Returns :
    (m : Machine) (fuel lhs rhs : ℕ) (s : List ℕ)
    → Holds m lhs s
    → length s < fuel
    → Returns (strcmp_loop m fuel lhs rhs)
unfolding strcmp_loop
strcmp_loop-Returns m zero lhs rhs s text enough = absurd (omega arith)
strcmp_loop-Returns m (suc fuel) lhs rhs [] text enough =
    let stop : (m.byte lhs == m.byte rhs && not (m.byte lhs == 0)) ≡ false = ground (arith, text) in
    rw stop (_, refl)
strcmp_loop-Returns m (suc fuel) lhs rhs (c ∷ s) text enough =
    Returns-if (m.byte lhs == m.byte rhs && not (m.byte lhs == 0)) _ _
      (strcmp_loop-Returns m fuel (add64 lhs 1) (add64 rhs 1) s text.2 (omega arith)) (_, refl)

module _ (m : Machine) (fuel fdt top : ℕ) (blob : IsBlob m fuel fdt top) (name : Ptr) (s : List ℕ)
    (ne : name ≢ null) (text : Holds m name s) (short : length s < fuel) where
  pub name_matches-Returns : (prop : Ptr) → Returns (name_matches m fuel fdt name prop)
  unfolding name_matches strcmp
  name_matches-Returns prop = elim (Bool-cases (fdt_prop_name m fdt prop == null)) [
    | inl nameless ↦ rw nameless (false, refl)
    | inr named ↦
        let (c, run) = strcmp_loop-Returns m fuel name (fdt_prop_name m fdt prop) s text short in
        (is_zero c, rw (named, ne→== name 0 ne) (rw run refl))
  ]

  -- NULL, or a property of the block from `low` on whose name is the one that is looked for.
  abbrev pub Named : ℕ → Ptr → Type 0
  Named low r =
      Lands m fuel fdt top prop_token low r
      × ((r ≡ null) ⊎ (name_matches m fuel fdt name r ≡ ok true))

  by_name_loop-Gives :
      (rounds low : ℕ) (prop : Ptr)
      → Lands m fuel fdt top prop_token low prop
      → Enough m fuel fdt top rounds prop
      → Gives (Named low) (by_name_loop m rounds fuel fdt name prop)
  unfolding by_name_loop
  by_name_loop-Gives zero low prop lands h = absurd (omega arith)
  by_name_loop-Gives (suc rounds) low prop lands h =
      Gives-if _ (prop == null) _ _ (λ e. (null, refl, (inl refl, inl refl)))
        λ some_prop.
          let inside : InBlock m fdt prop × (struct_end m fdt < prop + suc rounds) = ground arith in
          Gives-bind _ (name_matches m fuel fdt name prop) _ (name_matches-Returns prop)
            λ found passed.
              Gives-if _ found _ _ (λ e. (prop, refl, (lands, inr (passed ∙ ap ok e))))
                λ e.
                  Gives-then _ (Lands m fuel fdt top prop_token (prop + 4))
                    (fdt_node_next_prop m fuel fdt prop) _
                    (fdt_node_prop-Gives m fuel fdt top blob prop inside.0).1
                    λ next next_lands.
                      by_name_loop-Gives rounds low next (ground arith) (ground arith)

  -- In a tree with enough fuel, from a node of the block and for a name in memory that is shorter than
  -- the fuel, the lookup of a property by its name returns: with NULL, or with a property of the block
  -- behind the node whose name `strcmp` finds equal to the one that is looked for.
  pub fdt_get_prop_by_name-Gives :
      (node : Ptr)
      → InBlock m fdt node
      → Gives (Named (node + 4)) (fdt_get_prop_by_name m fuel fdt node null name)
  unfolding fdt_get_prop_by_name
  fdt_get_prop_by_name-Gives node inside =
      let enough = blob.enough in
      let ends = blob.ends in
      Gives-then _ (Lands m fuel fdt top prop_token (node + 4))
        (fdt_node_prop_begin m fuel fdt node) _
        (fdt_node_prop-Gives m fuel fdt top blob node inside).0
        λ prop lands. by_name_loop-Gives fuel (node + 4) prop lands (ground arith, ground arith)
