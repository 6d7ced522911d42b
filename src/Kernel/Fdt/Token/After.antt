-- ===== src/Kernel/Fdt/Token/After.antt =====
-- The token behind a node against the list of the tokens.
use mathlib.Core.Path.{subst}
use riscy_os.Prelude.{
  Run, lt→ltb, ℕ, zero, suc, ◌+◌, ◌-◌, ◌≤◌, ◌<◌, ◌≡◌, ◌≢◌, refl, List, [], ◌∷◌, Ptr, null, ltb,
  ◌==◌, if◌then◌else◌, length, arith, ok, ne→==,
}
use riscy_os.Kernel.Endian.{Machine}
use riscy_os.Kernel.Fdt.Token.{
  begin_node, end_node, token_at, after_node_loop, fdt_next_token_after_node,
}
use riscy_os.Kernel.Fdt.Token.Trace.{Item, Trace, Behind}

-- The nodes that are open behind a token.
abbrev pub level : ℕ → ℕ → ℕ
level kind depth =
    if kind == begin_node then suc depth else if kind == end_node then depth - 1 else depth

-- What is left where as many nodes have ended as are open.
abbrev pub after : ℕ → List Item → List Item
after zero items = items
after (suc depth) [] = []
after (suc depth) ((p, kind) ∷ items) = after (level kind (suc depth)) items

-- The address of the first item.
abbrev pub first : List Item → Ptr
first [] = null
first ((p, kind) ∷ items) = p

module _ (m : Machine) (fuel fdt : ℕ) where
  pub Trace-first :
      (token : Ptr) (items : List Item) → Trace m fuel fdt token items → token ≡ first items
  Trace-first token [] trace = trace
  Trace-first token ((p, kind) ∷ items) trace = trace.0

  pub Trace-after :
      (depth token : ℕ) (items : List Item)
      → Trace m fuel fdt token items
      → Trace m fuel fdt (first (after depth items)) (after depth items)
        × (length (after depth items) ≤ length items)
  Trace-after zero token items trace =
      (subst (λ t. Trace m fuel fdt t items) (Trace-first token items trace) trace, omega arith)
  Trace-after (suc depth) token [] trace = (refl, omega arith)
  Trace-after (suc depth) token ((p, kind) ∷ items) (at, ne, same, (next, run, trace)) =
      let (later, short) = Trace-after (level kind (suc depth)) next items trace in
      (later, omega (arith, short))

  -- A round at a token that another follows.
  round-after :
      (depth : ℕ) (q kind : ℕ) (items : List Item) (again : Run Ptr)
      → (0 < depth → again ≡ ok (first (after (level kind depth) items)))
      → (if ltb 0 depth then again else ok q) ≡ ok (first (after depth ((q, kind) ∷ items)))
  round-after zero q kind items again rest = refl
  round-after (suc depth) q kind items again rest =
      let open_node : 0 < suc depth = omega arith in
      rw (lt→ltb 0 (suc depth) open_node) (rest open_node)

  after-nil : (depth : ℕ) → after depth [] ≡ []
  after-nil zero = refl
  after-nil (suc depth) = refl

  after_node_loop-after :
      (rounds p kind depth : ℕ) (items : List Item)
      → length items < rounds
      → Trace m fuel fdt p ((p, kind) ∷ items)
      → after_node_loop m rounds fuel fdt p depth ≡ ok (first (after (level kind depth) items))
  unfolding after_node_loop
  after_node_loop-after zero p kind depth items h trace = absurd (omega (arith, h))
  after_node_loop-after (suc rounds) p kind depth [] h (at, ne, same, (next, run, trace)) =
      rw (same, run, trace, after-nil (level kind depth)) refl
  after_node_loop-after (suc rounds) p kind depth ((q, kind') ∷ items) h
        (at, ne, same, (next, run, (at', ne', same', rest))) =
      let deeper : (if kind == begin_node
            then depth + 1
            else if kind == end_node
            then depth - 1
            else depth)
          ≡ level kind depth =
        ground arith in
      rw (same, run, at', ne→== q 0 ne', deeper)
        (round-after (level kind depth) q kind' items _ λ some_open.
          after_node_loop-after rounds q kind' (level kind depth) items (omega (arith, h))
            (refl, ne', same', rest))

  -- From a node the step over the whole node comes to what is behind its end.
  pub fdt_next_token_after_node-after :
      (node : Ptr) (items : List Item)
      → node ≢ null
      → token_at m node ≡ begin_node
      → Behind m fuel fdt node items
      → fdt_next_token_after_node m fuel fdt node ≡ ok (first (after 1 items))
  unfolding fdt_next_token_after_node
  fdt_next_token_after_node-after node items ne begins (short, behind) =
      rw (ne→== node 0 ne)
        (after_node_loop-after fuel node begin_node 0 items short (refl, ne, begins, behind))
