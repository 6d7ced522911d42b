-- ===== src/Kernel/Fdt/Node/Seek.antt =====
-- The step from a node to the next against the list of the tokens.
use mathlib.Core.Path.{subst}
use riscy_os.Prelude.{
  ℕ, zero, suc, ◌<◌, ◌≡◌, ◌≢◌, refl, Option, none, some, List, [], ◌∷◌, inl, inr, Ptr, null, ◌==◌,
  ==→eq, if◌then◌else◌, length, arith, Bool-cases, ok, ne→==,
}
use riscy_os.Prelude.Int.{ℤ, pos, ◌+ℤ◌, ◌-ℤ◌}
use riscy_os.Kernel.Endian.{Machine}
use riscy_os.Kernel.Fdt.Token.{struct_start, fdt_token_begin, begin_node, end_node}
use riscy_os.Kernel.Fdt.Token.Trace.{Item, Trace, Behind}
use riscy_os.Kernel.Fdt.Node.{fdt_node_begin, node_begin_loop, next_node_loop, fdt_next_node}

-- The first token that begins a node: how far the depth has gone up, the node, and what follows.
abbrev pub Next : Type 0
Next = Option (ℤ × Ptr × List Item)

abbrev pub next_begin : ℤ → List Item → Next
next_begin increase [] = none
next_begin increase ((p, kind) ∷ items) =
    if kind == begin_node
    then some (increase, p, items)
    else next_begin (if kind == end_node then increase -ℤ pos 1 else increase) items

-- The node and the depth that a walk gives.
abbrev pub landing : ℤ → Next → Ptr × ℤ
landing depth none = (null, depth)
landing depth (some (increase, p, items)) = (p, depth +ℤ increase)

abbrev found : ℤ → Ptr → List Item → Next
found i p items = some (i, p, items)

found_parts :
    (i j : ℤ) (p q : Ptr) (xs ys : List Item) → found i p xs ≡ found j q ys → (p ≡ q) × (xs ≡ ys)
found_parts i j p q xs ys e = (cc, cc)

module _ (m : Machine) (fuel fdt : ℕ) where
  next_node_loop-next_begin :
      (rounds : ℕ) (token : Ptr) (items : List Item) (depth increase : ℤ)
      → length items < rounds
      → Trace m fuel fdt token items
      → next_node_loop m rounds fuel fdt token depth increase
        ≡ ok (landing depth (next_begin increase items))
  unfolding next_node_loop
  next_node_loop-next_begin zero token items depth increase h trace = absurd (omega (arith, h))
  next_node_loop-next_begin (suc rounds) token [] depth increase h trace = rw trace refl
  next_node_loop-next_begin (suc rounds) token ((p, kind) ∷ items) depth increase h
        (at, some_token, same, (next, run, trace)) =
      elim (Bool-cases (kind == begin_node)) [
        | inl begins ↦
            let k : kind ≡ begin_node = ==→eq _ _ begins in
            rw (at, ne→== p 0 some_token, same, k) refl
        | inr other ↦
            rw (at, ne→== p 0 some_token, same, other, run)
              (next_node_loop-next_begin rounds next items depth _ (omega (arith, h)) trace)
      ]

  node_begin_loop-next_begin :
      (rounds : ℕ) (token : Ptr) (items : List Item) (depth increase : ℤ)
      → length items < rounds
      → Trace m fuel fdt token items
      → node_begin_loop m rounds fuel fdt token ≡ ok ((landing depth (next_begin increase items)).0)
  unfolding node_begin_loop
  node_begin_loop-next_begin zero token items depth increase h trace = absurd (omega (arith, h))
  node_begin_loop-next_begin (suc rounds) token [] depth increase h trace = rw trace refl
  node_begin_loop-next_begin (suc rounds) token ((p, kind) ∷ items) depth increase h
        (at, some_token, same, (next, run, trace)) =
      elim (Bool-cases (kind == begin_node)) [
        | inl begins ↦ rw (at, ne→== p 0 some_token, same, begins) refl
        | inr other ↦
            rw (at, ne→== p 0 some_token, same, other, run)
              (node_begin_loop-next_begin rounds next items depth _ (omega (arith, h)) trace)
      ]

  -- The first node of the tree.
  pub fdt_node_begin-next_begin :
      (items : List Item) (depth increase : ℤ)
      → length items < fuel
      → Trace m fuel fdt (struct_start m fdt) items
      → fdt_node_begin m fuel fdt ≡ ok ((landing depth (next_begin increase items)).0)
  unfolding fdt_node_begin fdt_token_begin
  fdt_node_begin-next_begin items depth increase short trace =
      node_begin_loop-next_begin fuel (struct_start m fdt) items depth increase short trace

  -- The step from a node, with the items behind it.
  pub fdt_next_node-next_begin :
      (node : Ptr) (items : List Item) (depth : ℤ)
      → Behind m fuel fdt node items
      → fdt_next_node m fuel fdt node depth ≡ ok (landing depth (next_begin (pos 1) items))
  unfolding fdt_next_node
  fdt_next_node-next_begin node items depth (short, (next, run, trace)) =
      rw run (next_node_loop-next_begin fuel next items depth (pos 1) short trace)

  -- What follows the node that is found is behind it.
  pub Behind-next_begin :
      (token : Ptr) (items : List Item) (increase : ℤ) (i : ℤ) (p : Ptr) (later : List Item)
      → length items < fuel
      → Trace m fuel fdt token items
      → next_begin increase items ≡ some (i, p, later)
      → (p ≢ null) × (length later < length items) × Behind m fuel fdt p later
  Behind-next_begin token [] increase i p later short trace e = cc
  Behind-next_begin token ((q, kind) ∷ items) increase i p later short
        (at, some_token, same, (next, run, trace)) e =
      elim (Bool-cases (kind == begin_node)) [
        | inl begins ↦
            let landed : found increase q items ≡ found i p later = rw begins at e in
            let (here, rest) = found_parts increase i q p items later landed in
            subst
              (λ r. (r ≢ null) × (length later < suc (length items)) × Behind m fuel fdt r later)
              here
              (subst (λ l. (q ≢ null) × (length l < suc (length items)) × Behind m fuel fdt q l)
                rest (some_token, omega arith, (omega (arith, short), (next, run, trace))))
        | inr other ↦
            let (ne, fewer, behind) =
              Behind-next_begin next items _ i p later (omega (arith, short)) trace
                (rw other at e) in
            (ne, omega (arith, fewer), behind)
      ]
