-- ===== src/Kernel/Fdt/Node/Children.antt =====
-- The walk over the children of a node against the list of the tokens.
use riscy_os.Prelude.{
  ℕ, zero, suc, ◌<◌, ◌≡◌, ◌≢◌, refl, List, [], ◌∷◌, inl, inr, Ptr, null, ◌==◌, ◌||◌, ==→eq,
  if◌then◌else◌, length, arith, ap, ◌∙◌, Bool-cases, ok, ne→==,
}
use riscy_os.Kernel.Endian.{Machine}
use riscy_os.Kernel.Fdt.Token.{begin_node, prop_token, nop}
use riscy_os.Kernel.Fdt.Token.Trace.{Item, Trace, Behind, Behind-InBlock}
use riscy_os.Kernel.Fdt.Token.Progress.{InBlock, IsBlob}
use riscy_os.Kernel.Fdt.Token.After.{
  level, after, first, Trace-after, fdt_next_token_after_node-after,
}
use riscy_os.Kernel.Fdt.Node.{subnode_loop, fdt_node_subnode_begin, fdt_node_next_subnode}

-- The nodes that begin among the items with `depth` nodes open, up to where the node around them ends
-- or a token of another kind stands.
abbrev pub children : ℕ → List Item → List Ptr
children depth [] = []
children zero ((p, kind) ∷ items) =
    if kind == begin_node
    then p ∷ children 1 items
    else if kind == nop || kind == prop_token
    then children 0 items
    else []
children (suc depth) ((p, kind) ∷ items) = children (level kind (suc depth)) items

-- The items from the first child on.
abbrev enter : List Item → List Item
enter [] = []
enter ((p, kind) ∷ items) =
    if kind == begin_node
    then (p, kind) ∷ items
    else if kind == nop || kind == prop_token
    then enter items
    else []

children-after :
    (depth : ℕ) (items : List Item) → children depth items ≡ children 0 (after depth items)
children-after zero items = refl
children-after (suc depth) [] = refl
children-after (suc depth) ((p, kind) ∷ items) = children-after (level kind (suc depth)) items

-- The children behind the first one are those behind its end.
abbrev Entered : List Ptr → ℕ → List Item → Type 0
Entered cs n [] = cs ≡ []
Entered cs n ((c, kind) ∷ later) =
    (kind ≡ begin_node) × (length later < n) × (cs ≡ c ∷ children 0 (after 1 later))

Entered-weaken : (cs : List Ptr) (n : ℕ) (xs : List Item) → Entered cs n xs → Entered cs (suc n) xs
Entered-weaken cs n [] e = e
Entered-weaken cs n ((c, kind) ∷ later) (begins, short, e) = (begins, omega (arith, short), e)

Entered-enter : (items : List Item) → Entered (children 0 items) (length items) (enter items)
Entered-enter [] = refl
Entered-enter ((p, kind) ∷ items) = elim (Bool-cases (kind == begin_node)) [
  | inl begins ↦ rw begins (==→eq _ _ begins, omega arith, ap (λ l. p ∷ l) (children-after 1 items))
  | inr other ↦ elim (Bool-cases (kind == nop || kind == prop_token)) [
    | inl over ↦
        rw (other, over)
          (Entered-weaken (children 0 items) (length items) (enter items) (Entered-enter items))
    | inr last ↦ rw (other, last) refl
  ]
]

module _ (m : Machine) (fuel fdt : ℕ) where
  Trace-enter :
      (token : ℕ) (items : List Item)
      → Trace m fuel fdt token items
      → Trace m fuel fdt (first (enter items)) (enter items)
  Trace-enter token [] trace = refl
  Trace-enter token ((p, kind) ∷ items) (at, ne, same, (next, run, trace)) =
      elim (Bool-cases (kind == begin_node)) [
        | inl begins ↦ rw begins (refl, ne, same, (next, run, trace))
        | inr other ↦ elim (Bool-cases (kind == nop || kind == prop_token)) [
          | inl over ↦ rw (other, over) (Trace-enter next items trace)
          | inr last ↦ rw (other, last) refl
        ]
      ]

  subnode_loop-enter :
      (rounds token : ℕ) (items : List Item)
      → length items < rounds
      → Trace m fuel fdt token items
      → subnode_loop m rounds fuel fdt token ≡ ok (first (enter items))
  unfolding subnode_loop
  subnode_loop-enter zero token items h trace = absurd (omega (arith, h))
  subnode_loop-enter (suc rounds) token [] h trace = rw trace refl
  subnode_loop-enter (suc rounds) token ((p, kind) ∷ items) h (at, ne, same, (next, run, trace)) =
      elim (Bool-cases (kind == begin_node)) [
        | inl begins ↦ rw (at, ne→== p 0 ne, same, begins) refl
        | inr other ↦ elim (Bool-cases (kind == nop || kind == prop_token)) [
          | inl over ↦
              rw (at, ne→== p 0 ne, same, other, over, run)
                (subnode_loop-enter rounds next items (omega (arith, h)) trace)
          | inr last ↦ rw (at, ne→== p 0 ne, same, other, last) refl
        ]
      ]

  -- `child` is the first of the addresses, and `fdt_node_next_subnode` gives the others.
  abbrev pub Siblings : Ptr → List Ptr → Type 0
  Siblings child [] = child ≡ null
  Siblings child (c ∷ cs) =
      (child ≡ c)
      × (c ≢ null)
      × ((next : Ptr) × (fdt_node_next_subnode m fuel fdt c ≡ ok next) × Siblings next cs)

  -- From a token on, the walk comes to the children that are left.
  abbrev Walked : Ptr → List Item → Type 0
  Walked token items =
      (child : Ptr) × (subnode_loop m fuel fuel fdt token ≡ ok child)
      × Siblings child (children 0 items)

  -- The walk at a child, if it is known from behind the child's end.
  child-Siblings :
      (c kind : ℕ) (later : List Item) (cs : List Ptr)
      → kind ≡ begin_node
      → cs ≡ c ∷ children 0 (after 1 later)
      → length later < fuel
      → Trace m fuel fdt c ((c, kind) ∷ later)
      → Walked (first (after 1 later)) (after 1 later)
      → Siblings c cs
  unfolding fdt_node_next_subnode
  child-Siblings c kind later cs begins split short (at, ne, same, behind) (child, run, siblings) =
      rw split (
        refl,
        ne,
        (
          child,
          rw (fdt_next_token_after_node-after m fuel fdt c later ne (same ∙ begins) (short, behind))
              run,
          siblings,
        ),
      )

  subnode_loop-Siblings :
      (bound token : ℕ) (items : List Item)
      → length items < bound
      → length items < fuel
      → Trace m fuel fdt token items
      → Walked token items
  subnode_loop-Siblings zero token items h short trace = absurd (omega (arith, h))
  subnode_loop-Siblings (suc bound) token items h short trace =
      go (enter items) (Entered-enter items) (Trace-enter token items trace)
        (subnode_loop-enter fuel token items short trace)
        (λ later fewer behind.
          subnode_loop-Siblings bound (first later) later (omega (arith, fewer, h))
            (omega (arith, fewer, short)) behind)
    where
      go :
          (xs : List Item)
          → Entered (children 0 items) (length items) xs
          → Trace m fuel fdt (first xs) xs
          → subnode_loop m fuel fuel fdt token ≡ ok (first xs)
          → ((later : List Item)
              → length later < length items
              → Trace m fuel fdt (first later) later
              → Walked (first later) later)
          → Walked token items
      go [] none_left entered run rest = (null, run, rw none_left refl)
      go ((c, kind) ∷ later) (begins, fewer, split) entered run rest =
          let (next, start_run, behind) = entered.3 in
          let (behind_child, no_more) = Trace-after m fuel fdt 1 next later behind in
          (
            c,
            run,
            child-Siblings c kind later (children 0 items) begins split
                (omega (arith, fewer, short)) entered
                (rest (after 1 later) (omega (arith, no_more, fewer)) behind_child),
          )

  -- The walk over the children of a node.
  pub fdt_node_subnode_begin-children :
      (node : Ptr) (items : List Item)
      → Behind m fuel fdt node items
      → (child : Ptr) × (fdt_node_subnode_begin m fuel fdt node ≡ ok child)
        × Siblings child (children 0 items)
  unfolding fdt_node_subnode_begin
  fdt_node_subnode_begin-children node items (short, (next, run, trace)) =
      let (child, found, siblings) = subnode_loop-Siblings fuel next items short short trace in
      (child, rw run found, siblings)

-- In a tree with enough fuel, for a node of the block: `fdt_node_subnode_begin` returns, and from what it
-- gives `fdt_node_next_subnode` goes through exactly the children of the node, which are the nodes that
-- begin behind it with no other node open, up to its end or a token of another kind. It comes to each
-- once and in their order, and gives NULL behind the last one.
pub fdt_node_subnode_begin-Siblings :
    (m : Machine) (fuel fdt top : ℕ)
    → IsBlob m fuel fdt top
    → (node : Ptr) → InBlock m fdt node
    → (items : List Item) × Behind m fuel fdt node items
      × ((child : Ptr) × (fdt_node_subnode_begin m fuel fdt node ≡ ok child)
          × Siblings m fuel fdt child (children 0 items))
fdt_node_subnode_begin-Siblings m fuel fdt top blob node inside =
    let (items, behind) = Behind-InBlock m fuel fdt top blob node inside in
    (items, behind, fdt_node_subnode_begin-children m fuel fdt node items behind)
