-- ===== src/Kernel/Fdt/Node/Ancestors.antt =====
-- `fdt_node_get_parents` against a stack of the nodes that are open.
use riscy_os.Prelude.{
  ℕ, zero, suc, ◌<◌, ◌≤◌, ◌≡◌, ◌≢◌, refl, Option, none, some, List, [], ◌∷◌, inl, inr, Ptr, null,
  ◌==◌, if◌then◌else◌, length, set, arith, ap, ◌∙◌, Bool-cases, Run, ok, bind_returned, ne→==,
  lt→ltb, length-set,
}
use riscy_os.Prelude.Int.{ℤ, pos, pos_part, neg_part, ◌+ℤ◌, ◌-ℤ◌, ◌≤ℤ◌, ltb_ℤ, int_laws}
use riscy_os.Kernel.Endian.{Machine}
use riscy_os.Kernel.Fdt.Token.{begin_node, end_node}
use riscy_os.Kernel.Fdt.Token.Trace.{Item, Behind}
use riscy_os.Kernel.Fdt.Node.{fdt_next_node, max_depth_loop, store_branch, branch_loop, num_slots}
use riscy_os.Kernel.Fdt.Node.Seek.{
  Next, next_begin, landing, fdt_next_node-next_begin, Behind-next_begin,
}
use riscy_os.Kernel.Fdt.Node.Slots.{Held, Held-push}

-- The nodes that are open where `node` begins, nearest first; `stack` holds those that are open at the
-- head of the items. There is none if `node` is not among the items, or more ends than begins are.
abbrev pub ancestors : Ptr → List Ptr → List Item → Option (List Ptr)
ancestors node stack [] = none
ancestors node stack ((p, kind) ∷ items) =
    if kind == begin_node
    then (if p == node then some stack else ancestors node (p ∷ stack) items)
    else if kind == end_node
    then elim stack [ [] ↦ none | q ∷ stack' ↦ ancestors node stack' items ]
    else ancestors node stack items

-- A stack from which some entries are popped.
pub data Popped : List Ptr → List Ptr → Type 0 where
  same : {stack : List Ptr} → Popped stack stack
  pop : {q : Ptr} {stack low : List Ptr} → Popped stack low → Popped (q ∷ stack) low

Held-Popped :
    (branch : List (Option Ptr)) {stack low : List Ptr}
    → Popped stack low
    → Held branch stack
    → Held branch low
Held-Popped branch same h = h
Held-Popped branch (pop p) h = Held-Popped branch p h.1

-- The next node that begins behind the head of the items, on the way to `node`.
abbrev pub Reached : Ptr → List Ptr → List Ptr → ℤ → Next → Type 0
Reached node stack found depth next =
    (increase : ℤ) × (p : Ptr) × (later : List Item) × (low : List Ptr) × (next
      ≡ some (increase, p, later))
    × (depth +ℤ increase ≡ pos (length low))
    × Popped stack low
    × (ancestors node low ((p, begin_node) ∷ later) ≡ some found)

-- The end of a node pops the stack, and lowers the depth.
ended :
    (node : Ptr) (stack found : List Ptr) (items : List Item) (depth increase : ℤ)
    → ((low : List Ptr)
        → depth +ℤ (increase -ℤ pos 1) ≡ pos (length low)
        → ancestors node low items ≡ some found
        → Reached node low found depth (next_begin (increase -ℤ pos 1) items))
    → depth +ℤ increase ≡ pos (length stack)
    → elim stack [ [] ↦ none | q ∷ low ↦ ancestors node low items ] ≡ some found
    → Reached node stack found depth (next_begin (increase -ℤ pos 1) items)
ended node [] found items depth increase later level e = cc
ended node (q ∷ stack) found items depth increase later level e =
    let (i, at, rest, low, landed, low_level, popped, reached) =
      later stack (omega (int_laws, ap pos_part level, ap neg_part level)) e in
    (i, at, rest, low, landed, low_level, pop popped, reached)

pub next_begin-Reached :
    (node : Ptr) (stack found : List Ptr) (items : List Item) (depth increase : ℤ)
    → depth +ℤ increase ≡ pos (length stack)
    → ancestors node stack items ≡ some found
    → Reached node stack found depth (next_begin increase items)
next_begin-Reached node stack found [] depth increase level e = cc
next_begin-Reached node stack found ((p, kind) ∷ items) depth increase level e =
    elim (Bool-cases (kind == begin_node)) [
      | inl begins ↦ (increase, p, items, stack, rw begins refl, level, same, (rw begins at e))
      | inr other ↦ elim (Bool-cases (kind == end_node)) [
        | inl ends ↦
            rw (other, ends)
              (ended node stack found items depth increase
                (λ s l a. next_begin-Reached node s found items depth (increase -ℤ pos 1) l a) level
                (rw (other, ends) at e))
        | inr plain ↦
            rw (other, plain)
              (next_begin-Reached node stack found items depth increase level
                (rw (other, plain) at e))
      ]
    ]

module _ (m : Machine) (fuel fdt : ℕ) where
  -- The greatest depth does not fall below the one at the loop's head, nor below the depth there.
  max_depth_loop-le :
      (rounds : ℕ) (node : Ptr) (depth max_depth result : ℤ)
      → max_depth_loop m rounds fuel fdt node depth max_depth ≡ ok result
      → max_depth ≤ℤ result
  unfolding max_depth_loop
  max_depth_loop-le zero node depth max_depth result e = cc
  max_depth_loop-le (suc rounds) node depth max_depth result e = elim (Bool-cases (node == null)) [
    | inl ends ↦
        let same : ok max_depth ≡ ok result = rw ends at e in
        let at : max_depth ≡ result = cc in rw at (omega arith)
    | inr goes_on ↦
        let (r, stepped, rest) =
          bind_returned (fdt_next_node m fuel fdt node depth) _ (rw goes_on at e) in
        let higher = max_depth_loop-le rounds r.0 r.1 _ result rest in ground (arith, higher)
  ]

  -- A run of the loop from a node gives at least its depth, and goes on from the next one.
  max_depth_loop-step :
      (rounds : ℕ) (node : Ptr) (depth max_depth result : ℤ) (next : Ptr × ℤ)
      → node ≢ null
      → fdt_next_node m fuel fdt node depth ≡ ok next
      → max_depth_loop m rounds fuel fdt node depth max_depth ≡ ok result
      → (depth ≤ℤ result)
        × ((rounds' : ℕ) × (max_depth' : ℤ) × (max_depth_loop m rounds' fuel fdt next.0 next.1
                max_depth'
              ≡ ok result))
  unfolding max_depth_loop
  max_depth_loop-step zero node depth max_depth result next ne run e = cc
  max_depth_loop-step (suc rounds) node depth max_depth result next ne run e =
      let highest : ℤ = if ltb_ℤ max_depth depth then depth else max_depth in
      let rest : max_depth_loop m rounds fuel fdt next.0 next.1 highest ≡ ok result =
        rw (ne→== node 0 ne, run) at e in
      let higher = max_depth_loop-le rounds next.0 next.1 highest result rest in
      (ground (arith, higher), (rounds, highest, rest))

  -- What the walk of `fdt_node_get_parents` gives where it reaches the node, whose depth is not above
  -- the greatest.
  abbrev pub Branched : List Ptr → ℤ → Run (ℤ × List (Option Ptr)) → Type 0
  Branched found deepest run =
      (branch : List (Option Ptr)) × (run ≡ ok (pos (length found), branch))
      × Held branch found
      × (length found ≤ num_slots deepest)

  -- From a node on to the next, on the way to `node`.
  branch_step :
      (curr : Ptr) (items : List Item) (stack low : List Ptr) (increase : ℤ) (p : Ptr)
      (later : List Item)
      → Behind m fuel fdt curr items
      → next_begin (pos 1) items ≡ some (increase, p, later)
      → pos (length stack) +ℤ increase ≡ pos (length low)
      → (fdt_next_node m fuel fdt curr (pos (length stack)) ≡ ok (p, pos (length low)))
        × (p ≢ null)
        × (length later < length items)
        × Behind m fuel fdt p later
  branch_step curr items stack low increase p later behind landed level =
      let run = fdt_next_node-next_begin m fuel fdt curr items (pos (length stack)) behind in
      let (short, (next, stepped, trace)) = behind in
      let (ne, fewer, behind') =
        Behind-next_begin m fuel fdt next items (pos 1) increase p later short trace landed in
      (
        run ∙ (ap (λ n. ok (landing (pos (length stack)) n)) landed ∙ ap (λ d. ok (p, d)) level),
        ne,
        fewer,
        behind',
      )

  pub branch_loop-Branched :
      (rounds : ℕ) (node curr : Ptr) (items : List Item) (stack found : List Ptr)
      (branch : List (Option Ptr)) (result : ℤ) (rounds' : ℕ) (max_depth : ℤ)
      → length items < rounds
      → curr ≢ null
      → Behind m fuel fdt curr items
      → Held branch stack
      → num_slots result < length branch
      → max_depth_loop m rounds' fuel fdt curr (pos (length stack)) max_depth ≡ ok result
      → ancestors node stack ((curr, begin_node) ∷ items) ≡ some found
      → Branched found result (branch_loop m rounds fuel fdt node curr (pos (length stack)) branch)
  unfolding branch_loop store_branch
  branch_loop-Branched zero node curr items stack found branch result rounds' max_depth h ne behind
        held room deepest e =
      absurd (omega (arith, h))
  branch_loop-Branched (suc rounds) node curr items stack found branch result rounds' max_depth h ne
        behind held room deepest e =
      elim (Bool-cases (curr == node)) [
        | inl here ↦
            let same : some stack ≡ some found = rw here at e in
            let at : stack ≡ found = cc in
            let deep =
              (max_depth_loop-step rounds' curr (pos (length stack)) max_depth result _ ne
                (fdt_next_node-next_begin m fuel fdt curr items (pos (length stack)) behind)
                deepest).0 in
            rw⁻¹ at (branch, rw (here, ne→== curr 0 ne) refl, held, ground (arith, deep))
        | inr away ↦
            let (increase, p, later, low, landed, level, popped, reached) =
              next_begin-Reached node (curr ∷ stack) found items (pos (length stack)) (pos 1)
                (omega int_laws) (rw away at e) in
            let (run, p_ne, fewer, behind') =
              branch_step curr items stack low increase p later behind landed level in
            let (deep, (rounds2, max2, deepest2)) =
              max_depth_loop-step rounds' curr (pos (length stack)) max_depth result _ ne run
                deepest in
            let fits : length stack < length branch = ground (arith, deep, room) in
            let (branch', walked, held', low_enough) =
              branch_loop-Branched rounds node p later low found
                (set branch (length stack) (some curr)) result rounds2 max2
                (omega (arith, fewer, h)) p_ne behind'
                (Held-Popped _ popped (Held-push branch stack curr fits held))
                (omega (arith, room, length-set branch (length stack) (some curr))) deepest2
                reached in
            (branch', rw (away, ne→== curr 0 ne, lt→ltb _ _ fits, run) walked, held', low_enough)
      ]
