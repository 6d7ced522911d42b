-- ===== src/Kernel/Fdt/Search/First.antt =====
-- The searches for a node against the list of the nodes of the tree.
use mathlib.Core.Path.{subst, fun_ext}
use riscy_os.Prelude.{
  ◌∙◌, if◌then◌else◌, ◌≤◌, ℕ, zero, suc, ◌<◌, ◌≡◌, ◌≢◌, refl, Bool, none, some, List, [], ◌∷◌, ◌⊎◌,
  inl, inr, Ptr, null, ◌==◌, if◌then◌else◌, length, arith, Bool-cases, Run, ok, ◌>>=◌, ap, ◌>>=◌,
  ne→==,
}
use riscy_os.Prelude.Int.{ℤ, pos, ◌-ℤ◌}
use riscy_os.Kernel.Endian.{Machine}
use riscy_os.Kernel.Fdt.Token.{begin_node, end_node, struct_start}
use riscy_os.Kernel.Fdt.Token.Trace.{Each, Each-all, Item, Trace, Behind, first_of}
use riscy_os.Kernel.Fdt.Node.{next_node}
use riscy_os.Kernel.Fdt.Node.Seek.{
  Next, next_begin, landing, fdt_node_begin-next_begin, fdt_next_node-next_begin, Behind-next_begin,
}
use riscy_os.Kernel.Fdt.Search.{
  Literals, first_node, find_loop, fdt_node_name, fdt_node_is_compatible, device_type_is,
  fdt_find_compatible_node, fdt_find_node_by_unit_name, fdt_find_node_by_device_type,
}
use riscy_os.Libc.Text.{strlen, strcmp, is_zero}

-- The nodes that begin among the items.
abbrev pub nodes : List Item → List Ptr
nodes [] = []
nodes ((p, kind) ∷ items) = if kind == begin_node then p ∷ nodes items else nodes items

pub length-nodes : (items : List Item) → length (nodes items) ≤ length items
length-nodes [] = omega arith
length-nodes ((p, kind) ∷ items) = ground (arith, length-nodes items)

-- The node that a walk over the items gives, with the items behind it, or none.
abbrev Split : List Ptr → Next → Type 0
Split ps none = ps ≡ []
Split ps (some (increase, p, later)) = ps ≡ p ∷ nodes later

nodes-next_begin :
    (items : List Item) (increase : ℤ) → Split (nodes items) (next_begin increase items)
nodes-next_begin [] increase = refl
nodes-next_begin ((p, kind) ∷ items) increase = elim (Bool-cases (kind == begin_node)) [
  | inl begins ↦ rw begins refl
  | inr other ↦
      rw other (nodes-next_begin items (if kind == end_node then increase -ℤ pos 1 else increase))
]

Next-cases :
    (n : Next) → (n ≡ none) ⊎ ((i : ℤ) × (p : Ptr) × (later : List Item) × (n ≡ some (i, p, later)))
Next-cases none = inl refl
Next-cases (some (i, p, later)) = inr (i, p, later, refl)

module _ (m : Machine) (fuel fdt : ℕ) where
  -- The step from a node of the tree.
  next_node-next_begin :
      (node : Ptr) (items : List Item)
      → Behind m fuel fdt node items
      → next_node m fuel fdt node ≡ ok ((landing (pos 0) (next_begin (pos 1) items)).0)
  unfolding next_node
  next_node-next_begin node items behind =
      rw (fdt_next_node-next_begin m fuel fdt node items (pos 0) behind) refl

  -- A loop that goes from node to node and returns the first that passes a test, as long as what `P`
  -- says holds of the nodes.
  pub record Searches (test : Ptr → Run Bool) (P : Ptr → Type 0) (loop : ℕ → Ptr → Run Ptr)
      : Type 0 where
    pub ends : (rounds : ℕ) → loop (suc rounds) null ≡ ok null
    pub goes_on :
        (rounds node next : ℕ)
        → node ≢ null
        → P node
        → next_node m fuel fdt node ≡ ok next
        → loop (suc rounds) node
          ≡ (test node >>= λ found. if found then ok node else loop rounds next)

  module _ (test : Ptr → Run Bool) (P : Ptr → Type 0) (loop : ℕ → Ptr → Run Ptr)
      (searches : Searches test P loop) where
    -- The loop from the first of the nodes on is the search for the first that passes.
    pub loop-first_of :
        (rounds token : ℕ) (items : List Item) (increase : ℤ)
        → Each P (nodes items)
        → length items < rounds
        → length items < fuel
        → Trace m fuel fdt token items
        → loop rounds ((landing (pos 0) (next_begin increase items)).0)
          ≡ first_of test (nodes items)
    unfolding first_of
    loop-first_of zero token items increase each h short trace = absurd (omega (arith, h))
    loop-first_of (suc rounds) token items increase each h short trace =
        elim (Next-cases (next_begin increase items)) [
          | inl over ↦
              let split : nodes items ≡ [] =
                subst (Split (nodes items)) over (nodes-next_begin items increase) in
              rw (over, split) (searches.ends rounds)
          | inr (i, p, later, e) ↦
              let split : nodes items ≡ p ∷ nodes later =
                subst (Split (nodes items)) e (nodes-next_begin items increase) in
              let (here, further) = subst (Each P) split each in
              let (ne, fewer, (fits, (next, run, behind))) =
                Behind-next_begin m fuel fdt token items increase i p later short trace e in
              let step = next_node-next_begin p later (fits, (next, run, behind)) in
              let rest =
                loop-first_of rounds next later (pos 1) further (omega (arith, h, fewer)) fits
                  behind in
              rw (e, split) (searches.goes_on rounds p _ ne here step ∙ (rw rest refl))
        ]

  find_loop-Searches :
      (test : Ptr → Run Bool)
      → Searches test (λ n. Unit {0}) (λ rounds node. find_loop m test rounds fuel fdt node)
  unfolding find_loop
  find_loop-Searches test = record {
    ends = λ rounds. refl;
    goes_on = λ rounds node next ne h run. rw (ne→== node 0 ne, run) refl;
  }

  -- The items that a search looks at: all of the block, or those behind the node it starts from.
  abbrev pub Ahead : Ptr → List Item → Type 0
  Ahead start items =
      (length items < fuel)
      × (((start ≡ null) × Trace m fuel fdt (struct_start m fdt) items)
          ⊎ ((start ≢ null) × Behind m fuel fdt start items))

  first_node-next_begin :
      (start : Ptr) (items : List Item)
      → Ahead start items
      → (increase : ℤ) × (token : Ptr) × Trace m fuel fdt token items
        × (first_node m fuel fdt start ≡ ok ((landing (pos 0) (next_begin increase items)).0))
  unfolding first_node
  first_node-next_begin start items (short, inl (e, trace)) = (
    pos 0,
    struct_start m fdt,
    trace,
    rw e (fdt_node_begin-next_begin m fuel fdt items (pos 0) (pos 0) short trace),
  )
  first_node-next_begin start items (short, inr (ne, (fits, (next, run, trace)))) = (
    pos 1,
    next,
    trace,
    rw (ne→== start 0 ne) (next_node-next_begin start items (fits, (next, run, trace))),
  )

  -- The frame of the searches: the first node to look at, and the loop from it on.
  pub search_begin :
      (start : Ptr) (items : List Item)
      → Ahead start items
      → (node : Ptr) × (first_node m fuel fdt start ≡ ok node)
        × ((test : Ptr → Run Bool) (P : Ptr → Type 0) (loop : ℕ → Ptr → Run Ptr)
            → Searches test P loop
            → Each P (nodes items)
            → loop fuel node ≡ first_of test (nodes items))
  search_begin start items ahead =
      let (increase, token, trace, run) = first_node-next_begin start items ahead in
      (
        (landing (pos 0) (next_begin increase items)).0,
        run,
        λ test P loop searches each.
            loop-first_of test P loop searches fuel token items increase each ahead.0 ahead.0 trace,
      )

module _ (lits : Literals) (m : Machine) (fuel fdt start : ℕ) (items : List Item) where
  -- For the tokens of the whole block if `start` is NULL, and else for those behind the node `start`, if
  -- they are fewer than the fuel: the searches by `compatible`, by the unit name and by the device type
  -- each are the search through the nodes among these tokens, in their order, for the first that passes
  -- the test of that search, and behave as it does also where the test does not return.
  pub searches-first_of :
      (text : Ptr)
      → Ahead m fuel fdt start items
      → (fdt_find_compatible_node lits m fuel fdt start text
          ≡ first_of (λ n. fdt_node_is_compatible lits m fuel fdt n text) (nodes items))
        × (fdt_find_node_by_unit_name lits m fuel fdt start text
            ≡ first_of
                (λ n. strcmp m fuel text (fdt_node_name lits m n) >>= λ c. ok (is_zero c))
                (nodes items))
        × (fdt_find_node_by_device_type lits m fuel fdt start text ≡ (
            strlen m fuel text >>= λ len.
            first_of (device_type_is lits m fuel fdt text len) (nodes items)))
  unfolding fdt_find_compatible_node fdt_find_node_by_unit_name fdt_find_node_by_device_type
  searches-first_of text ahead =
      let (node, begins, walk) = search_begin m fuel fdt start items ahead in
      let search : (test : Ptr → Run Bool)
          → find_loop m test fuel fuel fdt node ≡ first_of test (nodes items) =
        λ test.
          walk test _ _ (find_loop-Searches m fuel fdt test) (Each-all (nodes items) (λ n. tt)) in
      (
        rw begins (search (λ n. fdt_node_is_compatible lits m fuel fdt n text)),
        rw begins
            (search (λ n. strcmp m fuel text (fdt_node_name lits m n) >>= λ c. ok (is_zero c))),
        rw begins (
            ap (λ f. strlen m fuel text >>= f)
              (fun_ext λ len. search (device_type_is lits m fuel fdt text len))),
      )
