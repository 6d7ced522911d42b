-- ===== src/Kernel/Fdt/Prop/First.antt =====
-- The lookup of a property against the list of the properties of a node.
use mathlib.Core.Path.{subst}
use riscy_os.Prelude.{
  ℕ, zero, suc, ◌<◌, ◌≡◌, ◌≢◌, refl, true, false, List, [], ◌∷◌, inl, inr, Ptr, null, ◌==◌,
  if◌then◌else◌, length, arith, sym, Bool-cases, ok, Gives, ne→==,
}
use riscy_os.Kernel.Endian.{Machine}
use riscy_os.Libc.Text.Laws.{Holds}
use riscy_os.Kernel.Fdt.Token.{prop_token, nop}
use riscy_os.Kernel.Fdt.Token.Progress.{InBlock, IsBlob}
use riscy_os.Kernel.Fdt.Token.Trace.{
  Item, Trace, Behind, Behind-InBlock, first_of, First, first_of-First, Each-all,
}
use riscy_os.Kernel.Fdt.Prop.{
  prop_loop, fdt_node_prop_begin, fdt_node_next_prop, name_matches, by_name_loop,
  fdt_get_prop_by_name,
}
use riscy_os.Kernel.Fdt.Prop.Lookup.{name_matches-Returns}

-- The properties at the head of the items, with NOPs among them: the ones of the node before.
abbrev pub own_props : List Item → List Ptr
own_props [] = []
own_props ((p, kind) ∷ items) =
    if kind == prop_token then p ∷ own_props items else if kind == nop then own_props items else []

length-own_props : (items : List Item) → length (own_props items) < suc (length items)
length-own_props [] = omega arith
length-own_props ((p, kind) ∷ items) = ground (arith, length-own_props items)

module _ (m : Machine) (fuel fdt : ℕ) where
  -- `prop` is the first of the addresses, and `fdt_node_next_prop` gives the others.
  abbrev pub Props : Ptr → List Ptr → Type 0
  Props prop [] = prop ≡ null
  Props prop (p ∷ ps) =
      (prop ≡ p)
      × (p ≢ null)
      × ((next : Ptr) × (fdt_node_next_prop m fuel fdt p ≡ ok next) × Props next ps)

  -- A walk with enough rounds is at the first of the properties.
  abbrev Walked : Ptr → List Item → Type 0
  Walked token items =
      (prop : Ptr) × Props prop (own_props items)
      × ((rounds : ℕ) → length items < rounds → prop_loop m rounds fuel fdt token ≡ ok prop)

  prop_loop-Props :
      (token : Ptr) (items : List Item)
      → length items < fuel
      → Trace m fuel fdt token items
      → Walked token items
  unfolding prop_loop fdt_node_next_prop
  prop_loop-Props token [] short trace = (null, refl, at_null)
    where
      at_null : (rounds : ℕ) → 0 < rounds → prop_loop m rounds fuel fdt token ≡ ok null
      at_null zero h = absurd (omega (arith, h))
      at_null (suc rounds) h = rw trace refl
  prop_loop-Props token ((p, kind) ∷ items) short (at, some_token, same, (next, run, trace)) =
      let (prop, props, walk) = prop_loop-Props next items (omega arith) trace in
      subst (λ t. Walked t ((p, kind) ∷ items)) (sym at)
        (elim (Bool-cases (kind == prop_token)) [
          | inl is_prop ↦
              let later : fdt_node_next_prop m fuel fdt p ≡ ok prop =
                rw run (walk fuel (omega arith)) in
              (p, rw is_prop (refl, some_token, (prop, later, props)), here is_prop)
          | inr other ↦ elim (Bool-cases (kind == nop)) [
            | inl is_nop ↦ (prop, rw (other, is_nop) props, over other is_nop prop walk)
            | inr last ↦ (null, rw (other, last) refl, stop other last)
          ]
        ])
    where
      here :
          (kind == prop_token) ≡ true
          → (rounds : ℕ) → suc (length items) < rounds
          → prop_loop m rounds fuel fdt p ≡ ok p
      here e zero h = absurd (omega (arith, h))
      here e (suc rounds) h = rw (ne→== p 0 some_token, same, e) refl

      over :
          (kind == prop_token) ≡ false
          → (kind == nop) ≡ true
          → (prop : Ptr)
          → ((rounds : ℕ) → length items < rounds → prop_loop m rounds fuel fdt next ≡ ok prop)
          → (rounds : ℕ) → suc (length items) < rounds
          → prop_loop m rounds fuel fdt p ≡ ok prop
      over e e' prop walk zero h = absurd (omega (arith, h))
      over e e' prop walk (suc rounds) h =
          rw (ne→== p 0 some_token, same, e, e', run) (walk rounds (omega (arith, h)))

      stop :
          (kind == prop_token) ≡ false
          → (kind == nop) ≡ false
          → (rounds : ℕ) → suc (length items) < rounds
          → prop_loop m rounds fuel fdt p ≡ ok null
      stop e e' zero h = absurd (omega (arith, h))
      stop e e' (suc rounds) h = rw (ne→== p 0 some_token, same, e, e') refl

  by_name_loop-first_of :
      (name prop : Ptr) (ps : List Ptr) (rounds : ℕ)
      → Props prop ps
      → length ps < rounds
      → by_name_loop m rounds fuel fdt name prop ≡ first_of (name_matches m fuel fdt name) ps
  unfolding by_name_loop first_of
  by_name_loop-first_of name prop ps zero props h = absurd (omega (arith, h))
  by_name_loop-first_of name prop [] (suc rounds) props h = rw props refl
  by_name_loop-first_of name prop (p ∷ ps) (suc rounds) (at, some_prop, (next, run, props)) h =
      rw
        (
          at,
          ne→== p 0 some_prop,
          run,
          by_name_loop-first_of name next ps rounds props (omega (arith, h)),
        )
        refl

  prop_begin-Props :
      (pos : Ptr) (items : List Item)
      → Behind m fuel fdt pos items
      → (prop : Ptr) × Props prop (own_props items)
        × (fdt_node_prop_begin m fuel fdt pos ≡ ok prop)
        × (fdt_node_next_prop m fuel fdt pos ≡ ok prop)
  unfolding fdt_node_prop_begin fdt_node_next_prop
  prop_begin-Props pos items (short, (next, run, trace)) =
      let (prop, props, walk) = prop_loop-Props next items short trace in
      (prop, props, rw run (walk fuel short), rw run (walk fuel short))

  -- The lookup behind a place of the block is the search for the first of the properties there.
  pub fdt_get_prop_by_name-first_of :
      (pos name : Ptr) (items : List Item)
      → Behind m fuel fdt pos items
      → (fdt_get_prop_by_name m fuel fdt pos null name
          ≡ first_of (name_matches m fuel fdt name) (own_props items))
        × ((node : Ptr)
            → pos ≢ null
            → fdt_get_prop_by_name m fuel fdt node pos name
              ≡ first_of (name_matches m fuel fdt name) (own_props items))
  unfolding fdt_get_prop_by_name
  fdt_get_prop_by_name-first_of pos name items behind =
      let (prop, props, begins, continues) = prop_begin-Props pos items behind in
      let search =
        by_name_loop-first_of name prop (own_props items) fuel props
          (omega (arith, length-own_props items, behind.0)) in
      (rw begins search, λ node ne. rw (ne→== pos 0 ne, continues) search)

-- In a tree with enough fuel, for a place of the block and a name in memory, not NULL, that is shorter
-- than the fuel: the lookup from that node on, or from that property on, returns. It gives the first
-- of the properties that stand behind that place before any other token but NOPs whose name is the
-- one that is looked for, and NULL only if none of them has that name.
pub fdt_get_prop_by_name-First :
    (m : Machine) (fuel fdt top : ℕ)
    → IsBlob m fuel fdt top
    → (name : Ptr) (s : List ℕ) → name ≢ null
    → Holds m name s
    → length s < fuel
    → (pos : Ptr) → InBlock m fdt pos
    → (items : List Item) × Behind m fuel fdt pos items
      × Gives
          (First (name_matches m fuel fdt name) (own_props items))
          (fdt_get_prop_by_name m fuel fdt pos null name)
      × ((node : Ptr)
          → Gives
              (First (name_matches m fuel fdt name) (own_props items))
              (fdt_get_prop_by_name m fuel fdt node pos name))
fdt_get_prop_by_name-First m fuel fdt top blob name s ne text short pos inside =
    let (items, behind) = Behind-InBlock m fuel fdt top blob pos inside in
    let (begins, continues) = fdt_get_prop_by_name-first_of m fuel fdt pos name items behind in
    let found = first_of-First (name_matches m fuel fdt name) (own_props items) (
      Each-all (own_props items) (name_matches-Returns m fuel fdt top blob name s ne text short)) in
    let start = blob.not_null in
    (
      items,
      behind,
      rw begins found,
      λ node. rw (continues node (λ e. omega (arith, e, inside, start))) found,
    )
