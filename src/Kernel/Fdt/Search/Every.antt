-- ===== src/Kernel/Fdt/Search/Every.antt =====
-- Searches that go on from what they found: the nodes that they give, in their order.
use mathlib.Core.Path.{subst}
use riscy_os.Prelude.{
  ◌≤◌, ◌<◌, ◌⊎◌, Returns, inl, inr, Bool-cases, true, false, arith, suc, ℕ, ◌<◌, ◌≡◌, ◌≢◌, refl,
  Bool, true, false, List, [], ◌∷◌, inl, inr, Ptr, null, ◌==◌, length, arith, Bool-cases, Run, ok,
}
use riscy_os.Kernel.Endian.{Machine}
use riscy_os.Kernel.Fdt.Token.{begin_node}
use riscy_os.Kernel.Fdt.Token.Trace.{Item, Trace, Behind, first_of}
use riscy_os.Kernel.Fdt.Search.First.{nodes}
use riscy_os.Kernel.Fdt.Token.Progress.{InBlock, IsBlob, fdt_next_token-Gives}

-- The addresses that pass a test, in their order.
pub data Passing (test : Ptr → Run Bool) : List Ptr → List Ptr → Type 0 where
  over : Passing test [] []
  pass :
      {p : Ptr} {ps qs : List Ptr}
      → test p ≡ ok true
      → Passing test ps qs
      → Passing test (p ∷ ps) (p ∷ qs)
  fail :
      {p : Ptr} {ps qs : List Ptr}
      → test p ≡ ok false
      → Passing test ps qs
      → Passing test (p ∷ ps) qs

pub length-Passing :
    {test : Ptr → Run Bool} {ps qs : List Ptr} → Passing test ps qs → length qs ≤ length ps
length-Passing over = omega arith
length-Passing (pass e rest) = omega (arith, length-Passing rest)
length-Passing (fail e rest) = omega (arith, length-Passing rest)

module _ (m : Machine) (fuel fdt : ℕ) (test : Ptr → Run Bool) where
  -- A node is found, and the others that pass are behind it.
  abbrev pub Onward : List Ptr → Ptr → List Ptr → Type 0
  Onward ps q qs =
      (later : List Item) × (first_of test ps ≡ ok q)
      × (q ≢ null)
      × Behind m fuel fdt q later
      × Passing test (nodes later) qs

  pub first_of-none : (ps : List Ptr) → Passing test ps [] → first_of test ps ≡ ok null
  unfolding first_of
  first_of-none [] over = refl
  first_of-none (p ∷ ps) (fail e rest) = rw (e, first_of-none ps rest) refl

  Onward-nil : (q : Ptr) (qs : List Ptr) → Passing test [] (q ∷ qs) → Onward [] q qs
  Onward-nil q qs passing = elim passing [ ]

  Onward-cons :
      (p : Ptr) (items : List Item) (ps : List Ptr) (q : Ptr) (qs : List Ptr)
      → ps ≡ nodes items
      → p ≢ null
      → Behind m fuel fdt p items
      → (Passing test ps (q ∷ qs) → Onward ps q qs)
      → Passing test (p ∷ ps) (q ∷ qs)
      → Onward (p ∷ ps) q qs
  unfolding first_of
  Onward-cons p items ps q qs same ne behind next (pass e rest) =
      (items, rw e refl, ne, behind, subst (λ l. Passing test l qs) same rest)
  Onward-cons p items ps q qs same ne behind next (fail e rest) =
      let (later, found, some_node, further, passing) = next rest in
      (later, rw (e, found) refl, some_node, further, passing)

  pub first_of-Onward :
      (token : Ptr) (items : List Item) (q : Ptr) (qs : List Ptr)
      → length items < fuel
      → Trace m fuel fdt token items
      → Passing test (nodes items) (q ∷ qs)
      → Onward (nodes items) q qs
  first_of-Onward token [] q qs short trace passing = Onward-nil q qs passing
  first_of-Onward token ((p, kind) ∷ items) q qs short (at, some_token, same, (next, run, trace))
        passing =
      let fits : length items < fuel = omega (arith, short) in
      let later = first_of-Onward next items q qs fits trace in
      elim (Bool-cases (kind == begin_node)) [
        | inl begins ↦ rw begins (
            Onward-cons p items (nodes items) q qs refl some_token (fits, (next, run, trace)) later
              (rw begins at passing))
        | inr other ↦ rw other (later (rw other at passing))
      ]

  module _ (top : ℕ) (blob : IsBlob m fuel fdt top)
      (returns : (p : Ptr) → InBlock m fdt p → Returns (test p)) where
    -- If the test returns at every token of the block, the nodes among the items that pass are a list.
    pub Trace-Passing :
        (token : Ptr) (items : List Item)
        → (token ≡ null) ⊎ InBlock m fdt token
        → Trace m fuel fdt token items
        → (qs : List Ptr) × Passing test (nodes items) qs × (length qs < suc (length items))
    Trace-Passing token [] place trace = ([], over, omega arith)
    Trace-Passing token ((p, kind) ∷ items) place (at, some_token, same, (next, run, trace)) =
        let inside : InBlock m fdt p = ground arith in
        let (next', run', lands) = fdt_next_token-Gives m fuel fdt top blob p inside in
        let agree : next' ≡ next = cc in
        let place' : (next ≡ null) ⊎ InBlock m fdt next = ground arith in
        let (qs, passing, fewer) = Trace-Passing next items place' trace in
        elim (Bool-cases (kind == begin_node)) [
          | inl begins ↦ rw begins (decide p (nodes items) qs (returns p inside) passing fewer)
          | inr other ↦ rw other (qs, passing, omega (arith, fewer))
        ]
      where
        decide :
            (p : Ptr) (ps qs : List Ptr)
            → Returns (test p)
            → Passing test ps qs
            → length qs < suc (length items)
            → (rs : List Ptr) × Passing test (p ∷ ps) rs × (length rs < suc (suc (length items)))
        decide p ps qs (true, e) passing fewer = (p ∷ qs, pass e passing, omega (arith, fewer))
        decide p ps qs (false, e) passing fewer = (qs, fail e passing, omega (arith, fewer))
