-- ===== src/Kernel/Fdt/Node/Parents.antt =====
-- The ancestors that `fdt_node_get_parents` gives.
use riscy_os.Prelude.{
  ℕ, ◌+◌, ◌<◌, ◌≤◌, ◌≡◌, ◌≢◌, Option, refl, false, none, some, List, [], ◌∷◌, inl, inr, Ptr, null,
  ltb, if◌then◌else◌, length, take, replicate, arith, ap, ◌∙◌, sym, Bool-cases, ok,
  length-replicate, take-length,
}
use mathlib.Core.Path.{subst}
use riscy_os.Prelude.Int.{ℤ, pos, ltb_ℤ, int_laws}
use riscy_os.Kernel.Endian.{Machine}
use riscy_os.Kernel.Fdt.Token.{begin_node, struct_start}
use riscy_os.Kernel.Fdt.Token.Progress.{InBlock, IsBlob}
use riscy_os.Kernel.Fdt.Token.Trace.{Item, Trace, Behind}
use riscy_os.Kernel.Fdt.Node.{
  fdt_node_begin, max_depth_loop, fdt_max_depth, num_slots, fdt_node_get_parents,
}
use riscy_os.Kernel.Fdt.Node.Walks.{fdt_max_depth-Gives}
use riscy_os.Kernel.Fdt.Node.Slots.{copy_parents-take}
use riscy_os.Kernel.Fdt.Node.Seek.{landing, fdt_node_begin-next_begin, Behind-next_begin}
use riscy_os.Kernel.Fdt.Node.Ancestors.{
  ancestors, Popped, same, next_begin-Reached, branch_loop-Branched,
}

Popped-nil : {low : List Ptr} → Popped [] low → low ≡ []
Popped-nil same = refl

-- The smaller of the two numbers.
take-min :
    (n : ℕ) (xs : List Ptr)
    → let k = if ltb n (length xs) then n else length xs in
      (k ≤ length xs) × (take k xs ≡ take n xs)
take-min n xs = elim (Bool-cases (ltb n (length xs))) [
  | inl fewer ↦ rw fewer (ground arith, refl)
  | inr all ↦
      let whole : length xs ≤ n = ground arith in
      rw all (omega arith, take-length (length xs) xs (omega arith) ∙ sym (take-length n xs whole))
]

module _ (m : Machine) (fuel fdt top : ℕ) (blob : IsBlob m fuel fdt top) where
  -- The tree's first node, at which nothing is open.
  first_node-Reached :
      (items : List Item) (node : Ptr) (found : List Ptr)
      → length items < fuel
      → Trace m fuel fdt (struct_start m fdt) items
      → ancestors node [] items ≡ some found
      → (p : Ptr) × (later : List Item) × (fdt_node_begin m fuel fdt ≡ ok p)
        × (p ≢ null)
        × (length later < fuel)
        × Behind m fuel fdt p later
        × (ancestors node [] ((p, begin_node) ∷ later) ≡ some found)
  first_node-Reached items node found short trace e =
      let (increase, p, later, low, landed, level, popped, reached) =
        next_begin-Reached node [] found items (pos 0) (pos 0) (omega int_laws) e in
      let (ne, fewer, behind) =
        Behind-next_begin m fuel fdt (struct_start m fdt) items (pos 0) increase p later short trace
          landed in
      (
        p,
        later,
        fdt_node_begin-next_begin m fuel fdt items (pos 0) (pos 0) short trace
            ∙ ap (λ n. ok ((landing (pos 0) n).0)) landed,
        ne,
        omega (arith, fewer, short),
        behind,
        subst (λ l. ancestors node l ((p, begin_node) ∷ later) ≡ some found) (Popped-nil popped)
            reached,
      )

  -- The greatest depth bounds the number of the ancestors, and the call gives as many as it has slots.
  abbrev pub Parents : Ptr → List Ptr → Type 0
  Parents node found =
      (deepest : ℤ) × (fdt_max_depth m fuel fdt ≡ ok deepest)
      × (ltb_ℤ deepest (pos 0) ≡ false)
      × (length found ≤ num_slots deepest)
      × ((parents_len : ℕ)
          → fdt_node_get_parents m fuel fdt node parents_len ≡ ok (take parents_len found))

  pub ancestors-Parents :
      (items : List Item) (node : Ptr) (found : List Ptr)
      → InBlock m fdt (struct_start m fdt)
      → length items < fuel
      → Trace m fuel fdt (struct_start m fdt) items
      → ancestors node [] items ≡ some found
      → Parents node found
  unfolding fdt_node_get_parents fdt_max_depth
  ancestors-Parents items node found inside short trace e =
      let (p, later, begins, ne, enough, behind, reached) =
        first_node-Reached items node found short trace e in
      let (deepest, run, positive) = fdt_max_depth-Gives m fuel fdt top blob inside in
      let depths : max_depth_loop m fuel fuel fdt p (pos 0) (pos 0) ≡ ok deepest =
        rw begins at run in
      let sound : ltb_ℤ deepest (pos 0) ≡ false = ground (arith, positive) in
      let (branch, walked, held, low) =
        branch_loop-Branched m fuel fdt fuel node p later [] found
          (replicate (num_slots deepest + 1) none) deepest fuel (pos 0) enough ne behind tt
          (omega (arith, length-replicate {A = Option Ptr} (num_slots deepest + 1) none)) depths
          reached in
      (
        deepest,
        run,
        sound,
        low,
        λ parents_len.
            let (fits, same_taken) = take-min parents_len found in
            rw (begins, depths, sound, walked)
              (copy_parents-take branch found _ held fits ∙ ap ok same_taken),
      )

  -- In a tree with enough fuel whose structure block is not empty, for a node that is reached before
  -- more nodes end than have begun, the call returns and writes its ancestors, nearest first, as many
  -- as the result has slots for.
  pub fdt_node_get_parents-ancestors :
      (items : List Item) (node : Ptr) (found : List Ptr) (parents_len : ℕ)
      → InBlock m fdt (struct_start m fdt)
      → length items < fuel
      → Trace m fuel fdt (struct_start m fdt) items
      → ancestors node [] items ≡ some found
      → fdt_node_get_parents m fuel fdt node parents_len ≡ ok (take parents_len found)
  fdt_node_get_parents-ancestors items node found parents_len inside short trace e =
      let (deepest, run, sound, low, parents) =
        ancestors-Parents items node found inside short trace e in
      parents parents_len
