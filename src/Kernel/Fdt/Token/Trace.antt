-- ===== src/Kernel/Fdt/Token/Trace.antt =====
-- The tokens from a place of the structure block on, as a list: what the walks run over.
use riscy_os.Prelude.{
  ℕ, zero, suc, ◌<◌, ◌≡◌, ◌≢◌, refl, Bool, true, false, List, [], ◌∷◌, ◌++◌, ◌⊎◌, inl, inr, Ptr,
  null, if◌then◌else◌, length, arith, ap, ◌∙◌, Run, ok, ◌>>=◌, Returns, Gives, Gives-bind, Gives-if,
}
use riscy_os.Kernel.Endian.{Machine}
use riscy_os.Kernel.Fdt.Token.{token_at, fdt_next_token, struct_start}
use riscy_os.Kernel.Fdt.Token.Progress.{InBlock, IsBlob}
use riscy_os.Kernel.Fdt.Token.Walk.{Enough, advance, advance_first}

-- A token: its address and its kind.
abbrev pub Item : Type 0
Item = Ptr × ℕ

module _ (m : Machine) (fuel fdt : ℕ) where
  -- The steps of `fdt_next_token` from `token` on are at these items, and end at NULL.
  abbrev pub Trace : Ptr → List Item → Type 0
  Trace token [] = token ≡ null
  Trace token ((p, kind) ∷ items) =
      (token ≡ p)
      × (p ≢ null)
      × (token_at m p ≡ kind)
      × ((next : Ptr) × (fdt_next_token m fuel fdt p ≡ ok next) × Trace next items)

  -- The items behind a token, for which the fuel of a walk suffices.
  abbrev pub Behind : Ptr → List Item → Type 0
  Behind token items =
      (length items < fuel)
      × ((next : Ptr) × (fdt_next_token m fuel fdt token ≡ ok next) × Trace next items)

  module _ (top : ℕ) (blob : IsBlob m fuel fdt top) where
    pub Trace-Enough :
        (rounds : ℕ) (token : Ptr)
        → Enough m fuel fdt top rounds token
        → (items : List Item) × Trace token items × (length items < rounds)
    Trace-Enough zero token h = absurd (omega (arith, h.0))
    Trace-Enough (suc rounds) token (h, inl e) = ([], e, omega arith)
    Trace-Enough (suc rounds) token (h, inr (inside, enough)) =
        let (next, run, stepped) = advance m fuel fdt top blob rounds token inside enough in
        let (items, trace, short) = Trace-Enough rounds next stepped.0 in
        let start = blob.not_null in
        (
          (token, token_at m token) ∷ items,
          (refl, λ e. omega (arith, e, inside, start), refl, (next, run, trace)),
          omega (arith, short),
        )

    -- In a tree with enough fuel every token of the block has the items behind it.
    pub Behind-InBlock :
        (token : Ptr) → InBlock m fdt token → (items : List Item) × Behind token items
    Behind-InBlock token inside =
        let (next, run, stepped) = advance_first m fuel fdt top blob token inside in
        let (items, trace, short) = Trace-Enough fuel next stepped.0 in
        (items, (short, (next, run, trace)))

    -- The items of the whole block.
    pub Trace-start :
        InBlock m fdt (struct_start m fdt)
        → (items : List Item) × (length items < fuel) × Trace (struct_start m fdt) items
    Trace-start inside =
        let e = blob.enough in
        let t = blob.ends in
        let (items, trace, short) =
          Trace-Enough fuel (struct_start m fdt) (omega arith, inr (inside, omega arith)) in
        (items, short, trace)

-- The first of the addresses that passes a test, or NULL.
unfoldable pub first_of : (Ptr → Run Bool) → List Ptr → Run Ptr
first_of test [] = ok null
first_of test (p ∷ ps) =
    let rest = first_of test ps in test p >>= λ found. if found then ok p else rest

abbrev pub Fails : (Ptr → Run Bool) → List Ptr → Type 0
Fails test [] = Unit {0}
Fails test (p ∷ ps) = (test p ≡ ok false) × Fails test ps

-- NULL where every address fails the test, or one that passes it, and all before it fail.
abbrev pub First : (Ptr → Run Bool) → List Ptr → Ptr → Type 0
First test ps r =
    ((r ≡ null) × Fails test ps)
    ⊎ ((before : List Ptr) × (after : List Ptr) × (ps ≡ before ++ r ∷ after)
        × Fails test before
        × (test r ≡ ok true))

-- What holds of every address.
abbrev pub Each : (Ptr → Type 0) → List Ptr → Type 0
Each P [] = Unit {0}
Each P (p ∷ ps) = P p × Each P ps

pub Each-all : {P : Ptr → Type 0} (ps : List Ptr) → ((p : Ptr) → P p) → Each P ps
Each-all [] all = tt
Each-all (p ∷ ps) all = (all p, Each-all ps all)

pub Each-map :
    {P Q : Ptr → Type 0} (ps : List Ptr) → ((p : Ptr) → P p → Q p) → Each P ps → Each Q ps
Each-map [] f each = tt
Each-map (p ∷ ps) f each = (f p each.0, Each-map ps f each.1)

-- If the test returns on them, the first address of a list is found, or every one fails.
pub first_of-First :
    (test : Ptr → Run Bool) (ps : List Ptr)
    → Each (λ p. Returns (test p)) ps
    → Gives (First test ps) (first_of test ps)
unfolding first_of
first_of-First test [] returns = (null, refl, inl (refl, tt))
first_of-First test (p ∷ ps) returns =
    let (r, run, first) = first_of-First test ps returns.1 in
    Gives-bind _ (test p) _ returns.0 λ found passed.
      Gives-if _ found _ _ (λ e. (p, refl, inr ([], ps, refl, tt, passed ∙ ap ok e)))
        λ e. (r, run, First-cons test p ps r (passed ∙ ap ok e) first)
  where
    First-cons :
        (test : Ptr → Run Bool) (p : Ptr) (ps : List Ptr) (r : Ptr)
        → test p ≡ ok false
        → First test ps r
        → First test (p ∷ ps) r
    First-cons test p ps r e (inl (none, fails)) = inl (none, (e, fails))
    First-cons test p ps r e (inr (before, after, split, fails, passed)) =
        inr (p ∷ before, after, ap (λ l. p ∷ l) split, (e, fails), passed)
