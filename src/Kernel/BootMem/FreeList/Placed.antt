-- ===== src/Kernel/BootMem/FreeList/Placed.antt =====
-- What `boot_alloc` returns: NULL, or an aligned block inside of a free region.
use riscy_os.Prelude.{
  ℕ, zero, suc, ◌+◌, ◌%◌, ◌^◌, ◌≤◌, ◌<◌, ◌≡◌, refl, ◌≢◌, true, false, some, List, [], ◌∷◌, ◌⊎◌, inl,
  inr, Ptr, null, length, get_elem?, arith, Bool-cases, ap, sym, ◌∙◌, ok, ne→==,
}
use riscy_os.Kernel.BootMem.Placement.{Best, alloc_before_unalignment}
use riscy_os.Kernel.BootMem.Placement.Bounds.{IsRequest, placements_lem}
use riscy_os.Kernel.BootMem.FreeList.{
  Region, Store, Cmd, alloc_after, alloc_before, alloc_best, boot_alloc,
}
use riscy_os.Kernel.BootMem.FreeList.Runs.{
  after_store, before_store, alloc_after-run, alloc_before-run,
}
use riscy_os.Kernel.BootMem.FreeList.Scan.{Chain, IsList, Fits, ChosenIn, boot_alloc-best}

-- A command that returns `p`.
abbrev Allocates : Cmd Ptr → Store → Ptr → Type 0
Allocates c s p = (s' : Store) × (c s ≡ ok (p, s'))

-- Every region ends below 2^63.
abbrev pub Below : List (Ptr × ℕ) → Type 0
Below [] = Unit {0}
Below ((q, n) ∷ xs) = (q + n < 2 ^ 63) × Below xs

-- What the list says of one of its regions.
pub Chain-at :
    (region : Ptr → Region) (prev p : Ptr) (xs : List (Ptr × ℕ)) (i q n : ℕ)
    → Chain region prev p xs
    → Below xs
    → get_elem? xs i ≡ some (q, n)
    → (q ≢ null)
      × ((region q).size ≡ n)
      × (q + n < 2 ^ 63)
      × ((region q).prev ≡ null → (prev ≡ null) × (p ≡ q))
Chain-at region prev p [] i q n chain below at = cc
Chain-at region prev p ((q', n') ∷ xs) zero q n chain below at =
    let same : q' ≡ q = ground arith in
    let same_size : n' ≡ n = ground arith in
    (
      λ e. chain.1 (same ∙ e),
      ap (λ x. (region x).size) (sym same) ∙ (chain.3 ∙ same_size),
      omega (arith, same, same_size, below.0),
      λ e. (sym chain.2 ∙ (ap (λ x. (region x).prev) same ∙ e), chain.0 ∙ same),
    )
Chain-at region prev p ((q', n') ∷ xs) (suc i) q n chain below at =
    let (ne, size_at, low, behind) =
      Chain-at region q' (region q').next xs i q n chain.4 below.1 at in
    (ne, size_at, low, λ e. absurd (chain.1 (behind e).0))

pub alloc_best-eq :
    (size alignment : ℕ) (b : Best) (s : Store)
    → b.fitting ≢ null
    → (b.before ≡ true → alloc_best size alignment b s ≡ alloc_before b.fitting size alignment s)
      × (b.before ≡ false → alloc_best size alignment b s ≡ alloc_after b.fitting size alignment s)
unfolding alloc_best
alloc_best-eq size alignment b s ne =
    (λ e. rw (ne→== b.fitting 0 ne, e) refl, λ e. rw (ne→== b.fitting 0 ne, e) refl)

-- `p` is aligned, and the `size` bytes from `p` on lie in a region of the list.
abbrev pub Placed : ℕ → ℕ → List (Ptr × ℕ) → Ptr → Type 0
Placed size alignment xs p =
    (i : ℕ) × (q : Ptr) × (n : ℕ) × (get_elem? xs i ≡ some (q, n))
    × (q ≤ p)
    × (p + size ≤ q + n)
    × (p % 2 ^ alignment ≡ 0)

-- No region of the list has room for the request.
abbrev pub NoRoom : ℕ → ℕ → List (Ptr × ℕ) → Type 0
NoRoom size alignment xs =
    (i q n k : ℕ) → get_elem? xs i ≡ some (q, n) → ¬ Fits size alignment q n k

module _ (size alignment : ℕ) (xs : List (Ptr × ℕ)) (s : Store) (list : IsList s xs)
    (below : Below xs) (small : size < 2 ^ 62) (power : 2 ^ alignment < 2 ^ 62) where
  pub request : (i q n : ℕ) → get_elem? xs i ≡ some (q, n) → IsRequest q n size alignment
  request i q n at = record {
    fits = (Chain-at s.region null s.head xs i q n list below at).2;
    size_small = small;
    power = power;
  }

  alloc_best-Placed :
      (b : Best)
      → ChosenIn size alignment xs b
      → (p : Ptr) × Allocates (alloc_best size alignment b) s p × Placed size alignment xs p
  alloc_best-Placed b (i, q, n, at, (chosen, after, before)) =
      let (ne, size_at, low, linked) = Chain-at s.region null s.head xs i q n list below at in
      let req = request i q n at in
      let first : (s.region q).prev ≡ null → s.head ≡ q = λ e. (linked e).1 in
      let which = alloc_best-eq size alignment b s (rw chosen ne) in
      elim (Bool-cases b.before) [
        | inl early ↦
            let (aligned_parts, aligned) =
              (placements_lem q n size alignment req b.fit).1 (before early) in
            let run =
              alloc_before-run q n size alignment req ne s size_at first b.fit (before early) in
            (
              q + alloc_before_unalignment q alignment,
              (
                before_store s q (q + alloc_before_unalignment q alignment + size) b.fit,
                which.0 early ∙ (rw chosen run),
              ),
              (i, q, n, at, omega arith, omega (arith, aligned_parts), aligned),
            )
        | inr late ↦
            let (aligned_parts, aligned) =
              (placements_lem q n size alignment req b.fit).0 (after late) in
            let run =
              alloc_after-run q n size alignment req ne s size_at first b.fit (after late) in
            (
              q + b.fit,
              (after_store s q b.fit, which.1 late ∙ (rw chosen run)),
              (i, q, n, at, omega arith, omega (arith, aligned_parts), aligned),
            )
      ]

  pub Fits-lt :
      (i q n k : ℕ) → get_elem? xs i ≡ some (q, n) → Fits size alignment q n k → k < 2 ^ 63
  Fits-lt i q n k at fits =
      let req = request i q n at in
      let low = req.fits in
      let parts = placements_lem q n size alignment req k in
      elim fits [
        | inl (e, _) ↦ omega (arith, (parts.0 e).0)
        | inr (e, _) ↦ omega (arith, (parts.1 e).0)
      ]

  -- On a well-linked list whose regions end below 2^63, with more rounds than regions, and for a
  -- request whose size and alignment are below 2^62, `boot_alloc` returns: either an address that is
  -- a multiple of 2^alignment, from which on the requested bytes lie in one region of the list, or
  -- NULL with the store as it was, and then no region of the list has room for the request.
  pub boot_alloc-Placed :
      (rounds : ℕ)
      → length xs < rounds
      → (p : Ptr) × (s' : Store) × (boot_alloc rounds size alignment s ≡ ok (p, s'))
        × (Placed size alignment xs p ⊎ ((p ≡ null) × (s' ≡ s) × NoRoom size alignment xs))
  boot_alloc-Placed rounds enough =
      let (b, run, optimal, found) = boot_alloc-best rounds size alignment xs s list enough in
      elim found [
        | inl chosen ↦
            let (p, (t, allocated), placed) = alloc_best-Placed b chosen in
            (p, t, run ∙ allocated, inl placed)
        | inr (none_fits, nothing) ↦ (
          null,
          s,
          nothing,
          inr (
            refl,
            refl,
            λ i q n k at fits.
                omega
                  (arith, Fits-lt i q n k at fits, optimal i q n k at fits, ap Best.fit none_fits),
          ),
        )
      ]
