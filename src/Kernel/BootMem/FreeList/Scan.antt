-- ===== src/Kernel/BootMem/FreeList/Scan.antt =====
-- The search of `boot_alloc` through the list of free regions.
use riscy_os.Prelude.{
  ℕ, zero, suc, ◌≤◌, ◌<◌, ◌≡◌, refl, ◌≢◌, true, false, some, List, [], ◌∷◌, ◌⊎◌, inl, inr, Ptr,
  null, length, get_elem?, arith, ◌∙◌, ok, ne→==,
}
use riscy_os.Kernel.BootMem.FreeList.{Region, Store, alloc_loop, alloc_best, boot_alloc}
use riscy_os.Prelude.Int.{pos, ◌≤ℤ◌}
use riscy_os.Kernel.BootMem.Placement.{
  Best, no_best, consider, region_size_alloc_after, region_size_alloc_before,
}

-- From `p` on, behind `prev`, the structs link the regions of the list, each with its size, in both
-- directions, down to NULL.
abbrev pub Chain : (Ptr → Region) → Ptr → Ptr → List (Ptr × ℕ) → Type 0
Chain region prev p [] = p ≡ null
Chain region prev p ((q, n) ∷ xs) =
    (p ≡ q)
    × (q ≢ null)
    × ((region q).prev ≡ prev)
    × ((region q).size ≡ n)
    × Chain region q (region q).next xs

abbrev pub IsList : Store → List (Ptr × ℕ) → Type 0
IsList s xs = Chain s.region null s.head xs

-- The choice among the regions of a list.
abbrev pub scan : ℕ → ℕ → List (Ptr × ℕ) → Best → Best
scan size alignment [] best = best
scan size alignment ((q, n) ∷ xs) best = scan size alignment xs (consider size alignment q n best)

pub alloc_loop-scan :
    (rounds size alignment : ℕ) (prev p : Ptr) (xs : List (Ptr × ℕ)) (best : Best) (s : Store)
    → Chain s.region prev p xs
    → length xs < rounds
    → alloc_loop rounds size alignment p best s ≡ ok (scan size alignment xs best, s)
unfolding alloc_loop
alloc_loop-scan zero size alignment prev p xs best s chain enough = absurd (omega arith)
alloc_loop-scan (suc rounds) size alignment prev p [] best s chain enough = rw chain
alloc_loop-scan (suc rounds) size alignment prev p ((q, n) ∷ xs) best s chain enough =
    rw (chain.0, ne→== q 0 chain.1, chain.3)
      (alloc_loop-scan rounds size alignment q (s.region q).next xs
        (consider size alignment q n best) s chain.4 (omega arith))

-- The larger of the two sizes that may be left of a region is `k`, and not negative.
abbrev pub Fits : ℕ → ℕ → Ptr → ℕ → ℕ → Type 0
Fits size alignment q n k =
    let after = region_size_alloc_after q n size alignment in
    let before = region_size_alloc_before q n size alignment in
    ((after ≡ pos k) × (before ≤ℤ pos k)) ⊎ ((before ≡ pos k) × (after ≤ℤ pos k))

consider-le :
    (size alignment : ℕ) (q : Ptr) (n : ℕ) (best : Best)
    → ((consider size alignment q n best).fit ≤ best.fit)
      × ((k : ℕ) → Fits size alignment q n k → (consider size alignment q n best).fit ≤ k)
unfolding consider
consider-le size alignment q n best = (ground arith, λ k fits. ground arith)

-- The best is what it was, or the region at `q`.
abbrev pub Chosen : ℕ → ℕ → Ptr → ℕ → Best → Type 0
Chosen size alignment q n b =
    (b.fitting ≡ q)
    × (b.before ≡ false → region_size_alloc_after q n size alignment ≡ pos b.fit)
    × (b.before ≡ true → region_size_alloc_before q n size alignment ≡ pos b.fit)

consider-cases :
    (size alignment : ℕ) (q : Ptr) (n : ℕ) (best : Best)
    → (consider size alignment q n best ≡ best)
      ⊎ Chosen size alignment q n (consider size alignment q n best)
unfolding consider
consider-cases size alignment q n best = ground arith

scan-fit_le :
    (size alignment : ℕ) (xs : List (Ptr × ℕ)) (best : Best)
    → (scan size alignment xs best).fit ≤ best.fit
scan-fit_le size alignment [] best = omega arith
scan-fit_le size alignment ((q, n) ∷ xs) best = omega (
  arith,
  scan-fit_le size alignment xs (consider size alignment q n best),
  (consider-le size alignment q n best).0,
)

scan-optimal :
    (size alignment : ℕ) (xs : List (Ptr × ℕ)) (best : Best) (i q n k : ℕ)
    → get_elem? xs i ≡ some (q, n)
    → Fits size alignment q n k
    → (scan size alignment xs best).fit ≤ k
scan-optimal size alignment [] best i q n k at fits = cc
scan-optimal size alignment ((p, l) ∷ xs) best zero q n k at fits =
    let p_eq : p ≡ q = ground arith in
    let l_eq : l ≡ n = ground arith in
    rw (p_eq, l_eq)
      (omega (
        arith,
        scan-fit_le size alignment xs (consider size alignment q n best),
        (consider-le size alignment q n best).1 k fits,
      ))
scan-optimal size alignment ((p, l) ∷ xs) best (suc i) q n k at fits =
    scan-optimal size alignment xs (consider size alignment p l best) i q n k at fits

abbrev pub ChosenIn : ℕ → ℕ → List (Ptr × ℕ) → Best → Type 0
ChosenIn size alignment xs b =
    (i : ℕ) × (q : Ptr) × (n : ℕ) × (get_elem? xs i ≡ some (q, n)) × Chosen size alignment q n b

scan-cases :
    (size alignment : ℕ) (xs : List (Ptr × ℕ)) (best : Best)
    → (scan size alignment xs best ≡ best)
      ⊎ ChosenIn size alignment xs (scan size alignment xs best)
scan-cases size alignment [] best = inl refl
scan-cases size alignment ((q, n) ∷ xs) best =
    elim (scan-cases size alignment xs (consider size alignment q n best)) [
      | inr (i, p, l, at, chosen) ↦ inr (suc i, p, l, at, chosen)
      | inl same ↦ elim (consider-cases size alignment q n best) [
        | inl kept ↦ inl (same ∙ kept)
        | inr chosen ↦ inr (0, q, n, refl, rw same chosen)
      ]
    ]

-- On a well-linked list `boot_alloc` ends its search if it is given more rounds than the list has
-- regions, and goes on with a choice `b` such that no region fits the request with less room left
-- than `b`; and either `b` is a region of the list with its room, left by the placement that `b` names,
-- or nothing is chosen and NULL is returned with the store as it was.
pub boot_alloc-best :
    (rounds size alignment : ℕ) (xs : List (Ptr × ℕ)) (s : Store)
    → IsList s xs
    → length xs < rounds
    → (b : Best) × (boot_alloc rounds size alignment s ≡ alloc_best size alignment b s)
      × ((i q n k : ℕ) → get_elem? xs i ≡ some (q, n) → Fits size alignment q n k → b.fit ≤ k)
      × (ChosenIn size alignment xs b
          ⊎ ((b ≡ no_best) × (boot_alloc rounds size alignment s ≡ ok (null, s))))
unfolding boot_alloc alloc_best
boot_alloc-best rounds size alignment xs s chain enough =
    let b : Best = scan size alignment xs no_best in
    let run = alloc_loop-scan rounds size alignment null s.head xs no_best s chain enough in
    (
      b,
      rw run,
      scan-optimal size alignment xs no_best,
      elim (scan-cases size alignment xs no_best) [
        | inl none_fits ↦ inr (none_fits, rw (run, none_fits))
        | inr chosen ↦ inl chosen
      ],
    )
