-- ===== src/Kernel/BootMem/FreeList/Allocate.antt =====
-- `boot_alloc` as an operation on the list of free regions, and sequences of calls of it.
use riscy_os.Prelude.{
  ℕ, ◌+◌, ◌%◌, ◌^◌, ◌≤◌, ◌<◌, ◌≡◌, ◌≢◌, List, [], ◌∷◌, ◌++◌, ◌⊎◌, inl, inr, Ptr, null, length,
  arith, Bool-cases, ap, sym, ◌∙◌, Run, ok,
}
use mathlib.Core.Path.{subst}
use riscy_os.Kernel.BootMem.Placement.{Best, alloc_before_unalignment}
use riscy_os.Kernel.BootMem.Placement.Bounds.{IsRequest, placements_lem}
use riscy_os.Kernel.BootMem.FreeList.{Store, alloc_best, boot_alloc}
use riscy_os.Kernel.BootMem.FreeList.Scan.{Chosen, boot_alloc-best}
use riscy_os.Kernel.BootMem.FreeList.Ordered.{Ordered, InList, split_at}
use riscy_os.Kernel.BootMem.FreeList.Runs.{
  after_store, before_store, alloc_after-run, alloc_before-run,
}
use riscy_os.Kernel.BootMem.FreeList.Placed.{Below, NoRoom, Fits-lt, alloc_best-eq}
use riscy_os.Kernel.BootMem.FreeList.Refines.{
  IsFreeList, Chain-At, head_lem, Takes, kept, after_store-IsFreeList, before_store-IsFreeList,
  Takes-block, length-kept,
}

Ordered-Below : (low : ℕ) (xs : List (Ptr × ℕ)) → Ordered low xs → Below xs
Ordered-Below low [] order = tt
Ordered-Below low ((q, n) ∷ xs) order = (order.2, Ordered-Below (q + n) xs order.3)

-- The run returns an aligned address; the list of the store behind it has the block taken out.
abbrev pub Allocated : ℕ → ℕ → List (Ptr × ℕ) → Run (Ptr × Store) → Type 0
Allocated size alignment xs run =
    (p : Ptr) × (s' : Store) × (xs' : List (Ptr × ℕ)) × (run ≡ ok (p, s'))
    × IsFreeList s' xs'
    × (length xs' ≤ length xs)
    × (p ≢ null)
    × (p % 2 ^ alignment ≡ 0)
    × Takes p size xs xs'

module _ (size alignment : ℕ) (s : Store) (small : size < 2 ^ 62)
    (power : 2 ^ alignment < 2 ^ 62) where
  -- The choice is the region behind `ys`.
  Chosen-Allocated :
      (ys : List (Ptr × ℕ)) (q n : ℕ) (zs : List (Ptr × ℕ)) (b : Best)
      → Chosen size alignment q n b
      → IsFreeList s (ys ++ (q, n) ∷ zs)
      → Allocated size alignment (ys ++ (q, n) ∷ zs) (alloc_best size alignment b s)
  Chosen-Allocated ys q n zs b (fitting, after, before) free =
      let at = Chain-At s.region null s.head 1 ys q n zs free.chain free.ordered (omega arith) in
      let req : IsRequest q n size alignment = record {
        fits = at.ends;
        size_small = small;
        power = power;
      } in
      let first = (head_lem s.region s.head 1 ys q n zs free.chain free.ordered).0 in
      let which = alloc_best-eq size alignment b s (rw fitting at.ne) in
      let un : ℕ = alloc_before_unalignment q alignment in
      elim (Bool-cases b.before) [
        | inl early ↦
            let (parts, aligned) = (placements_lem q n size alignment req b.fit).1 (before early) in
            let run =
              alloc_before-run q n size alignment req at.ne s at.size_at first b.fit
                (before early) in
            let p : Ptr = q + un in
            let moved : Ptr = q + un + size in
            (
              p,
              before_store s q moved b.fit,
              ys ++ (kept moved b.fit ++ zs),
              which.0 early ∙ (rw fitting run),
              before_store-IsFreeList s ys q n zs free moved b.fit (omega arith)
                  (omega (arith, parts)),
              length-kept s ys q n zs free moved b.fit,
              λ e. at.ne (omega (arith, e)),
              aligned,
              Takes-block s ys q n zs free p size moved b.fit (omega arith) (omega (arith, parts))
                  (omega arith) (omega (arith, parts)) (inr (omega arith)),
            )
        | inr late ↦
            let (parts, aligned) = (placements_lem q n size alignment req b.fit).0 (after late) in
            let run =
              alloc_after-run q n size alignment req at.ne s at.size_at first b.fit (after late) in
            let p : Ptr = q + b.fit in
            (
              p,
              after_store s q b.fit,
              ys ++ (kept q b.fit ++ zs),
              which.1 late ∙ (rw fitting run),
              after_store-IsFreeList s ys q n zs free b.fit (omega (arith, parts)),
              length-kept s ys q n zs free q b.fit,
              λ e. at.ne (omega (arith, e)),
              aligned,
              Takes-block s ys q n zs free p size q b.fit (omega arith) (omega (arith, parts))
                  (omega arith) (omega (arith, parts)) (inl (omega arith)),
            )
      ]

  -- On a store that holds an ordered free list, with more rounds than regions, and for a request whose
  -- size and alignment are below 2^62, `boot_alloc` returns. Either it gives NULL, changes nothing, and
  -- no region has room; or it gives an address, not NULL, that is a multiple of 2^alignment, and
  -- leaves a store that holds an ordered free list again, with no more regions: the requested bytes
  -- were free, none of them is free any more, and no byte is free that was not.
  pub boot_alloc-Allocated :
      (rounds : ℕ) (xs : List (Ptr × ℕ))
      → IsFreeList s xs
      → length xs < rounds
      → Allocated size alignment xs (boot_alloc rounds size alignment s)
        ⊎ ((boot_alloc rounds size alignment s ≡ ok (null, s)) × NoRoom size alignment xs)
  boot_alloc-Allocated rounds xs free enough =
      let (b, run, optimal, found) = boot_alloc-best rounds size alignment xs s free.chain enough in
      elim found [
        | inl (i, q, n, at, chosen) ↦
            let (ys, zs, e) = split_at xs i q n at in
            let done =
              subst
                (λ l. IsFreeList s l → Allocated size alignment l (alloc_best size alignment b s))
                (sym e) (Chosen-Allocated ys q n zs b chosen) free in
            inl (rw run done)
        | inr (none_fits, nothing) ↦ inr (
          nothing,
          λ i q n k at fits.
              let lt =
                Fits-lt size alignment xs s free.chain (Ordered-Below 1 xs free.ordered) small power
                  i q n k at fits in
              omega (arith, lt, optimal i q n k at fits, ap Best.fit none_fits),
        )
      ]

-- A sequence of calls from the store `s` on, each with a size and a 2^alignment below 2^62: the blocks
-- that were given, the last one first, and the store behind it.
pub data Calls (rounds : ℕ) (s : Store) : List (Ptr × ℕ) → Store → Type 0 where
  none_yet : Calls rounds s [] s
  refused :
      {blocks : List (Ptr × ℕ)} {t t' : Store} (size alignment : ℕ)
      → size < 2 ^ 62
      → 2 ^ alignment < 2 ^ 62
      → Calls rounds s blocks t
      → boot_alloc rounds size alignment t ≡ ok (null, t')
      → Calls rounds s blocks t'
  given :
      {blocks : List (Ptr × ℕ)} {t t' : Store} (size alignment p : ℕ)
      → size < 2 ^ 62
      → 2 ^ alignment < 2 ^ 62
      → Calls rounds s blocks t
      → boot_alloc rounds size alignment t ≡ ok (p, t')
      → p ≢ null
      → Calls rounds s ((p, size) ∷ blocks) t'

-- No two of the blocks have a byte in common.
abbrev pub Disjoint : List (Ptr × ℕ) → Type 0
Disjoint [] = Unit {0}
Disjoint ((p, n) ∷ blocks) = ((a : ℕ) → p ≤ a → a < p + n → ¬ InList a blocks) × Disjoint blocks

-- What holds behind a sequence of calls.
pub record Served (xs blocks : List (Ptr × ℕ)) (rounds : ℕ) (t : Store) : Type 0 where
  pub left : List (Ptr × ℕ)
  pub free : IsFreeList t left
  pub enough : length left < rounds
  pub disjoint : Disjoint blocks
  pub from_list : (a : ℕ) → InList a blocks → InList a xs
  pub not_free : (a : ℕ) → InList a left → InList a xs × ¬ InList a blocks

-- A block that is taken from what was left.
Served-given :
    (xs blocks : List (Ptr × ℕ)) (rounds : ℕ) (t t' : Store) (p size : ℕ) (left : List (Ptr × ℕ))
    (served : Served xs blocks rounds t)
    → IsFreeList t' left
    → length left ≤ length served.left
    → Takes p size served.left left
    → Served xs ((p, size) ∷ blocks) rounds t'
Served-given xs blocks rounds t t' p size left served list short takes =
    let e = served.enough in
    record {
      left = left;
      free = list;
      enough = omega (arith, e);
      disjoint =
          (λ a from to taken. (served.not_free a (takes.0 a from to)).1 taken, served.disjoint);
      from_list = λ a i. elim i [
        | inl here ↦ (served.not_free a (takes.0 a here.0 here.1)).0
        | inr later ↦ served.from_list a later
      ];
      not_free = λ a i.
          let (was, out) = takes.1 a i in
          let (origin, fresh) = served.not_free a was in
          (
            origin,
            λ taken. elim taken [ inl here ↦ omega (arith, here, out) | inr later ↦ fresh later ],
          );
    }

-- From a store that holds an ordered free list of fewer regions than rounds, after any sequence of
-- calls of `boot_alloc`, each with a size and a 2^alignment below 2^62, refused ones included: no two blocks that were given have a byte in common,
-- all their bytes were free at the start, and the store still holds an ordered free list, of bytes that were
-- free at the start and are in no block.
pub Calls-Served :
    {rounds : ℕ} {s t : Store} {xs blocks : List (Ptr × ℕ)}
    → IsFreeList s xs
    → length xs < rounds
    → Calls rounds s blocks t
    → Served xs blocks rounds t
Calls-Served {xs} free enough none_yet = record {
  left = xs;
  free = free;
  enough = enough;
  disjoint = tt;
  from_list = λ a i. absurd i;
  not_free = λ a i. (i, λ e. e);
}
Calls-Served {rounds} {t = t'} {xs} {blocks} free enough
      (refused {t} size alignment small power calls run) =
    let served = Calls-Served free enough calls in
    elim (boot_alloc-Allocated size alignment t small power rounds served.left served.free
      served.enough) [
        | inl (p, u, l, run', list, short, ne, aligned, takes) ↦ absurd (ne (cc))
        | inr (run', no_room) ↦ subst (Served xs blocks rounds) {x = t} (cc) served
      ]
Calls-Served {rounds} {t = t'} {xs} free enough
      (given {blocks} {t} size alignment p small power calls run ne) =
    let served = Calls-Served free enough calls in
    elim (boot_alloc-Allocated size alignment t small power rounds served.left served.free
      served.enough) [
        | inl (p', u, l, run', list, short, ne', aligned, takes) ↦
            let at : p' ≡ p = cc in
            let store_at : u ≡ t' = cc in
            Served-given xs blocks rounds t t' p size l served
              (subst (λ x. IsFreeList x l) store_at list) short
              (subst (λ x. Takes x size served.left l) at takes)
        | inr (run', no_room) ↦ absurd (ne (cc))
      ]
