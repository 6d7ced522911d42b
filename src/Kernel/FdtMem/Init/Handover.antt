-- ===== src/Kernel/FdtMem/Init/Handover.antt =====
-- What `try_boot_free_region` hands to `boot_free`, and its recursion.
use riscy_os.Prelude.{
  ℕ, zero, suc, ◌+◌, ◌^◌, ◌≤◌, ◌<◌, ◌≡◌, refl, List, [], ◌∷◌, ◌++◌, inl, inr, Ptr, arith, ap, sym,
  ◌∙◌, ◌↔◌, add64, ◌>>=◌, Run, ok, no_return, undefined,
}
use mathlib.Core.Path.{fun_ext}
use riscy_os.Kernel.Endian.{Machine}
use riscy_os.Kernel.Error.{
  KError, success, exist, no_exist, full, empty, invalid, busy, unimpl, unknown,
}
use riscy_os.Kernel.Fdt.Header.{fdt_size}
use riscy_os.Kernel.Fdt.Reserve.{fdt_reserve_entry_begin}
use riscy_os.Kernel.Fdt.Token.{struct_start}
use riscy_os.Kernel.BootMem.FreeList.{Store, Cmd, pure, ◌>>-◌, boot_free}
use riscy_os.Kernel.BootMem.FreeList.Ordered.{InList, InList-append, InList-left, InList-right}
use riscy_os.Kernel.BootMem.FreeList.Allocate.{Disjoint}
use riscy_os.Kernel.FdtMem.Trim.Coverage.{Within}
use riscy_os.Kernel.FdtMem.Init.{
  Carved, gone, one, two, free_region, dispatch, try_boot_free_region,
}
use riscy_os.Kernel.FdtMem.Init.Reserved.{Sized, Unreserved, EntriesFit, Suffice}
use riscy_os.Kernel.FdtMem.Init.Safety.{Carves, carve_all-Parts}

-- Every region of a list is freed in turn; the bytes of those that are not refused are added up.
pub free_all : List (Ptr × ℕ) → Cmd ℕ
free_all [] = pure 0
free_all ((p, n) ∷ regions) = free_region p n >>- λ a. free_all regions >>- λ b. pure (add64 a b)

-- Two commands in turn, and the sum of what they return.
abbrev then_add : Run (ℕ × Store) → Cmd ℕ → Run (ℕ × Store)
then_add r c = r >>= λ x. c x.1 >>= λ y. ok (add64 x.0 y.0, y.1)

abbrev plus : ℕ → Run (ℕ × Store) → Run (ℕ × Store)
plus a r = r >>= λ y. ok (add64 a y.0, y.1)

plus-plus : (a b : ℕ) (r : Run (ℕ × Store)) → plus a (plus b r) ≡ plus (add64 a b) r
plus-plus a b (ok (c, t)) = ap (λ k. ok (k, t)) (omega arith)
plus-plus a b no_return = refl
plus-plus a b undefined = refl

plus_zero-plus : (a : ℕ) (r : Run (ℕ × Store)) → plus 0 (plus a r) ≡ plus a r
plus_zero-plus a (ok (c, t)) = ap (λ k. ok (k, t)) (omega arith)
plus_zero-plus a no_return = refl
plus_zero-plus a undefined = refl

plus-then_add :
    (a : ℕ) (r : Run (ℕ × Store)) (c : Cmd ℕ) → plus a (then_add r c) ≡ then_add (plus a r) c
plus-then_add a (ok (b, t)) c = plus-plus a b (c t)
plus-then_add a no_return c = refl
plus-then_add a undefined c = refl

then_add_assoc :
    (r : Run (ℕ × Store)) (c d : Cmd ℕ)
    → then_add r (λ s. then_add (c s) d) ≡ then_add (then_add r c) d
then_add_assoc (ok (a, t)) c d = plus-then_add a (c t) d
then_add_assoc no_return c d = refl
then_add_assoc undefined c d = refl

then_add-plus_zero : (r : Run (ℕ × Store)) (c : Cmd ℕ) → plus 0 (then_add r c) ≡ then_add r c
then_add-plus_zero (ok (a, t)) c = plus_zero-plus a (c t)
then_add-plus_zero no_return c = refl
then_add-plus_zero undefined c = refl

free_region-one : (p n : ℕ) (s : Store) → n < 2 ^ 64 → free_region p n s ≡ free_all ((p, n) ∷ []) s
unfolding free_region free_all
free_region-one p n s small = go (boot_free p n s)
  where
    go :
        (r : Run (KError × Store))
        → (r >>= λ x. pure {A = ℕ} (elim x.0 [ success ↦ n | _ ↦ 0 ]) x.1)
          ≡ then_add (r >>= λ x. pure {A = ℕ} (elim x.0 [ success ↦ n | _ ↦ 0 ]) x.1) (pure 0)
    go (ok (success, t)) = ap (λ k. ok (k, t)) (omega arith)
    go (ok (exist, t)) = refl
    go (ok (no_exist, t)) = refl
    go (ok (full, t)) = refl
    go (ok (empty, t)) = refl
    go (ok (invalid, t)) = refl
    go (ok (busy, t)) = refl
    go (ok (unimpl, t)) = refl
    go (ok (unknown, t)) = refl
    go no_return = refl
    go undefined = refl

free_all-append :
    (xs ys : List (Ptr × ℕ)) (s : Store)
    → free_all (xs ++ ys) s ≡ then_add (free_all xs s) (free_all ys)
unfolding free_all
free_all-append [] [] s = refl
free_all-append [] ((p, n) ∷ ys) s = sym (then_add-plus_zero (free_region p n s) (free_all ys))
free_all-append ((p, n) ∷ xs) ys s =
    ap (then_add (free_region p n s)) (fun_ext λ t. free_all-append xs ys t)
    ∙ then_add_assoc (free_region p n s) (free_all xs) (free_all ys)

Disjoint-append :
    (xs ys : List (Ptr × ℕ))
    → Disjoint xs
    → Disjoint ys
    → ((a : ℕ) → InList a xs → ¬ InList a ys)
    → Disjoint (xs ++ ys)
Disjoint-append [] ys hx hy apart = hy
Disjoint-append ((p, n) ∷ xs) ys hx hy apart = (
  λ a from to taken. elim (InList-append a xs ys taken) [
    | inl left ↦ hx.0 a from to left
    | inr right ↦ apart a (inl (from, to)) right
  ],
  Disjoint-append xs ys hx.1 hy λ a i. apart a (inr i),
)

module _ (m : Machine) (fuel : ℕ) (fdt kernel_end : Ptr) where
  -- Neither the kernel, nor a reserve entry, nor the tree holds the byte at `a`.
  abbrev pub IsUsable : ℕ → Type 0
  IsUsable a =
      (kernel_end ≤ a)
      × Unreserved m fdt (fdt_reserve_entry_begin m fdt) a
      × ¬ Within a fdt (fdt_size m fdt)

  -- The run frees the regions of a list in turn, which hold exactly the usable bytes, each once.
  abbrev pub HandsOver : ℕ → Ptr → ℕ → Type 0
  HandsOver depth start size =
      (regions : List (Ptr × ℕ)) × ((s : Store)
        → try_boot_free_region depth m fuel fdt kernel_end start size s ≡ free_all regions s)
      × ((a : ℕ) → InList a regions ↔ (Within a start size × IsUsable a))
      × Disjoint regions

  abbrev Dispatches : ℕ → Ptr → ℕ → Carved → Type 0
  Dispatches depth start size c =
      (regions : List (Ptr × ℕ)) × ((s : Store)
        → dispatch (try_boot_free_region depth m fuel fdt kernel_end) c s ≡ free_all regions s)
      × ((a : ℕ) → InList a regions ↔ (Within a start size × IsUsable a))
      × Disjoint regions

  dispatch-Dispatches :
      (depth start size : ℕ) (c : Carved)
      → size < 2 ^ 64
      → Sized size c
      → Carves m fdt kernel_end start size c
      → ((p : Ptr) (n : ℕ) → n < size → p + n < 2 ^ 64 → HandsOver depth p n)
      → Dispatches depth start size c
  unfolding free_all
  dispatch-Dispatches depth start size gone small sized carves ih = (
    [],
    λ s. refl,
    λ a. (λ i. absurd i, λ (inside, (high, free, out)). (carves a).1 inside high free out),
    tt,
  )
  dispatch-Dispatches depth start size (one p n) small sized carves ih = (
    (p, n) ∷ [],
    λ s. free_region-one p n s (omega (arith, sized.1)),
    λ a. (
      λ i. elim i [
        | inl here ↦
            let (inside, high) = (carves a).0 here in
            let (free, out) = (carves a).2 tt here in (inside, (high, free, out))
        | inr none_left ↦ absurd none_left
      ],
      λ (inside, (high, free, out)). inl ((carves a).1 inside high free out),
    ),
    (λ a from to i. i, tt),
  )
  dispatch-Dispatches depth start size (two p n q k) small sized carves ih =
      let (xs, run, exact, apart) = ih p n sized.2 (omega (arith, sized.0, sized.1)) in
      let (ys, run', exact', apart') = ih q k sized.3 sized.1 in
      (
        xs ++ ys,
        λ s.
            (ap (λ r. then_add r (try_boot_free_region depth m fuel fdt kernel_end q k)) (run s)
              ∙ ap (then_add (free_all xs s)) (fun_ext run'))
            ∙ sym (free_all-append xs ys s),
        λ a. (
          λ i. elim (InList-append a xs ys i) [
            | inl early ↦
                let (inside, usable) = (exact a).0 early in (((carves a).0 (inl inside)).0, usable)
            | inr late ↦
                let (inside, usable) = (exact' a).0 late in (((carves a).0 (inr inside)).0, usable)
          ],
          λ (inside, (high, free, out)). elim ((carves a).1 inside high free out) [
            | inl early ↦ InList-left a xs ys ((exact a).1 (early, (high, free, out)))
            | inr late ↦ InList-right a xs ys ((exact' a).1 (late, (high, free, out)))
          ],
        ),
        Disjoint-append xs ys apart apart'
            λ a i j. omega (arith, ((exact a).0 i).0, ((exact' a).0 j).0, sized.0),
      )

  -- Where the region, the tree and the reserve entries do not wrap, the fuel suffices for the walk over
  -- the entries, and the depth exceeds the size of the region: `try_boot_free_region` gives a list of regions to
  -- `boot_free`, one after the other, and returns the sum of the sizes of those that are not refused.
  -- The regions hold exactly the bytes of the region that are neither below the kernel's end, nor in a
  -- reserve entry, nor in the tree, and no byte twice.
  pub try_boot_free_region-HandsOver :
      (depth start size : ℕ)
      → size < depth
      → start + size < 2 ^ 64
      → fdt + fdt_size m fdt < 2 ^ 64
      → struct_start m fdt < 2 ^ 63
      → EntriesFit m fdt (fdt_reserve_entry_begin m fdt)
      → Suffice m fdt fuel (fdt_reserve_entry_begin m fdt)
      → HandsOver depth start size
  unfolding try_boot_free_region
  try_boot_free_region-HandsOver zero start size deep fits blob low entries enough =
      absurd (omega arith)
  try_boot_free_region-HandsOver (suc depth) start size deep fits blob low entries enough =
      let (c, run, (sized, carves)) =
        carve_all-Parts m fdt kernel_end start size fuel fits blob low entries enough in
      let (regions, runs, exact, apart) =
        dispatch-Dispatches depth start size c (omega arith) sized carves λ p n lt fits'.
          try_boot_free_region-HandsOver depth p n (omega arith) fits' blob low entries enough in
      (regions, λ s. rw run (runs s), exact, apart)
