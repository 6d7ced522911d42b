-- ===== src/Kernel/FdtMem/Init/Ready.antt =====
-- A region that is freed into an empty list, and the blocks that are allocated from it.
use riscy_os.Prelude.{
  ◌-◌, Bool-cases, ltb, ltb→lt, ℕ, suc, ◌+◌, ◌^◌, ◌≤◌, ◌<◌, ◌≡◌, refl, ◌≢◌, List, [], ◌∷◌, ◌⊎◌, inl,
  inr, Ptr, null, arith, ap, ◌↔◌, ok,
}
use mathlib.Core.Path.{subst}
use riscy_os.Kernel.Endian.{Machine}
use riscy_os.Kernel.Fdt.Header.{fdt_size}
use riscy_os.Kernel.Fdt.Reserve.{fdt_reserve_entry_begin}
use riscy_os.Kernel.Fdt.Token.{struct_start}
use riscy_os.Kernel.BootMem.FreeList.{Region, Store, sizeof_region}
use riscy_os.Kernel.BootMem.FreeList.Free.{boot_free_small, boot_free_empty}
use riscy_os.Kernel.BootMem.FreeList.Ordered.{InList}
use riscy_os.Kernel.BootMem.FreeList.Refines.{IsFreeList}
use riscy_os.Kernel.BootMem.FreeList.Allocate.{Disjoint, Calls, Calls-Served}
use riscy_os.Kernel.FdtMem.Trim.Coverage.{Within}
use riscy_os.Kernel.FdtMem.Init.{one, carve_all, free_region, try_boot_free_region}
use riscy_os.Kernel.FdtMem.Init.Reserved.{Sized, EntriesFit, Suffice}
use riscy_os.Kernel.FdtMem.Init.Safety.{Carves, carve_all-Parts}
use riscy_os.Kernel.FdtMem.Init.Handover.{IsUsable}

-- The whole region is the free list, or it is too small for its struct and the list is empty.
abbrev pub Ready : Ptr → ℕ → ℕ → Store → Type 0
Ready p n freed t =
    ((sizeof_region ≤ n) × (freed ≡ n) × IsFreeList t ((p, n) ∷ []))
    ⊎ ((n < sizeof_region) × (freed ≡ 0) × IsFreeList t [])

free_region-Ready :
    (p n : ℕ) (s : Store)
    → s.head ≡ null
    → (sizeof_region ≤ n → (p ≢ null) × (p + n < 2 ^ 63))
    → (freed : ℕ) × (t : Store) × (free_region p n s ≡ ok (freed, t)) × Ready p n freed t
unfolding free_region
free_region-Ready p n s empty large = elim (Bool-cases (ltb n sizeof_region)) [
  | inl below ↦
      let small = ltb→lt n sizeof_region below in
      (
        0,
        s,
        rw (boot_free_small p n s empty small) refl,
        inr (small, refl, record { chain = empty; ordered = tt }),
      )
  | inr not_below ↦
      let enough : sizeof_region ≤ n = ground (arith, not_below) in
      let (some_place, low) = large enough in
      let (t, run, head_at, struct_at, others) =
        (boot_free_empty p n s empty some_place).1 enough in
      (
        n,
        t,
        rw run refl,
        inl (
          enough,
          refl,
          record {
            chain = (
              head_at,
              some_place,
              ap Region.prev struct_at,
              ap Region.size struct_at,
              ap Region.next struct_at,
            );
            ordered = (ground (arith, some_place), enough, low, tt);
          },
        ),
      )
]

InList-one : (a p n : ℕ) → InList a ((p, n) ∷ []) → Within a p n
InList-one a p n (inl here) = here
InList-one a p n (inr later) = absurd later

-- The blocks that are allocated from such a list.
pub Ready-blocks :
    (p n freed rounds : ℕ) (t u : Store) (blocks : List (Ptr × ℕ))
    → Ready p n freed t
    → 1 < rounds
    → Calls rounds t blocks u
    → ((a : ℕ) → InList a blocks → Within a p n) × Disjoint blocks
Ready-blocks p n freed rounds t u blocks (inl (large, all, list)) enough calls =
    let served = Calls-Served list enough calls in
    (λ a i. InList-one a p n (served.from_list a i), served.disjoint)
Ready-blocks p n freed rounds t u blocks (inr (small, nothing, list)) enough calls =
    let served = Calls-Served list (omega (arith, enough)) calls in
    (λ a i. absurd (served.from_list a i), served.disjoint)

module _ (m : Machine) (fuel fdt kernel_end start size p n : ℕ) where
  -- What the reserve entries, the tree and the kernel leave of the region is one region; nothing wraps,
  -- and the fuel suffices.
  pub record LeavesOne : Type 0 where
    pub carved : carve_all m fuel fdt kernel_end start size ≡ ok (one p n)
    pub above_null : 0 < kernel_end
    pub low : start + size < 2 ^ 63
    pub blob_fits : fdt + fdt_size m fdt < 2 ^ 64
    pub blob_low : struct_start m fdt < 2 ^ 63
    pub entries : EntriesFit m fdt (fdt_reserve_entry_begin m fdt)
    pub enough : Suffice m fdt fuel (fdt_reserve_entry_begin m fdt)

  module _ (leaves : LeavesOne) where
    pub LeavesOne-parts : Sized size (one p n) × Carves m fdt kernel_end start size (one p n)
    LeavesOne-parts =
        let low = leaves.low in
        let given = leaves.carved in
        let (c, run, parts) =
          carve_all-Parts m fdt kernel_end start size fuel (omega (arith, low)) leaves.blob_fits
            leaves.blob_low leaves.entries leaves.enough in
        let same : c ≡ one p n = cc in
        subst (λ x. Sized size x × Carves m fdt kernel_end start size x) same parts

    -- Its bytes are the usable ones.
    pub LeavesOne-IsUsable :
        (a : ℕ) → Within a p n ↔ (Within a start size × IsUsable m fuel fdt kernel_end a)
    LeavesOne-IsUsable a =
        let (sized, carves) = LeavesOne-parts in
        (
          λ inside.
              let (within, high) = (carves a).0 inside in
              let (free, out) = (carves a).2 tt inside in (within, (high, free, out)),
          λ (within, (high, free, out)). (carves a).1 within high free out,
        )

    -- If the kernel, the reserve entries and the tree leave one region of a region that ends below 2^63,
    -- and the free list is empty: `try_boot_free_region` returns. The free list then is that one region,
    -- which has exactly the usable bytes of the whole, and its size is returned; or that region is too
    -- small for its struct, the list stays empty, and 0 is returned.
    pub try_boot_free_region-Ready :
        (depth : ℕ) (s : Store)
        → s.head ≡ null
        → (freed : ℕ) × (t : Store) × (try_boot_free_region
              (suc depth)
              m
              fuel
              fdt
              kernel_end
              start
              size
              s
            ≡ ok (freed, t))
          × Ready p n freed t
          × ((a : ℕ) → Within a p n ↔ (Within a start size × IsUsable m fuel fdt kernel_end a))
    unfolding try_boot_free_region
    try_boot_free_region-Ready depth s empty =
        let (sized, carves) = LeavesOne-parts in
        let high = leaves.above_null in
        let low = leaves.low in
        let (freed, t, run, ready) = free_region-Ready p n s empty λ enough.
          let first = (carves p).0 (omega arith, omega (arith, enough)) in
          let last = (carves (p + n - 1)).0 (omega (arith, enough), omega (arith, enough)) in
          ((λ e. omega (arith, first.1, high, e)), omega (arith, last.0.1, low)) in
        (freed, t, rw leaves.carved run, ready, LeavesOne-IsUsable)
