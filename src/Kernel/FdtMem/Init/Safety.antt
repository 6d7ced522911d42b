-- ===== src/Kernel/FdtMem/Init/Safety.antt =====
-- What is left of a region when the kernel, the reserve entries and the tree are carved out.
use riscy_os.Prelude.{
  ℕ, ◌+◌, ◌^◌, ◌≤◌, ◌<◌, ◌≡◌, refl, ◌⊎◌, inl, inr, Ptr, ltb, leb, ◌==◌, arith, Bool-cases, ◌↔◌,
  add64, sub64, Gives, Gives-weaken, ltb→lt, leb→lt,
}
use riscy_os.Kernel.Endian.{Machine}
use riscy_os.Kernel.Fdt.Header.{fdt_size}
use riscy_os.Kernel.Fdt.Reserve.{fdt_reserve_entry_begin}
use riscy_os.Kernel.Fdt.Token.{struct_start}
use riscy_os.Kernel.FdtMem.Trim.Coverage.{Within}
use riscy_os.Kernel.FdtMem.Init.{
  Carved, gone, one, two, above_kernel, without_fdt, carve, carve_all,
}
use riscy_os.Kernel.FdtMem.Init.Reserved.{
  Left, IsOne, Sized, Sized-weaken, carve-Sized, Unreserved, EntriesFit, Suffice, Result,
  carve-Left, reserve_loop-Result, reserve_loop-Returns,
}

-- The part of the region above the kernel's end: nothing, or one region.
above_kernel-cases :
    (kernel_end start size : ℕ)
    → start + size < 2 ^ 64
    → ((above_kernel kernel_end start size ≡ gone)
        × ((a : ℕ) → Within a start size → ¬ (kernel_end ≤ a)))
      ⊎ ((p : Ptr) × (n : ℕ) × (above_kernel kernel_end start size ≡ one p n)
          × (p + n < 2 ^ 64)
          × (n ≤ size)
          × ((a : ℕ) → Within a p n ↔ (Within a start size × (kernel_end ≤ a))))
unfolding above_kernel
above_kernel-cases kernel_end start size fits = elim (Bool-cases (size == 0)) [
  | inl empty ↦ inl (rw empty refl, λ a inside high. ground (arith, empty))
  | inr some_bytes ↦ elim (Bool-cases (ltb start kernel_end)) [
    | inr above ↦
        inr
          (start, size, rw (some_bytes, above) refl, fits, omega arith, λ a. ground (arith, above))
    | inl below ↦ elim (Bool-cases (leb (add64 start size) kernel_end)) [
      | inl whole ↦ inl (rw (some_bytes, below, whole) refl, λ a inside high. ground (arith, whole))
      | inr part ↦
          let size' : ℕ = sub64 (add64 start size) kernel_end in
          let bound = leb→lt (add64 start size) kernel_end part in
          inr (
            kernel_end,
            size',
            rw (some_bytes, below, part) refl,
            omega (arith, bound),
            omega (arith, bound, ltb→lt start kernel_end below),
            λ a. ground (arith, bound, ltb→lt start kernel_end below),
          )
    ]
  ]
]

module _ (m : Machine) (fdt kernel_end : Ptr) (start size : ℕ) where
  -- What is left has no byte below the kernel's end or outside of the region, and every byte of the
  -- region that nothing reserves; and if it is one region, it has no reserved byte.
  abbrev pub Carves : Carved → Type 0
  Carves c =
      (a : ℕ)
      → (Left a c → Within a start size × (kernel_end ≤ a))
        × (Within a start size
            → kernel_end ≤ a
            → Unreserved m fdt (fdt_reserve_entry_begin m fdt) a
            → ¬ Within a fdt (fdt_size m fdt)
            → Left a c)
        × (IsOne c
            → Left a c
            → Unreserved m fdt (fdt_reserve_entry_begin m fdt) a × ¬ Within a fdt (fdt_size m fdt))

  without_fdt-Carves :
      (p : Ptr) (n : ℕ) (c : Carved)
      → fdt + fdt_size m fdt < 2 ^ 64
      → ((a : ℕ) → Within a p n ↔ (Within a start size × (kernel_end ≤ a)))
      → Result m fdt (fdt_reserve_entry_begin m fdt) p n c
      → Carves (without_fdt m fdt c)
  unfolding without_fdt
  without_fdt-Carves p n gone blob above (fits, exact) a = (
    λ left. absurd left,
    λ inside high free outside. (exact a).1 ((above a).1 (inside, high)) free,
    λ is_one left. absurd left,
  )
  without_fdt-Carves p n (two x k y l) blob above (fits, exact) a = (
    λ left. (above a).0 ((exact a).0 left),
    λ inside high free outside. (exact a).1 ((above a).1 (inside, high)) free,
    λ is_one left. absurd is_one,
  )
  without_fdt-Carves p n (one x k) blob above (fits, exact) a =
      let (into, from) = carve-Left x k fdt (fdt_size m fdt) a fits.0 blob in
      (
        λ left. (above a).0 ((exact a).0 (into left).0),
        λ inside high free outside. from ((exact a).1 ((above a).1 (inside, high)) free, outside),
        λ is_one left. ((exact a).2 tt (into left).0, (into left).1),
      )

  without_fdt-Sized :
      (n : ℕ) (c : Carved)
      → fdt + fdt_size m fdt < 2 ^ 64
      → Sized n c
      → Sized n (without_fdt m fdt c)
  unfolding without_fdt
  without_fdt-Sized n gone blob sized = tt
  without_fdt-Sized n (two x k y l) blob sized = sized
  without_fdt-Sized n (one x k) blob sized =
      Sized-weaken k n (carve x k fdt (fdt_size m fdt)) sized.1
        (carve-Sized x k fdt (fdt_size m fdt) sized.0 blob)

  pub carve_all-Parts :
      (fuel : ℕ)
      → start + size < 2 ^ 64
      → fdt + fdt_size m fdt < 2 ^ 64
      → struct_start m fdt < 2 ^ 63
      → EntriesFit m fdt (fdt_reserve_entry_begin m fdt)
      → Suffice m fdt fuel (fdt_reserve_entry_begin m fdt)
      → Gives (λ c. Sized size c × Carves c) (carve_all m fuel fdt kernel_end start size)
  unfolding carve_all without_fdt
  carve_all-Parts fuel fits blob low entries enough =
      let begin : Ptr = fdt_reserve_entry_begin m fdt in
      elim (above_kernel-cases kernel_end start size fits) [
        | inl (none_above, outside) ↦ (
          gone,
          rw none_above refl,
          (
            tt,
            λ a. (
              λ left. absurd left,
              λ inside high free other. outside a inside high,
              λ is_one left. absurd left,
            ),
          ),
        )
        | inr (p, n, above, small, le, exact) ↦
            let (c, run) = reserve_loop-Returns m fdt fuel begin p n low enough in
            let result = reserve_loop-Result m fdt fuel begin p n c small entries run in
            (
              without_fdt m fdt c,
              rw (above, run) refl,
              (
                Sized-weaken n size (without_fdt m fdt c) le (without_fdt-Sized n c blob result.0),
                without_fdt-Carves p n c blob exact result,
              ),
            )
      ]

  -- Where the region, the tree and the reserve entries do not wrap and the fuel suffices for the
  -- walk over the entries, the carving of a region before it is freed returns. What it leaves has only
  -- bytes of the region that are not below the end of the kernel, and all of these that neither a
  -- reserve entry nor the tree holds; and if it leaves one region, which is the one that is freed, no
  -- byte of it is in a reserve entry or in the tree.
  pub carve_all-Gives :
      (fuel : ℕ)
      → start + size < 2 ^ 64
      → fdt + fdt_size m fdt < 2 ^ 64
      → struct_start m fdt < 2 ^ 63
      → EntriesFit m fdt (fdt_reserve_entry_begin m fdt)
      → Suffice m fdt fuel (fdt_reserve_entry_begin m fdt)
      → Gives Carves (carve_all m fuel fdt kernel_end start size)
  carve_all-Gives fuel fits blob low entries enough =
      Gives-weaken Carves (λ c. Sized size c × Carves c)
        (carve_all m fuel fdt kernel_end start size)
        (carve_all-Parts fuel fits blob low entries enough) λ c parts. parts.1
