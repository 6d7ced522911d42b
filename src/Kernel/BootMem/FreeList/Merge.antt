-- ===== src/Kernel/BootMem/FreeList/Merge.antt =====
-- The case of `boot_free` in which a region is merged into the only one of the list.
use riscy_os.Prelude.{
  true, ◌==◌, ◌%◌, ℕ, ◌+◌, ◌*◌, ◌^◌, ◌≤◌, ◌<◌, ◌≡◌, refl, [], ◌∷◌, arith, ok, ne→==, ==_refl, add64,
}
use riscy_os.Kernel.Error.{success}
use riscy_os.Kernel.BootMem.FreeList.{
  Store, sizeof_region, write, load, store, merge, free_loop, boot_free,
}
use riscy_os.Kernel.BootMem.FreeList.Refines.{IsFreeList}

-- On an ordered list of one region, a region that begins 24 times the size of that one behind its start
-- and ends below 2^63 is accepted. The list then has still one region, with the same start and larger
-- by the freed size, and the first byte behind its old end lies before the region that is freed.
pub boot_free-merges :
    (p n size : ℕ) (s : Store)
    → IsFreeList s ((p, n) ∷ [])
    → p + 24 * n + size < 2 ^ 63
    → (t : Store) × (boot_free (p + 24 * n) size s ≡ ok (success, t))
      × IsFreeList t ((p, n + size) ∷ [])
      × (p + n < p + 24 * n)
unfolding boot_free free_loop merge load store
boot_free-merges p n size s free low =
    let (head_at, ne, prev_at, size_at, next_at) = free.chain in
    let large : sizeof_region ≤ n = free.ordered.1 in
    let tested : ((p + 24 * n % 2 ^ 64) % 2 ^ 64 == p + 24 * n) ≡ true = ground arith in
    let total : add64 n size ≡ n + size = omega arith in
    (
      write s p (record (s.region p) { size = n + size }),
      rw
          (
            head_at,
            ne→== p 0 ne,
            ne→== p 0 ne,
            size_at,
            tested,
            ne→== p 0 ne,
            next_at,
            ne→== p 0 ne,
            size_at,
            total,
          )
          refl,
      record {
        chain = (head_at, ne, rw (==_refl p) prev_at, rw (==_refl p) refl, rw (==_refl p) next_at);
        ordered = (free.ordered.0, omega (arith, large), omega (arith, low, large), tt);
      },
      omega (arith, large),
    )
