-- ===== src/Examples/Memory.antt =====
-- The boot allocator, the reserved regions and the syscon checks at concrete inputs.
use riscy_os.Prelude.{
  ◌*◌, ℕ, ◌+◌, ◌%◌, ◌^◌, ◌≤◌, ◌<◌, ◌≡◌, refl, true, some, List, [], ◌∷◌, ◌⊎◌, Ptr, null, get_elem?,
  arith, ◌↔◌, add64, ok, undefined,
}
use riscy_os.Prelude.Int.{pos, ◌-ℤ◌}
use riscy_os.Kernel.Error.{success, exist}
use riscy_os.Kernel.BootMem.Placement.{
  Best, no_best, consider, one_shl, to_ssize, alloc_after_unalignment, alloc_before_unalignment,
  region_size_alloc_after, region_size_alloc_before,
}
use riscy_os.Kernel.BootMem.Placement.Bounds.{placements_lem}
use riscy_os.Kernel.BootMem.FreeList.{
  Store, boot_alloc, alloc_loop, alloc_best, alloc_after, load, store, boot_free, scaled_end,
}
use riscy_os.Kernel.BootMem.FreeList.Runs.{after_store}
use riscy_os.Kernel.BootMem.FreeList.Refines.{IsFreeList}
use riscy_os.Kernel.BootMem.FreeList.Allocate.{
  Allocated, Calls, none_yet, given, Served, boot_alloc-Allocated, Calls-Served,
}
use riscy_os.Kernel.BootMem.FreeList.Scan.{Fits, ChosenIn, boot_alloc-best}
use riscy_os.Kernel.BootMem.FreeList.Placed.{NoRoom}
use riscy_os.Kernel.BootMem.FreeList.Free.{boot_free_second}
use riscy_os.Kernel.BootMem.FreeList.Merge.{boot_free-merges}
use riscy_os.Kernel.FdtMem.Trim.{trim_or_split_around_reserved}
use riscy_os.Kernel.FdtMem.Trim.Coverage.{Within, WithinTrimmed, trim_or_split-Within}
use riscy_os.Drivers.Syscon.{check_offset}
use riscy_os.Drivers.Syscon.Init.{check_offset_lem}

-- One free region, of 0x4000 bytes at 0x8000_0000.
abbrev one_region : Store
one_region = record {
  head = 0x8000_0000;
  region = λ _. record { next = null; prev = null; size = 0x4000 };
}

boot_alloc-best_example :
    (b : Best) × (boot_alloc 2 0x1000 4 one_region ≡ alloc_best 0x1000 4 b one_region)
    × ((i q n k : ℕ)
        → get_elem? {A = Ptr × ℕ} ((0x8000_0000, 0x4000) ∷ []) i ≡ some (q, n)
        → Fits 0x1000 4 q n k
        → b.fit ≤ k)
    × (ChosenIn 0x1000 4 ((0x8000_0000, 0x4000) ∷ []) b
        ⊎ ((b ≡ no_best) × (boot_alloc 2 0x1000 4 one_region ≡ ok (null, one_region))))
boot_alloc-best_example =
    boot_alloc-best 2 0x1000 4 ((0x8000_0000, 0x4000) ∷ []) one_region
      (refl, omega arith, refl, refl, refl) (omega arith)

abbrev one_list : List (Ptr × ℕ)
one_list = (0x8000_0000, 0x4000) ∷ []

one_region-IsFreeList : IsFreeList one_region one_list
one_region-IsFreeList = record {
  chain = (refl, omega arith, refl, refl, refl);
  ordered = (omega arith, omega arith, omega arith, tt);
}

boot_alloc-Allocated_example :
    Allocated 0x1000 4 one_list (boot_alloc 2 0x1000 4 one_region)
    ⊎ ((boot_alloc 2 0x1000 4 one_region ≡ ok (null, one_region)) × NoRoom 0x1000 4 one_list)
boot_alloc-Allocated_example =
    boot_alloc-Allocated 0x1000 4 one_region (omega arith) (omega arith) 2 one_list
      one_region-IsFreeList (omega arith)

first_call :
    boot_alloc 2 0x1000 4 one_region ≡ ok (0x8000_3000, after_store one_region 0x8000_0000 0x3000)
unfolding boot_alloc alloc_loop consider region_size_alloc_after region_size_alloc_before to_ssize
    one_shl alloc_after_unalignment alloc_before_unalignment alloc_best alloc_after load store ◌-ℤ◌
first_call = refl

-- One call, which is served.
one_call :
    Calls 2 one_region ((0x8000_3000, 0x1000) ∷ []) (after_store one_region 0x8000_0000 0x3000)
one_call = given 0x1000 4 0x8000_3000 (omega arith) (omega arith) none_yet first_call (omega arith)

Calls-Served_example :
    Served one_list ((0x8000_3000, 0x1000) ∷ []) 2 (after_store one_region 0x8000_0000 0x3000)
Calls-Served_example = Calls-Served one_region-IsFreeList (omega arith) one_call

placements_lem_example :
    (region_size_alloc_after 0x8000_0000 0x4000 0x1000 4 ≡ pos 0x3000
      → (0x3000 + 0x1000 + alloc_after_unalignment 0x8000_0000 0x4000 0x1000 4 ≡ 0x4000)
        × ((0x8000_0000 + 0x3000) % 2 ^ 4 ≡ 0))
    × (region_size_alloc_before 0x8000_0000 0x4000 0x1000 4 ≡ pos 0x3000
        → (alloc_before_unalignment 0x8000_0000 4 + 0x1000 + 0x3000 ≡ 0x4000)
          × ((0x8000_0000 + alloc_before_unalignment 0x8000_0000 4) % 2 ^ 4 ≡ 0))
placements_lem_example =
    placements_lem 0x8000_0000 0x4000 0x1000 4
      (record { fits = omega arith; size_small = omega arith; power = omega arith }) 0x3000

abbrev no_regions : Store
no_regions = record { head = null; region = λ _. record { next = 1; prev = 2; size = 3 } }

boot_free_second_example :
    ((add64 0x9000_0000 0x4000 < one_region.head)
      × (0x9000_0000 < scaled_end one_region.head (one_region.region one_region.head).size)
      × (boot_free 0x9000_0000 0x4000 one_region ≡ undefined))
    ⊎ (((one_region.head ≤ add64 0x9000_0000 0x4000)
          ⊎ (scaled_end one_region.head (one_region.region one_region.head).size < 0x9000_0000))
        × (boot_free 0x9000_0000 0x4000 one_region ≡ ok (exist, one_region)))
boot_free_second_example =
    boot_free_second 0x9000_0000 0x4000 one_region (omega arith) (omega arith) (omega arith)

trim_or_split-Within_example :
    WithinTrimmed 150 (trim_or_split_around_reserved 100 100 120 10)
    ↔ (Within 150 100 100 × ¬ Within 150 120 10)
trim_or_split-Within_example = trim_or_split-Within 100 100 120 10 150 (omega arith) (omega arith)

split_at : (trim_or_split_around_reserved 100 100 120 10).split ≡ some (130, 70)
unfolding trim_or_split_around_reserved
split_at = refl

check_offset_lem_example :
    (0xffff_fffe + 4 < 2 ^ 32 → (check_offset 0xffff_fffe 16 ≡ true) ↔ (0xffff_fffe + 4 ≤ 16))
    × (2 ^ 32 ≤ 0xffff_fffe + 4 → 3 ≤ 16 → check_offset 0xffff_fffe 16 ≡ true)
check_offset_lem_example = check_offset_lem 0xffff_fffe 16 (omega arith)

boot_free-merges_example :
    (t : Store) × (boot_free (0x8000_0000 + 24 * 0x4000) 0x1000 one_region ≡ ok (success, t))
    × IsFreeList t ((0x8000_0000, 0x5000) ∷ [])
    × (0x8000_0000 + 0x4000 < 0x8000_0000 + 24 * 0x4000)
boot_free-merges_example =
    boot_free-merges 0x8000_0000 0x4000 0x1000 one_region one_region-IsFreeList (omega arith)
