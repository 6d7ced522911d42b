-- ===== src/Kernel/BootMem/FreeList/Free.antt =====
-- What `boot_free` does on an empty list, and what it cannot do on another.
use riscy_os.Prelude.{
  ℕ, ◌≤◌, ◌<◌, ◌≡◌, refl, ◌≢◌, ◌⊎◌, Ptr, null, arith, add64, ok, undefined, lt→ltb, le→ltb,
}
use riscy_os.Kernel.Error.{success, exist, empty}
use riscy_os.Kernel.BootMem.FreeList.{
  Store, sizeof_region, load, store, set_next, set_prev, set_head, scaled_end, insert_between,
  free_loop, boot_free, write,
}

pub boot_free_small :
    (start size : ℕ) (s : Store)
    → s.head ≡ null
    → size < sizeof_region
    → boot_free start size s ≡ ok (empty, s)
unfolding boot_free
boot_free_small start size s none_yet small = ground (arith, lt→ltb size sizeof_region small)

-- On an empty list a region that is too small is refused with KERR_EMPTY and changes nothing. Any
-- other, not at NULL, becomes the only region of the list, with no neighbours, and no other struct
-- changes.
pub boot_free_empty :
    (start size : ℕ) (s : Store)
    → s.head ≡ null
    → start ≢ null
    → (size < sizeof_region → boot_free start size s ≡ ok (empty, s))
      × (sizeof_region ≤ size
          → (s' : Store) × (boot_free start size s ≡ ok (success, s'))
            × (s'.head ≡ start)
            × (s'.region start ≡ record { next = null; prev = null; size = size })
            × ((q : Ptr) → q ≢ start → s'.region q ≡ s.region q))
unfolding boot_free store set_head
boot_free_empty start size s none_yet ne = (
  λ small. ground (arith, lt→ltb size sizeof_region small),
  λ enough. (
    record (write s start (record { next = null; prev = null; size = size })) { head = start },
    ground (arith, le→ltb size sizeof_region enough),
    refl,
    ground arith,
    λ q other. ground arith,
  ),
)

-- On a list that is not empty, for a region that is not at NULL and does not begin at the scaled end
-- of the first region, which lies 24 times that region's size behind its start, modulo 2^64: if the
-- region's end, taken modulo 2^64, is below the first region, and it begins below the scaled end, the
-- code writes through NULL; else it is refused with KERR_EXIST, and nothing changes.
pub boot_free_second :
    (start size : ℕ) (s : Store)
    → s.head ≢ null
    → start ≢ null
    → start ≢ scaled_end s.head (s.region s.head).size
    → ((add64 start size < s.head)
        × (start < scaled_end s.head (s.region s.head).size)
        × (boot_free start size s ≡ undefined))
      ⊎ (((s.head ≤ add64 start size) ⊎ (scaled_end s.head (s.region s.head).size < start))
          × (boot_free start size s ≡ ok (exist, s)))
unfolding boot_free free_loop load insert_between store set_prev set_next
boot_free_second start size s ne start_ne apart = ground arith
