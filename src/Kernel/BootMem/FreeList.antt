-- ===== src/Kernel/BootMem/FreeList.antt =====
-- The list of free regions of kernel/mem/boot/free_list.c.
-- struct boot_free_region lies at the start of the region that it describes. The store gives the
-- struct at each address; live structs do not overlap. A read or write through NULL is `undefined`.
pub mod Scan
pub mod Free
pub mod Merge
pub mod Placed
pub mod Ordered
pub mod Splice
pub mod Relink
pub mod Runs
pub mod Refines
pub mod Allocate
use riscy_os.Prelude.{
  ℕ, zero, suc, ◌*◌, not, Ptr, null, ltb, ◌==◌, if◌then◌else◌, ◌&&◌, u64, add64, sub64, ◌>>=◌, Run,
  ok, no_return, undefined,
}
use riscy_os.Kernel.Error.{KError, success, exist, empty}
use riscy_os.Kernel.BootMem.Placement.{
  alloc_after_unalignment, alloc_before_unalignment, Best, no_best, consider,
}

-- struct boot_free_region, and sizeof of it.
pub record Region : Type 0 where
  pub next : Ptr
  pub prev : Ptr
  pub size : ℕ

abbrev pub sizeof_region : ℕ
sizeof_region = 24

-- `head` is `boot_free_list`.
pub record Store : Type 0 where
  pub head : Ptr
  pub region : Ptr → Region

abbrev pub Cmd : Type 0 → Type 0
Cmd A = Store → Run (A × Store)

abbrev pub pure : {A : Type 0} → A → Cmd A
pure a s = ok (a, s)

infixl 5 ◌>>-◌ ◌>>◌
abbrev pub ◌>>-◌ : {A B : Type 0} → Cmd A → (A → Cmd B) → Cmd B
◌>>-◌ c f s = c s >>= λ (a, s'). f a s'

abbrev pub ◌>>◌ : {B : Type 0} → Cmd (Unit {0}) → Cmd B → Cmd B
c >> d = c >>- λ _. d

abbrev pub write : Store → Ptr → Region → Store
write s p r = record s { region = λ q. if q == p then r else s.region q }

unfoldable pub load : Ptr → Cmd Region
load p s = if p == null then undefined else ok (s.region p, s)

unfoldable pub store : Ptr → Region → Cmd (Unit {0})
store p r s = if p == null then undefined else ok (tt, write s p r)

pub set_next : Ptr → Ptr → Cmd (Unit {0})
set_next p q = load p >>- λ r. store p (record r { next = q })

pub set_prev : Ptr → Ptr → Cmd (Unit {0})
set_prev p q = load p >>- λ r. store p (record r { prev = q })

unfoldable pub set_head : Ptr → Cmd (Unit {0})
set_head p s = ok (tt, record s { head = p })

abbrev get_head : Cmd Ptr
get_head s = ok (s.head, s)

abbrev skip : Cmd (Unit {0})
skip = pure tt

-- `assert(boot_free_list == region)`: its failure does not return.
pub assert_head : Ptr → Cmd (Unit {0})
assert_head region s = if s.head == region then ok (tt, s) else no_return

-- The writes that link `to` in the place of `region` between `prev` and `next`.
pub relink_prev : Ptr → Ptr → Ptr → Cmd (Unit {0})
relink_prev region prev to =
    if not (prev == null) then set_next prev to else assert_head region >> set_head to

pub relink_next : Ptr → Ptr → Cmd (Unit {0})
relink_next next to = if not (next == null) then set_prev next to else skip

-- Remove a region from the list.
pub unlink : Ptr → Region → Cmd (Unit {0})
unlink region r = relink_prev region r.prev r.next >> relink_next r.next r.prev

unfoldable pub alloc_after : Ptr → ℕ → ℕ → Cmd Ptr
alloc_after region size alignment = load region >>- λ r.
    let unalignment = alloc_after_unalignment region r.size size alignment in
    let r' = record r { size = sub64 r.size (add64 size unalignment) } in
    store region r'
    >> ((if ltb r'.size sizeof_region then unlink region r' else skip)
        >> (load region >>- λ last. pure (add64 region last.size)))

-- The region's struct moves to the first byte behind the allocation.
pub move_region : Ptr → Region → Ptr → ℕ → Cmd (Unit {0})
move_region region r new_region new_size =
    store new_region (record { next = r.next; prev = r.prev; size = new_size })
    >> (relink_prev region r.prev new_region >> relink_next r.next new_region)

pub alloc_before : Ptr → ℕ → ℕ → Cmd Ptr
alloc_before region size alignment = load region >>- λ r.
    let unalignment = alloc_before_unalignment region alignment in
    let taken = add64 size unalignment in
    let new_size = sub64 r.size taken in
    (if ltb new_size sizeof_region
      then unlink region r
      else move_region region r (add64 region taken) new_size)
    >> pure (add64 region unalignment)

unfoldable pub alloc_loop : ℕ → ℕ → ℕ → Ptr → Best → Cmd Best
alloc_loop zero size alignment curr best s = no_return
alloc_loop (suc rounds) size alignment curr best s =
    let rest = alloc_loop rounds size alignment in
    if curr == null
    then ok (best, s)
    else rest (s.region curr).next (consider size alignment curr (s.region curr).size best) s

unfoldable pub alloc_best : ℕ → ℕ → Best → Cmd Ptr
alloc_best size alignment best =
    if best.fitting == null
    then pure null
    else if best.before
    then alloc_before best.fitting size alignment
    else alloc_after best.fitting size alignment

-- `rounds` bounds the length of the list.
unfoldable pub boot_alloc : ℕ → ℕ → ℕ → Cmd Ptr
boot_alloc rounds size alignment =
    get_head >>- λ head. alloc_loop rounds size alignment head no_best >>- alloc_best size alignment

-- `curr + curr->size` counts in structs, and not in bytes.
abbrev pub scaled_end : Ptr → ℕ → Ptr
scaled_end curr size = add64 curr (u64 (sizeof_region * size))

-- The case `curr_end == start` of the loop of `boot_free`.
pub merge : Ptr → Ptr → ℕ → Cmd KError
merge curr end size = load curr >>- λ r.
    if r.next == null
    then store curr (record r { size = add64 r.size size }) >> pure success
    else (load r.next >>- λ n.
        if r.next == end
        then store curr (record r { size = add64 r.size (add64 size n.size); next = n.next })
          >> (relink_next n.next n.prev >> pure success)
        else if ltb end r.next
        then store curr (record r { size = add64 r.size size }) >> pure success
        else pure exist)

-- What follows the loop, with `fully_before` NULL or not: linking the new region.
pub insert_between : Ptr → ℕ → Ptr → Ptr → Cmd KError
insert_between region size fully_before fully_after =
    if fully_before == null && fully_after == null
    then pure exist
    else load region >>- λ r.
        (store region (record r { prev = fully_before; next = fully_after })
          >> (set_prev fully_after region
              >> (set_next fully_before region
                  >> (load region >>- λ r'.
                      store region (record r' { size = size }) >> pure success))))

-- The loop at its first region. Every path through the body returns or leaves the loop, so that it
-- is never at a second one: the case `curr_end < start` runs into the final `return KERR_EXIST`.
pub free_loop : Ptr → ℕ → Ptr → Cmd KError
free_loop start size curr =
    let end = add64 start size in
    load curr >>- λ r.
    let curr_end = scaled_end curr r.size in
    if curr_end == start
    then merge curr end size
    else if ltb curr_end start
    then pure exist
    else if ltb end curr
    then insert_between start size null curr
    else pure exist

unfoldable pub boot_free : Ptr → ℕ → Cmd KError
boot_free start size = get_head >>- λ head.
    if head == null
    then (if ltb size sizeof_region
        then pure empty
        else store start (record { next = null; prev = null; size = size })
          >> (set_head start >> pure success))
    else free_loop start size head

unfoldable pub boot_free_list_begin : Cmd Ptr
boot_free_list_begin = get_head

unfoldable pub boot_free_list_next : Ptr → Cmd Ptr
boot_free_list_next region = load region >>- λ r. pure r.next
