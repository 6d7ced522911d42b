-- ===== src/Kernel/BootMem/FreeList/Relink.antt =====
-- The writes that link a region's neighbours to each other or to another region.
use riscy_os.Prelude.{
  ◌+◌, ◌≤◌, ◌<◌, ◌≡◌, ◌≢◌, ◌⊎◌, inl, inr, Ptr, null, ◌==◌, if◌then◌else◌, arith, Bool-cases, ok,
  ==→eq,
}
use riscy_os.Kernel.BootMem.FreeList.{
  Region, Store, ◌>>◌, write, load, store, set_next, set_prev, set_head, assert_head, relink_prev,
  relink_next, unlink,
}
use riscy_os.Kernel.BootMem.FreeList.Splice.{Relinked}

abbrev pub link_prev : Store → Ptr → Ptr → Store
link_prev s prev to =
    if prev == null
    then record s { head = to }
    else write s prev (record (s.region prev) { next = to })

abbrev pub link_next : Store → Ptr → Ptr → Store
link_next s next from =
    if next == null then s else write s next (record (s.region next) { prev = from })

abbrev pub link : Store → Ptr → Ptr → Ptr → Ptr → Store
link s prev next to from = link_next (link_prev s prev to) next from

pub link-run :
    (q prev next to from : Ptr) (s : Store)
    → (prev ≡ null → s.head ≡ q)
    → (relink_prev q prev to >> relink_next next from) s ≡ ok (tt, link s prev next to from)
unfolding relink_prev relink_next assert_head set_head set_next set_prev load store
link-run q prev next to from s first = elim (Bool-cases (prev == null)) [
  | inl none_before ↦ let at = first (==→eq prev null none_before) in ground (arith, at)
  | inr some_before ↦ ground arith
]

pub unlink-run :
    (q : Ptr) (r : Region) (s : Store)
    → (r.prev ≡ null → s.head ≡ q)
    → unlink q r s ≡ ok (tt, link s r.prev r.next r.next r.prev)
unfolding unlink
unlink-run q r s first = link-run q r.prev r.next r.next r.prev s first

pub link-head :
    (s : Store) (prev next to from : Ptr)
    → (link s prev next to from).head ≡ (if prev == null then to else s.head)
link-head s prev next to from = ground arith

module _ (region : Ptr → Region) (s : Store) (q n to from : Ptr) where
  -- The links are those of the region at `q`, and the store is the one before but inside of it.
  pub link-inside :
      (region q).prev < q
      → ((region q).next ≢ null → q + n ≤ (region q).next)
      → (x : Ptr) → q ≤ x
      → x < q + n
      → (link s (region q).prev (region q).next to from).region x ≡ s.region x
  link-inside low high x ge lt = ground (arith, high)

  pub link-Relinked :
      (region q).prev < q
      → ((region q).next ≢ null → q + n ≤ (region q).next)
      → ((x : Ptr) → (x < q) ⊎ (q + n ≤ x) → s.region x ≡ region x)
      → Relinked region (link s (region q).prev (region q).next to from).region q n to from
  link-Relinked low high same = record {
    below = λ x lt ne. ground (arith, high, same x (inl lt));
    above = λ x ge ne. ground (arith, low, same x (inr ge));
    before = λ ne.
        let at = same (region q).prev (inl low) in
        (ground (arith, high, at), ground (arith, high, at), ground (arith, high, at));
    behind = λ ne.
        let at = same (region q).next (inr (high ne)) in
        (
          ground (arith, low, high, at),
          ground (arith, low, high, at),
          ground (arith, low, high, at),
        );
  }
