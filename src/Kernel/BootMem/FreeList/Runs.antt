-- ===== src/Kernel/BootMem/FreeList/Runs.antt =====
-- The stores that the two placements leave behind.
use riscy_os.Prelude.{
  ℕ, ◌+◌, ◌≡◌, refl, ◌≢◌, inl, inr, Ptr, null, ltb, if◌then◌else◌, arith, Bool-cases, ap, ◌∙◌,
  add64, sub64, ok, ne→==, ==_refl,
}
use riscy_os.Prelude.Int.{pos}
use riscy_os.Kernel.BootMem.Placement.{
  alloc_after_unalignment, alloc_before_unalignment, region_size_alloc_after,
  region_size_alloc_before,
}
use riscy_os.Kernel.BootMem.Placement.Bounds.{IsRequest, placements_lem}
use riscy_os.Kernel.BootMem.FreeList.{
  Region, Store, sizeof_region, write, load, store, move_region, alloc_after, alloc_before,
}
use riscy_os.Kernel.BootMem.FreeList.Relink.{link, link-run, unlink-run}

-- The region's size is `left`; it leaves the list if its struct has no room in that.
abbrev pub after_store : Store → Ptr → ℕ → Store
after_store s q left =
    let r = record (s.region q) { size = left } in
    let s1 = write s q r in
    if ltb left sizeof_region then link s1 r.prev r.next r.next r.prev else s1

-- The region starts at `moved` instead, or leaves the list.
abbrev pub before_store : Store → Ptr → Ptr → ℕ → Store
before_store s q moved left =
    let r = s.region q in
    if ltb left sizeof_region
    then link s r.prev r.next r.next r.prev
    else link (write s moved (record { next = r.next; prev = r.prev; size = left })) r.prev r.next
        moved moved

link-size :
    (s : Store) (prev next to from x : Ptr)
    → ((link s prev next to from).region x).size ≡ (s.region x).size
link-size s prev next to from x = ground arith

module _ (q n size alignment : ℕ) (req : IsRequest q n size alignment) (ne : q ≢ null) (s : Store)
    (at : (s.region q).size ≡ n) (first : (s.region q).prev ≡ null → s.head ≡ q) where
  pub alloc_after-run :
      (left : ℕ)
      → region_size_alloc_after q n size alignment ≡ pos left
      → alloc_after q size alignment s ≡ ok (q + left, after_store s q left)
  unfolding alloc_after load store
  alloc_after-run left fits =
      let parts = (placements_lem q n size alignment req left).0 fits in
      let f = req.fits in
      let rest : sub64 (s.region q).size
            (add64 size (alloc_after_unalignment q (s.region q).size size alignment))
          ≡ left =
        rw at (omega (arith, parts.0)) in
      let r : Region = record (s.region q) { size = left } in
      let s1 : Store = write s q r in
      let sum : add64 q left ≡ q + left = omega (arith, parts.0) in
      rw (ne→== q 0 ne, rest)
        (elim (Bool-cases (ltb left sizeof_region)) [
          | inl small ↦
              let t : Store = link s1 r.prev r.next r.next r.prev in
              let last : (t.region q).size ≡ left =
                link-size s1 r.prev r.next r.next r.prev q ∙ (rw (==_refl q) refl) in
              rw (small, unlink-run q r s1 first)
                (ap (λ k. ok (add64 q k, t)) last ∙ ap (λ p. ok (p, t)) sum)
          | inr large ↦
              let last : (s1.region q).size ≡ left = rw (==_refl q) refl in
              rw large (ap (λ k. ok (add64 q k, s1)) last ∙ ap (λ p. ok (p, s1)) sum)
        ])

  pub alloc_before-run :
      (left : ℕ)
      → region_size_alloc_before q n size alignment ≡ pos left
      → let un = alloc_before_unalignment q alignment in
        alloc_before q size alignment s ≡ ok (q + un, before_store s q (q + un + size) left)
  unfolding alloc_before move_region load store
  alloc_before-run left fits =
      let parts = (placements_lem q n size alignment req left).1 fits in
      let f = req.fits in
      let un : ℕ = alloc_before_unalignment q alignment in
      let rest : sub64 (s.region q).size (add64 size un) ≡ left = rw at (omega (arith, parts.0)) in
      let moved : add64 q (add64 size un) ≡ q + un + size = omega (arith, parts.0) in
      let moved_ne : q + un + size ≢ null = λ e. omega (arith, parts.0) in
      let sum : add64 q un ≡ q + un = omega (arith, parts.0) in
      let r : Region = s.region q in
      rw (ne→== q 0 ne, rest, moved, sum)
        (elim (Bool-cases (ltb left sizeof_region)) [
          | inl small ↦ rw (small, unlink-run q r s first) refl
          | inr large ↦
              rw (large, ne→== (q + un + size) 0 moved_ne)
                (rw
                  (link-run q r.prev r.next (q + un + size) (q + un + size)
                    (write s (q + un + size) (record { next = r.next; prev = r.prev; size = left }))
                    first)
                  refl)
        ])
