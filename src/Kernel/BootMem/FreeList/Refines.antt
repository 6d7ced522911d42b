-- ===== src/Kernel/BootMem/FreeList/Refines.antt =====
-- `boot_alloc` against the list of free regions: what it takes and what it leaves.
use riscy_os.Prelude.{
  ℕ, ◌+◌, ◌^◌, ◌≤◌, ◌<◌, ◌≡◌, refl, ◌≢◌, List, [], ◌∷◌, ◌++◌, ◌⊎◌, inl, inr, Ptr, null, ltb, ◌==◌,
  if◌then◌else◌, length, arith, Bool-cases, ap, sym, ◌∙◌, ne→==, ==_refl, length-append, ltb→le,
}
use mathlib.Core.Path.{subst}
use riscy_os.Kernel.BootMem.FreeList.{Region, Store, sizeof_region, write}
use riscy_os.Kernel.BootMem.FreeList.Scan.{Chain, IsList}
use riscy_os.Kernel.BootMem.FreeList.Ordered.{
  Ordered, InList, Ordered-weaken, Ordered-behind, Ordered-replace, InList-append, InList-left,
  InList-right, InList-before, InList-low,
}
use riscy_os.Kernel.BootMem.FreeList.Splice.{
  Relinked, start_of, Chain-prev, Chain-suffix, Chain-prefix, Chain-shrink,
}
use riscy_os.Kernel.BootMem.FreeList.Relink.{link, link-head, link-inside, link-Relinked}
use riscy_os.Kernel.BootMem.FreeList.Runs.{after_store, before_store}

-- The store holds the well-linked list of the ordered regions `xs`.
pub record IsFreeList (s : Store) (xs : List (Ptr × ℕ)) : Type 0 where
  pub chain : IsList s xs
  pub ordered : Ordered 1 xs

-- What a chain says of the region behind `ys`.
pub record At (region : Ptr → Region) (q n : ℕ) (zs : List (Ptr × ℕ)) : Type 0 where
  pub ne : q ≢ null
  pub size_at : (region q).size ≡ n
  pub ends : q + n < 2 ^ 63
  pub prev_lt : (region q).prev < q
  pub next_ge : (region q).next ≢ null → q + n ≤ (region q).next
  pub tail : Chain region (region q).prev q ((q, n) ∷ zs)

next-ge :
    (region : Ptr → Region) (prev p low : ℕ) (xs : List (Ptr × ℕ))
    → Chain region prev p xs
    → Ordered low xs
    → p ≢ null
    → low ≤ p
next-ge region prev p low [] chain order ne = absurd (ne chain)
next-ge region prev p low ((q, n) ∷ xs) chain order ne = omega (arith, chain.0, order.0)

pub Chain-At :
    (region : Ptr → Region) (prev p low : ℕ) (ys : List (Ptr × ℕ)) (q n : ℕ) (zs : List (Ptr × ℕ))
    → Chain region prev p (ys ++ (q, n) ∷ zs)
    → Ordered low (ys ++ (q, n) ∷ zs)
    → prev < low
    → At region q n zs
Chain-At region prev p low [] q n zs chain order lt = record {
  ne = chain.1;
  size_at = chain.3;
  ends = order.2;
  prev_lt = omega (arith, chain.2, order.0);
  next_ge = next-ge region q (region q).next (q + n) zs chain.4 order.3;
  tail = (refl, chain.1, refl, chain.3, chain.4);
}
Chain-At region prev p low ((y, k) ∷ ys) q n zs chain order lt =
    let at =
      Chain-At region y (region y).next (y + k) ys q n zs chain.4 order.3
        (omega (arith, order.1)) in
    record {
      ne = at.ne;
      size_at = at.size_at;
      ends = at.ends;
      prev_lt = at.prev_lt;
      next_ge = at.next_ge;
      tail = at.tail;
    }

-- The head leads to the first region; the region at `q` is first exactly where it has none before.
pub head_lem :
    (region : Ptr → Region) (p low : ℕ) (ys : List (Ptr × ℕ)) (q n : ℕ) (zs : List (Ptr × ℕ))
    → Chain region null p (ys ++ (q, n) ∷ zs)
    → Ordered low (ys ++ (q, n) ∷ zs)
    → ((region q).prev ≡ null → p ≡ q)
      × ((to : Ptr) → (if (region q).prev == null then to else p) ≡ start_of ys to)
head_lem region p low [] q n zs chain order = (λ e. chain.0, λ to. ground (arith, chain.2))
head_lem region p low ((y, k) ∷ ys) q n zs chain order =
    let ge = Chain-prev region null p low y k ys q n zs chain order in
    let ne : (region q).prev ≢ null = λ e. chain.1 (omega (arith, ge, e)) in
    (λ e. absurd (ne e), λ to. rw (ne→== (region q).prev 0 ne) chain.0)

-- From a block of `size` bytes at `p` on: it is taken from the regions `xs`, and `xs'` has none of it
-- and nothing else but bytes of `xs`.
abbrev pub Takes : Ptr → ℕ → List (Ptr × ℕ) → List (Ptr × ℕ) → Type 0
Takes p size xs xs' =
    ((a : ℕ) → p ≤ a → a < p + size → InList a xs)
    × ((a : ℕ) → InList a xs' → InList a xs × ((a < p) ⊎ (p + size ≤ a)))

-- What is left of the region: nothing if its struct has no room in it.
abbrev pub kept : Ptr → ℕ → List (Ptr × ℕ)
kept p left = if ltb left sizeof_region then [] else (p, left) ∷ []

short-kept : (p left : ℕ) → length (kept p left) ≤ 1
short-kept p left = ground arith

module _ (s : Store) (ys : List (Ptr × ℕ)) (q n : ℕ) (zs : List (Ptr × ℕ))
    (free : IsFreeList s (ys ++ (q, n) ∷ zs)) where
  at : At s.region q n zs
  at = Chain-At s.region null s.head 1 ys q n zs free.chain free.ordered (omega arith)

  -- The neighbours are linked to the rest of the list in the place of the region.
  Relinked-IsList :
      (s1 : Store) (to from : Ptr) (rest : List (Ptr × ℕ))
      → s1.head ≡ s.head
      → ((x : Ptr) → (x < q) ⊎ (q + n ≤ x) → s1.region x ≡ s.region x)
      → (Relinked s.region (link s1 (s.region q).prev (s.region q).next to from).region q n to from
          → Chain
              (link s1 (s.region q).prev (s.region q).next to from).region
              (s.region q).prev
              to
              rest)
      → IsList (link s1 (s.region q).prev (s.region q).next to from) (ys ++ rest)
  Relinked-IsList s1 to from rest head same tail =
      let t : Store = link s1 (s.region q).prev (s.region q).next to from in
      let links = link-Relinked s.region s1 q n to from at.prev_lt at.next_ge same in
      let start : t.head ≡ start_of ys to =
        link-head s1 (s.region q).prev (s.region q).next to from
        ∙ (rw head ((head_lem s.region s.head 1 ys q n zs free.chain free.ordered).1 to)) in
      subst (λ p. Chain t.region null p (ys ++ rest)) (sym start)
        (Chain-prefix s.region t.region q n zs to from links 1 null s.head ys rest free.chain
          free.ordered (tail links))

  -- The region leaves the list.
  unlinked-IsFreeList :
      (s1 : Store)
      → s1.head ≡ s.head
      → ((x : Ptr) → (x < q) ⊎ (q + n ≤ x) → s1.region x ≡ s.region x)
      → IsFreeList
          (link s1 (s.region q).prev (s.region q).next (s.region q).next (s.region q).prev)
          (ys ++ zs)
  unlinked-IsFreeList s1 head same =
      let t : Store =
        link s1 (s.region q).prev (s.region q).next (s.region q).next (s.region q).prev in
      let (low, part) = Ordered-behind 1 ys q n zs free.ordered in
      record {
        chain = Relinked-IsList s1 (s.region q).next (s.region q).prev zs head same λ links.
            Chain-suffix s.region t.region q n zs (s.region q).next (s.region q).prev links
              (s.region q).prev at.tail part;
        ordered =
            Ordered-replace 1 ys q n zs zs free.ordered
              (Ordered-weaken (q + n) q zs (omega arith) part.3);
      }

  pub after_store-IsFreeList :
      (left : ℕ) → left ≤ n → IsFreeList (after_store s q left) (ys ++ (kept q left ++ zs))
  after_store-IsFreeList left le =
      let le_n = (Ordered-behind 1 ys q n zs free.ordered).1.1 in
      elim (Bool-cases (ltb left sizeof_region)) [
        | inl small ↦ rw small (
            unlinked-IsFreeList (write s q (record (s.region q) { size = left })) refl
              λ x out. ground (arith, le_n))
        | inr large ↦
            let (low, part) = Ordered-behind 1 ys q n zs free.ordered in
            rw large (record {
              chain =
                  Chain-shrink s.region (write s q (record (s.region q) { size = left })).region 1
                    null s.head ys q n left zs free.chain free.ordered (λ x ne. ground arith)
                    (ground arith, ground arith, ground arith);
              ordered = Ordered-replace 1 ys q n zs ((q, left) ∷ zs) free.ordered (
                omega arith,
                ltb→le left sizeof_region large,
                omega (arith, at.ends),
                Ordered-weaken (q + n) (q + left) zs (omega arith) part.3,
              );
            })
      ]

  pub before_store-IsFreeList :
      (moved left : ℕ)
      → q ≤ moved
      → moved + left ≡ q + n
      → IsFreeList (before_store s q moved left) (ys ++ (kept moved left ++ zs))
  before_store-IsFreeList moved left ge sum = elim (Bool-cases (ltb left sizeof_region)) [
    | inl small ↦ rw small (unlinked-IsFreeList s refl λ x out. refl)
    | inr large ↦
        let (low, part) = Ordered-behind 1 ys q n zs free.ordered in
        let le = ltb→le left sizeof_region large in
        let s1 : Store = write s moved (record (s.region q) { size = left }) in
        let nn : Ptr = (s.region q).next in
        let pp : Ptr = (s.region q).prev in
        let t : Store = link s1 pp nn moved moved in
        let inside : t.region moved ≡ record (s.region q) { size = left } =
          link-inside s.region s1 q n moved moved at.prev_lt at.next_ge moved ge (omega (arith, le))
          ∙ (rw (==_refl moved) refl) in
        rw large (record {
          chain =
              Relinked-IsList s1 moved moved ((moved, left) ∷ zs) refl (λ x out. ground (arith, le))
                λ links. (
                  refl,
                  λ e. at.ne (omega (arith, e)),
                  ap Region.prev inside,
                  ap Region.size inside,
                  subst (λ x. Chain t.region moved x zs) (sym (ap Region.next inside))
                      (Chain-suffix s.region t.region q n zs moved moved links pp at.tail part),
                );
          ordered = Ordered-replace 1 ys q n zs ((moved, left) ∷ zs) free.ordered (
            ge,
            le,
            omega (arith, at.ends),
            Ordered-weaken (q + n) (moved + left) zs (omega arith) part.3,
          );
        })
  ]

  pub Takes-block :
      (p size p' left : ℕ)
      → q ≤ p
      → p + size ≤ q + n
      → q ≤ p'
      → p' + left ≤ q + n
      → (p' + left ≤ p) ⊎ (p + size ≤ p')
      → Takes p size (ys ++ (q, n) ∷ zs) (ys ++ (kept p' left ++ zs))
  Takes-block p size p' left ge end ge' end' apart =
      let (low, part) = Ordered-behind 1 ys q n zs free.ordered in
      (
        λ a from to. InList-right a ys ((q, n) ∷ zs) (inl (omega arith, omega arith)),
        λ a in_list. elim (InList-append a ys (kept p' left ++ zs) in_list) [
          | inl early ↦
              let lt = InList-before a 1 ys q n zs free.ordered early in
              (InList-left a ys ((q, n) ∷ zs) early, inl (omega arith))
          | inr later ↦ elim (InList-append a (kept p' left) zs later) [
            | inl mid ↦
                let bounds : (p' ≤ a) × (a < p' + left) = ground (arith, mid) in
                (
                  InList-right a ys ((q, n) ∷ zs)
                      (inl (omega (arith, bounds), omega (arith, bounds))),
                  ground (arith, bounds),
                )
            | inr late ↦
                let lt = InList-low a (q + n) zs part.3 late in
                (InList-right a ys ((q, n) ∷ zs) (inr late), inr (omega arith))
          ]
        ],
      )

  pub length-kept : (p left : ℕ) → length (ys ++ (kept p left ++ zs)) ≤ length (ys ++ (q, n) ∷ zs)
  length-kept p left = omega (
    arith,
    length-append ys (kept p left ++ zs),
    length-append ys ((q, n) ∷ zs),
    length-append (kept p left) zs,
    short-kept p left,
  )
