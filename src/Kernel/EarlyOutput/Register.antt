-- ===== src/Kernel/EarlyOutput/Register.antt =====
-- What registering and unregistering do to the callback table, on every branch.
use riscy_os.Prelude.{
  ℕ, suc, ◌+◌, ◌-◌, ◌≤◌, ◌<◌, ◌≡◌, refl, ◌≢◌, Bool, true, false, none, some, List, [], ◌∷◌, inl,
  inr, Ptr, null, size_max, ◌==◌, if◌then◌else◌, length, set, get_elem?, arith, Bool-cases, ◌||◌,
  ==→eq, lt→ltb, le→ltb,
}
use mathlib.Core.Path.{subst}
use riscy_os.Kernel.Error.{success, exist}
use riscy_os.Kernel.EarlyOutput.{
  max_putchar, Outcome, returns, out_of_bounds, find_slot, after_loop, register_early_putchar,
}

-- Does the table hold `p`?
abbrev pub has : Ptr → List Ptr → Bool
has p [] = false
has p (q ∷ qs) = q == p || has p qs

-- How often the table holds `p`.
abbrev pub count : Ptr → List Ptr → ℕ
count p [] = 0
count p (q ∷ qs) = (if q == p then 1 else 0) + count p qs

-- The last NULL slot at or behind `i`, or `index` if there is none.
abbrev last_free : ℕ → ℕ → List Ptr → ℕ
last_free i index [] = index
last_free i index (q ∷ qs) = last_free (i + 1) (if q == null then i else index) qs

find_slot_lem :
    (p : Ptr) (i index : ℕ) (qs : List Ptr)
    → p ≢ null
    → find_slot p i index qs ≡ (if has p qs then none else some (last_free i index qs))
unfolding find_slot
find_slot_lem p i index [] ne = refl
find_slot_lem p i index (q ∷ qs) ne =
    ground (arith, find_slot_lem p (i + 1) (if q == null then i else index) qs ne)

last_free_full : (i index : ℕ) (qs : List Ptr) → has null qs ≡ false → last_free i index qs ≡ index
last_free_full i index [] h = refl
last_free_full i index (q ∷ qs) h =
    ground (arith, last_free_full (i + 1) (if q == null then i else index) qs)

-- An index found at or behind `i`, counted from there, is a NULL slot.
abbrev IsFree : List Ptr → ℕ → ℕ → Type 0
IsFree qs i k = (i ≤ k) × (k < i + length qs) × (get_elem? qs (k - i) ≡ some null)

get_elem?-tail :
    (q : Ptr) (qs : List Ptr) (i k : ℕ)
    → suc i ≤ k
    → get_elem? qs (k - suc i) ≡ some null
    → get_elem? (q ∷ qs) (k - i) ≡ some null
get_elem?-tail q qs i k le h = let e : k - i ≡ suc (k - suc i) = omega arith in rw e h

get_elem?-at :
    (q : Ptr) (qs : List Ptr) (i k : ℕ) → k ≡ i → q ≡ null → get_elem? (q ∷ qs) (k - i) ≡ some null
get_elem?-at q qs i k e is_null = let z : k - i ≡ 0 = omega arith in rw (z, is_null)

last_free-IsFree :
    (i index : ℕ) (qs : List Ptr) → has null qs ≡ true → IsFree qs i (last_free i index qs)
last_free-IsFree i index [] h = cc
last_free-IsFree i index (q ∷ qs) h = elim (Bool-cases (has null qs)) [
  | inl later ↦
      let found : ℕ = last_free (i + 1) (if q == null then i else index) qs in
      let rest = last_free-IsFree (i + 1) (if q == null then i else index) qs later in
      (omega (arith, rest), omega (arith, rest), ground (arith, rest, get_elem?-tail q qs i found))
  | inr none_left ↦
      let found : ℕ = last_free (i + 1) (if q == null then i else index) qs in
      let e = last_free_full (i + 1) (if q == null then i else index) qs none_left in
      let here : (q == null) ≡ true = ground arith in
      let at : found ≡ i = ground arith in
      (omega arith, omega arith, get_elem?-at q qs i found at (==→eq q null here))
]

-- What `register_early_putchar` does with a callback `p` and the table `qs`.
pub data Registers (p : Ptr) (qs : List Ptr) : Outcome → Type 0 where
  present : has p qs ≡ true → Registers p qs (returns exist qs)
  stored :
      (i : ℕ)
      → has p qs ≡ false
      → i < length qs
      → get_elem? qs i ≡ some null
      → Registers p qs (returns success (set qs i p))
  overflowed : has p qs ≡ false → has null qs ≡ false → Registers p qs (out_of_bounds size_max)

after_loop-Registers :
    (p : Ptr) (qs : List Ptr)
    → length qs ≡ max_putchar
    → Registers p qs (after_loop p qs (if has p qs then none else some (last_free 0 size_max qs)))
unfolding after_loop
after_loop-Registers p qs eight = elim (Bool-cases (has p qs)) [
  | inl there ↦ rw there (present there)
  | inr absent ↦ elim (Bool-cases (has null qs)) [
    | inl room ↦
        let found = last_free-IsFree 0 size_max qs room in
        let low : last_free 0 size_max qs < length qs = omega (arith, found) in
        let at : get_elem? qs (last_free 0 size_max qs) ≡ some null =
          subst (λ k. get_elem? qs k ≡ some null) (omega arith) found.2 in
        rw (absent, le→ltb (last_free 0 size_max qs) 0 (omega arith))
          (rw (lt→ltb (last_free 0 size_max qs) (length qs) low)
            (stored (last_free 0 size_max qs) absent low at))
    | inr taken ↦ rw (absent, last_free_full 0 size_max qs taken, eight) (overflowed absent taken)
  ]
]

-- For a callback that is not NULL and a table of eight slots, registering answers `exist` and
-- changes nothing if the callback is in the table; else it stores the callback in a slot that was
-- NULL and changes no other; and if no slot is NULL it stores outside of the table, at index
-- SIZE_MAX, so that the code KERR_FULL is never returned.
pub register_early_putchar-Registers :
    (p : Ptr) (qs : List Ptr)
    → p ≢ null
    → length qs ≡ max_putchar
    → Registers p qs (register_early_putchar p qs)
unfolding register_early_putchar
register_early_putchar-Registers p qs ne eight =
    rw (find_slot_lem p 0 size_max qs ne) (after_loop-Registers p qs eight)
