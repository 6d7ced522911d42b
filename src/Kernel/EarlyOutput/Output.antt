-- ===== src/Kernel/EarlyOutput/Output.antt =====
-- What the registered callbacks hear, and how registering and unregistering change it.
use riscy_os.Prelude.{
  ℕ, zero, suc, ◌+◌, ◌≡◌, refl, ◌≢◌, false, some, List, [], ◌∷◌, ◌++◌, inl, inr, Ptr, null, ◌==◌,
  if◌then◌else◌, length, set, get_elem?, replicate, arith, Bool-cases, ne→==,
}
use riscy_os.Kernel.Error.{success}
use riscy_os.Kernel.EarlyOutput.{
  max_putchar, Outcome, returns, register_early_putchar, unregister_early_putchar, early_putchar,
  early_puts,
}
use riscy_os.Kernel.EarlyOutput.Register.{
  has, count, Registers, present, stored, overflowed, register_early_putchar-Registers,
}

-- The characters that callback `p` was called with, in order.
abbrev pub heard : Ptr → List (Ptr × ℕ) → List ℕ
heard p [] = []
heard p ((q, c) ∷ calls) = if q == p then c ∷ heard p calls else heard p calls

pub heard-append :
    (p : Ptr) (xs ys : List (Ptr × ℕ)) → heard p (xs ++ ys) ≡ heard p xs ++ heard p ys
heard-append p [] ys = refl
heard-append p ((q, c) ∷ xs) ys = ground (arith, heard-append p xs ys)

heard-early_putchar :
    (p : Ptr) (qs : List Ptr) (c : ℕ)
    → p ≢ null
    → heard p (early_putchar qs c) ≡ replicate (count p qs) c
unfolding early_putchar
heard-early_putchar p [] c ne = refl
heard-early_putchar p (q ∷ qs) c ne = elim (Bool-cases (q == p)) [
  | inl same ↦
      let not_null : (q == null) ≡ false = ground arith in
      rw (not_null, same)
        (let e : 1 + count p qs ≡ suc (count p qs) = omega arith in
          rw (e, heard-early_putchar p qs c ne))
  | inr other ↦
      let e : 0 + count p qs ≡ count p qs = omega arith in
      rw (other, e) (ground (arith, heard-early_putchar p qs c ne))
]

count-has : (p : Ptr) (qs : List Ptr) → has p qs ≡ false → count p qs ≡ 0
count-has p [] h = refl
count-has p (q ∷ qs) h = ground (arith, count-has p qs)

count-set :
    (p r : Ptr) (qs : List Ptr) (i : ℕ)
    → r ≢ null
    → get_elem? qs i ≡ some null
    → count r (set qs i p) ≡ count r qs + (if p == r then 1 else 0)
count-set p r [] i ne h = cc
count-set p r (q ∷ qs) zero ne h = ground arith
count-set p r (q ∷ qs) (suc i) ne h = ground (arith, count-set p r qs i ne h)

unregister-set :
    (p : Ptr) (qs : List Ptr) (i : ℕ)
    → has p qs ≡ false
    → get_elem? qs i ≡ some null
    → unregister_early_putchar p (set qs i p) ≡ (success, qs)
unfolding unregister_early_putchar
unregister-set p [] i h free = cc
unregister-set p (q ∷ qs) zero h free = ground arith
unregister-set p (q ∷ qs) (suc i) h free = ground (arith, unregister-set p qs i)

-- A successful registration, taken apart.
record Stored (p : Ptr) (qs qs' : List Ptr) : Type 0 where
  slot : ℕ
  absent : has p qs ≡ false
  free : get_elem? qs slot ≡ some null
  table : qs' ≡ set qs slot p

Registers-Stored :
    {p : Ptr} {qs qs' : List Ptr} {out : Outcome}
    → Registers p qs out
    → out ≡ returns success qs'
    → Stored p qs qs'
Registers-Stored (present h) e = cc
Registers-Stored (stored i h low at) e = record {
  slot = i;
  absent = h;
  free = at;
  table = ground arith;
}
Registers-Stored (overflowed h k) e = cc

module _ (p : Ptr) (qs qs' : List Ptr) (ne : p ≢ null) (eight : length qs ≡ max_putchar)
    (done : register_early_putchar p qs ≡ returns success qs') where
  facts : Stored p qs qs'
  facts = Registers-Stored (register_early_putchar-Registers p qs ne eight) done

  -- After a successful registration of a callback in a table of eight slots, a character is passed
  -- to that callback exactly once, and to every other callback as often as before.
  pub heard-register_early_putchar :
      (c : ℕ)
      → (heard p (early_putchar qs' c) ≡ c ∷ [])
        × ((r : Ptr)
            → r ≢ null
            → r ≢ p
            → heard r (early_putchar qs' c) ≡ heard r (early_putchar qs c))
  heard-register_early_putchar c = (
    rw (heard-early_putchar p qs' c ne, once),
    λ r r_ne other.
        rw (heard-early_putchar r qs' c r_ne, heard-early_putchar r qs c r_ne, same r r_ne other),
  )
    where
      once : count p qs' ≡ 1
      once =
          rw (facts.table)
            (ground (arith, count-set p p qs facts.slot ne facts.free, count-has p qs facts.absent))

      same : (r : Ptr) → r ≢ null → r ≢ p → count r qs' ≡ count r qs
      same r r_ne other =
          rw (facts.table) (ground (arith, count-set p r qs facts.slot r_ne facts.free))

  -- Unregistering a callback right after its successful registration succeeds and gives the table
  -- from before back, slot by slot.
  pub unregister-register_early_putchar : unregister_early_putchar p qs' ≡ (success, qs)
  unregister-register_early_putchar =
      rw (facts.table) (unregister-set p qs facts.slot facts.absent facts.free)

-- The terminator ends the text.
abbrev pub HasNoNul : List ℕ → Type 0
HasNoNul [] = Unit {0}
HasNoNul (c ∷ s) = (c ≢ 0) × HasNoNul s

-- `early_puts` passes a callback that stands once in the table exactly the characters of the text,
-- in order, up to its terminator and whatever lies behind that.
pub heard-early_puts :
    (p : Ptr) (qs : List Ptr) (s rest : List ℕ)
    → p ≢ null
    → count p qs ≡ 1
    → HasNoNul s
    → heard p (early_puts qs (s ++ 0 ∷ rest)) ≡ s
unfolding early_puts
heard-early_puts p qs [] rest ne once ok = refl
heard-early_puts p qs (c ∷ s) rest ne once ok = rw (ne→== c 0 ok.0) (
    rw (heard-append p (early_putchar qs c) (early_puts qs (s ++ 0 ∷ rest)))
      (rw (heard-early_putchar p qs c ne, once, heard-early_puts p qs s rest ne once ok.1)))
