-- ===== src/Kernel/Fdt/Node/Slots.antt =====
-- The array of slots in which `fdt_node_get_parents` keeps the open nodes.
use mathlib.Core.Path.{subst}
use riscy_os.Prelude.{
  sym, ℕ, zero, suc, ◌+◌, ◌<◌, ◌≤◌, ◌≡◌, refl, Option, some, List, [], ◌∷◌, Ptr, length, set,
  get_elem?, take, arith, ◌∙◌, ok, get_elem?-set_self, get_elem?-set_ne,
}
use riscy_os.Prelude.Int.{pos, ◌-ℤ◌, int_laws}
use riscy_os.Kernel.Fdt.Node.{load_branch, copy_parents}

-- The slots hold the stack, its last entry first.
abbrev pub Held : List (Option Ptr) → List Ptr → Type 0
Held branch [] = Unit {0}
Held branch (q ∷ stack) = (get_elem? branch (length stack) ≡ some (some q)) × Held branch stack

pub Held-set :
    (branch : List (Option Ptr)) (stack : List Ptr) (i : ℕ) (p : Ptr)
    → length stack ≤ i
    → Held branch stack
    → Held (set branch i (some p)) stack
Held-set branch [] i p h held = tt
Held-set branch (q ∷ stack) i p h held = (
  get_elem?-set_ne branch (some p) (λ e. omega (arith, e, h)) ∙ held.0,
  Held-set branch stack i p (omega (arith, h)) held.1,
)

pub Held-push :
    (branch : List (Option Ptr)) (stack : List Ptr) (p : Ptr)
    → length stack < length branch
    → Held branch stack
    → Held (set branch (length stack) (some p)) (p ∷ stack)
Held-push branch stack p h held = (
  get_elem?-set_self branch (length stack) (some p) h,
  Held-set branch stack (length stack) p (omega arith) held,
)

load_branch-get :
    (branch : List (Option Ptr)) (i : ℕ) (q : Ptr)
    → get_elem? branch i ≡ some (some q)
    → load_branch branch (pos i) ≡ ok q
unfolding load_branch
load_branch-get branch i q h = rw h refl

-- The copy into the result.
copy_parents-take_from :
    (branch : List (Option Ptr)) (stack : List Ptr) (i n : ℕ)
    → Held branch stack
    → n ≤ length stack
    → copy_parents branch (pos (i + length stack)) n i ≡ ok (take n stack)
unfolding copy_parents
copy_parents-take_from branch stack i zero held h = refl
copy_parents-take_from branch [] i (suc n) held h = absurd (omega (arith, h))
copy_parents-take_from branch (q ∷ stack) i (suc n) held h =
    let slot : pos (i + suc (length stack)) -ℤ pos (i + 1) ≡ pos (length stack) = omega int_laws in
    let shift : i + suc (length stack) ≡ i + 1 + length stack = omega arith in
    let rest : copy_parents branch (pos (i + suc (length stack))) n (i + 1) ≡ ok (take n stack) =
      subst (λ k. copy_parents branch (pos k) n (i + 1) ≡ ok (take n stack)) (sym shift)
        (copy_parents-take_from branch stack (i + 1) n held.1 (omega (arith, h))) in
    rw (slot, load_branch-get branch (length stack) q held.0, rest) refl

pub copy_parents-take :
    (branch : List (Option Ptr)) (stack : List Ptr) (n : ℕ)
    → Held branch stack
    → n ≤ length stack
    → copy_parents branch (pos (length stack)) n 0 ≡ ok (take n stack)
copy_parents-take branch stack n held h =
    let whole : 0 + length stack ≡ length stack = omega arith in
    subst (λ k. copy_parents branch (pos k) n 0 ≡ ok (take n stack)) whole
      (copy_parents-take_from branch stack 0 n held h)
