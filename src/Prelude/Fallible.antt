-- ===== src/Prelude/Fallible.antt =====
-- Computations that may not return. `no_return` stands for a loop whose fuel ran out and for a
-- failed assertion, whose `abort` loops for ever; `undefined` for an access outside of an array.
use mathlib.Core.Path.{◌≡◌, refl, sym, subst}
use mathlib.Core.Bool.{Bool, true, false}
use riscy_os.Prelude.Tests.{if◌then◌else◌}

pub data Run {ℓ} (A : Type ℓ) : Type ℓ where
  ok : A → Run A
  no_return undefined : Run A

infixl 5 ◌>>=◌
abbrev pub ◌>>=◌ {ℓ κ} : {A : Type ℓ} {B : Type κ} → Run A → (A → Run B) → Run B
ok a >>= f = f a
no_return >>= f = no_return
undefined >>= f = undefined

-- `assert`: its failure calls `abort`.
abbrev pub assert {ℓ} : {A : Type ℓ} → Bool → Run A → Run A
assert true rest = rest
assert false rest = no_return

-- A sequence that returned did so in both of its parts.
pub bind_returned {ℓ} :
    {A B : Type ℓ} {b : B} (r : Run A) (f : A → Run B)
    → r >>= f ≡ ok b
    → (a : A) × (r ≡ ok a) × (f a ≡ ok b)
bind_returned undefined f e = cc
bind_returned no_return f e = cc
bind_returned (ok x) f e = (x, refl, e)

-- The computation returns.
abbrev pub Returns {ℓ} : {A : Type ℓ} → Run A → Type ℓ
Returns {A} r = (x : A) × (r ≡ ok x)

pub Returns-if {ℓ} :
    {A : Type ℓ} (b : Bool) (r q : Run A) → Returns r → Returns q → Returns (if b then r else q)
Returns-if true r q h k = h
Returns-if false r q h k = k

pub Returns-bind {ℓ} :
    {A B : Type ℓ} (r : Run A) (f : A → Run B)
    → Returns r
    → ((x : A) → r ≡ ok x → Returns (f x))
    → Returns (r >>= f)
Returns-bind r f (x, e) next = subst (λ q. Returns (q >>= f)) (sym e) (next x e)

-- It returns a value with a property.
abbrev pub Gives {ℓ κ} : {A : Type ℓ} → (A → Type κ) → Run A → Type (ℓ ⊔ κ)
Gives {A} P r = (x : A) × (r ≡ ok x) × P x

module _ {ℓ κ} {B : Type ℓ} (P : B → Type κ) where
  pub Gives-if :
      (b : Bool) (r q : Run B)
      → (b ≡ true → Gives P r)
      → (b ≡ false → Gives P q)
      → Gives P (if b then r else q)
  Gives-if true r q h k = h refl
  Gives-if false r q h k = k refl

  pub Gives-bind :
      {A : Type ℓ} (r : Run A) (f : A → Run B)
      → Returns r
      → ((x : A) → r ≡ ok x → Gives P (f x))
      → Gives P (r >>= f)
  Gives-bind r f (x, e) next = subst (λ q. Gives P (q >>= f)) (sym e) (next x e)

  pub Gives-then :
      {A : Type ℓ} (Q : A → Type κ) (r : Run A) (f : A → Run B)
      → Gives Q r
      → ((x : A) → Q x → Gives P (f x))
      → Gives P (r >>= f)
  Gives-then Q r f (x, e, q) next = subst (λ t. Gives P (t >>= f)) (sym e) (next x q)

  pub Gives-weaken : (Q : B → Type κ) (r : Run B) → Gives Q r → ((x : B) → Q x → P x) → Gives P r
  Gives-weaken Q r (x, e, q) weaken = (x, e, weaken x q)
