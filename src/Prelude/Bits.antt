-- ===== src/Prelude/Bits.antt =====
-- Laws of `bit_and` with a low mask and of `bit_or` on disjoint fields, at every width.
use Prim.Native.Nat.{
  ℕ, zero, suc, ◌+◌, ◌-◌, ◌*◌, ◌/◌, ◌%◌, ◌^◌, ◌≤◌, ◌<◌, min, max, bit_and, bit_or, digits,
  bit_and-bitwise, bit_or-bitwise,
}
use mathlib.Core.Path.{◌≡◌, refl, ap}
use native.Mathlib.Nat.{pow-suc, one-le-pow}
use native.Mathlib.Omega.{arith}

-- The recursion that the native operations stand for gives the same result at any enough fuel.
module _ (rest : ℕ → ℕ) (op : ℕ → ℕ → ℕ) where
  digits-fuel : (k l x y : ℕ) → x ≤ k → x ≤ l → digits rest op k x y ≡ digits rest op l x y
  digits-fuel zero zero x y h h' = refl
  digits-fuel zero (suc l) zero y h h' = refl
  digits-fuel zero (suc l) (suc x) y h h' = absurd (omega arith)
  digits-fuel (suc k) zero zero y h h' = refl
  digits-fuel (suc k) zero (suc x) y h h' = absurd (omega arith)
  digits-fuel (suc k) (suc l) zero y h h' = refl
  digits-fuel (suc k) (suc l) (suc x) y h h' =
      omega (arith, digits-fuel k l (suc x / 2) (y / 2) (omega arith) (omega arith))

-- The lowest digit of each operation.
bit_and-halve : (a b : ℕ) → bit_and a b ≡ bit_and (a / 2) (b / 2) * 2 + min (a % 2) (b % 2)
bit_and-halve zero b = omega (arith, bit_and-bitwise 0 b, bit_and-bitwise 0 (b / 2))
bit_and-halve (suc a) b = omega (
  arith,
  bit_and-bitwise (suc a) b,
  bit_and-bitwise (suc a / 2) (b / 2),
  digits-fuel (λ y. zero) min a (suc a / 2) (suc a / 2) (b / 2) (omega arith) (omega arith),
)

bit_or-halve : (a b : ℕ) → bit_or a b ≡ bit_or (a / 2) (b / 2) * 2 + max (a % 2) (b % 2)
bit_or-halve zero b = omega (arith, bit_or-bitwise 0 b, bit_or-bitwise 0 (b / 2))
bit_or-halve (suc a) b = omega (
  arith,
  bit_or-bitwise (suc a) b,
  bit_or-bitwise (suc a / 2) (b / 2),
  digits-fuel (λ y. y) max a (suc a / 2) (suc a / 2) (b / 2) (omega arith) (omega arith),
)

bit_and-zero_below : (n a : ℕ) → a ≤ n → bit_and a 0 ≡ 0
bit_and-zero_below n zero h = refl
bit_and-zero_below zero (suc a) h = absurd (omega arith)
bit_and-zero_below (suc n) (suc a) h =
    omega (arith, bit_and-halve (suc a) 0, bit_and-zero_below n (suc a / 2) (omega arith))

bit_or-zero_below : (n a : ℕ) → a ≤ n → bit_or a 0 ≡ a
bit_or-zero_below n zero h = refl
bit_or-zero_below zero (suc a) h = absurd (omega arith)
bit_or-zero_below (suc n) (suc a) h =
    omega (arith, bit_or-halve (suc a) 0, bit_or-zero_below n (suc a / 2) (omega arith))

shifted-suc : (q k : ℕ) → q * 2 ^ suc k ≡ q * 2 ^ k * 2
shifted-suc q k = omega (arith, ap (λ (t : ℕ). q * t) (pow-suc 2 k))

bit_and-low : (k q r : ℕ) → r < 2 ^ k → bit_and (q * 2 ^ k + r) (2 ^ k - 1) ≡ r
bit_and-low zero q r h =
    omega (arith, bit_and-zero_below (q * 2 ^ 0 + r) (q * 2 ^ 0 + r) (omega arith))
bit_and-low (suc k) q r h = ground (
  arith,
  one-le-pow k 2,
  pow-suc 2 k,
  shifted-suc q k,
  bit_and-halve (q * 2 ^ suc k + r) (2 ^ suc k - 1),
  bit_and-low k q (r / 2) (omega (arith, pow-suc 2 k)),
)

-- A mask of the `k` low bits is the remainder by `2 ^ k`.
pub bit_and-mask : (k a : ℕ) → bit_and a (2 ^ k - 1) ≡ a % 2 ^ k
bit_and-mask k a = ground (arith, one-le-pow k 2, bit_and-low k (a / 2 ^ k) (a % 2 ^ k))

-- A field above the low `k` bits and one within them combine to their sum.
pub bit_or-disjoint : (k q r : ℕ) → r < 2 ^ k → bit_or (q * 2 ^ k) r ≡ q * 2 ^ k + r
bit_or-disjoint zero q r h = ground (arith, bit_or-zero_below q q)
bit_or-disjoint (suc k) q r h = ground (
  arith,
  pow-suc 2 k,
  shifted-suc q k,
  bit_or-halve (q * 2 ^ suc k) r,
  bit_or-disjoint k q (r / 2) (omega (arith, pow-suc 2 k)),
)
