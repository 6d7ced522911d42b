-- ===== src/Prelude/Words.antt =====
-- Machine words as native numbers. The kernel is built for 64 bits (CONFIG_64_BIT): `size_t`,
-- `uintptr_t`, `uword_t` and pointers have 64 bits, and their arithmetic wraps.
use Prim.Native.Nat.{ℕ, ◌+◌, ◌-◌, ◌*◌, ◌/◌, ◌%◌, ◌^◌}

abbrev pub Ptr : Type 0
Ptr = ℕ

abbrev pub null : Ptr
null = 0

abbrev pub u16 : ℕ → ℕ
u16 n = n % 2 ^ 16

abbrev pub u32 : ℕ → ℕ
u32 n = n % 2 ^ 32

abbrev pub u64 : ℕ → ℕ
u64 n = n % 2 ^ 64

abbrev pub size_max : ℕ
size_max = 2 ^ 64 - 1

-- Unsigned 64-bit addition and subtraction, of sizes and of addresses alike.
abbrev pub add64 : ℕ → ℕ → ℕ
add64 a b = (a + b) % 2 ^ 64

abbrev pub sub64 : ℕ → ℕ → ℕ
sub64 a b = (a + 2 ^ 64 - b % 2 ^ 64) % 2 ^ 64

abbrev pub shr : ℕ → ℕ → ℕ
shr x k = x / 2 ^ k

abbrev pub shl : ℕ → ℕ → ℕ
shl x k = x * 2 ^ k

-- `x & (2^k - 1)` for a constant k.
abbrev pub low_bits : ℕ → ℕ → ℕ
low_bits x k = x % 2 ^ k
