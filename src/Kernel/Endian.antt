-- ===== src/Kernel/Endian.antt =====
-- include/kernel/endian.h, and the memory that it reads.
-- A machine is its byte order and its bytes. The build may leave the byte order open
-- (CONFIG_VARIABLE_ENDIAN), so it is a field and not a constant.
-- `bswap16`, `bswap32` and `bswap64` are the written bodies; the compiler's built-in functions that
-- replace them under __GNUC__ are documented to give the same results.
pub mod Laws
pub mod Overloads
use riscy_os.Prelude.{
  ℕ, ◌+◌, ◌*◌, ◌/◌, ◌%◌, ◌^◌, ◌<◌, Bool, not, Ptr, ◌==◌, if◌then◌else◌, u16, u32, u64, add64, shr,
  shl, low_bits, bit_or,
}

pub record Machine : Type 0 where
  pub little : Bool
  pub byte : Ptr → ℕ

abbrev pub IsBytes : Machine → Type 0
IsBytes m = (p : Ptr) → m.byte p < 256

-- How this machine lays out and reads a number of two bytes at a and b, and of 4 and of 8.
unfoldable pub join16 : Bool → ℕ → ℕ → ℕ
join16 little a b = if little then a + 256 * b else 256 * a + b

unfoldable pub load16 : Machine → Ptr → ℕ
load16 m p = join16 m.little (m.byte p) (m.byte (add64 p 1))

unfoldable pub load32 : Machine → Ptr → ℕ
load32 m p =
    let a = load16 m p in
    let b = load16 m (add64 p 2) in if m.little then a + 2 ^ 16 * b else 2 ^ 16 * a + b

unfoldable pub load64 : Machine → Ptr → ℕ
load64 m p =
    let a = load32 m p in
    let b = load32 m (add64 p 4) in if m.little then a + 2 ^ 32 * b else 2 ^ 32 * a + b

-- The probe of CONFIG_VARIABLE_ENDIAN: the first byte of a 16-bit 1.
unfoldable pub first_byte16 : Machine → ℕ → ℕ
first_byte16 m x = if m.little then x % 256 else x / 256

unfoldable pub sys_little_endian : Machine → Bool
unfolding first_byte16
sys_little_endian m = not (first_byte16 m 1 == 0)

unfoldable pub sys_big_endian : Machine → Bool
unfolding sys_little_endian
sys_big_endian m = not (sys_little_endian m)

unfoldable pub bswap16 : ℕ → ℕ
bswap16 x = bit_or (u16 (shl (low_bits x 8) 8)) (u16 (low_bits (shr x 8) 8))

unfoldable pub bswap32 : ℕ → ℕ
bswap32 x = bit_or (u32 (shl (bswap16 (low_bits x 16)) 16)) (low_bits (bswap16 (u16 (shr x 16))) 16)

unfoldable pub bswap64 : ℕ → ℕ
bswap64 x = bit_or (u64 (shl (bswap32 (low_bits x 32)) 32)) (low_bits (bswap32 (u32 (shr x 32))) 32)

unfoldable pub be16toh : Machine → ℕ → ℕ
be16toh m x = if sys_little_endian m then bswap16 x else x

unfoldable pub be32toh : Machine → ℕ → ℕ
be32toh m x = if sys_little_endian m then bswap32 x else x

unfoldable pub be64toh : Machine → ℕ → ℕ
be64toh m x = if sys_little_endian m then bswap64 x else x

unfoldable pub le16toh : Machine → ℕ → ℕ
le16toh m x = if sys_big_endian m then bswap16 x else x

unfoldable pub le32toh : Machine → ℕ → ℕ
le32toh m x = if sys_big_endian m then bswap32 x else x

unfoldable pub le64toh : Machine → ℕ → ℕ
le64toh m x = if sys_big_endian m then bswap64 x else x
