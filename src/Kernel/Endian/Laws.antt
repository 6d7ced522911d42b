-- ===== src/Kernel/Endian/Laws.antt =====
-- Reading a big-endian number gives the same value on hosts of both byte orders.
use riscy_os.Prelude.{
  ℕ, ◌+◌, ◌*◌, ◌/◌, ◌%◌, ◌^◌, ◌<◌, ◌≡◌, true, false, inl, inr, Ptr, arith, Bool-cases, ◌∙◌, refl,
  ap, sym, u16, u32, u64, add64, shr, shl, low_bits,
}
use riscy_os.Prelude.Bits.{bit_or-disjoint}
use riscy_os.Kernel.Endian.{
  Machine, IsBytes, join16, load16, load32, load64, sys_little_endian, bswap16, bswap32, bswap64,
  be16toh, be32toh, be64toh, le16toh, le32toh, le64toh, sys_big_endian,
}

-- The number that the two, four and eight bytes at `p` write with the highest byte first.
pub be16 : Machine → Ptr → ℕ
be16 m p = 256 * m.byte p + m.byte (add64 p 1)

pub be32 : Machine → Ptr → ℕ
be32 m p = 2 ^ 16 * be16 m p + be16 m (add64 p 2)

pub be64 : Machine → Ptr → ℕ
be64 m p = 2 ^ 32 * be32 m p + be32 m (add64 p 4)

-- The number that they write with the lowest byte first.
pub le16 : Machine → Ptr → ℕ
le16 m p = m.byte p + 256 * m.byte (add64 p 1)

pub le32 : Machine → Ptr → ℕ
le32 m p = le16 m p + 2 ^ 16 * le16 m (add64 p 2)

pub le64 : Machine → Ptr → ℕ
le64 m p = le32 m p + 2 ^ 32 * le32 m (add64 p 4)

pub sys_little_endian_lem : (m : Machine) → sys_little_endian m ≡ m.little
unfolding sys_little_endian
sys_little_endian_lem m = elim (Bool-cases m.little) [ inl h ↦ rw h | inr h ↦ rw h ]

bswap16_sum : (x : ℕ) → x < 2 ^ 16 → bswap16 x ≡ x % 256 * 256 + x / 256
unfolding bswap16
bswap16_sum x h =
    let high : u16 (shl (low_bits x 8) 8) ≡ x % 256 * 2 ^ 8 = omega arith in
    let low : u16 (low_bits (shr x 8) 8) ≡ x / 256 = omega arith in
    rw (high, low, bit_or-disjoint 8 (x % 256) (x / 256) (omega arith))

bswap16-lt : (x : ℕ) → x < 2 ^ 16 → bswap16 x < 2 ^ 16
bswap16-lt x h = omega (arith, bswap16_sum x h)

bswap32_sum :
    (x : ℕ) → x < 2 ^ 32 → bswap32 x ≡ bswap16 (x % 2 ^ 16) * 2 ^ 16 + bswap16 (x / 2 ^ 16)
unfolding bswap32
bswap32_sum x h =
    let a = bswap16-lt (x % 2 ^ 16) (omega arith) in
    let b = bswap16-lt (x / 2 ^ 16) (omega arith) in
    let cast : u16 (shr x 16) ≡ x / 2 ^ 16 = omega arith in
    let high : u32 (shl (bswap16 (low_bits x 16)) 16) ≡ bswap16 (x % 2 ^ 16) * 2 ^ 16 =
      omega arith in
    let low : low_bits (bswap16 (x / 2 ^ 16)) 16 ≡ bswap16 (x / 2 ^ 16) = omega arith in
    rw (cast, high, low, bit_or-disjoint 16 (bswap16 (x % 2 ^ 16)) (bswap16 (x / 2 ^ 16)) b)

bswap32-lt : (x : ℕ) → x < 2 ^ 32 → bswap32 x < 2 ^ 32
bswap32-lt x h = omega (
  arith,
  bswap32_sum x h,
  bswap16-lt (x % 2 ^ 16) (omega arith),
  bswap16-lt (x / 2 ^ 16) (omega arith),
)

bswap64_sum :
    (x : ℕ) → x < 2 ^ 64 → bswap64 x ≡ bswap32 (x % 2 ^ 32) * 2 ^ 32 + bswap32 (x / 2 ^ 32)
unfolding bswap64
bswap64_sum x h =
    let a = bswap32-lt (x % 2 ^ 32) (omega arith) in
    let b = bswap32-lt (x / 2 ^ 32) (omega arith) in
    let cast : u32 (shr x 32) ≡ x / 2 ^ 32 = omega arith in
    let high : u64 (shl (bswap32 (low_bits x 32)) 32) ≡ bswap32 (x % 2 ^ 32) * 2 ^ 32 =
      omega arith in
    let low : low_bits (bswap32 (x / 2 ^ 32)) 32 ≡ bswap32 (x / 2 ^ 32) = omega arith in
    rw (cast, high, low, bit_or-disjoint 32 (bswap32 (x % 2 ^ 32)) (bswap32 (x / 2 ^ 32)) b)

module _ (m : Machine) (bytes : IsBytes m) where
  pub be16-lt : (p : Ptr) → be16 m p < 2 ^ 16
  unfolding be16
  be16-lt p = omega (arith, bytes p, bytes (add64 p 1))

  pub be32-lt : (p : Ptr) → be32 m p < 2 ^ 32
  unfolding be32
  be32-lt p = omega (arith, be16-lt p, be16-lt (add64 p 2))

  load16_swapped :
      (p : Ptr) → m.little ≡ true → (load16 m p < 2 ^ 16) × (bswap16 (load16 m p) ≡ be16 m p)
  unfolding load16 join16 be16
  load16_swapped p l =
      let a = bytes p in
      let b = bytes (add64 p 1) in
      rw l
        (omega arith, bswap16_sum (m.byte p + 256 * m.byte (add64 p 1)) (omega arith) ∙ omega arith)

  load32_swapped :
      (p : Ptr) → m.little ≡ true → (load32 m p < 2 ^ 32) × (bswap32 (load32 m p) ≡ be32 m p)
  unfolding load32 be32
  load32_swapped p l =
      let a = load16_swapped p l in
      let b = load16_swapped (add64 p 2) l in
      let whole : load32 m p ≡ load16 m p + 2 ^ 16 * load16 m (add64 p 2) = simp l in
      let low : load32 m p % 2 ^ 16 ≡ load16 m p = omega arith in
      let high : load32 m p / 2 ^ 16 ≡ load16 m (add64 p 2) = omega arith in
      (omega arith, bswap32_sum (load32 m p) (omega arith) ∙ rw (low, high, a.1, b.1) (omega arith))

  load64_swapped :
      (p : Ptr) → m.little ≡ true → (load64 m p < 2 ^ 64) × (bswap64 (load64 m p) ≡ be64 m p)
  unfolding load64 be64
  load64_swapped p l =
      let a = load32_swapped p l in
      let b = load32_swapped (add64 p 4) l in
      let whole : load64 m p ≡ load32 m p + 2 ^ 32 * load32 m (add64 p 4) = simp l in
      let low : load64 m p % 2 ^ 32 ≡ load32 m p = omega arith in
      let high : load64 m p / 2 ^ 32 ≡ load32 m (add64 p 4) = omega arith in
      (omega arith, bswap64_sum (load64 m p) (omega arith) ∙ rw (low, high, a.1, b.1) (omega arith))

  load_big :
      (p : Ptr)
      → m.little ≡ false
      → (load16 m p ≡ be16 m p) × (load32 m p ≡ be32 m p) × (load64 m p ≡ be64 m p)
  unfolding load16 join16 load32 load64 be16 be32 be64
  load_big p l = (simp l, simp l, simp l)

  -- Whatever the byte order of the machine, the conversions from big-endian give the number that
  -- the bytes at the address write with the highest byte first, in 16, 32 and 64 bits.
  pub be-load :
      (p : Ptr)
      → (be16toh m (load16 m p) ≡ be16 m p)
        × (be32toh m (load32 m p) ≡ be32 m p)
        × (be64toh m (load64 m p) ≡ be64 m p)
  unfolding be16toh be32toh be64toh
  be-load p = elim (Bool-cases m.little) [
    | inl l ↦
        let probe : sys_little_endian m ≡ true = sys_little_endian_lem m ∙ l in
        simp probe ((load16_swapped p l).1, (load32_swapped p l).1, (load64_swapped p l).1)
    | inr b ↦
        let probe : sys_little_endian m ≡ false = sys_little_endian_lem m ∙ b in
        simp probe (load_big p b)
  ]

-- Swapping the bytes of a number twice gives it back, in 16, 32 and 64 bits.
pub bswap_twice :
    ((x : ℕ) → x < 2 ^ 16 → bswap16 (bswap16 x) ≡ x)
    × ((x : ℕ) → x < 2 ^ 32 → bswap32 (bswap32 x) ≡ x)
    × ((x : ℕ) → x < 2 ^ 64 → bswap64 (bswap64 x) ≡ x)
bswap_twice = (twice16, twice32, twice64)
  where
    twice16 : (x : ℕ) → x < 2 ^ 16 → bswap16 (bswap16 x) ≡ x
    twice16 x h = omega (arith, bswap16_sum x h, bswap16_sum (bswap16 x) (bswap16-lt x h))

    twice32 : (x : ℕ) → x < 2 ^ 32 → bswap32 (bswap32 x) ≡ x
    twice32 x h =
        let a = bswap16-lt (x % 2 ^ 16) (omega arith) in
        let b = bswap16-lt (x / 2 ^ 16) (omega arith) in
        let s = bswap32_sum x h in
        let low : bswap32 x % 2 ^ 16 ≡ bswap16 (x / 2 ^ 16) = omega arith in
        let high : bswap32 x / 2 ^ 16 ≡ bswap16 (x % 2 ^ 16) = omega arith in
        bswap32_sum (bswap32 x) (bswap32-lt x h)
        ∙ rw (low, high, twice16 (x / 2 ^ 16) (omega arith), twice16 (x % 2 ^ 16) (omega arith))
            (omega arith)

    twice64 : (x : ℕ) → x < 2 ^ 64 → bswap64 (bswap64 x) ≡ x
    twice64 x h =
        let a = bswap32-lt (x % 2 ^ 32) (omega arith) in
        let b = bswap32-lt (x / 2 ^ 32) (omega arith) in
        let s = bswap64_sum x h in
        let low : bswap64 x % 2 ^ 32 ≡ bswap32 (x / 2 ^ 32) = omega arith in
        let high : bswap64 x / 2 ^ 32 ≡ bswap32 (x % 2 ^ 32) = omega arith in
        bswap64_sum (bswap64 x) (omega arith)
        ∙ rw (low, high, twice32 (x / 2 ^ 32) (omega arith), twice32 (x % 2 ^ 32) (omega arith))
            (omega arith)

module _ (m : Machine) (bytes : IsBytes m) where
  load_little :
      (p : Ptr)
      → m.little ≡ true
      → (load16 m p ≡ le16 m p) × (load32 m p ≡ le32 m p) × (load64 m p ≡ le64 m p)
  unfolding load16 join16 load32 load64 le16 le32 le64
  load_little p l = (simp l, simp l, simp l)

  -- Swapping the bytes turns each of the two numbers into the other.
  pub bswap-le :
      (p : Ptr)
      → ((bswap16 (le16 m p) ≡ be16 m p) × (bswap16 (be16 m p) ≡ le16 m p))
        × ((bswap32 (le32 m p) ≡ be32 m p) × (bswap32 (be32 m p) ≡ le32 m p))
        × ((bswap64 (le64 m p) ≡ be64 m p) × (bswap64 (be64 m p) ≡ le64 m p))
  unfolding load16 join16 load32 load64 le16 le32 le64 be16 be32 be64
  bswap-le p =
      let little : Machine = record m { little = true } in
      let (a16, s16) = load16_swapped little bytes p refl in
      let (a32, s32) = load32_swapped little bytes p refl in
      let (a64, s64) = load64_swapped little bytes p refl in
      (
        (s16, ap bswap16 (sym s16) ∙ bswap_twice.0 (le16 m p) a16),
        (s32, ap bswap32 (sym s32) ∙ bswap_twice.1 (le32 m p) a32),
        (s64, ap bswap64 (sym s64) ∙ bswap_twice.2 (le64 m p) a64),
      )

  -- The conversions from little-endian give the number that the bytes write with the lowest first.
  pub le-load :
      (p : Ptr)
      → (le16toh m (load16 m p) ≡ le16 m p)
        × (le32toh m (load32 m p) ≡ le32 m p)
        × (le64toh m (load64 m p) ≡ le64 m p)
  unfolding le16toh le32toh le64toh sys_big_endian
  le-load p = elim (Bool-cases m.little) [
    | inl l ↦
        let probe : sys_little_endian m ≡ true = sys_little_endian_lem m ∙ l in
        simp probe (load_little p l)
    | inr b ↦
        let probe : sys_little_endian m ≡ false = sys_little_endian_lem m ∙ b in
        let (e16, e32, e64) = load_big m bytes p b in
        let (s16, s32, s64) = bswap-le p in
        simp probe (ap bswap16 e16 ∙ s16.1, ap bswap32 e32 ∙ s32.1, ap bswap64 e64 ∙ s64.1)
  ]
