-- ===== src/Kernel/BootMem/Placement/Bounds.antt =====
-- Where the two placements put an allocation, and what is left of the region.
use riscy_os.Prelude.{ℕ, ◌+◌, ◌-◌, ◌*◌, ◌/◌, ◌%◌, ◌^◌, ◌≤◌, ◌<◌, ◌≡◌, arith, add64, sub64, lt→ltb}
use native.Mathlib.Nat.{one-le-pow, mod-lt, div-add-mod, mul-mod_right}
use riscy_os.Prelude.Bits.{bit_and-mask}
use riscy_os.Prelude.Int.{pos, ◌-ℤ◌}
use riscy_os.Kernel.BootMem.Placement.{
  one_shl, alloc_after_unalignment, alloc_before_unalignment, to_ssize, region_size_alloc_after,
  region_size_alloc_before,
}

-- A request and a region that fit in half of the address space, with an alignment below 2^62.
pub record IsRequest (start region_size size alignment : ℕ) : Type 0 where
  pub fits : start + region_size < 2 ^ 63
  pub size_small : size < 2 ^ 62
  pub power : 2 ^ alignment < 2 ^ 62

to_ssize-pos : (x : ℕ) → x < 2 ^ 63 → to_ssize x ≡ pos x
unfolding to_ssize
to_ssize-pos x h = rw (lt→ltb x (2 ^ 63) h)

-- A difference of two small sizes that is not negative.
sub-pos : (a b k : ℕ) → a < 2 ^ 63 → b < 2 ^ 63 → to_ssize a -ℤ to_ssize b ≡ pos k → k + b ≡ a
unfolding ◌-ℤ◌
sub-pos a b k ha hb e = let e' = rw (to_ssize-pos a ha, to_ssize-pos b hb) at e in ground arith

module _ (start region_size size alignment : ℕ)
    (req : IsRequest start region_size size alignment) where
  pow-pos : 0 < 2 ^ alignment
  pow-pos = one-le-pow alignment 2 (omega arith)

  shl_at : one_shl alignment ≡ 2 ^ alignment
  unfolding one_shl
  shl_at = let p = req.power in omega arith

  mask_at : sub64 (one_shl alignment) 1 ≡ 2 ^ alignment - 1
  mask_at = let p = req.power in rw shl_at (omega (arith, pow-pos))

  pub before_at : alloc_before_unalignment start alignment ≡ 2 ^ alignment - start % 2 ^ alignment
  unfolding alloc_before_unalignment
  before_at =
      let p = req.power in
      rw (mask_at, bit_and-mask alignment start, shl_at)
        (omega (arith, mod-lt start {m = 2 ^ alignment} pow-pos))

  pub after_at :
      alloc_after_unalignment start region_size size alignment
      ≡ sub64 (add64 start region_size) size % 2 ^ alignment
  unfolding alloc_after_unalignment
  after_at = rw (mask_at, bit_and-mask alignment (sub64 (add64 start region_size) size))

  multiple : (x q : ℕ) → x ≡ 2 ^ alignment * q → x % 2 ^ alignment ≡ 0
  multiple x q e = rw e (mul-mod_right (2 ^ alignment) q)

  after_left :
      (left : ℕ)
      → region_size_alloc_after start region_size size alignment ≡ pos left
      → left + size + alloc_after_unalignment start region_size size alignment ≡ region_size
  unfolding region_size_alloc_after
  after_left left e =
      let p = req.power in
      let f = req.fits in
      let z = req.size_small in
      let u = alloc_after_unalignment start region_size size alignment in
      let u_lt : u < 2 ^ alignment =
        rw after_at (mod-lt (sub64 (add64 start region_size) size) {m = 2 ^ alignment} pow-pos) in
      omega (arith, sub-pos region_size (add64 size u) left (omega arith) (omega arith) e)

  after_multiple :
      (left : ℕ)
      → left + size + alloc_after_unalignment start region_size size alignment ≡ region_size
      → (start + left) % 2 ^ alignment ≡ 0
  after_multiple left e =
      let p = req.power in
      let f = req.fits in
      let x : ℕ = sub64 (add64 start region_size) size in
      let whole : x ≡ start + region_size - size = omega arith in
      multiple (start + left) (x / 2 ^ alignment)
        (omega (arith, after_at, div-add-mod x (2 ^ alignment)))

  before_left :
      (left : ℕ)
      → region_size_alloc_before start region_size size alignment ≡ pos left
      → left + size + alloc_before_unalignment start alignment ≡ region_size
  unfolding region_size_alloc_before
  before_left left e =
      let p = req.power in
      let f = req.fits in
      let z = req.size_small in
      let u = alloc_before_unalignment start alignment in
      let u_le : u ≤ 2 ^ alignment = omega (arith, before_at) in
      omega (arith, sub-pos region_size (add64 size u) left (omega arith) (omega arith) e)

  before_multiple : (start + alloc_before_unalignment start alignment) % 2 ^ alignment ≡ 0
  before_multiple =
      multiple (start + alloc_before_unalignment start alignment) (start / 2 ^ alignment + 1) (
        omega (
          arith,
          before_at,
          div-add-mod start (2 ^ alignment),
          mod-lt start {m = 2 ^ alignment} pow-pos,
        ))

  -- For a region that ends below 2^63 and a request whose size and alignment are below 2^62: where an
  -- allocation is said to fit at the end of the region with `left` bytes remaining, or at its start,
  -- those bytes, the allocation and the bytes lost to its alignment are the whole region, and the
  -- address is a multiple of 2^alignment.
  pub placements_lem :
      (left : ℕ)
      → (region_size_alloc_after start region_size size alignment ≡ pos left
          → (left + size + alloc_after_unalignment start region_size size alignment ≡ region_size)
            × ((start + left) % 2 ^ alignment ≡ 0))
        × (region_size_alloc_before start region_size size alignment ≡ pos left
            → (alloc_before_unalignment start alignment + size + left ≡ region_size)
              × ((start + alloc_before_unalignment start alignment) % 2 ^ alignment ≡ 0))
  placements_lem left = (
    λ e. (after_left left e, after_multiple left (after_left left e)),
    λ e. (omega (arith, before_left left e), before_multiple),
  )

-- A region that starts at an aligned address is not allocated from its start at that address: the
-- placement before it skips 2^alignment bytes.
pub alloc_before_unalignment_aligned :
    (start alignment : ℕ)
    → 2 ^ alignment < 2 ^ 62
    → start < 2 ^ 62
    → start % 2 ^ alignment ≡ 0
    → alloc_before_unalignment start alignment ≡ 2 ^ alignment
alloc_before_unalignment_aligned start alignment small low aligned = omega (
  arith,
  before_at start 0 0 alignment
      (record { fits = omega arith; size_small = omega arith; power = small }),
)
