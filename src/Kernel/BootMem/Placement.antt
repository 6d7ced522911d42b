-- ===== src/Kernel/BootMem/Placement.antt =====
-- Where an allocation goes in a region: the arithmetic of kernel/mem/boot/free_list.c.
-- A region is its start and its size. `ssize_t` is the signed reading of 64 bits; a difference of
-- two such values that overflows is undefined in C, and is taken as the integer that it stands for.
pub mod Bounds
use riscy_os.Prelude.{
  ℕ, ◌-◌, ◌^◌, Bool, false, not, Ptr, null, size_max, ltb, if◌then◌else◌, ◌&&◌, ◌||◌, u64, add64,
  sub64, bit_and,
}
use riscy_os.Prelude.Int.{ℤ, pos, negsuc, sub_ℕ, ◌+ℤ◌, ◌-ℤ◌, ltb_ℤ, pos_part}

-- 1ull << alignment; C leaves a shift by 64 or more undefined.
unfoldable pub one_shl : ℕ → ℕ
one_shl alignment = u64 (2 ^ alignment)

unfoldable pub alloc_after_unalignment : Ptr → ℕ → ℕ → ℕ → ℕ
alloc_after_unalignment start region_size size alignment =
    bit_and (sub64 (add64 start region_size) size) (sub64 (one_shl alignment) 1)

unfoldable pub alloc_before_unalignment : Ptr → ℕ → ℕ
alloc_before_unalignment start alignment =
    sub64 (one_shl alignment) (bit_and start (sub64 (one_shl alignment) 1))

-- (ssize_t)x
unfoldable pub to_ssize : ℕ → ℤ
to_ssize x = if ltb x (2 ^ 63) then pos x else negsuc (2 ^ 64 - 1 - x)

unfoldable pub region_size_alloc_after : Ptr → ℕ → ℕ → ℕ → ℤ
region_size_alloc_after start region_size size alignment =
    to_ssize region_size
    -ℤ to_ssize (add64 size (alloc_after_unalignment start region_size size alignment))

unfoldable pub region_size_alloc_before : Ptr → ℕ → ℕ → ℕ → ℤ
region_size_alloc_before start region_size size alignment =
    to_ssize region_size -ℤ to_ssize (add64 size (alloc_before_unalignment start alignment))

-- What `boot_alloc` remembers while it looks through the list: `smallest_fit`, `smallest_fitting`
-- and `should_alloc_before`.
pub record Best : Type 0 where
  pub fit : ℕ
  pub fitting : Ptr
  pub before : Bool

abbrev pub no_best : Best
no_best = record { fit = size_max; fitting = null; before = false }

-- The body of the loop of `boot_alloc` at one region.
unfoldable pub consider : ℕ → ℕ → Ptr → ℕ → Best → Best
consider size alignment start region_size best =
    let after = region_size_alloc_after start region_size size alignment in
    let before = region_size_alloc_before start region_size size alignment in
    let greater = if ltb_ℤ before after then after else before in
    if not (ltb_ℤ greater (pos 0)) && ltb (pos_part greater) best.fit
    then record {
      fit = pos_part greater;
      fitting = start;
      before = ltb_ℤ after greater || ltb_ℤ greater after;
    }
    else best
