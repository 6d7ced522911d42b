-- ===== src/Kernel/FdtMem/Trim/Coverage.antt =====
-- The regions that are left are the bytes of the region outside of the reserved one.
use riscy_os.Prelude.{ℕ, ◌+◌, ◌^◌, ◌≤◌, ◌<◌, ◌≡◌, Option, none, some, ◌⊎◌, Ptr, arith, ◌↔◌}
use riscy_os.Kernel.FdtMem.Trim.{Trimmed, trim_or_split_around_reserved}

-- The byte at `a` belongs to the region of `size` bytes at `start`.
abbrev pub Within : ℕ → Ptr → ℕ → Type 0
Within a start size = (start ≤ a) × (a < start + size)

abbrev pub WithinSplit : ℕ → Option (Ptr × ℕ) → Type 0
WithinSplit a none = ⊥
WithinSplit a (some (start, size)) = Within a start size

abbrev pub WithinTrimmed : ℕ → Trimmed → Type 0
WithinTrimmed a t = Within a t.start t.size ⊎ WithinSplit a t.split

-- Where neither region wraps, a byte is in what is left of the region, or in the second region of a
-- split, exactly when it is in the region and not in the reserved one.
pub trim_or_split-Within :
    (start size resv_start resv_size a : ℕ)
    → start + size < 2 ^ 64
    → resv_start + resv_size < 2 ^ 64
    → WithinTrimmed a (trim_or_split_around_reserved start size resv_start resv_size)
      ↔ (Within a start size × ¬ Within a resv_start resv_size)
unfolding trim_or_split_around_reserved
trim_or_split-Within start size resv_start resv_size a fits resv_fits = ground arith

-- Where neither region wraps, a split leaves two regions that are not empty, the first below the
-- second, and the two and the reserved region together are as large as the region was.
pub trim_or_split-shrinks :
    (start size resv_start resv_size : ℕ)
    → start + size < 2 ^ 64
    → resv_start + resv_size < 2 ^ 64
    → (p : Ptr) (n : ℕ)
    → (trim_or_split_around_reserved start size resv_start resv_size).split ≡ some (p, n)
    → let t = trim_or_split_around_reserved start size resv_start resv_size in
      (t.start + t.size ≤ p) × (0 < t.size) × (0 < n) × (t.size + n + resv_size ≡ size)
unfolding trim_or_split_around_reserved
trim_or_split-shrinks start size resv_start resv_size fits resv_fits p n e = ground arith
