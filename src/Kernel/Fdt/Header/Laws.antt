-- ===== src/Kernel/Fdt/Header/Laws.antt =====
-- What the header's checks say of the bytes.
use riscy_os.Prelude.{ℕ, ◌+◌, ◌^◌, ◌≤◌, ◌<◌, ◌≡◌, Ptr, null, ltb, if◌then◌else◌, arith, ◌↔◌, add64}
use riscy_os.Kernel.Endian.{Machine, IsBytes}
use riscy_os.Kernel.Endian.Laws.{be32, be32-lt, be-load}
use riscy_os.Kernel.Fdt.Header.{
  field, off_dt_strings, size_dt_strings, valid, fdt_verify, fdt_string_from_offset,
}

module _ (m : Machine) (bytes : IsBytes m) where
  pub field-lt : (p offset : ℕ) → field m p offset < 2 ^ 32
  unfolding field
  field-lt p offset =
      omega (arith, (be-load m bytes (add64 p offset)).1, be32-lt m bytes (add64 p offset))

  field-be32 : (p offset : ℕ) → field m p offset ≡ be32 m (add64 p offset)
  unfolding field
  field-be32 p offset = (be-load m bytes (add64 p offset)).1

  -- On a machine of either byte order a tree is accepted exactly when its first four bytes are
  -- d0 0d fe ed and the version in the bytes 24 to 27, highest first, is at most 17.
  pub fdt_verify_lem :
      (fdt : Ptr)
      → (fdt_verify m fdt ≡ valid)
        ↔ ((be32 m (add64 fdt 0) ≡ 0xd00dfeed) × (be32 m (add64 fdt 24) ≤ 17))
  unfolding fdt_verify
  fdt_verify_lem fdt = ground (arith, field-be32 fdt 0, field-be32 fdt 24)

  -- For a tree whose block of strings lies in the address space, an offset outside of the block gives
  -- NULL, and any other the address of the byte at that offset.
  pub fdt_string_from_offset_lem :
      (fdt offset : ℕ)
      → fdt + 2 ^ 33 < 2 ^ 64
      → offset < 2 ^ 32
      → fdt_string_from_offset m fdt offset
        ≡ (if ltb offset (size_dt_strings m fdt) then fdt + off_dt_strings m fdt + offset else null)
  unfolding fdt_string_from_offset
  fdt_string_from_offset_lem fdt offset fits small =
      ground (arith, field-lt fdt 12, field-lt fdt 32)
