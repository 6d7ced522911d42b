-- ===== src/Libc/Memory.antt =====
-- libc/src/string/memcpy.c, memset.c, memset_explicit.c and memmove.c on the memory of a machine.
-- Each asserts that its pointers are not NULL, and returns its destination with the memory behind the
-- call.
pub mod Laws
use riscy_os.Prelude.{
  ℕ, zero, suc, ◌+◌, ◌%◌, not, Ptr, null, ltb, ◌==◌, if◌then◌else◌, ◌&&◌, add64, Run, ok, assert,
}
use riscy_os.Kernel.Endian.{Machine}

abbrev pub put_byte : Machine → Ptr → ℕ → Machine
put_byte m p c = record m { byte = λ q. if q == p then c else m.byte q }

-- The loop with rising index, at `i` with `left` rounds to go.
pub copy_up : Machine → Ptr → Ptr → ℕ → ℕ → Machine
copy_up m dest src i zero = m
copy_up m dest src i (suc left) =
    copy_up (put_byte m (add64 dest i) (m.byte (add64 src i))) dest src (i + 1) left

-- The loop with falling index, `i` bytes to go.
pub copy_down : Machine → Ptr → Ptr → ℕ → Machine
copy_down m dest src zero = m
copy_down m dest src (suc i) =
    copy_down (put_byte m (add64 dest i) (m.byte (add64 src i))) dest src i

-- C leaves the call undefined where the two ranges overlap; the body is the loop all the same.
pub memcpy : Machine → Ptr → Ptr → ℕ → Run (Ptr × Machine)
memcpy m dest src count =
    assert (not (dest == null) && not (src == null)) (ok (dest, copy_up m dest src 0 count))

pub memmove : Machine → Ptr → Ptr → ℕ → Run (Ptr × Machine)
memmove m dest src count =
    assert (not (dest == null) && not (src == null))
      (ok (dest, if ltb dest src then copy_up m dest src 0 count else copy_down m dest src count))

pub fill : Machine → Ptr → ℕ → ℕ → ℕ → Machine
fill m dest val i zero = m
fill m dest val i (suc left) = fill (put_byte m (add64 dest i) val) dest val (i + 1) left

-- `ch` is an `int` in two's complement, given by its 32 bits.
pub memset : Machine → Ptr → ℕ → ℕ → Run (Ptr × Machine)
memset m dest ch count = assert (not (dest == null)) (ok (dest, fill m dest (ch % 256) 0 count))

pub memset_explicit : Machine → Ptr → ℕ → ℕ → Run (Ptr × Machine)
memset_explicit m dest ch count = assert (not (dest == null)) (memset m dest ch count)
