-- ===== src/Libc/Text.antt =====
-- libc/src/string/strlen.c, strcmp.c and memcmp.c on the memory of a machine.
-- Each asserts that its pointers are not NULL. `strlen` and `strcmp` run on fuel.
pub mod Laws
use riscy_os.Prelude.{
  ℕ, zero, suc, ◌+◌, Bool, false, not, Ptr, null, ltb, ◌==◌, if◌then◌else◌, ◌&&◌, add64, Run, ok,
  no_return, assert,
}
use riscy_os.Prelude.Int.{ℤ, pos, negsuc, sub_ℕ}
use riscy_os.Kernel.Endian.{Machine}

unfoldable pub strlen_loop : Machine → ℕ → Ptr → ℕ → Run ℕ
strlen_loop m zero str len = no_return
strlen_loop m (suc fuel) str len =
    let rest = strlen_loop m fuel str (add64 len 1) in
    if m.byte (add64 str len) == 0 then ok len else rest

unfoldable pub strlen : Machine → ℕ → Ptr → Run ℕ
strlen m fuel str = assert (not (str == null)) (strlen_loop m fuel str 0)

unfoldable pub strcmp_loop : Machine → ℕ → Ptr → Ptr → Run ℤ
strcmp_loop m zero lhs rhs = no_return
strcmp_loop m (suc fuel) lhs rhs =
    let rest = strcmp_loop m fuel (add64 lhs 1) (add64 rhs 1) in
    if m.byte lhs == m.byte rhs && not (m.byte lhs == 0)
    then rest
    else ok (sub_ℕ (m.byte lhs) (m.byte rhs))

unfoldable pub strcmp : Machine → ℕ → Ptr → Ptr → Run ℤ
strcmp m fuel lhs rhs = assert (not (lhs == null) && not (rhs == null)) (strcmp_loop m fuel lhs rhs)

-- The loop of `memcmp` at the index `i`, with `count - i` rounds left.
unfoldable pub memcmp_loop : Machine → ℕ → ℕ → Ptr → Ptr → ℤ
memcmp_loop m zero i lhs rhs = pos 0
memcmp_loop m (suc left) i lhs rhs =
    let rest = memcmp_loop m left (i + 1) lhs rhs in
    let a = m.byte (add64 lhs i) in
    let b = m.byte (add64 rhs i) in if ltb a b then negsuc 0 else if ltb b a then pos 1 else rest

unfoldable pub memcmp : Machine → Ptr → Ptr → ℕ → Run ℤ
memcmp m lhs rhs count =
    assert (not (lhs == null) && not (rhs == null)) (ok (memcmp_loop m count 0 lhs rhs))

-- The test of a comparison against 0.
abbrev pub is_zero : ℤ → Bool
is_zero (pos n) = n == 0
is_zero (negsuc n) = false
