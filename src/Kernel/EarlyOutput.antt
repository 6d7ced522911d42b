-- ===== src/Kernel/EarlyOutput.antt =====
-- kernel/early_output.c: the table of `putchar` callbacks.
-- A callback is the number of its address, NULL is 0, and `early_putchar_array` is the list of its
-- EARLY_OUTPUT_MAX_PUTCHAR slots. What a callback does is outside this file: a run is the list
-- of the calls that are made.
pub mod Register
pub mod Output
use riscy_os.Prelude.{
  ℕ, ◌+◌, ◌≡◌, Bool, true, false, not, ◌&&◌, Option, none, some, List, [], ◌∷◌, ◌++◌, Ptr, null,
  size_max, ltb, ◌==◌, if◌then◌else◌, length, set, replicate,
}
use riscy_os.Kernel.Error.{KError, success, exist, no_exist, full}

abbrev pub max_putchar : ℕ
max_putchar = 8

-- The table as the C runtime starts it: every slot NULL.
abbrev pub initial_array : List Ptr
initial_array = replicate max_putchar null

-- A call either returns its code and the table, or stores outside of the table.
pub data Outcome : Type 0 where
  returns : KError → List Ptr → Outcome
  out_of_bounds : ℕ → Outcome

-- The loop of `register_early_putchar` from slot `i` on; `none` is its `return KERR_EXIST`.
unfoldable pub find_slot : Ptr → ℕ → ℕ → List Ptr → Option ℕ
find_slot putchar i index [] = some index
find_slot putchar i index (slot ∷ slots) =
    let next = find_slot putchar (i + 1) (if slot == null then i else index) slots in
    if slot == null then next else if slot == putchar then none else next

-- `index` is a size_t: it starts as -1, which is SIZE_MAX, and the test `index < 0` is unsigned.
unfoldable pub store_slot : Ptr → List Ptr → ℕ → Outcome
store_slot putchar array index =
    if ltb index 0
    then returns full array
    else if ltb index (length array)
    then returns success (set array index putchar)
    else out_of_bounds index

-- What follows the loop, or its early return.
unfoldable pub after_loop : Ptr → List Ptr → Option ℕ → Outcome
unfolding store_slot
after_loop putchar array none = returns exist array
after_loop putchar array (some index) = store_slot putchar array index

unfoldable pub register_early_putchar : Ptr → List Ptr → Outcome
unfolding find_slot after_loop
register_early_putchar putchar array = after_loop putchar array (find_slot putchar 0 size_max array)

pub unregister_early_putchar : Ptr → List Ptr → KError × List Ptr
unregister_early_putchar putchar [] = (no_exist, [])
unregister_early_putchar putchar (slot ∷ slots) =
    let (code, rest) = unregister_early_putchar putchar slots in
    if slot == putchar then (success, null ∷ slots) else (code, slot ∷ rest)

-- The calls that `early_putchar` makes, in order: a callback with its character.
pub early_putchar : List Ptr → ℕ → List (Ptr × ℕ)
early_putchar [] c = []
early_putchar (cb ∷ slots) c =
    let rest = early_putchar slots c in if cb == null then rest else (cb, c) ∷ rest

-- `early_puts` on the bytes at `s`; it stops at the terminator.
pub early_puts : List Ptr → List ℕ → List (Ptr × ℕ)
unfolding early_putchar
early_puts array [] = []
early_puts array (c ∷ s) =
    let rest = early_puts array s in if c == 0 then [] else early_putchar array c ++ rest
