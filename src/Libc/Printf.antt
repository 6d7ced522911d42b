-- ===== src/Libc/Printf.antt =====
-- libc/src/stdio/printf.c: `pointer_print` and `formatted_print`.
-- `fmt` is the list of the bytes from `fmt` on, its terminator and what lies behind it included.
-- A run gives the strings handed to `puts` and the number that is returned. That number is an
-- `int` whose overflow C leaves undefined; it is modelled as a number without bound.
pub mod Pointer
pub mod Description
pub mod Body
pub mod Format
pub mod Edges
pub mod Buffer
use riscy_os.Prelude.{
  ℕ, zero, suc, ◌+◌, ◌-◌, ◌%◌, Bool, true, false, Option, none, some, List, [], ◌∷◌, ◌++◌, Ptr, ltb,
  ◌==◌, if◌then◌else◌, length, ◌||◌, shr, low_bits,
}

-- What `va_arg` takes; a text is a C string without its terminator.
pub data Arg : Type 0 where
  int : ℕ → Arg
  str : List ℕ → Arg
  ptr : Ptr → Arg

-- `buf` holds the `buf_head` characters that wait for a flush.
pub record State : Type 0 where
  pub escaped : Bool
  pub buf : List ℕ
  pub num_chars : ℕ
  pub out : List (List ℕ)
  pub args : List Arg

-- Reading behind the bytes that are there, or an argument of another type than the specifier's or
-- none at all, is undefined.
pub data Outcome : Type 0 where
  printed : ℕ → List (List ℕ) → Outcome
  over_read bad_argument : Outcome

abbrev pub buf_len : ℕ
buf_len = 32

unfoldable pub hex_digit : ℕ → ℕ
hex_digit digit = if ltb digit 10 then digit + b'0' else digit - 10 + b'A'

-- The loop of `pointer_print`, from the last place of `buf` to the third, `n` places left.
unfoldable pub pointer_loop : ℕ → ℕ → List ℕ → List ℕ
unfolding hex_digit
pointer_loop zero ip buf = buf
pointer_loop (suc n) ip buf =
    pointer_loop n (if ltb 0 ip then shr ip 4 else ip)
      ((if ltb 0 ip then hex_digit (low_bits ip 4) else b'0') ∷ buf)

-- The string that is put, and the characters counted.
unfoldable pub pointer_print : Ptr → List ℕ × ℕ
pointer_print p = (b'0' ∷ b'x' ∷ pointer_loop 16 p [], 18)

-- A one-character string whose character may be the terminator itself.
abbrev pub char_string : ℕ → List ℕ
char_string c = if c == 0 then [] else c ∷ []

abbrev pub put : List ℕ → ℕ → State → State
put text n s = record s { out = s.out ++ text ∷ []; num_chars = s.num_chars + n }

unfoldable pub flush : State → State
flush s =
    if ltb 0 (length s.buf)
    then record s { out = s.out ++ s.buf ∷ []; num_chars = s.num_chars + length s.buf; buf = [] }
    else s

-- The argument of a specifier: `none` if the next argument has another type.
unfoldable pub print_char : List Arg → State → Option State
print_char (int c ∷ args) s = some (put (char_string (c % 256)) 1 (record s { args = args }))
print_char _ s = none

unfoldable pub print_string : List Arg → State → Option State
print_string (str t ∷ args) s = some (put t (length t) (record s { args = args }))
print_string _ s = none

unfoldable pub print_pointer : List Arg → State → Option State
print_pointer (ptr p ∷ args) s =
    some (put (pointer_print p).0 (pointer_print p).1 (record s { args = args }))
print_pointer _ s = none

-- The switch on the character behind a `%`. Every case leaves the escaped mode.
unfoldable pub specifier : ℕ → State → Option State
specifier c s =
    let s = record s { escaped = false } in
    if c == 0 || c == b'%'
    then some (put (b'%' ∷ []) 1 s)
    else if c == b'c'
    then print_char s.args s
    else if c == b's'
    then print_string s.args s
    else if c == b'p'
    then print_pointer s.args s
    else some (put (b'%' ∷ c ∷ []) 2 s)

unfoldable pub append_char : ℕ → State → State
append_char c s =
    let s = record s { buf = s.buf ++ c ∷ [] } in if length s.buf == buf_len then flush s else s

-- The body of the loop at the character `c`.
unfoldable pub body : ℕ → State → Option State
body c s =
    if s.escaped
    then specifier c (flush s)
    else if c == 0
    then some s
    else if c == b'%'
    then some (record s { escaped = true })
    else some (append_char c s)

-- The last flush, and the returned number.
unfoldable pub finish : State → Outcome
finish s = let s = flush s in printed s.num_chars s.out

-- `do … while (*fmt != '\0')`: the body runs before the first test.
unfoldable pub loop : List ℕ → State → Outcome
loop [] s = over_read
loop (c ∷ []) s = elim (body c s) [ none ↦ bad_argument | some s ↦ over_read ]
loop (c ∷ d ∷ fmt) s = elim (body c s) [
  | none ↦ bad_argument
  | some s ↦ elim (d == 0) [ true ↦ finish s | false ↦ loop (d ∷ fmt) s ]
]

unfoldable pub formatted_print : List ℕ → List Arg → Outcome
formatted_print fmt args =
    loop fmt (record { escaped = false; buf = []; num_chars = 0; out = []; args = args })
