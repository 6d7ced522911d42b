-- ===== src/Libc/Printf/Buffer.antt =====
-- The character buffer of `formatted_print` never overflows.
use riscy_os.Prelude.{
  ℕ, ◌<◌, ◌≡◌, false, some, List, [], ◌∷◌, ◌++◌, inl, inr, length, arith, Bool-cases, ap,
  length-append,
}
use riscy_os.Libc.Printf.{
  Arg, int, str, ptr, State, buf_len, flush, print_char, print_string, print_pointer, specifier,
  append_char, body,
}

flush-empty : (s : State) → length (flush s).buf ≡ 0
unfolding flush
flush-empty s = ground arith

print_char-keeps : (args : List Arg) (s s' : State) → print_char args s ≡ some s' → s'.buf ≡ s.buf
unfolding print_char
print_char-keeps [] s s' h = cc
print_char-keeps (int c ∷ args) s s' h = ground arith
print_char-keeps (str t ∷ args) s s' h = cc
print_char-keeps (ptr p ∷ args) s s' h = cc

print_string-keeps :
    (args : List Arg) (s s' : State) → print_string args s ≡ some s' → s'.buf ≡ s.buf
unfolding print_string
print_string-keeps [] s s' h = cc
print_string-keeps (int c ∷ args) s s' h = cc
print_string-keeps (str t ∷ args) s s' h = ground arith
print_string-keeps (ptr p ∷ args) s s' h = cc

print_pointer-keeps :
    (args : List Arg) (s s' : State) → print_pointer args s ≡ some s' → s'.buf ≡ s.buf
unfolding print_pointer
print_pointer-keeps [] s s' h = cc
print_pointer-keeps (int c ∷ args) s s' h = cc
print_pointer-keeps (str t ∷ args) s s' h = cc
print_pointer-keeps (ptr p ∷ args) s s' h = ground arith

specifier-keeps : (c : ℕ) (s s' : State) → specifier c s ≡ some s' → s'.buf ≡ s.buf
unfolding specifier
specifier-keeps c s s' h = ground (
  arith,
  print_char-keeps s.args (record s { escaped = false }) s',
  print_string-keeps s.args (record s { escaped = false }) s',
  print_pointer-keeps s.args (record s { escaped = false }) s',
)

append_char-lt :
    (c : ℕ) (s : State) → length s.buf < buf_len → length (append_char c s).buf < buf_len
unfolding append_char
append_char-lt c s h =
    ground (arith, length-append s.buf (c ∷ []), flush-empty (record s { buf = s.buf ++ c ∷ [] }))

-- At every head of the loop `buf_head` stays below BUF_LEN, so that no character and no terminator
-- is stored outside of `buf`.
pub body-buf_lt :
    (c : ℕ) (s s' : State) → length s.buf < buf_len → body c s ≡ some s' → length s'.buf < buf_len
unfolding body
body-buf_lt c s s' h e = elim (Bool-cases s.escaped) [
  | inl esc ↦
      let kept = specifier-keeps c (flush s) s' (simp esc at e) in
      omega (arith, ap length kept, flush-empty s)
  | inr plain ↦ ground (arith, append_char-lt c s)
]
