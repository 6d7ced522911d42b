-- ===== src/Libc/Printf/Format.antt =====
-- `formatted_print` against a description of its output that knows nothing of the buffer.
pub mod Clean
use riscy_os.Prelude.{
  ℕ, ◌+◌, ◌%◌, ◌≤◌, ◌≡◌, refl, ◌≢◌, Bool, true, false, Option, none, some, List, [], ◌∷◌, ◌++◌, inl,
  inr, ltb, ◌==◌, if◌then◌else◌, length, arith, Bool-cases, ap, sym, ◌∙◌, ne→==, length-append,
  ltb→le,
}
use mathlib.Core.List.{append-nil, append_assoc}
use riscy_os.Libc.Printf.{
  Arg, int, str, ptr, State, Outcome, printed, bad_argument, buf_len, char_string, put,
  pointer_print, flush, print_char, print_string, print_pointer, specifier, append_char, body,
  finish, loop, formatted_print,
}
use mathlib.Core.Path.{subst}
use riscy_os.Libc.Printf.Pointer.{pointer_print-length}
use riscy_os.Libc.Printf.Description.{
  ◌>>=◌, Taken, char_text, string_text, pointer_text, directive, Read, plain, read, format,
  HasNoNul, Visible,
}
use riscy_os.Libc.Printf.Body.{
  flat, text_so_far, counted, Prints, Agrees, stuck, reads, Agrees-flush, body-Agrees, flush-Prints,
  Prints-trans, flush-buf, nil_of_length, flat-snoc, Prints-weaken,
}

-- What a run from the state `s` gives, where `format` gives `o`.
data Result (s : State) : Option (List ℕ) → Outcome → Type 0 where
  failed : Result s none bad_argument
  prints :
      {text : List ℕ} {n : ℕ} {out : List (List ℕ)}
      → flat out ≡ text_so_far s ++ text
      → (Visible s.args → n ≡ counted s + length text)
      → Result s (some text) (printed n out)

finish-Result : (s : State) → Result s (some []) (finish s)
unfolding finish
finish-Result s =
    let p = flush-Prints s in
    let at_end : (flush s).buf ≡ [] = flush-buf s in
    let put_all : flat (flush s).out ≡ text_so_far s ++ [] =
      sym (append-nil _) ∙ ap (λ b. flat (flush s).out ++ b) (sym at_end) ∙ p.texts in
    prints put_all (λ v. omega (arith, p.counts tt, ap length at_end))

-- A result of the rest of the format, seen from the state before a character was read.
Result-reads :
    {text : List ℕ} {s s' : State} {o : Option (List ℕ)} {out : Outcome}
    → Prints text (Visible s.args) s s'
    → (Visible s.args → Visible s'.args)
    → Result s' o out
    → Result s (do later ← o; some (text ++ later)) out
Result-reads p v failed = failed
Result-reads {text} {s} p v (prints {text = more} same count) =
    prints (same ∙ ap (λ t. t ++ more) p.texts ∙ append_assoc (text_so_far s) text more)
      (λ h. omega (arith, p.counts h, count (v h), length-append text more))

-- The rest of a run behind the body of the loop, against the rest of the text.
abbrev after_body : (State → Outcome) → Option State → Outcome
after_body run o = elim o [ none ↦ bad_argument | some s ↦ run s ]

abbrev after_read : (Bool → List Arg → Option (List ℕ)) → Read → Option (List ℕ)
after_read rest r = do (text, escaped, args) ← r; later ← rest escaped args; some (text ++ later)

after_body-Result :
    {r : Read} {o : Option State} (s : State) (rest : Bool → List Arg → Option (List ℕ))
    (run : State → Outcome)
    → Agrees s r o
    → ((s' : State) → Result s' (rest s'.escaped s'.args) (run s'))
    → Result s (after_read rest r) (after_body run o)
after_body-Result s rest run stuck next = failed
after_body-Result s rest run (reads {text} {s'} e a v p) next =
    rw (← e, ← a) (Result-reads p (λ h. subst Visible (sym a) (v h)) (next s'))

loop-Result :
    (c : ℕ) (cs junk : List ℕ) (s : State)
    → HasNoNul (c ∷ cs)
    → Result s (format s.escaped (c ∷ cs) s.args) (loop (c ∷ cs ++ 0 ∷ junk) s)
unfolding loop format
loop-Result c [] junk s ok =
    after_body-Result s (λ e a. format e [] a) finish (body-Agrees c s ok.0) finish-Result
loop-Result c (d ∷ cs) junk s ok =
    let more : (d == 0) ≡ false = ne→== d 0 ok.1.0 in
    after_body-Result s (λ e a. format e (d ∷ cs) a)
      (λ s'. elim (d == 0) [ true ↦ finish s' | false ↦ loop (d ∷ cs ++ 0 ∷ junk) s' ])
      (body-Agrees c s ok.0) (λ s'. rw more (loop-Result d cs junk s' ok.1))

-- What `formatted_print` does on a text that is not empty: it fails exactly where an argument is
-- missing or of another type, and else it puts the text and returns its length.
pub data Formats (args : List Arg) : Option (List ℕ) → Outcome → Type 0 where
  refused : Formats args none bad_argument
  formats :
      {text : List ℕ} {n : ℕ} {out : List (List ℕ)}
      → flat out ≡ text
      → (Visible args → n ≡ length text)
      → Formats args (some text) (printed n out)

Result-Formats :
    {s : State} {o : Option (List ℕ)} {out : Outcome}
    → text_so_far s ≡ []
    → s.num_chars ≡ 0
    → Result s o out
    → Formats s.args o out
Result-Formats e z failed = refused
Result-Formats {s} e z (prints {text} same count) =
    formats (same ∙ ap (λ t. t ++ text) e)
      (λ v. omega (arith, count v, z, ap length e, length-append (flat s.out) s.buf))

-- For every format that is not empty, whatever lies behind its terminator, `formatted_print` puts
-- exactly the text that `format` describes, in pieces, and returns its length if no `%c` is given
-- the character NUL; it reads an argument that is missing or of the wrong type exactly where
-- `format` has no text.
pub formatted_print-Formats :
    (c : ℕ) (cs junk : List ℕ) (args : List Arg)
    → HasNoNul (c ∷ cs)
    → Formats args (format false (c ∷ cs) args) (formatted_print (c ∷ cs ++ 0 ∷ junk) args)
unfolding formatted_print
formatted_print-Formats c cs junk args ok = Result-Formats refl refl (
    loop-Result c cs junk
      (record { escaped = false; buf = []; num_chars = 0; out = []; args = args }) ok)
