-- ===== src/Libc/Printf/Format/Clean.antt =====
-- The character NUL in the described output of a format.
use riscy_os.Prelude.{
  not, ◌&&◌, ==→ne, ℕ, ◌%◌, ◌≡◌, ◌≢◌, Bool, true, false, Option, none, some, List, [], ◌∷◌, ◌++◌,
  inl, inr, Ptr, ◌==◌, if◌then◌else◌, arith, Bool-cases,
}
use riscy_os.Libc.Printf.{Arg, int, str, ptr, char_string, pointer_print}
use riscy_os.Libc.Printf.Pointer.{All, IsHexDigit, pointer_loop-All}
use riscy_os.Libc.Printf.Description.{
  HasNoNul, Taken, Read, char_text, string_text, pointer_text, directive, plain, read, format,
  ◌>>=◌,
}

-- The texts among the arguments are C strings.
abbrev pub Texts : List Arg → Type 0
Texts [] = Unit {0}
Texts (int c ∷ args) = Texts args
Texts (str t ∷ args) = HasNoNul t × Texts args
Texts (ptr p ∷ args) = Texts args

pub HasNoNul-append : (s t : List ℕ) → HasNoNul s → HasNoNul t → HasNoNul (s ++ t)
HasNoNul-append [] t hs ht = ht
HasNoNul-append (c ∷ s) t hs ht = (hs.0, HasNoNul-append s t hs.1 ht)

HasNoNul-digits : (s : List ℕ) → All IsHexDigit s → HasNoNul s
HasNoNul-digits [] h = tt
HasNoNul-digits (c ∷ s) h = (λ e. omega (arith, h.0), HasNoNul-digits s h.1)

HasNoNul-pointer_print : (p : Ptr) → HasNoNul (pointer_print p).0
unfolding pointer_print
HasNoNul-pointer_print p =
    (omega arith, (omega arith, HasNoNul-digits _ (pointer_loop-All 16 p [] tt).0))

HasNoNul-char_string : (c : ℕ) → HasNoNul (char_string c)
HasNoNul-char_string c = ground arith

abbrev Fine : Taken → Type 0
Fine none = Unit {0}
Fine (some (text, rest)) = HasNoNul text × Texts rest

Fine-if : (b : Bool) (t u : Taken) → Fine t → Fine u → Fine (if b then t else u)
Fine-if true t u h k = h
Fine-if false t u h k = k

char_text-Fine : (args : List Arg) → Texts args → Fine (char_text args)
char_text-Fine [] h = tt
char_text-Fine (int c ∷ args) h = (HasNoNul-char_string (c % 256), h)
char_text-Fine (str t ∷ args) h = tt
char_text-Fine (ptr p ∷ args) h = tt

string_text-Fine : (args : List Arg) → Texts args → Fine (string_text args)
string_text-Fine [] h = tt
string_text-Fine (int c ∷ args) h = tt
string_text-Fine (str t ∷ args) h = h
string_text-Fine (ptr p ∷ args) h = tt

pointer_text-Fine : (args : List Arg) → Texts args → Fine (pointer_text args)
pointer_text-Fine [] h = tt
pointer_text-Fine (int c ∷ args) h = tt
pointer_text-Fine (str t ∷ args) h = tt
pointer_text-Fine (ptr p ∷ args) h = (HasNoNul-pointer_print p, h)

directive-Fine : (c : ℕ) (args : List Arg) → c ≢ 0 → Texts args → Fine (directive c args)
unfolding directive
directive-Fine c args ne h =
    Fine-if (c == b'%') _ _ ((omega arith, tt), h)
      (Fine-if (c == b'c') _ _ (char_text-Fine args h) (
        Fine-if (c == b's') _ _ (string_text-Fine args h)
          (Fine-if (c == b'p') _ _ (pointer_text-Fine args h) ((omega arith, (ne, tt)), h))))

abbrev FineRead : Read → Type 0
FineRead none = Unit {0}
FineRead (some (text, escaped, rest)) = HasNoNul text × Texts rest

plain-FineRead : (t : Taken) → Fine t → FineRead (plain t)
plain-FineRead none h = tt
plain-FineRead (some (text, rest)) h = h

read-FineRead :
    (escaped : Bool) (c : ℕ) (args : List Arg) → c ≢ 0 → Texts args → FineRead (read escaped c args)
read-FineRead true c args ne h = plain-FineRead (directive c args) (directive-Fine c args ne h)
read-FineRead false c args ne h = elim (Bool-cases (c == b'%')) [
  | inl percent ↦ rw percent (tt, h)
  | inr other ↦ rw other ((ne, tt), h)
]

abbrev FineText : Option (List ℕ) → Type 0
FineText none = Unit {0}
FineText (some text) = HasNoNul text

append-FineText :
    (text : List ℕ) (o : Option (List ℕ))
    → HasNoNul text
    → FineText o
    → FineText (o >>= λ later. some (text ++ later))
append-FineText text none h k = tt
append-FineText text (some later) h k = HasNoNul-append text later h k

bind-FineText :
    (r : Read) (f : Bool → List Arg → Option (List ℕ))
    → FineRead r
    → ((escaped : Bool) (args : List Arg) → Texts args → FineText (f escaped args))
    → FineText (r >>= λ (text, escaped, rest). f escaped rest >>= λ later. some (text ++ later))
bind-FineText none f h k = tt
bind-FineText (some (text, escaped, rest)) f h k =
    append-FineText text (f escaped rest) h.0 (k escaped rest h.1)

format-FineText :
    (escaped : Bool) (cs : List ℕ) (args : List Arg)
    → HasNoNul cs
    → Texts args
    → FineText (format escaped cs args)
unfolding format
format-FineText escaped [] args h k = tt
format-FineText escaped (c ∷ cs) args h k =
    bind-FineText (read escaped c args) (λ e a. format e cs a) (read-FineRead escaped c args h.0 k)
      λ e a t. format-FineText e cs a h.1 t

pub format-HasNoNul :
    (cs : List ℕ) (args : List Arg) (text : List ℕ)
    → HasNoNul cs
    → Texts args
    → format false cs args ≡ some text
    → HasNoNul text
format-HasNoNul cs args text h k e = let fine = format-FineText false cs args h k in rw e at fine

abbrev pub has_no_nul : List ℕ → Bool
has_no_nul [] = true
has_no_nul (c ∷ s) = not (c == 0) && has_no_nul s

-- For a literal.
pub HasNoNul-has_no_nul : (s : List ℕ) → has_no_nul s ≡ true → HasNoNul s
HasNoNul-has_no_nul [] h = tt
HasNoNul-has_no_nul (c ∷ s) h = elim (Bool-cases (c == 0)) [
  | inl nul ↦ let f : false ≡ true = rw nul at h in cc
  | inr other ↦ (==→ne c 0 other, HasNoNul-has_no_nul s (rw other at h))
]
