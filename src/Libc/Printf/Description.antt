-- ===== src/Libc/Printf/Description.antt =====
-- What `formatted_print` prints, without a buffer.
use riscy_os.Prelude.{
  ℕ, ◌%◌, ◌≢◌, Bool, true, false, Option, none, some, List, [], ◌∷◌, ◌++◌, ◌==◌, if◌then◌else◌,
}
use riscy_os.Libc.Printf.{Arg, int, str, ptr, char_string, pointer_print}

infixl 5 ◌>>=◌
abbrev pub ◌>>=◌ {ℓ κ} : {A : Type ℓ} {B : Type κ} → Option A → (A → Option B) → Option B
none >>= f = none
some a >>= f = f a

-- The text of one specifier, and the arguments behind the one that it takes.
abbrev pub Taken : Type 0
Taken = Option (List ℕ × List Arg)

abbrev pub char_text : List Arg → Taken
char_text (int c ∷ args) = some (char_string (c % 256), args)
char_text _ = none

abbrev pub string_text : List Arg → Taken
string_text (str t ∷ args) = some (t, args)
string_text _ = none

abbrev pub pointer_text : List Arg → Taken
pointer_text (ptr p ∷ args) = some ((pointer_print p).0, args)
pointer_text _ = none

unfoldable pub directive : ℕ → List Arg → Taken
directive c args =
    if c == b'%'
    then some (b'%' ∷ [], args)
    else if c == b'c'
    then char_text args
    else if c == b's'
    then string_text args
    else if c == b'p'
    then pointer_text args
    else some (b'%' ∷ c ∷ [], args)

-- One character of the format, with nothing of the buffer: its text, the mode and the arguments
-- behind it.
abbrev pub Read : Type 0
Read = Option (List ℕ × Bool × List Arg)

abbrev pub plain : Taken → Read
plain none = none
plain (some (text, args)) = some (text, false, args)

abbrev pub read : Bool → ℕ → List Arg → Read
read true c args = plain (directive c args)
read false c args = if c == b'%' then some ([], true, args) else some (c ∷ [], false, args)

-- The whole text: `escaped` says that a `%` has just been read. A last `%` gives nothing.
unfoldable pub format : Bool → List ℕ → List Arg → Option (List ℕ)
unfolding directive
format escaped [] args = some []
format escaped (c ∷ cs) args = do
  (text, escaped', rest) ← read escaped c args
  later ← format escaped' cs rest
  some (text ++ later)

abbrev pub HasNoNul : List ℕ → Type 0
HasNoNul [] = Unit {0}
HasNoNul (c ∷ s) = (c ≢ 0) × HasNoNul s

-- No `%c` is given the character NUL, which is counted and not put.
abbrev pub Visible : List Arg → Type 0
Visible [] = Unit {0}
Visible (int c ∷ args) = (c % 256 ≢ 0) × Visible args
Visible (str t ∷ args) = Visible args
Visible (ptr p ∷ args) = Visible args
