-- ===== src/Libc/Printf/Edges.antt =====
-- Two edges of `formatted_print`: the empty format, and a `%` at the end.
use riscy_os.Prelude.{
  ◌⊎◌, inl, inr, ◌==◌, Bool-cases, ==→eq, ==→ne, ℕ, ◌≡◌, refl, ◌≢◌, false, Option, some, List, [],
  ◌∷◌, ◌++◌, arith, ◌∙◌, ne→==,
}
use riscy_os.Libc.Printf.{
  Arg, Outcome, printed, over_read, body, loop, finish, flush, formatted_print,
}
use riscy_os.Libc.Printf.Description.{HasNoNul, format}
use riscy_os.Libc.Printf.Body.{flat}
use riscy_os.Libc.Printf.Format.{Formats, refused, formats, formatted_print-Formats}

-- On the empty format the loop runs on behind the terminator. If a byte other than NUL stands there,
-- the run is the one of the text that begins there; if that byte is NUL too, nothing is put and 0 is
-- returned; and if nothing is there, the read is out of range.
pub formatted_print-empty :
    (args : List Arg) (d : ℕ) (junk : List ℕ)
    → (((d ≢ 0) × (formatted_print (0 ∷ d ∷ junk) args ≡ formatted_print (d ∷ junk) args))
        ⊎ ((d ≡ 0) × (formatted_print (0 ∷ d ∷ junk) args ≡ printed 0 [])))
      × (formatted_print (0 ∷ []) args ≡ over_read)
unfolding formatted_print loop body finish flush
formatted_print-empty args d junk = elim (Bool-cases (d == 0)) [
  | inl nul ↦ (inr (==→eq d 0 nul, ground (arith, nul)), refl)
  | inr other ↦ (inl (==→ne d 0 other, ground (arith, other)), refl)
]

abbrev pub HasNoPercent : List ℕ → Type 0
HasNoPercent [] = Unit {0}
HasNoPercent (c ∷ s) = (c ≢ b'%') × HasNoPercent s

format-percent :
    (cs : List ℕ) (args : List Arg)
    → HasNoPercent cs
    → format false (cs ++ b'%' ∷ []) args ≡ some cs
unfolding format
format-percent [] args ok = refl
format-percent (c ∷ cs) args ok = rw (ne→== c b'%' ok.0, format-percent cs args ok.1)

HasNoNul-snoc : (cs : List ℕ) (d : ℕ) → HasNoNul cs → d ≢ 0 → HasNoNul (cs ++ d ∷ [])
HasNoNul-snoc [] d ok ne = (ne, tt)
HasNoNul-snoc (c ∷ cs) d ok ne = (ok.0, HasNoNul-snoc cs d ok.1 ne)

plain_output :
    {args : List Arg} {cs : List ℕ} {o : Option (List ℕ)} {out : Outcome}
    → o ≡ some cs
    → Formats args o out
    → (n : ℕ) × (texts : List (List ℕ)) × (out ≡ printed n texts) × (flat texts ≡ cs)
plain_output e refused = cc
plain_output e (formats {text} {n} {out} same count) = (n, out, refl, same ∙ cc)

-- A `%` at the end of a format is dropped: after plain characters with no `%` among them, exactly
-- those characters are put.
pub formatted_print-percent :
    (c : ℕ) (cs junk : List ℕ) (args : List Arg)
    → HasNoPercent (c ∷ cs)
    → HasNoNul (c ∷ cs)
    → (n : ℕ) × (texts : List (List ℕ)) × (formatted_print (c ∷ (cs ++ b'%' ∷ []) ++ 0 ∷ junk) args
        ≡ printed n texts)
      × (flat texts ≡ c ∷ cs)
formatted_print-percent c cs junk args plain ok =
    plain_output (format-percent (c ∷ cs) args plain) (
      formatted_print-Formats c (cs ++ b'%' ∷ []) junk args
        (HasNoNul-snoc (c ∷ cs) b'%' ok (omega arith)))
