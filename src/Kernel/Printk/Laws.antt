-- ===== src/Kernel/Printk/Laws.antt =====
-- What a registered callback hears of a `printk`.
use riscy_os.Prelude.{
  ℕ, ◌≡◌, refl, ◌≢◌, false, Option, some, List, [], ◌∷◌, ◌++◌, Ptr, null, length, ap, ◌∙◌, Run, ok,
}
use riscy_os.Kernel.EarlyOutput.{early_puts}
use riscy_os.Kernel.EarlyOutput.Register.{count}
use riscy_os.Kernel.EarlyOutput.Output.{heard, heard-append, heard-early_puts}
use riscy_os.Libc.Printf.{Arg, Outcome}
use riscy_os.Libc.Printf.Description.{HasNoNul, Visible, format}
use riscy_os.Libc.Printf.Body.{flat}
use riscy_os.Libc.Printf.Format.{Formats, refused, formats, formatted_print-Formats}
use riscy_os.Libc.Printf.Format.Clean.{Texts, format-HasNoNul}
use riscy_os.Kernel.Printk.{printk_puts, puts_all, print_outcome, printf}

HasNoNul-parts : (s t : List ℕ) → HasNoNul (s ++ t) → HasNoNul s × HasNoNul t
HasNoNul-parts [] t h = (tt, h)
HasNoNul-parts (c ∷ s) t h = let (l, r) = HasNoNul-parts s t h.1 in ((h.0, l), r)

-- What `printf` gives where the format has the text `text`, as the callback `p` hears it.
abbrev pub Prints : Ptr → List ℕ → List Arg → Run (ℕ × List (Ptr × ℕ)) → Type 0
Prints p text args run =
    (n : ℕ) × (calls : List (Ptr × ℕ)) × (run ≡ ok (n, calls))
    × (heard p calls ≡ text)
    × (Visible args → n ≡ length text)

module _ (p : Ptr) (array : List Ptr) (ne : p ≢ null) (once : count p array ≡ 1) where
  heard-puts_all :
      (texts : List (List ℕ)) → HasNoNul (flat texts) → heard p (puts_all array texts) ≡ flat texts
  unfolding puts_all printk_puts
  heard-puts_all [] fine = refl
  heard-puts_all (s ∷ texts) fine =
      let (here, later) = HasNoNul-parts s (flat texts) fine in
      heard-append p (early_puts array (s ++ 0 ∷ [])) (puts_all array texts)
      ∙ rw (heard-early_puts p array s [] ne once here, heard-puts_all texts later) refl

  Formats-Prints :
      {args : List Arg} {o : Option (List ℕ)} {out : Outcome} {text : List ℕ}
      → o ≡ some text
      → HasNoNul text
      → Formats args o out
      → Prints p text args (print_outcome array out)
  Formats-Prints e fine refused = cc
  Formats-Prints {text} e fine (formats {text = t} {n} {out} same returned) =
      let at : t ≡ text = cc in
      let all : flat out ≡ text = same ∙ at in
      (
        n,
        puts_all array out,
        refl,
        heard-puts_all out (rw all fine) ∙ all,
        λ v. returned v ∙ ap length at,
      )

  -- For a callback, not NULL, that stands once in the table, and a format that is not empty and whose
  -- arguments fit it, texts being C strings: `printf` returns, the callback hears exactly the text
  -- that the format describes, and the number returned is its length if no `%c` is given NUL.
  pub printf-Prints :
      (c : ℕ) (cs junk : List ℕ) (args : List Arg) (text : List ℕ)
      → HasNoNul (c ∷ cs)
      → Texts args
      → format false (c ∷ cs) args ≡ some text
      → Prints p text args (printf array (c ∷ cs ++ 0 ∷ junk) args)
  unfolding printf
  printf-Prints c cs junk args text fine texts described =
      Formats-Prints described (format-HasNoNul (c ∷ cs) args text fine texts described)
        (formatted_print-Formats c cs junk args fine)
