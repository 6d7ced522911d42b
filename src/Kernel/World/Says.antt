-- ===== src/Kernel/World/Says.antt =====
-- What a registered callback hears of a program that only prints.
use mathlib.Core.List.{append-nil, append_assoc}
use riscy_os.Prelude.{
  false, true, sym, ℕ, ◌≡◌, refl, ◌≢◌, some, List, [], ◌∷◌, ◌++◌, Ptr, null, ap, ◌∙◌,
}
use riscy_os.Kernel.EarlyOutput.Register.{count}
use riscy_os.Kernel.EarlyOutput.Output.{heard, heard-append}
use riscy_os.Libc.Printf.{Arg}
use riscy_os.Libc.Printf.Description.{format}
use riscy_os.Libc.Printf.Format.Clean.{Texts, has_no_nul, HasNoNul-has_no_nul}
use riscy_os.Kernel.Printk.Laws.{printf-Prints}
use riscy_os.Kernel.World.{
  World, End, done, panics, Prog, called, ◌>>=◌, ◌>>◌, printk, panic_text, panicked, abort,
}

-- The state with more calls of the callbacks.
abbrev pub with_calls : World → List (Ptr × ℕ) → World
with_calls w calls = record w { output = w.output ++ calls }

-- The program ends with calls from which the callback `p` hears the text; nothing else changes.
abbrev pub Ends : {A : Type 0} → (World → End A) → Ptr → List ℕ → World → End A → Type 0
Ends how p text w end =
    (calls : List (Ptr × ℕ)) × (heard p calls ≡ text) × (end ≡ how (with_calls w calls))

-- A `printk` returns with the text of its format.
pub printk-Ends :
    (p c : ℕ) (cs : List ℕ) (args : List Arg) (text : List ℕ) (w : World)
    → p ≢ null
    → count p w.array ≡ 1
    → has_no_nul (c ∷ cs) ≡ true
    → Texts args
    → format false (c ∷ cs) args ≡ some text
    → Ends (done tt) p text w (printk (c ∷ cs) args w)
unfolding printk
printk-Ends p c cs args text w ne once fmt texts described =
    let (n, calls, e, hears, returned) =
      printf-Prints p w.array ne once c cs [] args text (HasNoNul-has_no_nul (c ∷ cs) fmt) texts
        described in
    (calls, hears, ap (called w) e)

-- One text after the other.
pub Ends-then :
    {A : Type 0} (how : World → End A) (p : Ptr) (s t : List ℕ) (w : World) (c : Prog (Unit {0}))
    (d : Prog A)
    → Ends (done tt) p s w (c w)
    → ((w' : World) → w'.array ≡ w.array → Ends how p t w' (d w'))
    → Ends how p (s ++ t) w ((c >> d) w)
unfolding ◌>>◌ ◌>>=◌
Ends-then how p s t w c d (calls, hears, e) next =
    let (later, hears', e') = next (with_calls w calls) refl in
    (
      calls ++ later,
      heard-append p calls later ∙ rw (hears, hears') refl,
      rw e (e' ∙ ap (λ o. how (record w { output = o })) (append_assoc w.output calls later)),
    )

-- The end of `abort`, behind its text.
panicked-Ends : {A : Type 0} (p : Ptr) (w : World) → Ends {A = A} panics p [] w (panicked w)
unfolding panicked
panicked-Ends p w =
    ([], refl, ap (λ o. panics (record w { output = o })) (sym (append-nil w.output)))

panic_described : format false panic_text [] ≡ some panic_text
unfolding format
panic_described = refl

pub abort-Ends :
    {A : Type 0} (p : Ptr) (w : World)
    → p ≢ null
    → count p w.array ≡ 1
    → Ends {A = A} panics p panic_text w (abort w)
unfolding abort
abort-Ends p w ne once =
    Ends-then panics p panic_text [] w (printk panic_text []) panicked
      (printk-Ends p _ _ [] panic_text w ne once refl tt panic_described) λ w' _. panicked-Ends p w'
