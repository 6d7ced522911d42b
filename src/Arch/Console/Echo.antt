-- ===== src/Arch/Console/Echo.antt =====
-- The loop over the UART on keys that are held for some reads each.
use riscy_os.Prelude.{
  ℕ, zero, suc, ◌+◌, ◌-◌, ◌%◌, ◌≤◌, ◌<◌, ◌≡◌, refl, ap, ◌∙◌, ◌≢◌, Bool, true, false, some, List, [],
  ◌∷◌, Ptr, null, arith, ne→==, ==_refl,
}
use riscy_os.Libc.Printf.{int}
use riscy_os.Libc.Printf.Description.{format}
use riscy_os.Kernel.Printk.{codes}
use riscy_os.Kernel.EarlyOutput.Register.{count}
use riscy_os.Kernel.EarlyOutput.Output.{heard}
use riscy_os.Kernel.World.{World, done, and_then, Prog, pure, ◌>>=◌, ◌>>◌, printk, abort}
use riscy_os.Kernel.World.Says.{Ends, with_calls, printk-Ends}
use riscy_os.Arch.Console.{
  read_uart, skip_reads, wait_change, syscon_reboot, syscon_shutdown, on_key, after_percent,
  main_loop,
}

-- A key that is read n times, and then more.
unfoldable pub held : ℕ → ℕ → List ℕ → List ℕ
held c zero more = more
held c (suc n) more = c ∷ held c n more

-- A character that asks for nothing.
abbrev pub Plain : ℕ → Type 0
Plain c = (c < 256) × (c ≢ 0) × (c ≢ b'%') × (c ≢ b'!') × (c ≢ b'^') × (c ≢ b'&')

abbrev pub on : World → List ℕ → World
on w input = record w { input = input }

-- A read of a key that is held.
read-held :
    (w : World) (c n : ℕ) (more : List ℕ)
    → 1 ≤ n
    → read_uart (on w (held c n more)) ≡ done c (on w (held c (n - 1) more))
unfolding read_uart held
read-held w c zero more h = absurd (omega (arith, h))
read-held w c (suc n) more h = let e : suc n - 1 ≡ n = omega arith in rw e refl

bind_done :
    {A B : Type 0} (c : Prog A) (f : A → Prog B) (w w' : World) (a : A)
    → c w ≡ done a w'
    → (c >>= f) w ≡ f a w'
unfolding ◌>>=◌
bind_done c f w w' a e = ap (λ end. and_then end f) e

pub then_done :
    {A B : Type 0} (c : Prog A) (d : Prog B) (w w' : World) (a : A)
    → c w ≡ done a w'
    → (c >> d) w ≡ d w'
unfolding ◌>>◌
then_done c d w w' a e = bind_done c (λ _. d) w w' a e

-- A test for another key takes a read or none.
pub on_key-Plain :
    (good : Bool) (key : ℕ) (action : Prog (Unit {0})) (w : World) (c n : ℕ) (more : List ℕ)
    → c ≢ key
    → 1 ≤ n
    → (left : ℕ) × (n ≤ left + 1)
      × (on_key good key action (on w (held c n more)) ≡ done tt (on w (held c left more)))
unfolding on_key pure
on_key-Plain false key action w c n more ne h = (n, omega arith, refl)
on_key-Plain true key action w c n more ne h = (
  n - 1,
  omega arith,
  bind_done read_uart _ (on w (held c n more)) _ c (read-held w c n more h)
      ∙ rw (ne→== c key ne) refl,
)

-- A test for the key itself.
pub on_key-held :
    (good : Bool) (key : ℕ) (action : Prog (Unit {0})) (w : World) (n : ℕ) (more : List ℕ)
    → good ≡ true
    → 1 ≤ n
    → on_key good key action (on w (held key n more)) ≡ action (on w (held key (n - 1) more))
unfolding on_key
on_key-held false key action w n more good h = cc
on_key-held true key action w n more good h =
    bind_done read_uart _ (on w (held key n more)) _ key (read-held w key n more h)
    ∙ rw (==_refl key) refl

skip_reads-held :
    (w : World) (c n d : ℕ) (more : List ℕ)
    → c ≢ d
    → skip_reads c (held c n (d ∷ more)) w ≡ done tt (on w more)
unfolding held
skip_reads-held w c zero d more ne = rw (ne→== c d ne) refl
skip_reads-held w c (suc n) d more ne = rw (==_refl c) (skip_reads-held w c n d more ne)

wait_change-held :
    (w : World) (c n d : ℕ) (more : List ℕ)
    → c ≢ d
    → wait_change c (on w (held c n (d ∷ more))) ≡ done tt (on w more)
unfolding wait_change
wait_change-held w c n d more ne = skip_reads-held (on w (held c n (d ∷ more))) c n d more ne

module _ (reg_value : Ptr → ℕ) (reboot_ok shutdown_ok : Bool) where
  -- Behind the test for '%', a plain key is passed over up to the first read of the next.
  after_percent-Plain :
      (w : World) (c n d : ℕ) (more : List ℕ)
      → Plain c
      → 4 ≤ n
      → c ≢ d
      → after_percent reg_value reboot_ok shutdown_ok (on w (held c n (d ∷ more)))
        ≡ done tt (on w more)
  unfolding after_percent
  after_percent-Plain w c n d more plain many ne =
      let (i, i_many, first) =
        on_key-Plain true b'!' abort w c n (d ∷ more) plain.3 (omega (arith, many)) in
      let (j, j_many, second) =
        on_key-Plain reboot_ok b'^' (syscon_reboot reg_value) w c i (d ∷ more) plain.4
          (omega (arith, many, i_many)) in
      let (k, k_many, third) =
        on_key-Plain shutdown_ok b'&' (syscon_shutdown reg_value) w c j (d ∷ more) plain.5
          (omega (arith, many, i_many, j_many)) in
      then_done _ _ _ _ tt first
      ∙ (then_done _ _ _ _ tt second
          ∙ (then_done _ _ _ _ tt third
              ∙ (bind_done read_uart wait_change _ _ c
                    (read-held w c k (d ∷ more) (omega (arith, many, i_many, j_many, k_many)))
                  ∙ wait_change-held w c (k - 1) d more ne)))

shown_described : (c : ℕ) → c < 256 → c ≢ 0 → format false (codes "%c") (int c ∷ []) ≡ some (c ∷ [])
unfolding format
shown_described c small ne = let e : c % 256 ≡ c = omega arith in rw (e, ne→== c 0 ne) refl

-- A round on a key that is held shows it.
module _ (reg_value : Ptr → ℕ) (reboot_ok shutdown_ok : Bool) (p : Ptr) (ne : p ≢ null) (rounds : ℕ)
    (w : World) (once : count p w.array ≡ 1) where
  shown-Ends :
      (c : ℕ) (input : List ℕ)
      → c < 256
      → c ≢ 0
      → Ends (done tt) p (c ∷ []) (on w input) (printk (codes "%c") (int c ∷ []) (on w input))
  shown-Ends c input small nul =
      printk-Ends p _ _ _ (c ∷ []) (on w input) ne once refl tt (shown_described c small nul)

  -- A key other than '%' is shown, and the tests for the other keys follow.
  pub round_opened :
      (c n : ℕ) (more : List ℕ)
      → c < 256
      → c ≢ 0
      → c ≢ b'%'
      → 2 ≤ n
      → (calls : List (Ptr × ℕ)) × (heard p calls ≡ c ∷ [])
        × (main_loop reg_value (suc rounds) reboot_ok shutdown_ok (on w (held c n more))
            ≡ (after_percent reg_value reboot_ok shutdown_ok
                  >> main_loop reg_value rounds reboot_ok shutdown_ok)
                (on (with_calls w calls) (held c (n - 1 - 1) more)))
  unfolding main_loop
  round_opened c n more small nul other many =
      let (calls, hears, e) = shown-Ends c (held c (n - 1) more) small nul in
      let w' = with_calls w calls in
      (
        calls,
        hears,
        bind_done read_uart _ _ _ c (read-held w c n more (omega (arith, many)))
            ∙ (then_done _ _ _ _ tt e
                ∙ (bind_done read_uart _ _ _ c (read-held w' c (n - 1) more (omega (arith, many)))
                    ∙ rw (ne→== c b'%' other) refl)),
      )

  pub round-Plain :
      (c n d : ℕ) (more : List ℕ)
      → Plain c
      → 6 ≤ n
      → c ≢ d
      → (calls : List (Ptr × ℕ)) × (heard p calls ≡ c ∷ [])
        × (main_loop reg_value (suc rounds) reboot_ok shutdown_ok (on w (held c n (d ∷ more)))
            ≡ main_loop reg_value rounds reboot_ok shutdown_ok (on (with_calls w calls) more))
  round-Plain c n d more plain many other =
      let (calls, hears, e) =
        round_opened c n (d ∷ more) plain.0 plain.1 plain.2 (omega (arith, many)) in
      (
        calls,
        hears,
        e
            ∙ then_done _ _ _ _ tt (
                after_percent-Plain reg_value reboot_ok shutdown_ok (with_calls w calls) c
                  (n - 1 - 1) d more plain (omega (arith, many)) other),
      )

  -- The key '%' ends the loop.
  pub round-percent :
      (n : ℕ) (more : List ℕ)
      → 2 ≤ n
      → (calls : List (Ptr × ℕ)) × (heard p calls ≡ b'%' ∷ [])
        × (main_loop reg_value (suc rounds) reboot_ok shutdown_ok (on w (held b'%' n more))
            ≡ done tt (on (with_calls w calls) (held b'%' (n - 1 - 1) more)))
  unfolding main_loop pure
  round-percent n more many =
      let (calls, hears, e) =
        shown-Ends b'%' (held b'%' (n - 1) more) (omega arith) (omega arith) in
      (
        calls,
        hears,
        bind_done read_uart _ _ _ b'%' (read-held w b'%' n more (omega (arith, many)))
            ∙ (then_done _ _ _ _ tt e
                ∙ bind_done read_uart _ _ _ b'%'
                    (read-held (with_calls w calls) b'%' (n - 1) more (omega (arith, many)))),
      )
