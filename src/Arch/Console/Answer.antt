-- ===== src/Arch/Console/Answer.antt =====
-- The keys that end the loop over the UART.
use riscy_os.Prelude.{
  ℕ, suc, ◌-◌, ◌≤◌, ◌<◌, ◌≡◌, refl, sym, ap, ◌∙◌, ◌≢◌, Bool, true, List, [], ◌∷◌, ◌++◌, Ptr, null,
  arith,
}
use mathlib.Core.List.{append_assoc, append-nil}
use riscy_os.Drivers.Syscon.{masked}
use riscy_os.Kernel.EarlyOutput.Register.{count}
use riscy_os.Kernel.EarlyOutput.Output.{heard, heard-append}
use riscy_os.Kernel.World.{
  World, End, done, panics, resets, and_then, Prog, ◌>>=◌, ◌>>◌, panic_text, abort,
}
use riscy_os.Kernel.World.Says.{with_calls, abort-Ends}
use riscy_os.Arch.Console.{after_write, syscon_reboot, syscon_shutdown, after_percent, main_loop}
use riscy_os.Arch.Console.Safe.{syscon_write-found}
use riscy_os.Arch.Console.Echo.{
  held, on, then_done, on_key-Plain, on_key-held, round_opened, round-percent,
}

pub data Answer : Type 0 where
  leaves aborts reboots powers_off : Answer

abbrev pub stop_key : Answer → ℕ
stop_key leaves = b'%'
stop_key aborts = b'!'
stop_key reboots = b'^'
stop_key powers_off = b'&'

-- What is printed behind the key.
abbrev pub last_text : Answer → List ℕ
last_text leaves = []
last_text aborts = panic_text
last_text reboots = []
last_text powers_off = []

-- How the loop ends: it returns, it aborts, or it writes the word that resets.
abbrev pub ending : (Ptr → ℕ) → Answer → World → End (Unit {0})
ending reg_value leaves w = done tt w
ending reg_value aborts w = panics w
ending reg_value reboots w =
    resets w.reboot.reg (masked (reg_value w.reboot.reg) w.reboot.mask w.reboot.value) w
ending reg_value powers_off w =
    resets w.shutdown.reg (masked (reg_value w.shutdown.reg) w.shutdown.mask w.shutdown.value) w

-- A key that resets does so only if its flag is true, and then its action is to be found.
abbrev pub Allowed : Bool → Bool → Answer → World → Type 0
Allowed reboot_ok shutdown_ok leaves w = Unit {0}
Allowed reboot_ok shutdown_ok aborts w = Unit {0}
Allowed reboot_ok shutdown_ok reboots w = (reboot_ok ≡ true) × (w.reboot.found ≡ true)
Allowed reboot_ok shutdown_ok powers_off w = (shutdown_ok ≡ true) × (w.shutdown.found ≡ true)

-- The end of a run whose callback `p` hears the text. Some reads of the last key are left; nothing
-- else changed.
abbrev pub Answers : (Ptr → ℕ) → Answer → Ptr → List ℕ → List ℕ → World → End (Unit {0}) → Type 0
Answers reg_value a p text more w end =
    (calls : List (Ptr × ℕ)) × (left : ℕ) × (heard p calls ≡ text)
    × (end
        ≡ ending reg_value a
            (record w { output = w.output ++ calls; input = held (stop_key a) left more }))

stop_key_lt : (a : Answer) → stop_key a < 256
stop_key_lt leaves = omega arith
stop_key_lt aborts = omega arith
stop_key_lt reboots = omega arith
stop_key_lt powers_off = omega arith

pub stop_key_ne : (a : Answer) → stop_key a ≢ 0
stop_key_ne leaves e = omega (arith, e)
stop_key_ne aborts e = omega (arith, e)
stop_key_ne reboots e = omega (arith, e)
stop_key_ne powers_off e = omega (arith, e)

stop_key_other : (a : Answer) → a ≢ leaves → stop_key a ≢ b'%'
stop_key_other leaves other e = other refl
stop_key_other aborts other e = omega (arith, e)
stop_key_other reboots other e = omega (arith, e)
stop_key_other powers_off other e = omega (arith, e)

-- What ends has no part behind it.
then_ending :
    (reg_value : Ptr → ℕ) (a : Answer) (c d : Prog (Unit {0})) (w w' : World)
    → a ≢ leaves
    → c w ≡ ending reg_value a w'
    → (c >> d) w ≡ ending reg_value a w'
unfolding ◌>>◌ ◌>>=◌
then_ending reg_value leaves c d w w' other e = absurd (other refl)
then_ending reg_value aborts c d w w' other e = ap (λ end. and_then end (λ _. d)) e
then_ending reg_value reboots c d w w' other e = ap (λ end. and_then end (λ _. d)) e
then_ending reg_value powers_off c d w w' other e = ap (λ end. and_then end (λ _. d)) e

module _ (reg_value : Ptr → ℕ) (reboot_ok shutdown_ok : Bool) (p : Ptr) (ne : p ≢ null) where
  reboot-ending :
      (w : World) → w.reboot.found ≡ true → syscon_reboot reg_value w ≡ ending reg_value reboots w
  unfolding syscon_reboot
  reboot-ending w found =
      ap (λ r. after_write r w)
        (syscon_write-found reg_value reboot_ok shutdown_ok w.reboot (reg_value w.reboot.reg) found)

  shutdown-ending :
      (w : World)
      → w.shutdown.found ≡ true
      → syscon_shutdown reg_value w ≡ ending reg_value powers_off w
  unfolding syscon_shutdown
  shutdown-ending w found =
      ap (λ r. after_write r w)
        (syscon_write-found reg_value reboot_ok shutdown_ok w.shutdown (reg_value w.shutdown.reg)
          found)

  -- Nothing is printed.
  silent :
      (a : Answer) (n : ℕ) (more : List ℕ) (w : World) (end : End (Unit {0}))
      → end ≡ ending reg_value a (on w (held (stop_key a) n more))
      → Answers reg_value a p [] more w end
  silent a n more w end e = (
    [],
    n,
    refl,
    e
        ∙ ap (λ o. ending reg_value a (record w { output = o; input = held (stop_key a) n more }))
            (sym (append-nil w.output)),
  )

  -- The tests behind the one for '%', at a key of theirs.
  after_percent-Answers :
      (a : Answer) (n : ℕ) (more : List ℕ) (w : World)
      → count p w.array ≡ 1
      → a ≢ leaves
      → Allowed reboot_ok shutdown_ok a w
      → 3 ≤ n
      → Answers reg_value a p
          (last_text a)
          more
          w
          (after_percent reg_value reboot_ok shutdown_ok (on w (held (stop_key a) n more)))
  unfolding after_percent
  after_percent-Answers leaves n more w once other allowed many = absurd (other refl)
  after_percent-Answers aborts n more w once other allowed many =
      let (calls, hears, e) = abort-Ends p (on w (held b'!' (n - 1) more)) ne once in
      (
        calls,
        n - 1,
        hears,
        then_ending reg_value aborts _ _ _ _ other
            (on_key-held true b'!' abort w n more refl (omega (arith, many)) ∙ e),
      )
  after_percent-Answers reboots n more w once other allowed many =
      let (i, i_many, first) =
        on_key-Plain true b'!' abort w b'^' n more (λ e. omega (arith, e)) (omega (arith, many)) in
      silent reboots (i - 1) more w _ (
        then_done _ _ _ _ tt first
        ∙ then_ending reg_value reboots _ _ _ _ other (
            on_key-held reboot_ok b'^' (syscon_reboot reg_value) w i more allowed.0
              (omega (arith, many, i_many))
            ∙ reboot-ending (on w (held b'^' (i - 1) more)) allowed.1))
  after_percent-Answers powers_off n more w once other allowed many =
      let (i, i_many, first) =
        on_key-Plain true b'!' abort w b'&' n more (λ e. omega (arith, e)) (omega (arith, many)) in
      let (j, j_many, second) =
        on_key-Plain reboot_ok b'^' (syscon_reboot reg_value) w b'&' i more (λ e. omega (arith, e))
          (omega (arith, many, i_many)) in
      silent powers_off (j - 1) more w _ (
        then_done _ _ _ _ tt first
        ∙ (then_done _ _ _ _ tt second
            ∙ then_ending reg_value powers_off _ _ _ _ other (
                on_key-held shutdown_ok b'&' (syscon_shutdown reg_value) w j more allowed.0
                  (omega (arith, many, i_many, j_many))
                ∙ shutdown-ending (on w (held b'&' (j - 1) more)) allowed.1)))

  -- One part of a run after the other.
  pub Answers-after :
      (a : Answer) (calls : List (Ptr × ℕ)) (s t : List ℕ) (more : List ℕ) (w : World)
      (end end' : End (Unit {0}))
      → heard p calls ≡ s
      → end ≡ end'
      → Answers reg_value a p t more (with_calls w calls) end'
      → Answers reg_value a p (s ++ t) more w end
  Answers-after a calls s t more w end end' hears e (calls', left, hears', e') = (
    calls ++ calls',
    left,
    heard-append p calls calls' ∙ rw (hears, hears') refl,
    e
        ∙ (e'
            ∙ ap
                (λ o.
                  ending reg_value a (record w { output = o; input = held (stop_key a) left more }))
                (append_assoc w.output calls calls')),
  )

  Answers-then :
      (a : Answer) (text more : List ℕ) (w v : World) (c d : Prog (Unit {0}))
      → a ≢ leaves
      → Answers reg_value a p text more w (c v)
      → Answers reg_value a p text more w ((c >> d) v)
  Answers-then a text more w v c d other (calls, left, hears, e) =
      (calls, left, hears, then_ending reg_value a c d v _ other e)

  pub Allowed-with_calls :
      (a : Answer) (w : World) (calls : List (Ptr × ℕ))
      → Allowed reboot_ok shutdown_ok a w
      → Allowed reboot_ok shutdown_ok a (with_calls w calls)
  Allowed-with_calls leaves w calls h = h
  Allowed-with_calls aborts w calls h = h
  Allowed-with_calls reboots w calls h = h
  Allowed-with_calls powers_off w calls h = h

  module _ (rounds n : ℕ) (more : List ℕ) (w : World) (once : count p w.array ≡ 1)
      (many : 6 ≤ n) where
    opened-Answers :
        (a : Answer)
        → a ≢ leaves
        → Allowed reboot_ok shutdown_ok a w
        → Answers reg_value a p (stop_key a ∷ last_text a) more w (
            main_loop reg_value
              (suc rounds)
              reboot_ok
              shutdown_ok
              (on w (held (stop_key a) n more)))
    opened-Answers a other allowed =
        let (calls, hears, e) =
          round_opened reg_value reboot_ok shutdown_ok p ne rounds w once (stop_key a) n more
            (stop_key_lt a) (stop_key_ne a) (stop_key_other a other) (omega (arith, many)) in
        Answers-after a calls (stop_key a ∷ []) (last_text a) more w _ _ hears e (
          Answers-then a (last_text a) more (with_calls w calls) _ _ _ other (
            after_percent-Answers a (n - 1 - 1) more (with_calls w calls) once other
              (Allowed-with_calls a w calls allowed) (omega (arith, many))))

    -- The last round.
    pub round-Answers :
        (a : Answer)
        → Allowed reboot_ok shutdown_ok a w
        → Answers reg_value a p (stop_key a ∷ last_text a) more w (
            main_loop reg_value
              (suc rounds)
              reboot_ok
              shutdown_ok
              (on w (held (stop_key a) n more)))
    round-Answers leaves allowed =
        let (calls, hears, e) =
          round-percent reg_value reboot_ok shutdown_ok p ne rounds w once n more
            (omega (arith, many)) in
        (calls, n - 1 - 1, hears, e)
    round-Answers aborts allowed = opened-Answers aborts (λ e. cc) allowed
    round-Answers reboots allowed = opened-Answers reboots (λ e. cc) allowed
    round-Answers powers_off allowed = opened-Answers powers_off (λ e. cc) allowed
