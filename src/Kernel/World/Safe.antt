-- ===== src/Kernel/World/Safe.antt =====
-- Programs none of whose own assertions fails.
use riscy_os.Prelude.{
  ℕ, ◌≡◌, refl, Bool, true, false, List, [], ◌∷◌, ◌++◌, ◌⊎◌, Ptr, if◌then◌else◌, Run, ok, no_return,
  undefined, ◌∙◌,
}
use riscy_os.Kernel.BootMem.FreeList.{Store, Cmd}
use riscy_os.Kernel.Printk.{printf}
use riscy_os.Libc.Printf.{Arg}
use riscy_os.Drivers.Syscon.{Action, masked}
use riscy_os.Kernel.World.{
  World, End, done, panics, asserted, resets, waits, stuck, crashed, Prog, and_then, ◌>>=◌, ◌>>◌,
  lift, stored, on_store, called, printk, abort, pure, panic_text, panicked, stops,
}

-- The write that resets is the one of an action that is found; `reg_value` gives what the
-- registers held.
abbrev pub ResetsRight : (Ptr → ℕ) → Ptr → ℕ → World → Type 0
ResetsRight reg_value p v w =
    (a : Action) × ((a ≡ w.reboot) ⊎ (a ≡ w.shutdown))
    × (a.found ≡ true)
    × (p ≡ a.reg)
    × (v ≡ masked (reg_value a.reg) a.mask a.value)

-- No assertion fails, a reset is right, and what is returned has the property.
abbrev pub Safe : (Ptr → ℕ) → {A : Type 0} → (A → World → Type 0) → End A → Type 0
Safe reg_value P (done a w) = P a w
Safe reg_value P (asserted w) = ⊥
Safe reg_value P (resets p v w) = ResetsRight reg_value p v w
Safe reg_value P (panics w) = Unit {0}
Safe reg_value P (waits w) = Unit {0}
Safe reg_value P stuck = Unit {0}
Safe reg_value P crashed = Unit {0}

-- The program fails no assertion, and a reset of it is right.
unfoldable pub AllSafe : (Ptr → ℕ) → {A : Type 0} → Prog A → World → Type 0
AllSafe reg_value p w = Safe reg_value (λ _ _. Unit {0}) (p w)

abbrev pub SameActions : World → World → Type 0
SameActions w w' = (w'.reboot ≡ w.reboot) × (w'.shutdown ≡ w.shutdown)

module _ (reg_value : Ptr → ℕ) where
  pub Safe-and_then :
      {A B : Type 0} {P : A → World → Type 0} (Q : B → World → Type 0) (end : End A)
      (f : A → Prog B)
      → Safe reg_value P end
      → ((a : A) (w : World) → P a w → Safe reg_value Q (f a w))
      → Safe reg_value Q (and_then end f)
  Safe-and_then Q (done a w) f h next = next a w h
  Safe-and_then Q (panics w) f h next = tt
  Safe-and_then Q (asserted w) f h next = h
  Safe-and_then Q (resets p v w) f h next = h
  Safe-and_then Q (waits w) f h next = tt
  Safe-and_then Q stuck f h next = tt
  Safe-and_then Q crashed f h next = tt

  pub Safe-weaken :
      {A : Type 0} (P Q : A → World → Type 0) (end : End A)
      → Safe reg_value P end
      → ((a : A) (w : World) → P a w → Q a w)
      → Safe reg_value Q end
  Safe-weaken P Q (done a w) h next = next a w h
  Safe-weaken P Q (panics w) h next = tt
  Safe-weaken P Q (asserted w) h next = h
  Safe-weaken P Q (resets p v w) h next = h
  Safe-weaken P Q (waits w) h next = tt
  Safe-weaken P Q stuck h next = tt
  Safe-weaken P Q crashed h next = tt

-- Each flag is true only if its action is found.
abbrev pub Ready : Bool → Bool → World → Type 0
Ready reboot_ok shutdown_ok w =
    (reboot_ok ≡ true → w.reboot.found ≡ true) × (shutdown_ok ≡ true → w.shutdown.found ≡ true)

module _ (reg_value : Ptr → ℕ) (reboot_ok shutdown_ok : Bool) where
  -- Where the flags hold, the program is safe, and it keeps the actions.
  pub record Quiet {A : Type 0} (p : Prog A) : Type 0 where
    pub safe :
        (w : World)
        → Ready reboot_ok shutdown_ok w
        → Safe reg_value (λ _ w'. SameActions w w') (p w)

  pub Ready-same :
      (w w' : World)
      → SameActions w w'
      → Ready reboot_ok shutdown_ok w
      → Ready reboot_ok shutdown_ok w'
  Ready-same w w' (r, s) (h, k) = (λ e. rw r (h e), λ e. rw s (k e))

  pub Quiet-pure : {A : Type 0} (a : A) → Quiet (pure a)
  unfolding pure
  Quiet-pure a = record { safe = λ w _. (refl, refl) }

  pub Quiet-stuck : {A : Type 0} → Quiet (stops {A = A})
  unfolding stops
  Quiet-stuck = record { safe = λ w _. tt }

  pub Quiet-bind :
      {A B : Type 0} (c : Prog A) (f : A → Prog B)
      → Quiet c
      → ((a : A) → Quiet (f a))
      → Quiet (c >>= f)
  unfolding ◌>>=◌
  Quiet-bind c f h k = record {
    safe = λ w ready. Safe-and_then reg_value _ (c w) f (h.safe w ready) λ a w1 same.
        Safe-weaken reg_value _ _ (f a w1) ((k a).safe w1 (Ready-same w w1 same ready))
          λ _ w2 later. (later.0 ∙ same.0, later.1 ∙ same.1);
  }

  pub Quiet-then : {A B : Type 0} (c : Prog A) (d : Prog B) → Quiet c → Quiet d → Quiet (c >> d)
  unfolding ◌>>◌
  Quiet-then c d h k = Quiet-bind c (λ _. d) h λ _. k

  pub Quiet-if :
      {A : Type 0} (b : Bool) (c d : Prog A) → Quiet c → Quiet d → Quiet (if b then c else d)
  Quiet-if true c d h k = h
  Quiet-if false c d h k = k

  pub Quiet-lift : {A : Type 0} (r : Run A) → Quiet (lift r)
  unfolding lift
  Quiet-lift (ok a) = record { safe = λ w _. (refl, refl) }
  Quiet-lift no_return = record { safe = λ w _. tt }
  Quiet-lift undefined = record { safe = λ w _. tt }

  Safe-stored :
      {A : Type 0} (w : World) (r : Run (A × Store))
      → Safe reg_value (λ _ w'. SameActions w w') (stored w r)
  Safe-stored w (ok (a, s)) = (refl, refl)
  Safe-stored w no_return = tt
  Safe-stored w undefined = tt

  pub Quiet-on_store : {A : Type 0} (c : Cmd A) → Quiet (on_store c)
  unfolding on_store
  Quiet-on_store c = record { safe = λ w _. Safe-stored w (c w.store) }

  Safe-called :
      (w : World) (r : Run (ℕ × List (Ptr × ℕ)))
      → Safe reg_value (λ _ w'. SameActions w w') (called w r)
  Safe-called w (ok (n, calls)) = (refl, refl)
  Safe-called w no_return = tt
  Safe-called w undefined = tt

  pub Quiet-printk : (fmt : List ℕ) (args : List Arg) → Quiet (printk fmt args)
  unfolding printk
  Quiet-printk fmt args = record {
    safe = λ w _. Safe-called w (printf w.array (fmt ++ 0 ∷ []) args);
  }

  Quiet-panicked : {A : Type 0} → Quiet (panicked {A = A})
  unfolding panicked
  Quiet-panicked = record { safe = λ w _. tt }

  pub Quiet-abort : {A : Type 0} → Quiet (abort {A = A})
  unfolding abort
  Quiet-abort = Quiet-then _ _ (Quiet-printk panic_text []) Quiet-panicked

pub ruleset quiet = (
  Quiet-pure, Quiet-stuck, Quiet-bind, Quiet-then, Quiet-if, Quiet-lift, Quiet-on_store,
  Quiet-printk, Quiet-abort,
)
