-- ===== src/Arch/Console/Safe.antt =====
-- The calls of `syscon_reboot` and `syscon_shutdown` in the loop over the UART.
use riscy_os.Prelude.{
  ap, assert, ok, ℕ, zero, suc, ◌≡◌, refl, Bool, true, false, List, [], ◌∷◌, inl, inr, Bool-cases,
  Ptr, ◌==◌, if◌then◌else◌,
}
use riscy_os.Drivers.Syscon.{Action, masked, syscon_write}
use riscy_os.Kernel.World.{World, Prog, pure}
use riscy_os.Kernel.World.Safe.{
  SameActions, Safe, Quiet, Quiet-bind, Quiet-then, Quiet-if, Quiet-printk, quiet,
}
use riscy_os.Arch.Console.{
  read_from, read_uart, skip_reads, wait_change, syscon_reboot, syscon_shutdown, on_key,
  after_percent, main_loop,
}

module _ (reg_value : Ptr → ℕ) (reboot_ok shutdown_ok : Bool) where
  Safe-read_from :
      (input : List ℕ) (w : World) → Safe reg_value (λ _ w'. SameActions w w') (read_from input w)
  Safe-read_from [] w = tt
  Safe-read_from (c ∷ input) w = (refl, refl)

  Quiet-read_uart : Quiet reg_value reboot_ok shutdown_ok read_uart
  unfolding read_uart
  Quiet-read_uart = record { safe = λ w _. Safe-read_from w.input w }

  Safe-skip_reads :
      (old : ℕ) (input : List ℕ) (w : World)
      → Safe reg_value (λ _ w'. SameActions w w') (skip_reads old input w)
  Safe-skip_reads old [] w = tt
  Safe-skip_reads old (c ∷ input) w = elim (Bool-cases (old == c)) [
    | inl same ↦ rw same (Safe-skip_reads old input w)
    | inr changed ↦ rw changed (refl, refl)
  ]

  Quiet-wait_change : (old : ℕ) → Quiet reg_value reboot_ok shutdown_ok (wait_change old)
  unfolding wait_change
  Quiet-wait_change old = record { safe = λ w _. Safe-skip_reads old w.input w }

  pub syscon_write-found :
      (a : Action) (curr : ℕ)
      → a.found ≡ true
      → syscon_write a curr ≡ ok (a.reg, masked curr a.mask a.value)
  unfolding syscon_write
  syscon_write-found a curr h = ap (λ f. assert f (ok (a.reg, masked curr a.mask a.value))) h

  Quiet-syscon_reboot :
      reboot_ok ≡ true → Quiet reg_value reboot_ok shutdown_ok (syscon_reboot reg_value)
  unfolding syscon_reboot
  Quiet-syscon_reboot e = record {
    safe = λ w ready.
        rw (syscon_write-found w.reboot (reg_value w.reboot.reg) (ready.0 e))
          (w.reboot, inl refl, ready.0 e, refl, refl);
  }

  Quiet-syscon_shutdown :
      shutdown_ok ≡ true → Quiet reg_value reboot_ok shutdown_ok (syscon_shutdown reg_value)
  unfolding syscon_shutdown
  Quiet-syscon_shutdown e = record {
    safe = λ w ready.
        rw (syscon_write-found w.shutdown (reg_value w.shutdown.reg) (ready.1 e))
          (w.shutdown, inr refl, ready.1 e, refl, refl);
  }

  Quiet-on_key :
      (good : Bool) (key : ℕ) (action : Prog (Unit {0}))
      → (good ≡ true → Quiet reg_value reboot_ok shutdown_ok action)
      → Quiet reg_value reboot_ok shutdown_ok (on_key good key action)
  unfolding on_key
  Quiet-on_key false key action h = search (quiet)
  Quiet-on_key true key action h =
      Quiet-bind _ _ _ read_uart (λ c. if c == key then action else pure tt) Quiet-read_uart
        λ c. Quiet-if _ _ _ (c == key) action (pure tt) (h refl) (search (quiet))

  Quiet-after_percent :
      Quiet reg_value reboot_ok shutdown_ok (after_percent reg_value reboot_ok shutdown_ok)
  unfolding after_percent
  Quiet-after_percent = search (
    quiet, Quiet-read_uart, Quiet-wait_change, Quiet-on_key, Quiet-syscon_reboot,
    Quiet-syscon_shutdown,
  )

  pub Quiet-main_loop :
      (rounds : ℕ)
      → Quiet reg_value reboot_ok shutdown_ok (main_loop reg_value rounds reboot_ok shutdown_ok)
  unfolding main_loop
  Quiet-main_loop zero = search (quiet)
  Quiet-main_loop (suc rounds) = Quiet-bind _ _ _ read_uart _ Quiet-read_uart λ shown.
      Quiet-then _ _ _ _ _ (Quiet-printk _ _ _ _ _) (
        Quiet-bind _ _ _ read_uart _ Quiet-read_uart λ c.
          Quiet-if _ _ _ (c == b'%') (pure tt) _ (search (quiet))
            (Quiet-then _ _ _ _ _ Quiet-after_percent (Quiet-main_loop rounds)))
