-- ===== src/Arch/Start/Safe.antt =====
-- The assertions and the resets of `kmain`.
use riscy_os.Prelude.{
  Bool, ℕ, ◌≡◌, refl, true, false, List, [], inl, inr, Ptr, Run, ok, no_return, undefined,
}
use riscy_os.Kernel.Error.{
  KError, success, exist, no_exist, full, empty, invalid, busy, unimpl, unknown,
}
use riscy_os.Kernel.Endian.{Machine}
use riscy_os.Drivers.Syscon.{Action, Init}
use riscy_os.Drivers.Syscon.Init.{IsInit, syscon_init_generic_action-IsInit}
use riscy_os.Kernel.World.{World, Prog, pure, ◌>>=◌, ◌>>◌, printk}
use riscy_os.Kernel.World.Safe.{
  AllSafe, SameActions, Safe, Safe-and_then, Safe-weaken, Ready, Quiet, Quiet-printk,
}
use riscy_os.Arch.Start.{
  Board, rebooting, syscon_reboot_init, powering_off, syscon_shutdown_init, report, run, check_fdt,
  boot, kmain_arm64, kmain_riscv,
}
use riscy_os.Arch.Start.Quiet.{
  QuietAll, Quiet-register, Quiet-set_up_memory, Quiet-check_fdt, Quiet-end,
}

-- The flag of an action that was set up.
abbrev Set : Action → KError → Type 0
Set a code = code ≡ success → a.found ≡ true

module _ (b : Board) (m : Machine) (fuel : ℕ) (fdt : Ptr) where
  IsInit-Set : (code : KError) (a : Action) → IsInit (code, a) → Set a code
  IsInit-Set code a (inl (e, found)) h = found
  IsInit-Set code a (inr (inl e, found)) h = cc
  IsInit-Set code a (inr (inr e, found)) h = cc

  Safe-rebooting :
      (w : World) (run : Run Init)
      → ((code : KError) (a : Action) → run ≡ ok (code, a) → Set a code)
      → Safe b.reg_value (λ code w'. Set w'.reboot code) (rebooting b m fuel fdt w run)
  Safe-rebooting w (ok (code, a)) h = h code a refl
  Safe-rebooting w no_return h = tt
  Safe-rebooting w undefined h = tt

  Safe-syscon_reboot_init :
      (w : World)
      → Safe b.reg_value (λ code w'. Set w'.reboot code) (syscon_reboot_init b m fuel fdt w)
  unfolding syscon_reboot_init
  Safe-syscon_reboot_init w = Safe-rebooting w _ λ code a e.
      IsInit-Set code a
        (syscon_init_generic_action-IsInit b.lits b.names m fuel fdt w.reboot b.reboot code a e).0

  Safe-powering_off :
      (w : World) (run : Run Init)
      → ((code : KError) (a : Action) → run ≡ ok (code, a) → Set a code)
      → Safe b.reg_value
          (λ code w'. (w'.reboot ≡ w.reboot) × Set w'.shutdown code)
          (powering_off b m fuel fdt w run)
  Safe-powering_off w (ok (code, a)) h = (refl, h code a refl)
  Safe-powering_off w no_return h = tt
  Safe-powering_off w undefined h = tt

  Safe-syscon_shutdown_init :
      (w : World)
      → Safe b.reg_value
          (λ code w'. (w'.reboot ≡ w.reboot) × Set w'.shutdown code)
          (syscon_shutdown_init b m fuel fdt w)
  unfolding syscon_shutdown_init
  Safe-syscon_shutdown_init w = Safe-powering_off w _ λ code a e.
      IsInit-Set code a
        (syscon_init_generic_action-IsInit b.lits b.names m fuel fdt w.shutdown b.poweroff code a
          e).0

  -- What `report` gives back is true only on success.
  abbrev Reports : KError → World → Bool → World → Type 0
  Reports code w good w' = SameActions w w' × (good ≡ true → code ≡ success)

  Safe-failed :
      (message : List ℕ) (code : KError) (w : World)
      → Safe b.reg_value (Reports code w) ((printk message [] >> pure false) w)
  unfolding ◌>>◌ ◌>>=◌ pure
  Safe-failed message code w =
      Safe-and_then b.reg_value _ (printk message [] w) _
        ((Quiet-printk b.reg_value false false message []).safe w (λ e. cc, λ e. cc))
        λ _ w' same. (same, λ e. cc)

  Safe-report :
      (message : List ℕ) (code : KError) (w : World)
      → Safe b.reg_value (Reports code w) (report message code w)
  unfolding report pure
  Safe-report message success w = ((refl, refl), λ e. refl)
  Safe-report message exist w = Safe-failed message exist w
  Safe-report message no_exist w = Safe-failed message no_exist w
  Safe-report message full w = Safe-failed message full w
  Safe-report message empty w = Safe-failed message empty w
  Safe-report message invalid w = Safe-failed message invalid w
  Safe-report message busy w = Safe-failed message busy w
  Safe-report message unimpl w = Safe-failed message unimpl w
  Safe-report message unknown w = Safe-failed message unknown w

  Safe-first :
      {A B : Type 0} (P : A → World → Type 0) (c : Prog A) (f : A → Prog B) (w : World)
      → Safe b.reg_value P (c w)
      → ((a : A) (w' : World) → P a w' → AllSafe b.reg_value (f a) w')
      → AllSafe b.reg_value (c >>= f) w
  unfolding ◌>>=◌ AllSafe
  Safe-first P c f w h next = Safe-and_then b.reg_value _ (c w) f h next

  Quiet-AllSafe :
      {A : Type 0} (r s : Bool) (c : Prog A) (w : World)
      → Quiet b.reg_value r s c
      → Ready r s w
      → AllSafe b.reg_value c w
  unfolding AllSafe
  Quiet-AllSafe r s c w h ready = Safe-weaken b.reg_value _ _ (c w) (h.safe w ready) λ _ _ _. tt

  -- The start after the memory is set up.
  Safe-run :
      (rounds : ℕ) (w : World)
      → QuietAll b.reg_value b.preinit_array
      → QuietAll b.reg_value b.init_array
      → QuietAll b.reg_value b.fini_array
      → AllSafe b.reg_value (run b m fuel fdt rounds) w
  unfolding run
  Safe-run rounds w h k l = Safe-first _ _ _ w (Safe-syscon_reboot_init w) λ code w1 set.
      Safe-first _ _ _ w1 (Safe-report _ code w1) λ r w2 reported.
        Safe-first _ _ _ w2 (Safe-syscon_shutdown_init w2) λ code' w3 set'.
          Safe-first _ _ _ w3 (Safe-report _ code' w3) λ s w4 reported'.
            Quiet-AllSafe r s _ w4 (Quiet-end b m fuel fdt r s rounds h k l) (
              λ e. rw (reported'.0.0, set'.0, reported.0.0) (set (reported.1 e)),
              λ e. rw (reported'.0.1) (set'.1 (reported'.1 e)),
            )

  Quiet-first :
      {A B : Type 0} (c : Prog A) (f : A → Prog B) (w : World)
      → Quiet b.reg_value false false c
      → ((a : A) (w' : World) → AllSafe b.reg_value (f a) w')
      → AllSafe b.reg_value (c >>= f) w
  Quiet-first c f w h k = Safe-first _ c f w (h.safe w (λ e. cc, λ e. cc)) λ a w' _. k a w'

  module _ (depth rounds : ℕ) (h : QuietAll b.reg_value b.preinit_array)
      (k : QuietAll b.reg_value b.init_array) (l : QuietAll b.reg_value b.fini_array) where
    Safe-boot : (w : World) → AllSafe b.reg_value (boot b m fuel fdt depth rounds) w
    unfolding boot ◌>>◌
    Safe-boot w =
        Quiet-first (check_fdt b m fuel fdt) _ w (Quiet-check_fdt b m fuel fdt false false) λ _ w1.
          Quiet-first _ _ w1 (Quiet-set_up_memory b m fuel fdt false false depth)
            λ _ w2. Safe-run rounds w2 h k l

    -- If the constructors and destructors fail no assertion and keep the actions, then neither start
    -- fails an assertion of its own, whatever the tree, the input and the state from before; and
    -- where a start resets, it writes to the register of one of the two actions, which is found,
    -- the word that its mask and value give.
    pub kmain-Safe :
        (hartid : ℕ) (w : World)
        → AllSafe b.reg_value (kmain_arm64 b m fuel fdt depth rounds) w
          × AllSafe b.reg_value (kmain_riscv b m fuel fdt depth rounds hartid) w
    unfolding kmain_arm64 kmain_riscv ◌>>◌
    kmain-Safe hartid w =
        let registers = Quiet-register b m fuel fdt false false b.putchar in
        (
          Quiet-first _ _ w registers λ _ w1. Safe-boot w1,
          Quiet-first _ _ w registers λ _ w1.
              Quiet-first _ _ w1 (Quiet-printk b.reg_value false false _ _) λ _ w2. Safe-boot w2,
        )
