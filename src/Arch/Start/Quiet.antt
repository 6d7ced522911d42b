-- ===== src/Arch/Start/Quiet.antt =====
-- The parts of `kmain` other than the set-up of the actions.
use riscy_os.Prelude.{ℕ, zero, suc, refl, Bool, List, [], ◌∷◌, Ptr}
use riscy_os.Prelude.Int.{ℤ, pos, negsuc}
use riscy_os.Kernel.Endian.{Machine}
use riscy_os.Kernel.EarlyOutput.{Outcome, returns, out_of_bounds, register_early_putchar}
use riscy_os.Kernel.BootMem.Dump.{Quiet-boot_mem_dump}
use riscy_os.Kernel.FdtMem.Memory.{Quiet-fdt_boot_mem_init}
use riscy_os.Kernel.World.{◌>>◌, World, Prog}
use riscy_os.Kernel.World.Safe.{SameActions, Safe, Quiet, Quiet-then, Quiet-printk, quiet}
use riscy_os.Arch.Console.{main_loop}
use riscy_os.Arch.Console.Safe.{Quiet-main_loop}
use riscy_os.Arch.Start.{
  foo, bar, construct, Board, process_func_array, registered, register, tabs, indent, dump_loop,
  fdt_dump, set_up_memory, construct, check_fdt,
}

-- The functions of an array are safe and keep the actions.
abbrev pub QuietAll : (Ptr → ℕ) → List (Prog (Unit {0})) → Type 0
QuietAll reg_value [] = Unit {0}
QuietAll reg_value (func ∷ funcs) =
    ((reboot_ok shutdown_ok : Bool) → Quiet reg_value reboot_ok shutdown_ok func)
    × QuietAll reg_value funcs

pub Quiet-foo :
    (reg_value : Ptr → ℕ) (reboot_ok shutdown_ok : Bool) → Quiet reg_value reboot_ok shutdown_ok foo
unfolding foo
Quiet-foo reg_value reboot_ok shutdown_ok = Quiet-printk reg_value reboot_ok shutdown_ok _ []

pub Quiet-bar :
    (reg_value : Ptr → ℕ) (reboot_ok shutdown_ok : Bool) → Quiet reg_value reboot_ok shutdown_ok bar
unfolding bar
Quiet-bar reg_value reboot_ok shutdown_ok = Quiet-printk reg_value reboot_ok shutdown_ok _ []

module _ (b : Board) (m : Machine) (fuel : ℕ) (fdt : Ptr) (r s : Bool) where
  abbrev Fine : {A : Type 0} → Prog A → Type 0
  Fine p = Quiet b.reg_value r s p

  Quiet-process_func_array :
      (funcs : List (Prog (Unit {0})))
      → QuietAll b.reg_value funcs
      → Fine (process_func_array funcs)
  unfolding process_func_array
  Quiet-process_func_array [] h = search (quiet)
  Quiet-process_func_array (func ∷ funcs) h =
      search (quiet, h.0 r s, Quiet-process_func_array funcs h.1)

  pub Quiet-register : (putchar : Ptr) → Fine (register putchar)
  unfolding register
  Quiet-register putchar = record {
    safe = λ w _. Safe-registered w (register_early_putchar putchar w.array);
  }
    where
      Safe-registered :
          (w : World) (o : Outcome) → Safe b.reg_value (λ _ w'. SameActions w w') (registered w o)
      Safe-registered w (returns code array) = (refl, refl)
      Safe-registered w (out_of_bounds i) = tt

  Quiet-tabs : (n : ℕ) → Fine (tabs n)
  unfolding tabs
  Quiet-tabs zero = search (quiet)
  Quiet-tabs (suc n) = Quiet-then _ _ _ _ _ (Quiet-printk _ _ _ _ _) (Quiet-tabs n)

  Quiet-indent : (depth : ℤ) → Fine (indent depth)
  Quiet-indent (pos n) = Quiet-tabs n
  Quiet-indent (negsuc n) = Quiet-tabs 0

  Quiet-dump_loop :
      (rounds : ℕ) (node : Ptr) (depth : ℤ) → Fine (dump_loop b m fuel fdt rounds node depth)
  unfolding dump_loop
  Quiet-dump_loop zero node depth = search (quiet)
  Quiet-dump_loop (suc rounds) node depth =
      search (quiet, Quiet-indent, Quiet-dump_loop rounds) depth 16

  Quiet-fdt_dump : Fine (fdt_dump b m fuel fdt)
  unfolding fdt_dump
  Quiet-fdt_dump = search (quiet, Quiet-dump_loop)

  pub Quiet-set_up_memory : (depth : ℕ) → Fine (set_up_memory b m fuel fdt depth)
  unfolding set_up_memory
  Quiet-set_up_memory depth =
      search (quiet, Quiet-fdt_dump, Quiet-boot_mem_dump, Quiet-fdt_boot_mem_init) depth 16

  pub Quiet-check_fdt : Fine (check_fdt b m fuel fdt)
  unfolding check_fdt
  Quiet-check_fdt = search (quiet)

  Quiet-construct :
      QuietAll b.reg_value b.preinit_array → QuietAll b.reg_value b.init_array → Fine (construct b)
  unfolding construct
  Quiet-construct h k =
      search
        (quiet, Quiet-process_func_array b.preinit_array h, Quiet-process_func_array b.init_array k)

  pub Quiet-end :
      (rounds : ℕ)
      → QuietAll b.reg_value b.preinit_array
      → QuietAll b.reg_value b.init_array
      → QuietAll b.reg_value b.fini_array
      → Fine (construct b >> (main_loop b.reg_value rounds r s >> process_func_array b.fini_array))
  Quiet-end rounds h k l = Quiet-then _ _ _ _ _ (Quiet-construct h k) (
      Quiet-then _ _ _ _ _ (Quiet-main_loop b.reg_value r s rounds)
        (Quiet-process_func_array b.fini_array l))
