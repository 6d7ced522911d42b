-- ===== src/Arch/Start.antt =====
-- `kmain` of arch/riscv/kernel.c and arch/arm64/kernel.c, and what is called only there.
-- The constructors and destructors that the linker gathers are lists of programs.
pub mod Quiet
pub mod Safe
pub mod Invalid
use riscy_os.Prelude.{
  ℕ, zero, suc, ◌+◌, ◌%◌, Bool, true, false, not, List, [], ◌∷◌, Ptr, null, ◌==◌, if◌then◌else◌,
  Run, ok, no_return, undefined,
}
use riscy_os.Prelude.Int.{ℤ, pos, negsuc, ltb_ℤ}
use riscy_os.Libc.Printf.{int, str, ptr}
use riscy_os.Kernel.Error.{KError, success}
use riscy_os.Kernel.Printk.{codes}
use riscy_os.Kernel.Endian.{Machine}
use riscy_os.Kernel.EarlyOutput.{Outcome, returns, out_of_bounds, register_early_putchar}
use riscy_os.Kernel.Fdt.Header.{FdtError, valid, bad_magic, incompatible, fdt_verify}
use riscy_os.Kernel.Fdt.Node.{fdt_node_begin, fdt_next_node}
use riscy_os.Kernel.Fdt.Search.{Literals, fdt_node_name}
use riscy_os.Kernel.BootMem.FreeList.{boot_alloc}
use riscy_os.Kernel.BootMem.Dump.{boot_mem_dump}
use riscy_os.Kernel.FdtMem.Memory.{fdt_boot_mem_init}
use riscy_os.Drivers.Syscon.{Action, Names, Init, syscon_init_generic_action}
use riscy_os.Kernel.World.{
  World, End, done, stuck, crashed, Prog, pure, stops, ◌>>=◌, ◌>>◌, lift, on_store, printk, abort,
  text_at,
}
use riscy_os.Arch.Console.{main_loop}

-- The addresses of the literals that the start passes on, of `__kernel_end` and of
-- `dead_simple_uart_putchar`, what the syscon's registers hold, and the three arrays of functions.
pub record Board : Type 0 where
  pub lits : Literals
  pub names : Names
  pub memory : Ptr
  pub poweroff : Ptr
  pub reboot : Ptr
  pub kernel_end : Ptr
  pub putchar : Ptr
  pub reg_value : Ptr → ℕ
  pub preinit_array : List (Prog (Unit {0}))
  pub init_array : List (Prog (Unit {0}))
  pub fini_array : List (Prog (Unit {0}))

pub process_func_array : List (Prog (Unit {0})) → Prog (Unit {0})
process_func_array [] = pure tt
process_func_array (func ∷ funcs) = func >> process_func_array funcs

-- The constructor and the destructor that the file itself adds to the arrays.
unfoldable pub foo : Prog (Unit {0})
foo = printk (codes "Hello from a global constructor!\n") []

unfoldable pub bar : Prog (Unit {0})
bar = printk (codes "Hello from a global destructor!\n") []

abbrev registered : World → Outcome → End (Unit {0})
registered w (returns code array) = done tt (record w { array = array })
registered w (out_of_bounds i) = crashed

-- The code that `register_early_putchar` returns is not looked at.
unfoldable pub register : Ptr → Prog (Unit {0})
register putchar w = registered w (register_early_putchar putchar w.array)

-- The loop that indents a node.
pub tabs : ℕ → Prog (Unit {0})
tabs zero = pure tt
tabs (suc n) = printk (codes "\t") [] >> tabs n

abbrev pub indent : ℤ → Prog (Unit {0})
indent (pos n) = tabs n
indent (negsuc n) = tabs 0

abbrev pub is_valid : FdtError → Bool
is_valid valid = true
is_valid bad_magic = false
is_valid incompatible = false

-- `if (err)`: the message, and the flag.
unfoldable pub report : List ℕ → KError → Prog Bool
report message success = pure true
report message _ = printk message [] >> pure false

abbrev pub preinit : Board → Prog (Unit {0})
preinit b = process_func_array b.preinit_array

abbrev pub init : Board → Prog (Unit {0})
init b = process_func_array b.init_array

abbrev pub fini : Board → Prog (Unit {0})
fini b = process_func_array b.fini_array

-- The global constructors.
unfoldable pub construct : Board → Prog (Unit {0})
construct b = preinit b >> init b

module _ (b : Board) (m : Machine) (fuel : ℕ) (fdt : Ptr) where
  pub dump_loop : ℕ → Ptr → ℤ → Prog (Unit {0})
  dump_loop zero node depth = stops
  dump_loop (suc rounds) node depth =
      let rest = dump_loop rounds in
      if node == null then pure tt else if ltb_ℤ depth (pos 0) then pure tt else do
        indent depth
        name ← lift (text_at m fuel (fdt_node_name b.lits m node))
        printk (codes "%s\n") (str name ∷ [])
        next ← lift (fdt_next_node m fuel fdt node depth)
        rest next.0 next.1

  unfoldable pub fdt_dump : Prog (Unit {0})
  fdt_dump = do
    node ← lift (fdt_node_begin m fuel fdt)
    printk (codes "FDT = (%p) {\n") (ptr fdt ∷ [])
    dump_loop fuel node (pos 0)
    printk (codes "}\n") []

  abbrev pub rebooting : World → Run Init → End KError
  rebooting w (ok (code, a)) = done code (record w { reboot = a })
  rebooting w no_return = stuck
  rebooting w undefined = crashed

  unfoldable pub syscon_reboot_init : Prog KError
  syscon_reboot_init w =
      rebooting w (syscon_init_generic_action b.lits b.names m fuel fdt w.reboot b.reboot)

  abbrev pub powering_off : World → Run Init → End KError
  powering_off w (ok (code, a)) = done code (record w { shutdown = a })
  powering_off w no_return = stuck
  powering_off w undefined = crashed

  unfoldable pub syscon_shutdown_init : Prog KError
  syscon_shutdown_init w =
      powering_off w (syscon_init_generic_action b.lits b.names m fuel fdt w.shutdown b.poweroff)

  -- Up to the test of the boot memory allocator. `depth` bounds how often a region is split.
  unfoldable pub set_up_memory : ℕ → Prog (Unit {0})
  set_up_memory depth = do
    fdt_dump
    fdt_boot_mem_init b.lits m fuel depth fdt b.kernel_end b.memory
    boot_mem_dump fuel
    alloc ← on_store (boot_alloc fuel 0x1000 4)
    printk (codes "alloc = %p\n") (ptr alloc ∷ [])
    boot_mem_dump fuel

  -- From the syscon on. `rounds` bounds the rounds of the loop over the UART.
  unfoldable pub run : ℕ → Prog (Unit {0})
  run rounds = do
    reboot_err ← syscon_reboot_init
    syscon_reboot_ok ← report (codes "Error setting up syscon reboot\n") reboot_err
    shutdown_err ← syscon_shutdown_init
    syscon_shutdown_ok ← report (codes "Error setting up syscon shutdown\n") shutdown_err
    construct b
    main_loop b.reg_value rounds syscon_reboot_ok syscon_shutdown_ok
    fini b

  unfoldable pub check_fdt : Prog (Unit {0})
  check_fdt =
      if is_valid (fdt_verify m fdt)
      then pure tt
      else (printk (codes "Cannot Read the FDT!\n") [] >> abort)

  unfoldable pub boot : ℕ → ℕ → Prog (Unit {0})
  boot depth rounds = check_fdt >> (set_up_memory depth >> run rounds)

  -- `kmain` of arch/arm64/kernel.c.
  unfoldable pub kmain_arm64 : ℕ → ℕ → Prog (Unit {0})
  kmain_arm64 depth rounds = register b.putchar >> boot depth rounds

  -- `kmain` of arch/riscv/kernel.c.
  unfoldable pub kmain_riscv : ℕ → ℕ → ℕ → Prog (Unit {0})
  kmain_riscv depth rounds hartid = do
    register b.putchar
    printk (codes "Running on hart (%c)\n") (int (hartid % 256 + b'0') ∷ [])
    boot depth rounds
