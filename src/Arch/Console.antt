-- ===== src/Arch/Console.antt =====
-- The loop at the end of `kmain` in arch/riscv/kernel.c and arch/arm64/kernel.c, and what it calls:
-- `syscon_reboot` and `syscon_shutdown` of drivers/syscon/syscon.c.
-- Every `*UART` is one read; a read behind the end of the input waits. `reg_value` gives what the
-- syscon's registers hold.
pub mod Safe
pub mod Echo
pub mod Answer
pub mod Typed
use riscy_os.Prelude.{
  ℕ, zero, suc, Bool, true, false, List, [], ◌∷◌, Ptr, ◌==◌, if◌then◌else◌, Run, ok, no_return,
  undefined,
}
use riscy_os.Libc.Printf.{int}
use riscy_os.Kernel.Printk.{codes}
use riscy_os.Drivers.Syscon.{Action, syscon_write}
use riscy_os.Kernel.World.{
  World, End, done, resets, waits, stuck, crashed, Prog, pure, stops, ◌>>=◌, ◌>>◌, printk, abort,
  assert_fails,
}

abbrev pub read_from : List ℕ → World → End ℕ
read_from [] w = waits w
read_from (c ∷ input) w = done c (record w { input = input })

unfoldable pub read_uart : Prog ℕ
read_uart w = read_from w.input w

-- `while (old_uart == *UART);` on the reads that are left.
abbrev pub skip_reads : ℕ → List ℕ → World → End (Unit {0})
skip_reads old [] w = waits (record w { input = [] })
skip_reads old (c ∷ input) w =
    if old == c then skip_reads old input w else done tt (record w { input = input })

unfoldable pub wait_change : ℕ → Prog (Unit {0})
wait_change old w = skip_reads old w.input w

-- The assertion that the action is found, and then the write, behind which nothing is reached.
abbrev pub after_write : Run (Ptr × ℕ) → Prog (Unit {0})
after_write (ok (p, v)) w = resets p v w
after_write no_return w = assert_fails w
after_write undefined w = crashed

unfoldable pub syscon_reboot : (Ptr → ℕ) → Prog (Unit {0})
syscon_reboot reg_value w = after_write (syscon_write w.reboot (reg_value w.reboot.reg)) w

unfoldable pub syscon_shutdown : (Ptr → ℕ) → Prog (Unit {0})
syscon_shutdown reg_value w = after_write (syscon_write w.shutdown (reg_value w.shutdown.reg)) w

-- `if (ok && *UART == key) action();`
unfoldable pub on_key : Bool → ℕ → Prog (Unit {0}) → Prog (Unit {0})
on_key false key action = pure tt
on_key true key action = read_uart >>= λ c. if c == key then action else pure tt

-- What follows the test for '%'.
unfoldable pub after_percent : (Ptr → ℕ) → Bool → Bool → Prog (Unit {0})
after_percent reg_value syscon_reboot_ok syscon_shutdown_ok = do
  on_key true b'!' abort
  on_key syscon_reboot_ok b'^' (syscon_reboot reg_value)
  on_key syscon_shutdown_ok b'&' (syscon_shutdown reg_value)
  old_uart ← read_uart
  wait_change old_uart

-- `rounds` bounds the rounds of the loop; every round reads.
unfoldable pub main_loop : (Ptr → ℕ) → ℕ → Bool → Bool → Prog (Unit {0})
main_loop reg_value zero syscon_reboot_ok syscon_shutdown_ok = stops
main_loop reg_value (suc rounds) syscon_reboot_ok syscon_shutdown_ok =
    let rest = main_loop reg_value rounds syscon_reboot_ok syscon_shutdown_ok in
    read_uart >>= λ shown.
    printk (codes "%c") (int shown ∷ [])
    >> (read_uart >>= λ c.
        if c == b'%'
        then pure tt
        else after_percent reg_value syscon_reboot_ok syscon_shutdown_ok >> rest)
