-- ===== src/Kernel/BootMem/Dump.antt =====
-- `boot_mem_dump` of kernel/mem/boot/free_list.c. `rounds` bounds the length of the list.
use riscy_os.Prelude.{ℕ, Bool, zero, suc, [], ◌∷◌, Ptr, null, ◌==◌, if◌then◌else◌, add64}
use riscy_os.Libc.Printf.{ptr}
use riscy_os.Kernel.Printk.{codes}
use riscy_os.Kernel.BootMem.FreeList.{load, boot_free_list_begin, boot_free_list_next}
use riscy_os.Kernel.World.{Prog, pure, stops, ◌>>=◌, ◌>>◌, on_store, printk}
use riscy_os.Kernel.World.Safe.{Quiet, quiet}

pub dump_loop : ℕ → Ptr → Prog (Unit {0})
dump_loop zero curr = stops
dump_loop (suc rounds) curr =
    let rest = dump_loop rounds in
    if curr == null then pure tt else do
      r ← on_store (load curr)
      printk (codes "[%p - %p] size = (%p bytes)\n")
          (ptr curr ∷ ptr (add64 curr r.size) ∷ ptr r.size ∷ [])
      next ← on_store (boot_free_list_next curr)
      rest next

unfoldable pub boot_mem_dump : ℕ → Prog (Unit {0})
boot_mem_dump rounds = do
  printk (codes "--- BOOT ALLOC FREE REGIONS ---\n") []
  head ← on_store boot_free_list_begin
  dump_loop rounds head
  printk (codes "-------------------------------\n") []

module _ (reg_value : Ptr → ℕ) (reboot_ok shutdown_ok : Bool) where
  pub Quiet-dump_loop :
      (rounds : ℕ) (curr : Ptr) → Quiet reg_value reboot_ok shutdown_ok (dump_loop rounds curr)
  unfolding dump_loop
  Quiet-dump_loop zero curr = search (quiet)
  Quiet-dump_loop (suc rounds) curr = search (quiet, Quiet-dump_loop rounds)

  pub Quiet-boot_mem_dump :
      (rounds : ℕ) → Quiet reg_value reboot_ok shutdown_ok (boot_mem_dump rounds)
  unfolding boot_mem_dump
  Quiet-boot_mem_dump rounds = search (quiet, Quiet-dump_loop)
