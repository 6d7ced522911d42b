-- ===== src/Kernel/FdtMem/Memory.antt =====
-- `fdt_boot_mem_init` of kernel/of/fdt_mem.c.
-- `memory` is the address of the literal "memory". `depth` bounds how often a region is split.
pub mod Visits
pub mod Printed
pub mod Rounds
pub mod OneBlock
use riscy_os.Prelude.{ℕ, Bool, zero, suc, ◌+◌, ◌%◌, [], ◌∷◌, Ptr, null, ◌==◌, if◌then◌else◌, add64}
use riscy_os.Libc.Printf.{int, str, ptr}
use riscy_os.Kernel.Printk.{codes}
use riscy_os.Kernel.Endian.{Machine}
use riscy_os.Kernel.Fdt.Search.{Literals, fdt_node_name, fdt_find_node_by_device_type}
use riscy_os.Kernel.Fdt.Register.{fdt_node_num_register_blocks, fdt_node_get_register_block}
use riscy_os.Kernel.FdtMem.Init.{try_boot_free_region}
use riscy_os.Kernel.World.{Prog, pure, stops, ◌>>=◌, ◌>>◌, lift, on_store, printk, text_at}
use riscy_os.Kernel.World.Safe.{Quiet, quiet}

-- The totals: the bytes seen and the bytes freed.
pub record Totals : Type 0 where
  pub seen : ℕ
  pub freed : ℕ

module _ (lits : Literals) (m : Machine) (fuel depth : ℕ) (fdt kernel_end memory : Ptr) where
  -- The body of the loop over the register blocks of a node: every round reads block 0.
  unfoldable pub free_block : ℕ → Ptr → Totals → Prog Totals
  free_block i mem_node t = do
    (address, size) ← lift (fdt_node_get_register_block lits m fuel fdt mem_node 0)
    name ← lift (text_at m fuel (fdt_node_name lits m mem_node))
    printk (codes "memory_node: (%s)[%c] {addr = %p, size = %p}\n")
        (str name ∷ int (b'0' + i % 256) ∷ ptr address ∷ ptr size ∷ [])
    freed ← on_store (try_boot_free_region depth m fuel fdt kernel_end address size)
    pure (record { seen = add64 t.seen size; freed = add64 t.freed freed })

  -- `left` rounds are left from `i` on.
  unfoldable pub blocks_loop : ℕ → ℕ → Ptr → Totals → Prog Totals
  blocks_loop zero i mem_node t = pure t
  blocks_loop (suc left) i mem_node t =
      free_block i mem_node t >>= λ t'. blocks_loop left (i + 1) mem_node t'

  unfoldable pub nodes_loop : ℕ → Ptr → Totals → Prog Totals
  nodes_loop zero mem_node t = stops
  nodes_loop (suc rounds) mem_node t =
      let rest = nodes_loop rounds in
      if mem_node == null then pure t else do
        num_register_blocks ← lift (fdt_node_num_register_blocks lits m fuel fdt mem_node)
        t' ← blocks_loop num_register_blocks 0 mem_node t
        next ← lift (fdt_find_node_by_device_type lits m fuel fdt mem_node memory)
        rest next t'

  unfoldable pub fdt_boot_mem_init : Prog (Unit {0})
  fdt_boot_mem_init = do
    mem_node ← lift (fdt_find_node_by_device_type lits m fuel fdt null memory)
    t ← nodes_loop fuel mem_node (record { seen = 0; freed = 0 })
    printk (codes "[FDT] Freed Memory Regions:\n") []
    printk (codes "[FDT] \tTotal Memory = (%p bytes)\n") (ptr t.seen ∷ [])
    printk (codes "[FDT] \tFreed Memory = (%p bytes)\n") (ptr t.freed ∷ [])

  module _ (reg_value : Ptr → ℕ) (reboot_ok shutdown_ok : Bool) where
    Quiet-free_block :
        (i : ℕ) (mem_node : Ptr) (t : Totals)
        → Quiet reg_value reboot_ok shutdown_ok (free_block i mem_node t)
    unfolding free_block
    Quiet-free_block i mem_node t = search (quiet)

    Quiet-blocks_loop :
        (left i : ℕ) (mem_node : Ptr) (t : Totals)
        → Quiet reg_value reboot_ok shutdown_ok (blocks_loop left i mem_node t)
    unfolding blocks_loop
    Quiet-blocks_loop zero i mem_node t = search (quiet)
    Quiet-blocks_loop (suc left) i mem_node t =
        search (quiet, Quiet-free_block, Quiet-blocks_loop left)

    Quiet-nodes_loop :
        (rounds : ℕ) (mem_node : Ptr) (t : Totals)
        → Quiet reg_value reboot_ok shutdown_ok (nodes_loop rounds mem_node t)
    unfolding nodes_loop
    Quiet-nodes_loop zero mem_node t = search (quiet)
    Quiet-nodes_loop (suc rounds) mem_node t =
        search (quiet, Quiet-blocks_loop, Quiet-nodes_loop rounds)

    pub Quiet-fdt_boot_mem_init : Quiet reg_value reboot_ok shutdown_ok fdt_boot_mem_init
    unfolding fdt_boot_mem_init
    Quiet-fdt_boot_mem_init = search (quiet, Quiet-nodes_loop)
