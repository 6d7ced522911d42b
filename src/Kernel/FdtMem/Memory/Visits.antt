-- ===== src/Kernel/FdtMem/Memory/Visits.antt =====
-- Which nodes the loop of `fdt_boot_mem_init` comes to.
use mathlib.Core.Path.{fun_ext}
use riscy_os.Prelude.{
  ◌+◌, ◌^◌, ℕ, zero, suc, ◌<◌, ◌≡◌, ◌≢◌, refl, Bool, List, [], ◌∷◌, inl, inr, Ptr, null, length,
  arith, ap, Run, ok, ne→==,
}
use riscy_os.Kernel.Endian.{Machine}
use riscy_os.Libc.Printf.{ptr}
use riscy_os.Libc.Text.{strlen}
use riscy_os.Libc.Text.Laws.{Holds, strlen_lem}
use riscy_os.Kernel.Printk.{codes}
use riscy_os.Kernel.Fdt.Token.{struct_start}
use riscy_os.Kernel.Fdt.Token.Progress.{InBlock, IsBlob}
use riscy_os.Kernel.Fdt.Token.Trace.{Item, Trace, Trace-start}
use riscy_os.Kernel.Fdt.Search.{Literals, device_type_is, fdt_find_node_by_device_type}
use riscy_os.Kernel.Fdt.Search.First.{nodes, length-nodes, Ahead, searches-first_of}
use riscy_os.Kernel.Fdt.Search.Every.{
  Passing, length-Passing, first_of-none, first_of-Onward, Trace-Passing,
}
use riscy_os.Kernel.Fdt.Search.DeviceType.{device_type_is-Returns}
use riscy_os.Kernel.Fdt.Register.{fdt_node_num_register_blocks}
use riscy_os.Kernel.FdtMem.Memory.{Totals, blocks_loop, nodes_loop, fdt_boot_mem_init}
use riscy_os.Kernel.World.{Prog, pure, ◌>>=◌, ◌>>◌, lift, printk}

-- The first of the addresses, or NULL.
abbrev head : List Ptr → Ptr
head [] = null
head (q ∷ qs) = q

module _ (lits : Literals) (m : Machine) (fuel depth : ℕ) (fdt kernel_end memory : Ptr) where
  -- The loop over the register blocks, at each node in turn.
  unfoldable pub visit_all : List Ptr → Totals → Prog Totals
  visit_all [] t = pure t
  visit_all (node ∷ later) t = do
    num_register_blocks ← lift (fdt_node_num_register_blocks lits m fuel fdt node)
    t' ← blocks_loop lits m fuel depth fdt kernel_end memory num_register_blocks 0 node t
    visit_all later t'

  module _ (len : ℕ) (measured : strlen m fuel memory ≡ ok len) where
    -- The test of the search for memory.
    abbrev is_memory : Ptr → Run Bool
    is_memory = device_type_is lits m fuel fdt memory len

    -- A search gives the first of the nodes that pass.
    found-head :
        (start token : Ptr) (items : List Item) (qs : List Ptr)
        → Ahead m fuel fdt start items
        → Trace m fuel fdt token items
        → Passing is_memory (nodes items) qs
        → fdt_find_node_by_device_type lits m fuel fdt start memory ≡ ok (head qs)
    found-head start token items [] ahead trace passing =
        rw ((searches-first_of lits m fuel fdt start items memory ahead).2, measured)
          (first_of-none m fuel fdt is_memory (nodes items) passing)
    found-head start token items (q ∷ qs) ahead trace passing =
        rw ((searches-first_of lits m fuel fdt start items memory ahead).2, measured)
          (first_of-Onward m fuel fdt is_memory token items q qs ahead.0 trace passing).1

    nodes_loop-visit_all :
        (rounds : ℕ) (token : Ptr) (items : List Item) (qs : List Ptr) (t : Totals)
        → length qs < rounds
        → length items < fuel
        → Trace m fuel fdt token items
        → Passing is_memory (nodes items) qs
        → nodes_loop lits m fuel depth fdt kernel_end memory rounds (head qs) t ≡ visit_all qs t
    unfolding nodes_loop visit_all ◌>>=◌ lift
    nodes_loop-visit_all zero token items qs t h short trace passing = absurd (omega (arith, h))
    nodes_loop-visit_all (suc rounds) token items [] t h short trace passing = refl
    nodes_loop-visit_all (suc rounds) token items (q ∷ qs) t h short trace passing =
        let (later, found, ne, (fits, (next, run, behind)), rest) =
          first_of-Onward m fuel fdt is_memory token items q qs short trace passing in
        let search : fdt_find_node_by_device_type lits m fuel fdt q memory ≡ ok (head qs) =
          found-head q next later qs (fits, inr (ne, (fits, (next, run, behind)))) behind rest in
        let same : (λ t'. nodes_loop lits m fuel depth fdt kernel_end memory rounds (head qs) t')
            ≡ (λ t'. visit_all qs t') =
          fun_ext λ t'.
            nodes_loop-visit_all rounds next later qs t' (omega (arith, h)) fits behind rest in
        rw (ne→== q 0 ne, search)
          (ap
            (λ k. lift (fdt_node_num_register_blocks lits m fuel fdt q) >>= λ n.
              blocks_loop lits m fuel depth fdt kernel_end memory n 0 q t >>= k)
            same)

-- The lines that are printed behind the loop.
unfoldable pub report : Totals → Prog (Unit {0})
report t = do
  printk (codes "[FDT] Freed Memory Regions:\n") []
  printk (codes "[FDT] \tTotal Memory = (%p bytes)\n") (ptr t.seen ∷ [])
  printk (codes "[FDT] \tFreed Memory = (%p bytes)\n") (ptr t.freed ∷ [])

-- From totals of 0 on.
unfoldable pub visit_and_report :
    Literals → Machine → ℕ → ℕ → Ptr → Ptr → Ptr → List Ptr → Prog (Unit {0})
visit_and_report lits m fuel depth fdt kernel_end memory nodes =
    visit_all lits m fuel depth fdt kernel_end memory nodes (record { seen = 0; freed = 0 })
    >>= report

-- The loop for a list of tokens and the nodes among them that pass.
pub fdt_boot_mem_init-Passing :
    (lits : Literals) (m : Machine) (fuel depth fdt kernel_end memory len : ℕ)
    → strlen m fuel memory ≡ ok len
    → (items : List Item) (found : List Ptr) → length items < fuel
    → Trace m fuel fdt (struct_start m fdt) items
    → Passing (device_type_is lits m fuel fdt memory len) (nodes items) found
    → fdt_boot_mem_init lits m fuel depth fdt kernel_end memory
      ≡ visit_and_report lits m fuel depth fdt kernel_end memory found
unfolding fdt_boot_mem_init lift ◌>>=◌ report visit_and_report
fdt_boot_mem_init-Passing lits m fuel depth fdt kernel_end memory len measured items found short
      trace passing =
    let first =
      found-head lits m fuel depth fdt kernel_end memory len measured null (struct_start m fdt)
        items found (short, inl (refl, trace)) trace passing in
    let fewer = length-Passing passing in
    rw first (
      ap (λ c. c >>= report)
        (nodes_loop-visit_all lits m fuel depth fdt kernel_end memory len measured fuel
          (struct_start m fdt) items found (record { seen = 0; freed = 0 })
          (omega (arith, fewer, length-nodes items, short)) short trace passing))

-- In a tree with enough fuel whose structure block is not empty, if the literals for the name of the
-- property `device_type` and for the type are in memory, not NULL, and shorter than the fuel, and the
-- type does not wrap: `fdt_boot_mem_init` does what the loop over the register blocks does at exactly
-- those nodes of the tree whose device type is that type, at each once and in the order of the tree,
-- and then reports the totals.
fdt_boot_mem_init-visit_all :
    (lits : Literals) (m : Machine) (fuel depth fdt kernel_end memory top : ℕ)
    → IsBlob m fuel fdt top
    → InBlock m fdt (struct_start m fdt)
    → (property type_name : List ℕ) → lits.device_type ≢ null
    → Holds m lits.device_type property
    → length property < fuel
    → memory ≢ null
    → memory + length type_name < 2 ^ 64
    → Holds m memory type_name
    → length type_name < fuel
    → (items : List Item) × Trace m fuel fdt (struct_start m fdt) items
      × ((memory_nodes : List Ptr) × Passing
            (device_type_is lits m fuel fdt memory (length type_name))
            (nodes items)
            memory_nodes
          × (fdt_boot_mem_init lits m fuel depth fdt kernel_end memory
              ≡ visit_and_report lits m fuel depth fdt kernel_end memory memory_nodes))
fdt_boot_mem_init-visit_all lits m fuel depth fdt kernel_end memory top blob inside property
      type_name some_property named short_property some_memory fits typed short_type =
    let (items, short, trace) = Trace-start m fuel fdt top blob inside in
    let measured : strlen m fuel memory ≡ ok (length type_name) =
      strlen_lem m fuel memory type_name some_memory fits short_type typed in
    let (found, passing, fewer) =
      Trace-Passing m fuel fdt (device_type_is lits m fuel fdt memory (length type_name)) top blob
        (device_type_is-Returns lits m fuel fdt top blob property some_property named short_property
          memory (length type_name) some_memory)
        (struct_start m fdt) items (inr inside) trace in
    (
      items,
      trace,
      (
        found,
        passing,
        fdt_boot_mem_init-Passing lits m fuel depth fdt kernel_end memory (length type_name)
            measured items found short trace passing,
      ),
    )
