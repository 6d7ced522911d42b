-- ===== src/Kernel/FdtMem/Memory/OneBlock.antt =====
-- `fdt_boot_mem_init` on a tree with one block of memory, from the tree to the free list.
use riscy_os.Kernel.BootMem.FreeList.Ordered.{InList}
use riscy_os.Kernel.BootMem.FreeList.Allocate.{Calls, Disjoint}
use mathlib.Core.List.{append_assoc}
use mathlib.Core.Path.{subst}
use riscy_os.Kernel.FdtMem.Init.Handover.{IsUsable}
use riscy_os.Kernel.FdtMem.Trim.Coverage.{Within}
use riscy_os.Prelude.{
  arith, ◌↔◌, ◌∙◌, ap, ℕ, suc, ◌+◌, ◌%◌, ◌<◌, ◌≡◌, refl, ◌≢◌, List, [], ◌∷◌, ◌++◌, Ptr, null,
  length, ok, add64,
}
use riscy_os.Kernel.Endian.{Machine}
use riscy_os.Libc.Text.{strlen}
use riscy_os.Libc.Printf.{int, str, ptr}
use riscy_os.Libc.Printf.Description.{HasNoNul}
use riscy_os.Kernel.EarlyOutput.Register.{count}
use riscy_os.Kernel.EarlyOutput.Output.{heard, heard-append}
use riscy_os.Kernel.Fdt.Token.{struct_start}
use riscy_os.Kernel.Fdt.Token.Trace.{Item, Trace}
use riscy_os.Kernel.Fdt.Search.{Literals, device_type_is, fdt_node_name}
use riscy_os.Kernel.Fdt.Search.First.{nodes}
use riscy_os.Kernel.Fdt.Search.Every.{Passing}
use riscy_os.Kernel.Fdt.Register.{fdt_node_num_register_blocks, fdt_node_get_register_block}
use riscy_os.Kernel.BootMem.FreeList.{Store}
use riscy_os.Kernel.FdtMem.Init.Ready.{
  LeavesOne, LeavesOne-parts, Ready, Ready-blocks, try_boot_free_region-Ready,
}
use riscy_os.Kernel.FdtMem.Memory.{Totals, free_block, blocks_loop, fdt_boot_mem_init}
use riscy_os.Kernel.FdtMem.Init.{try_boot_free_region}
use riscy_os.Kernel.FdtMem.Memory.Visits.{visit_all, visit_and_report, fdt_boot_mem_init-Passing}
use riscy_os.Kernel.World.{World, done, pure, ◌>>=◌, ◌>>◌, lift, on_store, text_at}
use riscy_os.Kernel.World.Says.{printk-Ends}
use riscy_os.Kernel.FdtMem.Memory.Printed.{block_line, block_described, report_text, report-Ends}

module _ (lits : Literals) (m : Machine)
    (fuel depth fdt kernel_end memory node p n address size : ℕ) (name : List ℕ) where
  -- The tree has one node for memory, with one register block and a name.
  pub record HasOneBlock : Type 0 where
    pub len : ℕ
    pub measured : strlen m fuel memory ≡ ok len
    pub items : List Item
    pub short : length items < fuel
    pub trace : Trace m fuel fdt (struct_start m fdt) items
    pub only : Passing (device_type_is lits m fuel fdt memory len) (nodes items) (node ∷ [])
    pub one_block : fdt_node_num_register_blocks lits m fuel fdt node ≡ ok 1
    pub block : fdt_node_get_register_block lits m fuel fdt node 0 ≡ ok (address, size)
    pub named : text_at m fuel (fdt_node_name lits m node) ≡ ok name
    pub text : HasNoNul name

  module _ (tree : HasOneBlock) (leaves : LeavesOne m fuel fdt kernel_end address size p n)
      (putchar : Ptr) (ne : putchar ≢ null) where
    -- The state with another store and more calls.
    abbrev pub with_store : World → Store → List (ℕ × ℕ) → World
    with_store w t calls = record w { store = t; output = w.output ++ calls }

    free_block-run :
        (w : World) (t : Totals) (freed : ℕ) (s : Store)
        → count putchar w.array ≡ 1
        → try_boot_free_region (suc depth) m fuel fdt kernel_end address size w.store
          ≡ ok (freed, s)
        → (calls : List (ℕ × ℕ)) × (heard putchar calls ≡ block_line name address size)
          × (free_block lits m fuel (suc depth) fdt kernel_end memory 0 node t w
              ≡ done
                  (record { seen = add64 t.seen size; freed = add64 t.freed freed })
                  (with_store w s calls))
    unfolding free_block lift ◌>>=◌ ◌>>◌ on_store pure
    free_block-run w t freed s once run =
        let (calls, hears, printed) =
          printk-Ends putchar _ _ (str name ∷ int (b'0' + 0 % 256) ∷ ptr address ∷ ptr size ∷ []) _
            w ne once refl (tree.text, tt) (block_described name address size) in
        (calls, hears, rw (tree.block, tree.named, printed, run) refl)

    -- The loop and the report, for the totals as they are added up.
    visits-run :
        (w : World) (freed : ℕ) (s : Store)
        → count putchar w.array ≡ 1
        → add64 0 size ≡ size
        → add64 0 freed ≡ freed
        → try_boot_free_region (suc depth) m fuel fdt kernel_end address size w.store
          ≡ ok (freed, s)
        → (calls : List (ℕ × ℕ)) × (heard putchar calls
            ≡ block_line name address size ++ report_text size freed)
          × (visit_and_report lits m fuel (suc depth) fdt kernel_end memory (node ∷ []) w
              ≡ done tt (with_store w s calls))
    unfolding visit_and_report visit_all blocks_loop lift ◌>>=◌ ◌>>◌ pure
    visits-run w freed s once seen_all freed_all run =
        let (calls, hears, freed_block) =
          free_block-run w (record { seen = 0; freed = 0 }) freed s once run in
        let (later, hears', reported) =
          report-Ends putchar size freed (with_store w s calls) ne once in
        (
          calls ++ later,
          heard-append putchar calls later ∙ rw (hears, hears') refl,
          rw (tree.one_block, freed_block, seen_all, freed_all)
              (reported
                ∙ ap (λ o. done tt (record w { store = s; output = o }))
                    (append_assoc w.output calls later)),
        )

    -- On a tree whose one node for memory has a name and one register block, where that block ends
    -- below 2^63, the tree and the reserve entries do not wrap, the fuel suffices for the walks,
    -- and the kernel, which does not end at NULL, the reserve entries and the tree leave one region
    -- of the block; with a callback, not NULL, that stands once in the table, and an empty free
    -- list: `fdt_boot_mem_init` returns, with the block handed to `try_boot_free_region`, and the
    -- callback hears the line of the block and the totals. The free list then is the region that is
    -- left, which has exactly the usable bytes of the block; or that region is too small for its
    -- struct, and the list stays empty. Nothing else changes.
    pub fdt_boot_mem_init-Ready :
        (w : World)
        → count putchar w.array ≡ 1
        → w.store.head ≡ null
        → (freed : ℕ) × (t : Store) × (calls : List (ℕ × ℕ)) × (fdt_boot_mem_init lits m fuel
              (suc depth)
              fdt
              kernel_end
              memory
              w
            ≡ done tt (with_store w t calls))
          × (try_boot_free_region (suc depth) m fuel fdt kernel_end address size w.store
              ≡ ok (freed, t))
          × (heard putchar calls ≡ block_line name address size ++ report_text size freed)
          × Ready p n freed t
          × ((a : ℕ) → Within a p n ↔ (Within a address size × IsUsable m fuel fdt kernel_end a))
    fdt_boot_mem_init-Ready w once empty =
        let (freed, t, run, ready, exact) =
          try_boot_free_region-Ready m fuel fdt kernel_end address size p n leaves depth w.store
            empty in
        let sized = (LeavesOne-parts m fuel fdt kernel_end address size p n leaves).0 in
        let low = leaves.low in
        let total : add64 0 freed ≡ freed = ground (arith, sized) in
        let (calls, hears, visited) = visits-run w freed t once (omega (arith, low)) total run in
        (
          freed,
          t,
          calls,
          rw
              (fdt_boot_mem_init-Passing lits m fuel (suc depth) fdt kernel_end memory tree.len
                tree.measured tree.items (node ∷ []) tree.short tree.trace tree.only)
              visited,
          run,
          hears,
          ready,
          exact,
        )

    -- On a tree whose one node for memory has a name and one register block, where that block ends
    -- below 2^63, the tree and the reserve entries do not wrap, the fuel suffices for the walks,
    -- and the kernel, which does not end at NULL, the reserve entries and the tree leave one region
    -- of the block; with a callback, not NULL, that stands once in the table, and an empty free
    -- list, and more than one round: after `fdt_boot_mem_init` and any sequence of calls of
    -- `boot_alloc`, each with a size and a 2^alignment below 2^62, refused ones included, every byte of every block that was given is in the block
    -- of memory, at or above the end of the kernel, in no reserve entry and not in the tree, and no
    -- two blocks have a byte in common.
    pub fdt_boot_mem_init-blocks :
        (w w' : World) (rounds : ℕ) (blocks : List (Ptr × ℕ)) (u : Store)
        → count putchar w.array ≡ 1
        → w.store.head ≡ null
        → fdt_boot_mem_init lits m fuel (suc depth) fdt kernel_end memory w ≡ done tt w'
        → 1 < rounds
        → Calls rounds w'.store blocks u
        → ((a : ℕ) → InList a blocks → Within a address size × IsUsable m fuel fdt kernel_end a)
          × Disjoint blocks
    fdt_boot_mem_init-blocks w w' rounds blocks u once empty run enough calls =
        let (freed, t, printed, run', handed, hears, ready, exact) =
          fdt_boot_mem_init-Ready w once empty in
        let same : with_store w t printed ≡ w' = cc in
        let (within, apart) =
          Ready-blocks p n freed rounds w'.store u blocks
            (subst (λ x. Ready p n freed x) (ap World.store same) ready) enough calls in
        (λ a i. (exact a).0 (within a i), apart)
