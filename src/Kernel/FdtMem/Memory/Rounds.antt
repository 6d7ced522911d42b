-- ===== src/Kernel/FdtMem/Memory/Rounds.antt =====
-- The rounds of the two loops of `fdt_boot_mem_init` as one list.
use mathlib.Core.Path.{fun_ext}
use riscy_os.Prelude.{
  ℕ, zero, suc, ◌+◌, ◌%◌, ◌<◌, ◌≡◌, refl, List, [], ◌∷◌, ◌++◌, Ptr, length, ap, sym, ◌∙◌, ok, add64,
}
use riscy_os.Kernel.Endian.{Machine}
use riscy_os.Libc.Printf.{int, str, ptr}
use riscy_os.Libc.Text.{strlen}
use riscy_os.Kernel.Printk.{codes}
use riscy_os.Kernel.Fdt.Token.{struct_start}
use riscy_os.Kernel.Fdt.Token.Trace.{Item, Trace}
use riscy_os.Kernel.Fdt.Search.{Literals, device_type_is, fdt_node_name}
use riscy_os.Kernel.Fdt.Search.First.{nodes}
use riscy_os.Kernel.Fdt.Search.Every.{Passing}
use riscy_os.Kernel.Fdt.Register.{fdt_node_num_register_blocks, fdt_node_get_register_block}
use riscy_os.Kernel.FdtMem.Init.{try_boot_free_region}
use riscy_os.Kernel.FdtMem.Memory.{Totals, free_block, blocks_loop, fdt_boot_mem_init}
use riscy_os.Kernel.FdtMem.Memory.Visits.{
  visit_all, visit_and_report, report, fdt_boot_mem_init-Passing,
}
use riscy_os.Kernel.World.{
  End, done, panics, asserted, resets, waits, stuck, crashed, Prog, and_then, pure, ◌>>=◌, ◌>>◌,
  lift, on_store, printk, text_at,
}

-- A node for memory: how many register blocks it has, its block 0, and its name.
pub record MemoryNode : Type 0 where
  pub count : ℕ
  pub address : Ptr
  pub size : ℕ
  pub name : List ℕ

-- One round for each register block of each node, with the index of the block.
abbrev pub rounds_of : ℕ → ℕ → MemoryNode → List (ℕ × MemoryNode)
rounds_of zero i b = []
rounds_of (suc left) i b = (i, b) ∷ rounds_of left (i + 1) b

abbrev pub all_rounds : List MemoryNode → List (ℕ × MemoryNode)
all_rounds [] = []
all_rounds (b ∷ bs) = rounds_of b.count 0 b ++ all_rounds bs

and_then_assoc :
    {A B C : Type 0} (e : End A) (f : A → Prog B) (g : B → Prog C)
    → and_then (and_then e f) g ≡ and_then e (λ a w. and_then (f a w) g)
and_then_assoc (done a w) f g = refl
and_then_assoc (panics w) f g = refl
and_then_assoc (asserted w) f g = refl
and_then_assoc (resets p v w) f g = refl
and_then_assoc (waits w) f g = refl
and_then_assoc stuck f g = refl
and_then_assoc crashed f g = refl

bind_assoc :
    {A B C : Type 0} (c : Prog A) (f : A → Prog B) (g : B → Prog C)
    → (c >>= f >>= g) ≡ (c >>= λ a. f a >>= g)
unfolding ◌>>=◌
bind_assoc c f g = fun_ext λ w. and_then_assoc (c w) f g

-- What follows a round follows its last step.
step_assoc :
    {A B : Type 0} (c : Prog (Unit {0})) (d : Prog ℕ) (k : ℕ → Prog A) (g : A → Prog B)
    → (c >> (d >>= k) >>= g) ≡ (c >> (d >>= λ n. k n >>= g))
unfolding ◌>>◌
step_assoc c d k g = bind_assoc c (λ _. d >>= k) g ∙ ap (λ r. c >>= λ _. r) (bind_assoc d k g)

pure_then : {A B : Type 0} (a : A) (k : A → Prog B) → (pure a >>= k) ≡ k a
unfolding pure ◌>>=◌
pure_then a k = refl

module _ (lits : Literals) (m : Machine) (fuel depth : ℕ) (fdt kernel_end memory : Ptr) where
  -- What the lookups at a node give; the address and the size are those of block 0.
  pub record LookedUp (node : Ptr) (b : MemoryNode) : Type 0 where
    pub count_at : fdt_node_num_register_blocks lits m fuel fdt node ≡ ok b.count
    pub block_at : fdt_node_get_register_block lits m fuel fdt node 0 ≡ ok (b.address, b.size)
    pub name_at : text_at m fuel (fdt_node_name lits m node) ≡ ok b.name

  abbrev pub AllLookedUp : List Ptr → List MemoryNode → Type 0
  AllLookedUp [] [] = Unit {0}
  AllLookedUp (node ∷ later) (b ∷ bs) = LookedUp node b × AllLookedUp later bs
  AllLookedUp _ _ = ⊥

  abbrev print_round : ℕ → MemoryNode → Prog (Unit {0})
  print_round i b =
      printk (codes "memory_node: (%s)[%c] {addr = %p, size = %p}\n")
        (str b.name ∷ int (b'0' + i % 256) ∷ ptr b.address ∷ ptr b.size ∷ [])

  abbrev free_round : MemoryNode → Prog ℕ
  free_round b = on_store (try_boot_free_region depth m fuel fdt kernel_end b.address b.size)

  abbrev add_round : Totals → MemoryNode → ℕ → Totals
  add_round t b freed = record { seen = add64 t.seen b.size; freed = add64 t.freed freed }

  -- In each round the line is printed, with the index, and the block is handed over; the sizes seen
  -- and freed are added up.
  pub run_rounds : List (ℕ × MemoryNode) → Totals → Prog Totals
  run_rounds [] t = pure t
  run_rounds ((i, b) ∷ later) t = do
    print_round i b
    freed ← free_round b
    run_rounds later (add_round t b freed)

  run_rounds-append :
      (xs ys : List (ℕ × MemoryNode)) (t : Totals)
      → run_rounds (xs ++ ys) t ≡ (run_rounds xs t >>= λ t'. run_rounds ys t')
  unfolding run_rounds
  run_rounds-append [] ys t = sym (pure_then t (λ t'. run_rounds ys t'))
  run_rounds-append ((i, b) ∷ xs) ys t =
      ap (λ k. print_round i b >> (free_round b >>= k))
        (fun_ext λ freed. run_rounds-append xs ys (add_round t b freed))
      ∙ sym (
          step_assoc (print_round i b) (free_round b) (λ freed. run_rounds xs (add_round t b freed))
            (λ t'. run_rounds ys t'))

  free_block-LookedUp :
      (i node : ℕ) (b : MemoryNode) (t : Totals)
      → LookedUp node b
      → free_block lits m fuel depth fdt kernel_end memory i node t
        ≡ (print_round i b >> (free_round b >>= λ freed. pure (add_round t b freed)))
  unfolding free_block lift ◌>>=◌
  free_block-LookedUp i node b t looked = rw (looked.block_at, looked.name_at) refl

  blocks_loop-run_rounds :
      (left i node : ℕ) (b : MemoryNode) (t : Totals)
      → LookedUp node b
      → blocks_loop lits m fuel depth fdt kernel_end memory left i node t
        ≡ run_rounds (rounds_of left i b) t
  unfolding blocks_loop run_rounds
  blocks_loop-run_rounds zero i node b t looked = refl
  blocks_loop-run_rounds (suc left) i node b t looked =
      let later : Totals → Prog Totals =
        λ t'. blocks_loop lits m fuel depth fdt kernel_end memory left (i + 1) node t' in
      ap (λ c. c >>= later) (free_block-LookedUp i node b t looked)
      ∙ (step_assoc (print_round i b) (free_round b) (λ freed. pure (add_round t b freed)) later
          ∙ ap (λ k. print_round i b >> (free_round b >>= k))
              (fun_ext λ freed.
                pure_then (add_round t b freed) later
                ∙ blocks_loop-run_rounds left (i + 1) node b (add_round t b freed) looked))

  visit_all-run_rounds :
      (found : List Ptr) (bs : List MemoryNode) (t : Totals)
      → AllLookedUp found bs
      → visit_all lits m fuel depth fdt kernel_end memory found t ≡ run_rounds (all_rounds bs) t
  unfolding visit_all run_rounds lift ◌>>=◌
  visit_all-run_rounds [] [] t looked = refl
  visit_all-run_rounds (node ∷ later) [] t looked = absurd looked
  visit_all-run_rounds [] (b ∷ bs) t looked = absurd looked
  visit_all-run_rounds (node ∷ later) (b ∷ bs) t (looked, rest) =
      let after : Totals → Prog Totals =
        λ t'. visit_all lits m fuel depth fdt kernel_end memory later t' in
      rw looked.count_at (
        ap (λ c. c >>= after) (blocks_loop-run_rounds b.count 0 node b t looked)
        ∙ (ap (λ k. run_rounds (rounds_of b.count 0 b) t >>= k)
              (fun_ext λ t'. visit_all-run_rounds later bs t' rest)
            ∙ sym (run_rounds-append (rounds_of b.count 0 b) (all_rounds bs) t)))

-- For a name of the type that is measured in memory, and the tokens of the whole block, fewer than the
-- fuel: let the test for the type return at every node, let `found` be the nodes whose device type is
-- that type, in the order of the tree, and let the lookups at each of them return a number of register
-- blocks, the address and the size of block 0, and a name. Then `fdt_boot_mem_init` runs one round for
-- each register block of each of these nodes, in that order. Whatever the index of the round at its
-- node, each prints the name, the character with the code of '0' plus that index modulo 256, and the
-- address and the size of block 0, hands block 0 to `try_boot_free_region`, and adds, modulo 2^64, its
-- size to the bytes seen and the result to the bytes freed. Then the totals are reported.
pub fdt_boot_mem_init-run_rounds :
    (lits : Literals) (m : Machine) (fuel depth fdt kernel_end memory len : ℕ)
    → strlen m fuel memory ≡ ok len
    → (items : List Item) (found : List Ptr) (bs : List MemoryNode) → length items < fuel
    → Trace m fuel fdt (struct_start m fdt) items
    → Passing (device_type_is lits m fuel fdt memory len) (nodes items) found
    → AllLookedUp lits m fuel depth fdt kernel_end memory found bs
    → fdt_boot_mem_init lits m fuel depth fdt kernel_end memory ≡ (
        run_rounds lits m fuel depth fdt kernel_end memory
          (all_rounds bs)
          (record { seen = 0; freed = 0 })
        >>= report)
unfolding visit_and_report
fdt_boot_mem_init-run_rounds lits m fuel depth fdt kernel_end memory len measured items found bs
      short trace passing looked =
    fdt_boot_mem_init-Passing lits m fuel depth fdt kernel_end memory len measured items found short
      trace passing
    ∙ ap (λ c. c >>= report)
        (visit_all-run_rounds lits m fuel depth fdt kernel_end memory found bs _ looked)
