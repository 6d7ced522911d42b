-- ===== src/Kernel/FdtMem/Memory/Printed.antt =====
-- What `fdt_boot_mem_init` prints.
use riscy_os.Prelude.{ℕ, ◌+◌, ◌%◌, ◌≡◌, refl, ◌≢◌, false, some, List, [], ◌∷◌, ◌++◌, Ptr, null}
use riscy_os.Libc.Printf.{int, str, ptr, pointer_print}
use riscy_os.Libc.Printf.Description.{format}
use riscy_os.Kernel.Printk.{codes}
use riscy_os.Kernel.EarlyOutput.Register.{count}
use riscy_os.Kernel.FdtMem.Memory.Visits.{report}
use riscy_os.Kernel.World.{World, done}
use riscy_os.Kernel.World.Says.{Ends, printk-Ends, Ends-then}

-- What is printed for the first block of a node.
abbrev pub block_line : List ℕ → Ptr → ℕ → List ℕ
block_line name address size =
    codes "memory_node: ("
    ++ (name
        ++ (codes ")[0] {addr = "
            ++ ((pointer_print address).0
                ++ (codes ", size = " ++ ((pointer_print size).0 ++ codes "}\n")))))

pub block_described :
    (name : List ℕ) (address size : ℕ)
    → format false
        (codes "memory_node: (%s)[%c] {addr = %p, size = %p}\n")
        (str name ∷ int (b'0' + 0 % 256) ∷ ptr address ∷ ptr size ∷ [])
      ≡ some (block_line name address size)
unfolding format
block_described name address size = refl

abbrev pub report_text : ℕ → ℕ → List ℕ
report_text seen freed =
    codes "[FDT] Freed Memory Regions:\n"
    ++ ((codes "[FDT] \tTotal Memory = (" ++ ((pointer_print seen).0 ++ codes " bytes)\n"))
        ++ (codes "[FDT] \tFreed Memory = (" ++ ((pointer_print freed).0 ++ codes " bytes)\n")))

total_described :
    (n : ℕ)
    → format false (codes "[FDT] \tTotal Memory = (%p bytes)\n") (ptr n ∷ [])
      ≡ some (codes "[FDT] \tTotal Memory = (" ++ ((pointer_print n).0 ++ codes " bytes)\n"))
unfolding format
total_described n = refl

freed_described :
    (n : ℕ)
    → format false (codes "[FDT] \tFreed Memory = (%p bytes)\n") (ptr n ∷ [])
      ≡ some (codes "[FDT] \tFreed Memory = (" ++ ((pointer_print n).0 ++ codes " bytes)\n"))
unfolding format
freed_described n = refl

title_described :
    format false (codes "[FDT] Freed Memory Regions:\n") []
    ≡ some (codes "[FDT] Freed Memory Regions:\n")
unfolding format
title_described = refl

pub report-Ends :
    (p : Ptr) (seen freed : ℕ) (w : World)
    → p ≢ null
    → count p w.array ≡ 1
    → Ends (done tt) p (report_text seen freed) w (report (record { seen = seen; freed = freed }) w)
unfolding report
report-Ends p seen freed w ne once =
    Ends-then (done tt) p _ _ w _ _ (printk-Ends p _ _ [] _ w ne once refl tt title_described)
      λ w' same.
        Ends-then (done tt) p _ _ w' _ _
          (printk-Ends p _ _ (ptr seen ∷ []) _ w' ne (rw same once) refl tt (total_described seen))
          λ w'' same'.
            printk-Ends p _ _ (ptr freed ∷ []) _ w'' ne (rw (same', same) once) refl tt
              (freed_described freed)
