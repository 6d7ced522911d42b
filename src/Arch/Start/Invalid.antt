-- ===== src/Arch/Start/Invalid.antt =====
-- `kmain` on a tree that is refused.
use riscy_os.Prelude.{
  ap, ℕ, ◌+◌, ◌%◌, ◌≡◌, refl, ◌≢◌, false, some, List, [], ◌∷◌, ◌++◌, Ptr, null, set, ◌∙◌, arith,
}
use riscy_os.Libc.Printf.{int, char_string}
use riscy_os.Libc.Printf.Description.{format}
use riscy_os.Kernel.Error.{success}
use riscy_os.Kernel.Printk.{codes}
use riscy_os.Kernel.Endian.{Machine}
use riscy_os.Kernel.Fdt.Header.{fdt_verify}
use riscy_os.Kernel.EarlyOutput.{initial_array, returns, register_early_putchar}
use riscy_os.Kernel.EarlyOutput.Register.{count}
use riscy_os.Kernel.World.{World, panics, Prog, and_then, ◌>>=◌, ◌>>◌, printk, panic_text, abort}
use riscy_os.Kernel.World.Says.{Ends, printk-Ends, Ends-then, abort-Ends}
use riscy_os.Arch.Start.{
  Board, is_valid, registered, register, check_fdt, boot, kmain_arm64, kmain_riscv,
}

-- The table after the registration, from the one that the C runtime starts.
abbrev pub first_array : Ptr → List Ptr
first_array putchar = set initial_array 7 putchar

registers : (p : Ptr) → register_early_putchar p initial_array ≡ returns success (first_array p)
unfolding register_early_putchar
registers p = refl

once : (p : Ptr) → p ≢ null → count p (first_array p) ≡ 1
once p ne = ground arith

-- The line that names the hart.
abbrev pub hart_line : ℕ → List ℕ
hart_line hartid =
    codes "Running on hart (" ++ (char_string ((hartid % 256 + b'0') % 256) ++ codes ")\n")

hart_described :
    (hartid : ℕ)
    → format false (codes "Running on hart (%c)\n") (int (hartid % 256 + b'0') ∷ [])
      ≡ some (hart_line hartid)
unfolding format
hart_described hartid = refl

abbrev pub refusal : List ℕ
refusal = codes "Cannot Read the FDT!\n"

refusal_described : format false refusal [] ≡ some refusal
unfolding format
refusal_described = refl

module _ (b : Board) (m : Machine) (fuel : ℕ) (fdt : Ptr) (ne : b.putchar ≢ null)
    (bad : is_valid (fdt_verify m fdt) ≡ false) where
  check_fdt-Ends :
      (w : World)
      → count b.putchar w.array ≡ 1
      → Ends panics b.putchar (refusal ++ panic_text) w (check_fdt b m fuel fdt w)
  unfolding check_fdt
  check_fdt-Ends w one = rw bad (
      Ends-then panics b.putchar refusal panic_text w (printk refusal []) abort
        (printk-Ends b.putchar _ _ [] refusal w ne one refl tt refusal_described)
        λ w' same. abort-Ends b.putchar w' ne (rw same one))

  -- What does not return has no part behind it.
  panics-then :
      (p : Ptr) (text : List ℕ) (w : World) (c d : Prog (Unit {0}))
      → Ends panics p text w (c w)
      → Ends panics p text w ((c >> d) w)
  unfolding ◌>>◌ ◌>>=◌
  panics-then p text w c d (calls, hears, e) = (calls, hears, ap (λ end. and_then end (λ _. d)) e)

  boot-Ends :
      (depth rounds : ℕ) (w : World)
      → count b.putchar w.array ≡ 1
      → Ends panics b.putchar (refusal ++ panic_text) w (boot b m fuel fdt depth rounds w)
  unfolding boot
  boot-Ends depth rounds w one =
      panics-then b.putchar _ w (check_fdt b m fuel fdt) _ (check_fdt-Ends w one)

  -- The state after the registration.
  abbrev pub ready : World → World
  ready w = record w { array = first_array b.putchar }

  after_register :
      (w : World) (d : Prog (Unit {0}))
      → w.array ≡ initial_array
      → (register b.putchar >> d) w ≡ d (ready w)
  unfolding ◌>>◌ ◌>>=◌ register
  after_register w d start =
      ap (λ array. and_then (registered w (register_early_putchar b.putchar array)) (λ _. d)) start
      ∙ ap (λ o. and_then (registered w o) (λ _. d)) (registers b.putchar)

  -- If the tree is refused, the callback is not NULL and the table is empty before, both starts
  -- end in `abort`, the memory, the actions and the input as they were: the UART hears that the
  -- tree cannot be read and that the kernel panics, on RISC-V behind the line that names the hart.
  pub kmain-refused :
      (depth rounds hartid : ℕ) (w : World)
      → w.array ≡ initial_array
      → Ends panics b.putchar
          (refusal ++ panic_text)
          (ready w)
          (kmain_arm64 b m fuel fdt depth rounds w)
        × Ends panics b.putchar
            (hart_line hartid ++ (refusal ++ panic_text))
            (ready w)
            (kmain_riscv b m fuel fdt depth rounds hartid w)
  unfolding kmain_arm64 kmain_riscv
  kmain-refused depth rounds hartid w start =
      let one = once b.putchar ne in
      (
        rw (after_register w (boot b m fuel fdt depth rounds) start)
            (boot-Ends depth rounds (ready w) one),
        rw (after_register w _ start) (
            Ends-then panics b.putchar (hart_line hartid) _ (ready w) _ _
              (printk-Ends b.putchar _ _ _ (hart_line hartid) (ready w) ne one refl tt
                (hart_described hartid))
              λ w' same. boot-Ends depth rounds w' (rw same one)),
      )
