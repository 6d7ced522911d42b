-- ===== src/Examples/Start.antt =====
-- Printing, the loop over the UART and the start of the kernel at concrete inputs.
use riscy_os.Prelude.{
  ℕ, ◌%◌, ◌+◌, ◌≡◌, refl, true, false, some, List, [], ◌∷◌, ◌++◌, Ptr, null, arith,
}
use riscy_os.Kernel.Endian.{
  Machine, load16, join16, first_byte16, sys_little_endian, be32toh, bswap32, bswap16, load32,
}
use riscy_os.Kernel.Endian.Overloads.{bits32, load, be, le, bswap, betoh, letoh, betoh-load}
use riscy_os.Libc.Printf.{int, str}
use riscy_os.Libc.Printf.Description.{format}
use riscy_os.Kernel.EarlyOutput.{initial_array}
use riscy_os.Kernel.Printk.{codes, printf}
use riscy_os.Kernel.Printk.Laws.{Prints, printf-Prints}
use riscy_os.Kernel.Fdt.Header.{fdt_verify, field}
use riscy_os.Kernel.BootMem.FreeList.{Store}
use riscy_os.Drivers.Syscon.{Action, all_ones, initial_action}
use riscy_os.Kernel.World.{World, panics, panic_text}
use riscy_os.Kernel.World.Safe.{AllSafe}
use riscy_os.Kernel.World.Says.{Ends}
use riscy_os.Arch.Console.{main_loop}
use riscy_os.Arch.Console.Answer.{Answers, powers_off}
use riscy_os.Arch.Console.Typed.{typed, main_loop-Answers}
use riscy_os.Arch.Start.{Board, foo, bar, is_valid, kmain_arm64, kmain_riscv}
use riscy_os.Arch.Start.Quiet.{Quiet-foo, Quiet-bar}
use riscy_os.Arch.Start.Safe.{kmain-Safe}
use riscy_os.Arch.Start.Invalid.{first_array, hart_line, refusal, kmain-refused}

-- The bytes at 64 are 0x80, 0x81, 0x82 and 0x83.
abbrev counting : Machine
counting = record { little = true; byte = λ p. (p + 64) % 256 }

betoh-load_example :
    (betoh counting (load counting bits32 64) ≡ be counting bits32 64)
    × (letoh counting (load counting bits32 64) ≡ le counting bits32 64)
    × (bswap (be counting bits32 64) ≡ le counting bits32 64)
    × (bswap (le counting bits32 64) ≡ be counting bits32 64)
betoh-load_example = betoh-load counting (λ p. omega arith) bits32 64

abbrev uart : Ptr
uart = 0x1000

abbrev greeting : List ℕ
greeting = codes "s: %c!\n"

greeting_described :
    format false (codes "%s: %c!\n") (str (codes "key") ∷ int b'a' ∷ []) ≡ some (codes "key: a!\n")
unfolding format
greeting_described = refl

printf-Prints_example :
    Prints uart
      (codes "key: a!\n")
      (str (codes "key") ∷ int b'a' ∷ [])
      (printf (first_array uart) (b'%' ∷ greeting ++ 0 ∷ []) (str (codes "key") ∷ int b'a' ∷ []))
printf-Prints_example =
    printf-Prints uart (first_array uart) (omega arith) refl b'%' greeting []
      (str (codes "key") ∷ int b'a' ∷ []) (codes "key: a!\n") (omega arith) (omega arith)
      greeting_described

abbrev no_regions : Store
no_regions = record { head = null; region = λ _. record { next = null; prev = null; size = 0 } }

-- The two keys, and the one that powers off.
abbrev input : List ℕ
input = typed ((b'o', 7) ∷ (b'k', 9) ∷ []) b'&' 8 []

abbrev shutdown_action : Action
shutdown_action = record { found = true; reg = 0x10_0000; mask = all_ones; value = 0x5555 }

abbrev world : List Ptr → World
world array = record {
  array = array;
  store = no_regions;
  reboot = initial_action;
  shutdown = shutdown_action;
  input = input;
  output = [];
}

abbrev registers : Ptr → ℕ
registers p = p % 256

main_loop-Answers_example :
    Answers registers powers_off uart
      (codes "ok&")
      []
      (world (first_array uart))
      (main_loop registers 3 false true (world (first_array uart)))
main_loop-Answers_example =
    main_loop-Answers registers false true uart (omega arith) powers_off 8 []
      ((b'o', 7) ∷ (b'k', 9) ∷ []) 3 (world (first_array uart)) refl (refl, refl) (omega arith)
      (omega arith) (omega arith) refl

-- A memory without a tree.
abbrev blank : Machine
blank = record { little = true; byte = λ p. p % 7 }

abbrev board : Board
board = record {
  lits = record {
    compatible = 64;
    device_type = 80;
    phandle = 96;
    address_cells = 112;
    size_cells = 128;
    reg = 144;
    nameless_node = 160;
  };
  names = record { regmap = 176; offset = 192; mask = 208; value = 224 };
  memory = 240;
  poweroff = 256;
  reboot = 272;
  kernel_end = 4096;
  putchar = uart;
  reg_value = registers;
  preinit_array = [];
  init_array = foo ∷ [];
  fini_array = bar ∷ [];
}

kmain-Safe_example :
    AllSafe registers (kmain_arm64 board blank 20 8192 4 3) (world initial_array)
    × AllSafe registers (kmain_riscv board blank 20 8192 4 3 0) (world initial_array)
kmain-Safe_example =
    kmain-Safe board blank 20 8192 4 3 tt (Quiet-foo registers, tt) (Quiet-bar registers, tt) 0
      (world initial_array)

refused : is_valid (fdt_verify blank 8192) ≡ false
unfolding fdt_verify field be32toh bswap32 bswap16 load32 load16 join16 first_byte16
    sys_little_endian
refused = refl

kmain-refused_example :
    Ends panics uart
      (refusal ++ panic_text)
      (world (first_array uart))
      (kmain_arm64 board blank 20 8192 4 3 (world initial_array))
    × Ends panics uart
        (hart_line 0 ++ (refusal ++ panic_text))
        (world (first_array uart))
        (kmain_riscv board blank 20 8192 4 3 0 (world initial_array))
kmain-refused_example =
    kmain-refused board blank 20 8192 (omega arith) refused 4 3 0 (world initial_array) refl
