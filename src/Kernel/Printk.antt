-- ===== src/Kernel/Printk.antt =====
-- libc/src/stdio/printf.c in the kernel build: `printf`, whose `puts` is `early_puts`. `printk` is
-- another name of it.
pub mod Laws
use riscy_os.Prelude.{ℕ, List, [], ◌∷◌, ◌++◌, Ptr, Run, ok, undefined}
use Prim.Native.String
use Prim.Native.String.{String}
use Prim.Native.Char.{code}
use riscy_os.Kernel.EarlyOutput.{early_puts}
use riscy_os.Libc.Printf.{Arg, Outcome, printed, over_read, bad_argument, formatted_print}

-- The bytes of a string literal, without its terminator.
abbrev pub codes : String → List ℕ
codes String.[] = []
codes (String.◌∷◌ c s) = code c ∷ codes s

-- `printk_puts` on a string, whose terminator is written out.
unfoldable pub printk_puts : List Ptr → List ℕ → List (Ptr × ℕ)
printk_puts array s = early_puts array (s ++ 0 ∷ [])

unfoldable pub puts_all : List Ptr → List (List ℕ) → List (Ptr × ℕ)
puts_all array [] = []
puts_all array (s ∷ texts) = printk_puts array s ++ puts_all array texts

-- The number that is returned, and the calls of the callbacks.
abbrev pub print_outcome : List Ptr → Outcome → Run (ℕ × List (Ptr × ℕ))
print_outcome array (printed n texts) = ok (n, puts_all array texts)
print_outcome array over_read = undefined
print_outcome array bad_argument = undefined

unfoldable pub printf : List Ptr → List ℕ → List Arg → Run (ℕ × List (Ptr × ℕ))
printf array fmt args = print_outcome array (formatted_print fmt args)
