-- ===== src/Examples/Output.antt =====
-- Printing and the callback table at concrete inputs.
use riscy_os.Prelude.{
  ℕ, ◌+◌, ◌<◌, ◌≡◌, ◌⊎◌, refl, ◌≢◌, false, some, List, [], ◌∷◌, ◌++◌, Ptr, null, length, set,
  replicate, arith,
}
use riscy_os.Kernel.Error.{success}
use riscy_os.Kernel.EarlyOutput.{
  returns, register_early_putchar, unregister_early_putchar, early_putchar, early_puts,
  initial_array,
}
use riscy_os.Kernel.EarlyOutput.Register.{Registers, register_early_putchar-Registers}
use riscy_os.Kernel.EarlyOutput.Output.{
  heard, heard-register_early_putchar, unregister-register_early_putchar, heard-early_puts,
}
use riscy_os.Libc.Printf.{
  Arg, int, str, State, printed, over_read, formatted_print, pointer_print, body, flush, print_char,
  print_string, specifier, append_char, finish, loop,
}
use riscy_os.Libc.Printf.Pointer.{All, IsHexDigit, hex_value, hex_value-pointer_print}
use riscy_os.Libc.Printf.Description.{format}
use riscy_os.Libc.Printf.Format.{Formats, formatted_print-Formats}
use riscy_os.Libc.Printf.Buffer.{body-buf_lt}
use riscy_os.Libc.Printf.Edges.{formatted_print-empty}

-- A table with one callback, at 0x1000, in the slot that registering it first gives.
abbrev one_callback : List Ptr
one_callback = set initial_array 7 0x1000

register_early_putchar-Registers_example :
    Registers 0x2000 one_callback (register_early_putchar 0x2000 one_callback)
register_early_putchar-Registers_example =
    register_early_putchar-Registers 0x2000 one_callback (omega arith) (omega arith)

registered_once : register_early_putchar 0x1000 initial_array ≡ returns success one_callback
unfolding register_early_putchar
registered_once = refl

heard-register_early_putchar_example :
    (heard 0x1000 (early_putchar one_callback b'h') ≡ b'h' ∷ [])
    × ((r : Ptr)
        → r ≢ null
        → r ≢ 0x1000
        → heard r (early_putchar one_callback b'h') ≡ heard r (early_putchar initial_array b'h'))
heard-register_early_putchar_example =
    heard-register_early_putchar 0x1000 initial_array one_callback (omega arith) (omega arith)
      registered_once b'h'

unregister-register_early_putchar_example :
    unregister_early_putchar 0x1000 one_callback ≡ (success, initial_array)
unregister-register_early_putchar_example =
    unregister-register_early_putchar 0x1000 initial_array one_callback (omega arith) (omega arith)
      registered_once

heard-early_puts_example :
    heard 0x1000 (early_puts one_callback ((b'o' ∷ b'k' ∷ []) ++ 0 ∷ b'!' ∷ [])) ≡ b'o' ∷ b'k' ∷ []
heard-early_puts_example =
    heard-early_puts 0x1000 one_callback (b'o' ∷ b'k' ∷ []) (b'!' ∷ []) (omega arith) refl
      (omega arith)

hex_value-pointer_print_example :
    (digits : List ℕ) × (pointer_print 0x8020_00af ≡ (b'0' ∷ b'x' ∷ digits, 2 + length digits))
    × (length digits ≡ 16)
    × All IsHexDigit digits
    × (hex_value 0 digits ≡ 0x8020_00af)
hex_value-pointer_print_example = hex_value-pointer_print 0x8020_00af (omega arith)

-- "n=%c;%s%%"
abbrev fmt : List ℕ
fmt = b'=' ∷ b'%' ∷ b'c' ∷ b';' ∷ b'%' ∷ b's' ∷ b'%' ∷ b'%' ∷ []

abbrev args : List Arg
args = int b'7' ∷ str (b'a' ∷ b'b' ∷ []) ∷ []

formatted_print-Formats_example :
    Formats args
      (format false (b'n' ∷ fmt) args)
      (formatted_print (b'n' ∷ fmt ++ 0 ∷ b'x' ∷ []) args)
formatted_print-Formats_example = formatted_print-Formats b'n' fmt (b'x' ∷ []) args (omega arith)

formatted :
    formatted_print (b'n' ∷ fmt ++ 0 ∷ b'x' ∷ []) args
    ≡ printed 7
        ((b'n' ∷ b'=' ∷ []) ∷ (b'7' ∷ []) ∷ (b';' ∷ []) ∷ (b'a' ∷ b'b' ∷ []) ∷ (b'%' ∷ []) ∷ [])
unfolding formatted_print loop body specifier flush print_char print_string append_char finish
formatted = refl

-- A buffer that is full but for one character.
abbrev nearly_full : State
nearly_full = record {
  escaped = false;
  buf = replicate 31 b'a';
  num_chars = 0;
  out = [];
  args = [];
}

abbrev flushed : State
flushed = record {
  escaped = false;
  buf = [];
  num_chars = 32;
  out = (replicate 31 b'a' ++ b'z' ∷ []) ∷ [];
  args = [];
}

nearly_full_step : body b'z' nearly_full ≡ some flushed
unfolding body append_char flush
nearly_full_step = refl

body-buf_lt_example : length flushed.buf < 32
body-buf_lt_example = body-buf_lt b'z' nearly_full flushed (omega arith) nearly_full_step

formatted_print-empty_example :
    (((◌≢◌ {A = ℕ} b'A' 0)
        × (formatted_print (0 ∷ b'A' ∷ 0 ∷ []) [] ≡ formatted_print (b'A' ∷ 0 ∷ []) []))
      ⊎ ((◌≡◌ {A = ℕ} b'A' 0) × (formatted_print (0 ∷ b'A' ∷ 0 ∷ []) [] ≡ printed 0 [])))
    × (formatted_print (0 ∷ []) [] ≡ over_read)
formatted_print-empty_example = formatted_print-empty [] b'A' (0 ∷ [])
