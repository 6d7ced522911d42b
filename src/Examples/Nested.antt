-- ===== src/Examples/Nested.antt =====
-- A tree with nodes inside of nodes, and the list of its tokens.
use mathlib.Core.Path.{subst, sym}
use riscy_os.Prelude.{ℕ, ◌≡◌, refl, List, [], ◌∷◌, null, arith, ok}
use riscy_os.Examples.Bytes.{byte_of, base, holding, IsBytes-holding}
use riscy_os.Kernel.Endian.{
  Machine, load16, join16, first_byte16, sys_little_endian, be32toh, bswap32, bswap16, load32,
}
use riscy_os.Libc.Text.{strlen, strlen_loop}
use riscy_os.Libc.Text.Laws.{Holds}
use riscy_os.Kernel.Fdt.Header.{field}
use riscy_os.Kernel.Fdt.Token.{
  struct_start, struct_end, token_at, fdt_next_token, skip_token, fdt_struct_ptr_invalid,
  fdt_prop_val_len, cells_of,
}
use riscy_os.Kernel.Fdt.Token.Progress.{InBlock, IsBlob}
use riscy_os.Kernel.Fdt.Token.Trace.{Item, Trace, Behind}
use riscy_os.Kernel.Fdt.Search.{Literals}

-- The root with a property, a node in a node, and one with a device type; then the strings, "reg" at
-- 4264 and "device_type" at 4268, and a literal "memory" at 4280.
abbrev pub blob : List ℕ
blob =
    208 ∷ 13 ∷ 254 ∷ 237 ∷ 0 ∷ 0 ∷ 0 ∷ 184 ∷ 0 ∷ 0 ∷ 0 ∷ 56 ∷ 0 ∷ 0 ∷ 0 ∷ 168 ∷ 0 ∷ 0 ∷ 0 ∷ 40 ∷ 0
    ∷ 0 ∷ 0 ∷ 17 ∷ 0 ∷ 0 ∷ 0 ∷ 16 ∷ 0 ∷ 0 ∷ 0 ∷ 0 ∷ 0 ∷ 0 ∷ 0 ∷ 16 ∷ 0 ∷ 0 ∷ 0 ∷ 112 ∷ 0 ∷ 0 ∷ 0 ∷ 0
    ∷ 0 ∷ 0 ∷ 0 ∷ 0 ∷ 0 ∷ 0 ∷ 0 ∷ 0 ∷ 0 ∷ 0 ∷ 0 ∷ 0 ∷ 0 ∷ 0 ∷ 0 ∷ 1 ∷ 0 ∷ 0 ∷ 0 ∷ 0 ∷ 0 ∷ 0 ∷ 0 ∷ 3
    ∷ 0 ∷ 0 ∷ 0 ∷ 4 ∷ 0 ∷ 0 ∷ 0 ∷ 0 ∷ 0 ∷ 0 ∷ 0 ∷ 7 ∷ 0 ∷ 0 ∷ 0 ∷ 1 ∷ b'a' ∷ 0 ∷ 0 ∷ 0 ∷ 0 ∷ 0 ∷ 0
    ∷ 1 ∷ b'b' ∷ 0 ∷ 0 ∷ 0 ∷ 0 ∷ 0 ∷ 0 ∷ 2 ∷ 0 ∷ 0 ∷ 0 ∷ 2 ∷ 0 ∷ 0 ∷ 0 ∷ 1 ∷ b'm' ∷ 0 ∷ 0 ∷ 0 ∷ 0
    ∷ 0 ∷ 0 ∷ 3 ∷ 0 ∷ 0 ∷ 0 ∷ 7 ∷ 0 ∷ 0 ∷ 0 ∷ 4 ∷ b'm' ∷ b'e' ∷ b'm' ∷ b'o' ∷ b'r' ∷ b'y' ∷ 0 ∷ 0
    ∷ 0 ∷ 0 ∷ 0 ∷ 3 ∷ 0 ∷ 0 ∷ 0 ∷ 12 ∷ 0 ∷ 0 ∷ 0 ∷ 0 ∷ 0 ∷ 0 ∷ 0 ∷ 0 ∷ 0 ∷ 1 ∷ 0 ∷ 0 ∷ 0 ∷ 0 ∷ 128
    ∷ 0 ∷ 0 ∷ 0 ∷ 0 ∷ 2 ∷ 0 ∷ 0 ∷ 0 ∷ 2 ∷ 0 ∷ 0 ∷ 0 ∷ 9 ∷ b'r' ∷ b'e' ∷ b'g' ∷ 0 ∷ b'd' ∷ b'e'
    ∷ b'v' ∷ b'i' ∷ b'c' ∷ b'e' ∷ b'_' ∷ b't' ∷ b'y' ∷ b'p' ∷ b'e' ∷ 0 ∷ b'm' ∷ b'e' ∷ b'm' ∷ b'o'
    ∷ b'r' ∷ b'y' ∷ 0 ∷ []

abbrev pub machine : Machine
machine = holding blob

pub start_at : struct_start machine base ≡ 4152
unfolding byte_of load16 join16 first_byte16 sys_little_endian be32toh bswap32 bswap16 load32 field
    fdt_next_token skip_token fdt_struct_ptr_invalid fdt_prop_val_len cells_of strlen strlen_loop
start_at = refl

pub end_at : struct_end machine base ≡ 4264
unfolding byte_of load16 join16 first_byte16 sys_little_endian be32toh bswap32 bswap16 load32 field
    fdt_next_token skip_token fdt_struct_ptr_invalid fdt_prop_val_len cells_of strlen strlen_loop
end_at = refl

nul_at : machine.byte 4279 ≡ 0
unfolding byte_of
nul_at = refl

pub machine-IsBlob : IsBlob machine 128 base 4279
machine-IsBlob = record {
  bytes = IsBytes-holding blob;
  not_null = omega (arith, start_at);
  ends = omega (arith, end_at);
  nul = nul_at;
  low = omega arith;
  enough = omega (arith, start_at);
  small = omega arith;
}

pub start-InBlock : InBlock machine base (struct_start machine base)
start-InBlock = (omega arith, omega (arith, start_at, end_at))

step_4152 : (token_at machine 4152 ≡ 1) × (fdt_next_token machine 128 base 4152 ≡ ok 4160)
unfolding byte_of load16 join16 first_byte16 sys_little_endian be32toh bswap32 bswap16 load32 field
    fdt_next_token skip_token fdt_struct_ptr_invalid fdt_prop_val_len cells_of strlen strlen_loop
step_4152 = (refl, refl)

step_4160 : (token_at machine 4160 ≡ 3) × (fdt_next_token machine 128 base 4160 ≡ ok 4176)
unfolding byte_of load16 join16 first_byte16 sys_little_endian be32toh bswap32 bswap16 load32 field
    fdt_next_token skip_token fdt_struct_ptr_invalid fdt_prop_val_len cells_of strlen strlen_loop
step_4160 = (refl, refl)

step_4176 : (token_at machine 4176 ≡ 1) × (fdt_next_token machine 128 base 4176 ≡ ok 4184)
unfolding byte_of load16 join16 first_byte16 sys_little_endian be32toh bswap32 bswap16 load32 field
    fdt_next_token skip_token fdt_struct_ptr_invalid fdt_prop_val_len cells_of strlen strlen_loop
step_4176 = (refl, refl)

step_4184 : (token_at machine 4184 ≡ 1) × (fdt_next_token machine 128 base 4184 ≡ ok 4192)
unfolding byte_of load16 join16 first_byte16 sys_little_endian be32toh bswap32 bswap16 load32 field
    fdt_next_token skip_token fdt_struct_ptr_invalid fdt_prop_val_len cells_of strlen strlen_loop
step_4184 = (refl, refl)

step_4192 : (token_at machine 4192 ≡ 2) × (fdt_next_token machine 128 base 4192 ≡ ok 4196)
unfolding byte_of load16 join16 first_byte16 sys_little_endian be32toh bswap32 bswap16 load32 field
    fdt_next_token skip_token fdt_struct_ptr_invalid fdt_prop_val_len cells_of strlen strlen_loop
step_4192 = (refl, refl)

step_4196 : (token_at machine 4196 ≡ 2) × (fdt_next_token machine 128 base 4196 ≡ ok 4200)
unfolding byte_of load16 join16 first_byte16 sys_little_endian be32toh bswap32 bswap16 load32 field
    fdt_next_token skip_token fdt_struct_ptr_invalid fdt_prop_val_len cells_of strlen strlen_loop
step_4196 = (refl, refl)

step_4200 : (token_at machine 4200 ≡ 1) × (fdt_next_token machine 128 base 4200 ≡ ok 4208)
unfolding byte_of load16 join16 first_byte16 sys_little_endian be32toh bswap32 bswap16 load32 field
    fdt_next_token skip_token fdt_struct_ptr_invalid fdt_prop_val_len cells_of strlen strlen_loop
step_4200 = (refl, refl)

step_4208 : (token_at machine 4208 ≡ 3) × (fdt_next_token machine 128 base 4208 ≡ ok 4228)
unfolding byte_of load16 join16 first_byte16 sys_little_endian be32toh bswap32 bswap16 load32 field
    fdt_next_token skip_token fdt_struct_ptr_invalid fdt_prop_val_len cells_of strlen strlen_loop
step_4208 = (refl, refl)

step_4228 : (token_at machine 4228 ≡ 3) × (fdt_next_token machine 128 base 4228 ≡ ok 4252)
unfolding byte_of load16 join16 first_byte16 sys_little_endian be32toh bswap32 bswap16 load32 field
    fdt_next_token skip_token fdt_struct_ptr_invalid fdt_prop_val_len cells_of strlen strlen_loop
step_4228 = (refl, refl)

step_4252 : (token_at machine 4252 ≡ 2) × (fdt_next_token machine 128 base 4252 ≡ ok 4256)
unfolding byte_of load16 join16 first_byte16 sys_little_endian be32toh bswap32 bswap16 load32 field
    fdt_next_token skip_token fdt_struct_ptr_invalid fdt_prop_val_len cells_of strlen strlen_loop
step_4252 = (refl, refl)

step_4256 : (token_at machine 4256 ≡ 2) × (fdt_next_token machine 128 base 4256 ≡ ok 4260)
unfolding byte_of load16 join16 first_byte16 sys_little_endian be32toh bswap32 bswap16 load32 field
    fdt_next_token skip_token fdt_struct_ptr_invalid fdt_prop_val_len cells_of strlen strlen_loop
step_4256 = (refl, refl)

step_4260 : (token_at machine 4260 ≡ 9) × (fdt_next_token machine 128 base 4260 ≡ ok null)
unfolding byte_of load16 join16 first_byte16 sys_little_endian be32toh bswap32 bswap16 load32 field
    fdt_next_token skip_token fdt_struct_ptr_invalid fdt_prop_val_len cells_of strlen strlen_loop
step_4260 = (refl, refl)

abbrev pub below_root : List Item
below_root =
    (4160, 3)
    ∷ (4176, 1)
    ∷ (4184, 1)
    ∷ (4192, 2)
    ∷ (4196, 2)
    ∷ (4200, 1)
    ∷ (4208, 3)
    ∷ (4228, 3)
    ∷ (4252, 2)
    ∷ (4256, 2)
    ∷ (4260, 9)
    ∷ []

abbrev pub all_items : List Item
all_items = (4152, 1) ∷ below_root

pub below_root-Trace : Trace machine 128 base 4160 below_root
below_root-Trace = (
  refl,
  omega arith,
  step_4160.0,
  (
    4176,
    step_4160.1,
    (
      refl,
      omega arith,
      step_4176.0,
      (
        4184,
        step_4176.1,
        (
          refl,
          omega arith,
          step_4184.0,
          (
            4192,
            step_4184.1,
            (
              refl,
              omega arith,
              step_4192.0,
              (
                4196,
                step_4192.1,
                (
                  refl,
                  omega arith,
                  step_4196.0,
                  (
                    4200,
                    step_4196.1,
                    (
                      refl,
                      omega arith,
                      step_4200.0,
                      (
                        4208,
                        step_4200.1,
                        (
                          refl,
                          omega arith,
                          step_4208.0,
                          (
                            4228,
                            step_4208.1,
                            (
                              refl,
                              omega arith,
                              step_4228.0,
                              (
                                4252,
                                step_4228.1,
                                (
                                  refl,
                                  omega arith,
                                  step_4252.0,
                                  (
                                    4256,
                                    step_4252.1,
                                    (
                                      refl,
                                      omega arith,
                                      step_4256.0,
                                      (
                                        4260,
                                        step_4256.1,
                                        (refl, omega arith, step_4260.0, (null, step_4260.1, refl)),
                                      ),
                                    ),
                                  ),
                                ),
                              ),
                            ),
                          ),
                        ),
                      ),
                    ),
                  ),
                ),
              ),
            ),
          ),
        ),
      ),
    ),
  ),
)

pub all_items-Trace : Trace machine 128 base (struct_start machine base) all_items
all_items-Trace =
    subst (λ p. Trace machine 128 base p all_items) (sym start_at)
      (refl, omega arith, step_4152.0, (4160, step_4152.1, below_root-Trace))

pub root-Behind : Behind machine 128 base 4152 below_root
root-Behind = (omega arith, (4160, step_4152.1, below_root-Trace))

abbrev pub literals : Literals
literals = record {
  compatible = 4264;
  device_type = 4268;
  phandle = 4264;
  address_cells = 4267;
  size_cells = 4267;
  reg = 4264;
  nameless_node = 4267;
}

abbrev pub device_type_text : List ℕ
device_type_text = b'd' ∷ b'e' ∷ b'v' ∷ b'i' ∷ b'c' ∷ b'e' ∷ b'_' ∷ b't' ∷ b'y' ∷ b'p' ∷ b'e' ∷ []

abbrev pub memory_text : List ℕ
memory_text = b'm' ∷ b'e' ∷ b'm' ∷ b'o' ∷ b'r' ∷ b'y' ∷ []

pub device_type_at : Holds machine 4268 device_type_text
unfolding byte_of
device_type_at = (
  refl,
  omega arith,
  (
    refl,
    omega arith,
    (
      refl,
      omega arith,
      (
        refl,
        omega arith,
        (
          refl,
          omega arith,
          (
            refl,
            omega arith,
            (
              refl,
              omega arith,
              (
                refl,
                omega arith,
                (refl, omega arith, (refl, omega arith, (refl, omega arith, refl))),
              ),
            ),
          ),
        ),
      ),
    ),
  ),
)

pub memory_at : Holds machine 4280 memory_text
unfolding byte_of
memory_at = (
  refl,
  omega arith,
  (
    refl,
    omega arith,
    (refl, omega arith, (refl, omega arith, (refl, omega arith, (refl, omega arith, refl)))),
  ),
)
