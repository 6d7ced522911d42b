-- ===== src/Examples/Board.antt =====
-- A tree whose node has a `phandle` of two cells, searched by phandle and for a syscon.
use riscy_os.Prelude.{ℕ, ◌≡◌, ◌≢◌, refl, List, [], ◌∷◌, null, arith, ok, no_return}
use riscy_os.Examples.Bytes.{byte_of, base, holding}
use riscy_os.Kernel.Endian.{
  Machine, load16, join16, first_byte16, sys_little_endian, be32toh, bswap32, bswap16, load32,
}
use riscy_os.Kernel.Fdt.Header.{field, fdt_string_from_offset}
use riscy_os.Libc.Text.{strcmp, strcmp_loop, strlen, strlen_loop}
use riscy_os.Kernel.Fdt.Token.{
  fdt_next_token, skip_token, fdt_struct_ptr_invalid, fdt_token_begin, fdt_prop_val_len, cells_of,
}
use riscy_os.Kernel.Fdt.Node.{
  fdt_node_begin, node_begin_loop, next_node, fdt_next_node, next_node_loop,
}
use riscy_os.Kernel.Error.{success, no_exist}
use riscy_os.Kernel.Fdt.Prop.{
  fdt_get_prop_by_name, fdt_node_prop_begin, fdt_node_next_prop, prop_loop, by_name_loop,
  name_matches, fdt_prop_name, fdt_prop_name_offset, fdt_prop_num_cells,
}
use riscy_os.Kernel.Fdt.Search.{
  Literals, phandle_loop, fdt_find_compatible_node, first_node, find_loop, fdt_node_is_compatible,
}
use riscy_os.Kernel.Fdt.Search.Laws.{phandle_loop-stuck}
use riscy_os.Drivers.Syscon.{
  Names, initial_action, syscon_init_generic_action, init_node, syscon_write,
}
use riscy_os.Drivers.Syscon.Init.{IsInit, syscon_init_generic_action-IsInit}

-- The header, the structure block at 40 with one node, the strings at 80, and the literals from 88 on.
abbrev blob : List ℕ
blob =
    0xd0 ∷ 0x0d ∷ 0xfe ∷ 0xed ∷ 0 ∷ 0 ∷ 0 ∷ 88 ∷ 0 ∷ 0 ∷ 0 ∷ 40 ∷ 0 ∷ 0 ∷ 0 ∷ 76 ∷ 0 ∷ 0 ∷ 0 ∷ 40
    ∷ 0 ∷ 0 ∷ 0 ∷ 17 ∷ 0 ∷ 0 ∷ 0 ∷ 16 ∷ 0 ∷ 0 ∷ 0 ∷ 0 ∷ 0 ∷ 0 ∷ 0 ∷ 8 ∷ 0 ∷ 0 ∷ 0 ∷ 36 ∷ 0 ∷ 0 ∷ 0
    ∷ 1 ∷ 0 ∷ 0 ∷ 0 ∷ 0 ∷ 0 ∷ 0 ∷ 0 ∷ 3 ∷ 0 ∷ 0 ∷ 0 ∷ 8 ∷ 0 ∷ 0 ∷ 0 ∷ 0 ∷ 0 ∷ 0 ∷ 0 ∷ 7 ∷ 0 ∷ 0 ∷ 0
    ∷ 7 ∷ 0 ∷ 0 ∷ 0 ∷ 2 ∷ 0 ∷ 0 ∷ 0 ∷ 9 ∷ b'p' ∷ b'h' ∷ b'a' ∷ b'n' ∷ b'd' ∷ b'l' ∷ b'e' ∷ 0 ∷ b'c'
    ∷ b'o' ∷ 0 ∷ []

-- The tree stands at 4096, and all other bytes are 0.
abbrev board : Machine
board = holding blob

-- The literal "phandle" shares its bytes with the string of the tree.
abbrev literals : Literals
literals = record {
  compatible = 4180;
  device_type = 4180;
  phandle = 4172;
  address_cells = 4180;
  size_cells = 4180;
  reg = 4180;
  nameless_node = 4180;
}

abbrev names : Names
names = record { regmap = 4180; offset = 4180; mask = 4180; value = 4180 }

phandle_at : fdt_get_prop_by_name board 20 base 4136 null literals.phandle ≡ ok 4144
unfolding byte_of load16 join16 first_byte16 sys_little_endian be32toh bswap32 bswap16 load32 field
    fdt_get_prop_by_name fdt_node_prop_begin fdt_node_next_prop prop_loop by_name_loop name_matches
    fdt_prop_name fdt_prop_name_offset fdt_prop_num_cells fdt_next_token skip_token
    fdt_struct_ptr_invalid fdt_token_begin fdt_prop_val_len cells_of fdt_string_from_offset strcmp
    strcmp_loop strlen strlen_loop fdt_find_compatible_node first_node find_loop
    fdt_node_is_compatible fdt_node_begin node_begin_loop next_node fdt_next_node next_node_loop
phandle_at = refl

cells_at : fdt_prop_num_cells board 4144 ≡ 2
unfolding byte_of load16 join16 first_byte16 sys_little_endian be32toh bswap32 bswap16 load32 field
    fdt_get_prop_by_name fdt_node_prop_begin fdt_node_next_prop prop_loop by_name_loop name_matches
    fdt_prop_name fdt_prop_name_offset fdt_prop_num_cells fdt_next_token skip_token
    fdt_struct_ptr_invalid fdt_token_begin fdt_prop_val_len cells_of fdt_string_from_offset strcmp
    strcmp_loop strlen strlen_loop fdt_find_compatible_node first_node find_loop
    fdt_node_is_compatible fdt_node_begin node_begin_loop next_node fdt_next_node next_node_loop
cells_at = refl

phandle_loop-stuck_example : phandle_loop literals board 20 20 base 7 4136 ≡ no_return
phandle_loop-stuck_example =
    phandle_loop-stuck literals board 20 20 base 7 4136 4144 (omega arith) phandle_at (omega arith)
      (omega (arith, cells_at))

no_syscon :
    syscon_init_generic_action literals names board 10 base initial_action 4180
    ≡ ok (no_exist, initial_action)
unfolding byte_of load16 join16 first_byte16 sys_little_endian be32toh bswap32 bswap16 load32 field
    fdt_get_prop_by_name fdt_node_prop_begin fdt_node_next_prop prop_loop by_name_loop name_matches
    fdt_prop_name fdt_prop_name_offset fdt_prop_num_cells fdt_next_token skip_token
    fdt_struct_ptr_invalid fdt_token_begin fdt_prop_val_len cells_of fdt_string_from_offset strcmp
    strcmp_loop strlen strlen_loop fdt_find_compatible_node first_node find_loop
    fdt_node_is_compatible fdt_node_begin node_begin_loop next_node fdt_next_node next_node_loop
    init_node syscon_init_generic_action
no_syscon = refl

syscon_init_generic_action-IsInit_example :
    IsInit (no_exist, initial_action)
    × ((curr : ℕ) → no_exist ≢ success → syscon_write initial_action curr ≡ no_return)
syscon_init_generic_action-IsInit_example =
    syscon_init_generic_action-IsInit literals names board 10 base initial_action 4180 no_exist
      initial_action no_syscon
