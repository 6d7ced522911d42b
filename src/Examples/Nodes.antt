-- ===== src/Examples/Nodes.antt =====
-- The theorems about nodes, their order and their properties at the tree of Nested.
use riscy_os.Prelude.{inl, inr, ℕ, ◌≡◌, refl, List, [], ◌∷◌, null, arith, ok, Gives, ◌>>=◌}
use riscy_os.Examples.Bytes.{byte_of, base}
use riscy_os.Kernel.Endian.{
  load16, join16, first_byte16, sys_little_endian, be32toh, bswap32, bswap16, load32,
}
use riscy_os.Libc.Text.{strcmp, strlen, strlen_loop, is_zero}
use riscy_os.Libc.Text.Laws.{Holds}
use riscy_os.Kernel.Fdt.Header.{field}
use riscy_os.Kernel.Fdt.Token.{
  fdt_next_token, skip_token, fdt_struct_ptr_invalid, fdt_prop_val_len, cells_of,
}
use riscy_os.Kernel.Fdt.Token.Trace.{Item, Behind, first_of, First}
use riscy_os.Kernel.Fdt.Node.{fdt_node_get_parents}
use riscy_os.Kernel.Fdt.Node.Parents.{fdt_node_get_parents-ancestors}
use riscy_os.Kernel.Fdt.Prop.{name_matches, fdt_get_prop_by_name}
use riscy_os.Kernel.Fdt.Prop.First.{own_props, fdt_get_prop_by_name-First}
use riscy_os.Kernel.Fdt.Search.{
  Literals, fdt_node_name, fdt_node_is_compatible, device_type_is, fdt_find_compatible_node,
  fdt_find_node_by_unit_name, fdt_find_node_by_device_type, fdt_node_get_inherited_prop,
}
use riscy_os.Kernel.Fdt.Search.First.{searches-first_of}
use riscy_os.Kernel.Fdt.Search.Inherited.{nearest, fdt_node_get_inherited_prop-nearest}
use riscy_os.Examples.Nested.{
  machine, machine-IsBlob, start_at, end_at, start-InBlock, below_root, all_items, all_items-Trace,
  root-Behind, literals,
}
use riscy_os.Kernel.Fdt.Token.Trace.{Each}
use riscy_os.Kernel.Fdt.Header.{fdt_string_from_offset}
use riscy_os.Libc.Text.{strcmp_loop}
use riscy_os.Kernel.Fdt.Prop.{
  fdt_node_prop_begin, fdt_node_next_prop, prop_loop, by_name_loop, fdt_prop_name,
  fdt_prop_name_offset, fdt_prop_num_cells, fdt_prop_val,
}
use riscy_os.Kernel.Fdt.Node.{fdt_node_subnode_begin}
use riscy_os.Kernel.Fdt.Node.Children.{children, Siblings, fdt_node_subnode_begin-Siblings}
use riscy_os.Kernel.Fdt.Search.{fdt_find_node_by_phandle}
use riscy_os.Kernel.Fdt.Search.Phandle.{OneCell, phandle_is, fdt_find_node_by_phandle-First}

-- The node "b" in the node "a".
fdt_node_get_parents-ancestors_example :
    fdt_node_get_parents machine 128 base 4184 5 ≡ ok (4176 ∷ 4152 ∷ [])
fdt_node_get_parents-ancestors_example =
    fdt_node_get_parents-ancestors machine 128 base 4279 machine-IsBlob all_items 4184
      (4176 ∷ 4152 ∷ []) 5 start-InBlock (omega arith) all_items-Trace refl

-- "b" has no `reg`, nor has "a", and the root has one.
fdt_node_get_inherited_prop-nearest_example :
    fdt_node_get_inherited_prop machine 128 base 4184 4264
    ≡ nearest (λ n. fdt_get_prop_by_name machine 128 base n null 4264) (4184 ∷ 4176 ∷ 4152 ∷ [])
fdt_node_get_inherited_prop-nearest_example =
    fdt_node_get_inherited_prop-nearest machine 128 base 4279 machine-IsBlob all_items 4184
      (4176 ∷ 4152 ∷ []) 4264 start-InBlock (omega arith) all_items-Trace refl

abbrev reg_text : List ℕ
reg_text = b'r' ∷ b'e' ∷ b'g' ∷ []

reg_at : Holds machine 4264 reg_text
unfolding byte_of
reg_at = (refl, omega arith, (refl, omega arith, (refl, omega arith, refl)))

fdt_get_prop_by_name-First_example :
    (items : List Item) × Behind machine 128 base 4152 items
    × Gives
        (First (name_matches machine 128 base 4264) (own_props items))
        (fdt_get_prop_by_name machine 128 base 4152 null 4264)
    × ((node : ℕ)
        → Gives
            (First (name_matches machine 128 base 4264) (own_props items))
            (fdt_get_prop_by_name machine 128 base node 4152 4264))
fdt_get_prop_by_name-First_example =
    fdt_get_prop_by_name-First machine 128 base 4279 machine-IsBlob 4264 reg_text (omega arith)
      reg_at (omega arith) 4152 (omega (arith, start_at), omega (arith, end_at))

-- The searches from the root on, with "memory" as the text.
searches-first_of_example :
    (fdt_find_compatible_node literals machine 128 base 4152 4280
      ≡ first_of
          (λ n. fdt_node_is_compatible literals machine 128 base n 4280)
          (4176 ∷ 4184 ∷ 4200 ∷ []))
    × (fdt_find_node_by_unit_name literals machine 128 base 4152 4280
        ≡ first_of
            (λ n.
              strcmp machine 128 4280 (fdt_node_name literals machine n) >>= λ c. ok (is_zero c))
            (4176 ∷ 4184 ∷ 4200 ∷ []))
    × (fdt_find_node_by_device_type literals machine 128 base 4152 4280 ≡ (
        strlen machine 128 4280 >>= λ len.
        first_of (device_type_is literals machine 128 base 4280 len) (4176 ∷ 4184 ∷ 4200 ∷ [])))
searches-first_of_example =
    searches-first_of literals machine 128 base 4152 below_root 4280
      (omega arith, inr (omega arith, root-Behind))

fdt_node_subnode_begin-Siblings_example :
    (items : List Item) × Behind machine 128 base 4152 items
    × ((child : ℕ) × (fdt_node_subnode_begin machine 128 base 4152 ≡ ok child)
        × Siblings machine 128 base child (children 0 items))
fdt_node_subnode_begin-Siblings_example =
    fdt_node_subnode_begin-Siblings machine 128 base 4279 machine-IsBlob 4152
      (omega (arith, start_at), omega (arith, end_at))

-- The property `device_type` is taken for the phandle: its first cell is "memo".
abbrev by_device_type : Literals
by_device_type = record literals { phandle = 4268 }

by_device_type-OneCell : Each (OneCell by_device_type machine 128 base) (4176 ∷ 4184 ∷ 4200 ∷ [])
unfolding byte_of load16 join16 first_byte16 sys_little_endian be32toh bswap32 bswap16 load32 field
    fdt_get_prop_by_name fdt_node_prop_begin fdt_node_next_prop prop_loop by_name_loop name_matches
    fdt_prop_name fdt_prop_name_offset fdt_next_token skip_token fdt_struct_ptr_invalid
    fdt_prop_val_len cells_of fdt_string_from_offset strcmp strcmp_loop strlen strlen_loop
    fdt_prop_num_cells fdt_prop_val
by_device_type-OneCell =
    ((null, refl, inl refl), ((null, refl, inl refl), ((4208, refl, inr (omega arith, refl)), tt)))

fdt_find_node_by_phandle-First_example :
    Gives
      (First (phandle_is by_device_type machine 128 base 0x6d656d6f) (4176 ∷ 4184 ∷ 4200 ∷ []))
      (fdt_find_node_by_phandle by_device_type machine 128 base 4152 0x6d656d6f)
fdt_find_node_by_phandle-First_example =
    fdt_find_node_by_phandle-First by_device_type machine 128 base 4152 0x6d656d6f below_root
      (omega arith, inr (omega arith, root-Behind)) by_device_type-OneCell
