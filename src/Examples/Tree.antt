-- ===== src/Examples/Tree.antt =====
-- A small tree in memory, and the theorems about trees at it.
use riscy_os.Prelude.{
  ℕ, ◌+◌, ◌%◌, ◌≤◌, ◌≡◌, refl, List, [], ◌∷◌, ◌⊎◌, inl, null, arith, ◌↔◌, add64, ok, Gives,
}
use riscy_os.Prelude.Int.{pos, ◌≤ℤ◌}
use riscy_os.Examples.Bytes.{byte_of, base, holding, IsBytes-holding}
use riscy_os.Kernel.Endian.{
  Machine, IsBytes, load16, load32, load64, join16, be16toh, be32toh, be64toh, bswap16, bswap32,
  sys_little_endian, first_byte16,
}
use riscy_os.Kernel.Endian.Laws.{be16, be32, be64, be-load}
use riscy_os.Libc.Memory.{memmove}
use riscy_os.Libc.Memory.Laws.{Copied, memmove-Copied}
use riscy_os.Kernel.Fdt.Header.{field, valid, fdt_verify}
use riscy_os.Kernel.Fdt.Header.Laws.{fdt_verify_lem}
use riscy_os.Kernel.Fdt.Reserve.{fdt_reserve_entry_begin, entry_or_null}
use riscy_os.Kernel.Fdt.Header.{fdt_size}
use riscy_os.Kernel.FdtMem.Init.Reserved.{EntriesFit, Visits-ne}
use riscy_os.Kernel.FdtMem.Init.Handover.{HandsOver, try_boot_free_region-HandsOver}
use riscy_os.Kernel.Fdt.Token.{struct_start, struct_end, begin_node, fdt_next_token}
use riscy_os.Kernel.Fdt.Token.Progress.{InBlock, IsBlob, fdt_next_token-Gives}
use riscy_os.Kernel.Fdt.Token.Walk.{Lands}
use riscy_os.Kernel.Fdt.Node.{fdt_next_node, fdt_node_subnode_begin, fdt_node_begin, fdt_max_depth}
use riscy_os.Kernel.Fdt.Node.Walks.{node_walks-Gives, fdt_max_depth-Gives, LandsPair}

-- The header, an empty reservation block at 40, the structure block at 56 with one node and a property
-- of four bytes, and the string "reg" at 88.
abbrev blob : List ℕ
blob =
    0xd0 ∷ 0x0d ∷ 0xfe ∷ 0xed ∷ 0 ∷ 0 ∷ 0 ∷ 92 ∷ 0 ∷ 0 ∷ 0 ∷ 56 ∷ 0 ∷ 0 ∷ 0 ∷ 88 ∷ 0 ∷ 0 ∷ 0 ∷ 40
    ∷ 0 ∷ 0 ∷ 0 ∷ 17 ∷ 0 ∷ 0 ∷ 0 ∷ 16 ∷ 0 ∷ 0 ∷ 0 ∷ 0 ∷ 0 ∷ 0 ∷ 0 ∷ 4 ∷ 0 ∷ 0 ∷ 0 ∷ 32 ∷ 0 ∷ 0 ∷ 0
    ∷ 0 ∷ 0 ∷ 0 ∷ 0 ∷ 0 ∷ 0 ∷ 0 ∷ 0 ∷ 0 ∷ 0 ∷ 0 ∷ 0 ∷ 0 ∷ 0 ∷ 0 ∷ 0 ∷ 1 ∷ 0 ∷ 0 ∷ 0 ∷ 0 ∷ 0 ∷ 0 ∷ 0
    ∷ 3 ∷ 0 ∷ 0 ∷ 0 ∷ 4 ∷ 0 ∷ 0 ∷ 0 ∷ 0 ∷ 0 ∷ 0 ∷ 0 ∷ 7 ∷ 0 ∷ 0 ∷ 0 ∷ 2 ∷ 0 ∷ 0 ∷ 0 ∷ 9 ∷ b'r'
    ∷ b'e' ∷ b'g' ∷ 0 ∷ []

-- The tree stands at 4096, and all other bytes are 0.
abbrev machine : Machine
machine = holding blob

machine-IsBytes : IsBytes machine
machine-IsBytes = IsBytes-holding blob

start_at : struct_start machine base ≡ 4152
unfolding field load32 load16 join16 be32toh sys_little_endian first_byte16 bswap32 bswap16 byte_of
start_at = refl

end_at : struct_end machine base ≡ 4184
unfolding field load32 load16 join16 be32toh sys_little_endian first_byte16 bswap32 bswap16 byte_of
end_at = refl

nul_at : machine.byte 4188 ≡ 0
unfolding byte_of
nul_at = refl

machine-IsBlob : IsBlob machine 64 base 4188
machine-IsBlob = record {
  bytes = machine-IsBytes;
  not_null = omega (arith, start_at);
  ends = omega (arith, end_at);
  nul = nul_at;
  low = omega arith;
  enough = omega (arith, start_at);
  small = omega arith;
}

node-InBlock : InBlock machine base 4152
node-InBlock = (omega (arith, start_at), omega (arith, end_at))

be-load_example :
    (be16toh machine (load16 machine 4098) ≡ be16 machine 4098)
    × (be32toh machine (load32 machine 4098) ≡ be32 machine 4098)
    × (be64toh machine (load64 machine 4098) ≡ be64 machine 4098)
be-load_example = be-load machine machine-IsBytes 4098

no_entries : fdt_reserve_entry_begin machine base ≡ null
unfolding fdt_reserve_entry_begin entry_or_null field load64 load32 load16 join16 be32toh
    sys_little_endian first_byte16 bswap32 bswap16 byte_of
no_entries = refl

size_at : fdt_size machine base ≡ 92
unfolding fdt_size field load32 load16 join16 be32toh sys_little_endian first_byte16 bswap32 bswap16
    byte_of
size_at = refl

entries_fit : EntriesFit machine base (fdt_reserve_entry_begin machine base)
entries_fit e v = absurd (Visits-ne v no_entries)

try_boot_free_region-HandsOver_example : HandsOver machine 64 base 4050 1001 4000 1000
try_boot_free_region-HandsOver_example =
    try_boot_free_region-HandsOver machine 64 base 4050 1001 4000 1000 (omega arith) (omega arith)
      (omega (arith, size_at)) (omega (arith, start_at)) entries_fit (omega arith, inl no_entries)

fdt_verify_lem_example :
    (fdt_verify machine base ≡ valid)
    ↔ ((be32 machine (add64 base 0) ≡ 0xd00dfeed) × (be32 machine (add64 base 24) ≤ 17))
fdt_verify_lem_example = fdt_verify_lem machine machine-IsBytes base

abbrev reg_text : List ℕ
reg_text = b'r' ∷ b'e' ∷ b'g' ∷ []

abbrev eg_text : List ℕ
eg_text = b'e' ∷ b'g' ∷ []

fdt_next_token-Gives_example :
    Gives
      (λ next.
        (next ≡ null) ⊎ ((4152 + 4 ≤ next) × (next % 4 ≡ 4152 % 4) × InBlock machine base next))
      (fdt_next_token machine 64 base 4152)
fdt_next_token-Gives_example =
    fdt_next_token-Gives machine 64 base 4188 machine-IsBlob 4152 node-InBlock

node_walks-Gives_example :
    Gives
      (LandsPair machine 64 base 4188 machine-IsBlob 4156)
      (fdt_next_node machine 64 base 4152 (pos 0))
    × Gives
        (Lands machine 64 base 4188 begin_node 4156)
        (fdt_node_subnode_begin machine 64 base 4152)
    × Gives
        (Lands machine 64 base 4188 begin_node (struct_start machine base))
        (fdt_node_begin machine 64 base)
node_walks-Gives_example =
    node_walks-Gives machine 64 base 4188 machine-IsBlob 4152 (pos 0) node-InBlock

fdt_max_depth-Gives_example : Gives (λ d. pos 0 ≤ℤ d) (fdt_max_depth machine 64 base)
fdt_max_depth-Gives_example =
    fdt_max_depth-Gives machine 64 base 4188 machine-IsBlob
      (omega arith, omega (arith, start_at, end_at))

memmove-Copied_example :
    (m' : Machine) × (memmove machine 4186 4184 4 ≡ ok (4186, m')) × Copied machine m' 4186 4184 0 4
memmove-Copied_example =
    memmove-Copied machine 4186 4184 4 (omega arith) (omega arith) (omega arith) (omega arith)
