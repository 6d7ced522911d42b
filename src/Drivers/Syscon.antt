-- ===== src/Drivers/Syscon.antt =====
-- drivers/syscon/syscon.c: finding the register that powers off or reboots, and writing it.
pub mod Init
use riscy_os.Prelude.{
  ℕ, ◌+◌, ◌-◌, ◌^◌, Bool, true, false, not, Option, none, some, Ptr, null, ltb, ◌==◌, if◌then◌else◌,
  u32, add64, ◌>>=◌, Run, ok, assert, bit_and, bit_or,
}
use riscy_os.Kernel.Endian.{Machine}
use riscy_os.Kernel.Error.{KError, success, no_exist, invalid}
use riscy_os.Kernel.Fdt.Prop.{fdt_get_prop_by_name, fdt_prop_num_cells, fdt_prop_get_cell}
use riscy_os.Kernel.Fdt.Search.{Literals, fdt_find_compatible_node, fdt_find_node_by_phandle}
use riscy_os.Kernel.Fdt.Register.{fdt_node_num_register_blocks, fdt_node_get_register_block}

-- struct generic_syscon_action
pub record Action : Type 0 where
  pub found : Bool
  pub reg : Ptr
  pub mask : ℕ
  pub value : ℕ

-- The action as it is defined, before any initialisation.
abbrev pub initial_action : Action
initial_action = record { found = false; reg = null; mask = 0; value = 0 }

-- The addresses of the literals that name the properties.
pub record Names : Type 0 where
  pub regmap : Ptr
  pub offset : Ptr
  pub mask : Ptr
  pub value : Ptr

-- (uint32_t)(-1)
abbrev pub all_ones : ℕ
all_ones = 2 ^ 32 - 1

abbrev pub Init : Type 0
Init = KError × Action

-- The first cell of a property that has exactly one.
pub single_cell : Machine → Ptr → Option ℕ
single_cell m prop =
    if prop == null
    then none
    else if fdt_prop_num_cells m prop == 1
    then some (fdt_prop_get_cell m prop 0)
    else none

-- A property that is missing, or has not one cell, makes the initialisation return.
abbrev pub on_cell : Option ℕ → Run Init → (ℕ → Run Init) → Run Init
on_cell none missing f = missing
on_cell (some cell) missing f = f cell

-- The end of the function: the mask and the value, each found or not.
unfoldable pub set_mask_and_value : Option ℕ → Option ℕ → Action → Init
set_mask_and_value (some mask) (some value) a =
    (success, record a { mask = mask; value = value; found = true })
set_mask_and_value (some mask) none a =
    (success, record a { mask = mask; value = mask; found = true })
set_mask_and_value none (some value) a =
    (success, record a { mask = all_ones; value = value; found = true })
set_mask_and_value none none a = (invalid, record a { mask = all_ones })

-- The check of the register against its block. The sum `offset + 4` has 32 bits.
pub check_offset : ℕ → ℕ → Bool
check_offset offset syscon_size = not (ltb syscon_size (u32 (offset + 4)))

module _ (lits : Literals) (names : Names) (m : Machine) (fuel : ℕ) (fdt : Ptr) where
  -- From the register on.
  pub init_mask_and_value : Ptr → Action → Run Init
  init_mask_and_value node a = do
    mask_prop ← fdt_get_prop_by_name m fuel fdt node null names.mask
    value_prop ← fdt_get_prop_by_name m fuel fdt node null names.value
    ok (set_mask_and_value (single_cell m mask_prop) (single_cell m value_prop) a)

  -- From the syscon's block on.
  pub init_register : Ptr → Ptr → ℕ → Action → Run Init
  init_register node syscon_address syscon_size a = if syscon_size == 0 then ok (invalid, a) else do
    offset_prop ← fdt_get_prop_by_name m fuel fdt node null names.offset
    on_cell (single_cell m offset_prop) (ok (invalid, a)) λ offset.
        if check_offset offset syscon_size
        then init_mask_and_value node (record a { reg = add64 syscon_address offset })
        else ok (invalid, a)

  -- From the phandle of the syscon on.
  pub init_syscon : Ptr → ℕ → Action → Run Init
  init_syscon node syscon_phandle a = do
    syscon ← fdt_find_node_by_phandle lits m fuel fdt null syscon_phandle
    if syscon == null then ok (invalid, a) else do
      count ← fdt_node_num_register_blocks lits m fuel fdt syscon
      if ltb count 1 then ok (invalid, a) else do
        (address, size) ← fdt_node_get_register_block lits m fuel fdt syscon 0
        init_register node address size a

  unfoldable pub init_node : Ptr → Action → Run Init
  init_node node a = if node == null then ok (no_exist, a) else do
    regmap ← fdt_get_prop_by_name m fuel fdt node null names.regmap
    on_cell (single_cell m regmap) (ok (invalid, a))
        λ syscon_phandle. init_syscon node syscon_phandle a

  -- `syscon_shutdown_init` and `syscon_reboot_init` call this on their action with the addresses of
  -- the literals "syscon-poweroff" and "syscon-reboot".
  unfoldable pub syscon_init_generic_action : Action → Ptr → Run Init
  syscon_init_generic_action action compat = do
    node ← fdt_find_compatible_node lits m fuel fdt null compat
    init_node node (record action { found = false })

-- The word that `syscon_shutdown` and `syscon_reboot` store, from the word that they read.
pub masked : ℕ → ℕ → ℕ → ℕ
masked curr_val mask value = bit_or (bit_and curr_val (all_ones - mask)) (bit_and value mask)

-- `syscon_shutdown` and `syscon_reboot`: the address that is written and the word. What follows the
-- write is declared unreachable.
unfoldable pub syscon_write : Action → ℕ → Run (Ptr × ℕ)
syscon_write a curr_val = assert a.found (ok (a.reg, masked curr_val a.mask a.value))
