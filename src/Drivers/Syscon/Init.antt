-- ===== src/Drivers/Syscon/Init.antt =====
-- What initialising an action gives: a usable register, or an action that cannot be used.
use riscy_os.Prelude.{
  ℕ, ◌+◌, ◌^◌, ◌≤◌, ◌<◌, ◌≡◌, refl, ◌≢◌, Bool, true, false, Option, none, some, ◌⊎◌, inl, inr, Ptr,
  null, ltb, ◌==◌, if◌then◌else◌, arith, ◌↔◌, add64, ◌>>=◌, Run, ok, no_return, undefined,
}
use mathlib.Core.Path.{subst}
use riscy_os.Kernel.Endian.{Machine}
use riscy_os.Kernel.Error.{KError, success, no_exist, invalid}
use riscy_os.Kernel.Fdt.Search.{Literals, fdt_find_compatible_node, fdt_find_node_by_phandle}
use riscy_os.Kernel.Fdt.Prop.{fdt_get_prop_by_name}
use riscy_os.Kernel.Fdt.Register.{fdt_node_num_register_blocks, fdt_node_get_register_block}
use riscy_os.Drivers.Syscon.{
  Action, Names, Init, all_ones, single_cell, set_mask_and_value, check_offset, init_mask_and_value,
  init_register, init_syscon, init_node, syscon_init_generic_action, syscon_write, on_cell,
}

-- A success leaves an action that is found; each of the two errors leaves one that is not.
abbrev pub IsInit : Init → Type 0
IsInit (code, a) =
    ((code ≡ success) × (a.found ≡ true))
    ⊎ (((code ≡ no_exist) ⊎ (code ≡ invalid)) × (a.found ≡ false))

set_mask_and_value-IsInit :
    (mask value : Option ℕ) (a : Action)
    → a.found ≡ false
    → IsInit (set_mask_and_value mask value a)
unfolding set_mask_and_value
set_mask_and_value-IsInit none none a h = inr (inr refl, h)
set_mask_and_value-IsInit none (some v) a h = inl (refl, refl)
set_mask_and_value-IsInit (some w) none a h = inl (refl, refl)
set_mask_and_value-IsInit (some w) (some v) a h = inl (refl, refl)

-- A run that returns, returns what satisfies `P`.
abbrev Ensures : (Init → Type 0) → Run Init → Type 0
Ensures P (ok r) = P r
Ensures P no_return = Unit {0}
Ensures P undefined = Unit {0}

Ensures-bind :
    {A : Type 0} (P : Init → Type 0) (r : Run A) (f : A → Run Init)
    → ((x : A) → Ensures P (f x))
    → Ensures P (r >>= f)
Ensures-bind P (ok x) f h = h x
Ensures-bind P no_return f h = tt
Ensures-bind P undefined f h = tt

Ensures-ok : (P : Init → Type 0) (r : Run Init) {x : Init} → Ensures P r → r ≡ ok x → P x
Ensures-ok P (ok y) {x} h e = subst P (cc) h
Ensures-ok P no_return h e = cc
Ensures-ok P undefined h e = cc

Ensures-if :
    (P : Init → Type 0) (b : Bool) (r q : Run Init)
    → Ensures P r
    → Ensures P q
    → Ensures P (if b then r else q)
Ensures-if P true r q h k = h
Ensures-if P false r q h k = k

Ensures-cell :
    (P : Init → Type 0) (o : Option ℕ) (r : Run Init) (f : ℕ → Run Init)
    → Ensures P r
    → ((cell : ℕ) → Ensures P (f cell))
    → Ensures P (on_cell o r f)
Ensures-cell P none r f h k = h
Ensures-cell P (some cell) r f h k = k cell

module _ (lits : Literals) (names : Names) (m : Machine) (fuel : ℕ) (fdt : Ptr) where
  init_mask_and_value-IsInit :
      (node : Ptr) (a : Action)
      → a.found ≡ false
      → Ensures IsInit (init_mask_and_value lits names m fuel fdt node a)
  unfolding init_mask_and_value
  init_mask_and_value-IsInit node a h =
      Ensures-bind IsInit (fdt_get_prop_by_name m fuel fdt node null names.mask) _ λ p.
        Ensures-bind IsInit (fdt_get_prop_by_name m fuel fdt node null names.value) _
          λ q. set_mask_and_value-IsInit (single_cell m p) (single_cell m q) a h

  init_register-IsInit :
      (node address : Ptr) (size : ℕ) (a : Action)
      → a.found ≡ false
      → Ensures IsInit (init_register lits names m fuel fdt node address size a)
  unfolding init_register
  init_register-IsInit node address size a h =
      Ensures-if IsInit (size == 0) _ _ (inr (inr refl, h)) (
        Ensures-bind IsInit (fdt_get_prop_by_name m fuel fdt node null names.offset) _ λ p.
          Ensures-cell IsInit (single_cell m p) _ _ (inr (inr refl, h)) λ offset.
            Ensures-if IsInit (check_offset offset size) _ _
              (init_mask_and_value-IsInit node (record a { reg = add64 address offset }) h)
              (inr (inr refl, h)))

  init_syscon-IsInit :
      (node : Ptr) (phandle : ℕ) (a : Action)
      → a.found ≡ false
      → Ensures IsInit (init_syscon lits names m fuel fdt node phandle a)
  unfolding init_syscon
  init_syscon-IsInit node phandle a h =
      Ensures-bind IsInit (fdt_find_node_by_phandle lits m fuel fdt null phandle) _ λ syscon.
        Ensures-if IsInit (syscon == null) _ _ (inr (inr refl, h)) (
          Ensures-bind IsInit (fdt_node_num_register_blocks lits m fuel fdt syscon) _ λ count.
            Ensures-if IsInit (ltb count 1) _ _ (inr (inr refl, h)) (
              Ensures-bind IsInit (fdt_node_get_register_block lits m fuel fdt syscon 0) _
                λ block. init_register-IsInit node block.0 block.1 a h))

  init_node-IsInit :
      (node : Ptr) (a : Action)
      → a.found ≡ false
      → Ensures IsInit (init_node lits names m fuel fdt node a)
  unfolding init_node
  init_node-IsInit node a h = Ensures-if IsInit (node == null) _ _ (inr (inl refl, h)) (
      Ensures-bind IsInit (fdt_get_prop_by_name m fuel fdt node null names.regmap) _ λ p.
        Ensures-cell IsInit (single_cell m p) _ _ (inr (inr refl, h))
          λ phandle. init_syscon-IsInit node phandle a h)

  -- Whenever the initialisation of an action returns, whatever the action was before: on success
  -- the action is found, and on each error, which is KERR_NO_EXIST or KERR_INVALID, it is not, so
  -- that the shutdown or reboot that uses it stops at its assertion.
  pub syscon_init_generic_action-IsInit :
      (a : Action) (compat : Ptr) (code : KError) (a' : Action)
      → syscon_init_generic_action lits names m fuel fdt a compat ≡ ok (code, a')
      → IsInit (code, a') × ((curr : ℕ) → code ≢ success → syscon_write a' curr ≡ no_return)
  unfolding syscon_init_generic_action syscon_write
  syscon_init_generic_action-IsInit a compat code a' e =
      let init =
        Ensures-ok IsInit (syscon_init_generic_action lits names m fuel fdt a compat)
          (Ensures-bind IsInit (fdt_find_compatible_node lits m fuel fdt null compat) _
            λ node. init_node-IsInit node (record a { found = false }) refl)
          e in
      (init, λ curr ne. ground arith)

-- The check of the offset of the register is right unless `offset + 4` wraps at 32 bits; for the four
-- offsets where it does, the register is taken to be in every block of at least 3 bytes, also
-- where it lies outside.
pub check_offset_lem :
    (offset size : ℕ)
    → offset < 2 ^ 32
    → (offset + 4 < 2 ^ 32 → (check_offset offset size ≡ true) ↔ (offset + 4 ≤ size))
      × (2 ^ 32 ≤ offset + 4 → 3 ≤ size → check_offset offset size ≡ true)
unfolding check_offset
check_offset_lem offset size h = ground arith

-- Where neither the mask nor the value is found, the initialisation fails; where one is missing, the
-- value is the mask, and the mask is all ones.
pub set_mask_and_value_lem :
    (mask value : Option ℕ) (a : Action)
    → (set_mask_and_value mask value a).0 ≡ success
    → let a' = (set_mask_and_value mask value a).1 in
      (a'.reg ≡ a.reg)
      × ((w : ℕ) → mask ≡ some w → a'.mask ≡ w)
      × (mask ≡ none → a'.mask ≡ all_ones)
      × ((v : ℕ) → value ≡ some v → a'.value ≡ v)
      × (value ≡ none → a'.value ≡ a'.mask)
      × ((mask ≢ none) ⊎ (value ≢ none))
unfolding set_mask_and_value
set_mask_and_value_lem mask value a h = ground arith
