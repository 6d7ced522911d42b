-- ===== src/Kernel/Fdt/Search/DeviceType.antt =====
-- The test of the search by the device type.
use riscy_os.Prelude.{
  ℕ, ◌<◌, ◌≢◌, refl, false, List, inl, inr, Ptr, null, ◌==◌, ◌||◌, length, arith, Bool-cases,
  Returns, Returns-if, ne→==, add64,
}
use riscy_os.Kernel.Endian.{Machine}
use riscy_os.Libc.Text.{memcmp}
use riscy_os.Libc.Text.Laws.{Holds}
use riscy_os.Kernel.Fdt.Token.{fdt_prop_val_len}
use riscy_os.Kernel.Fdt.Token.Progress.{InBlock, IsBlob}
use riscy_os.Kernel.Fdt.Prop.{fdt_prop_val}
use riscy_os.Kernel.Fdt.Prop.Lookup.{fdt_get_prop_by_name-Gives}
use riscy_os.Kernel.Fdt.Search.{Literals, device_type_is}

-- In a tree with enough fuel the test returns at every token of the block.
pub device_type_is-Returns :
    (lits : Literals) (m : Machine) (fuel fdt top : ℕ)
    → IsBlob m fuel fdt top
    → (s : List ℕ) → lits.device_type ≢ null
    → Holds m lits.device_type s
    → length s < fuel
    → (type_name : Ptr) (len : ℕ) → type_name ≢ null
    → (node : Ptr) → InBlock m fdt node
    → Returns (device_type_is lits m fuel fdt type_name len node)
unfolding device_type_is memcmp fdt_prop_val
device_type_is-Returns lits m fuel fdt top blob s ne text short type_name len some_name node
      inside =
    let (prop, run, (lands, named)) =
      fdt_get_prop_by_name-Gives m fuel fdt top blob lits.device_type s ne text short node inside in
    let limit = blob.low in
    let ends = blob.ends in
    elim (Bool-cases (prop == null)) [
      | inl absent ↦ rw (run, absent) (false, refl)
      | inr present ↦
          let val : add64 prop 12 ≢ null = λ e. ground arith in
          rw (run, present, ne→== type_name 0 some_name, ne→== (add64 prop 12) 0 val)
            (Returns-if (fdt_prop_val_len m prop == add64 len 1 || fdt_prop_val_len m prop == len) _
              _ (_, refl) (false, refl))
    ]
