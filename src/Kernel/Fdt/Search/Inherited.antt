-- ===== src/Kernel/Fdt/Search/Inherited.antt =====
-- The property that a node inherits against the list of its ancestors.
use mathlib.Core.Path.{fun_ext}
use riscy_os.Prelude.{
  Bool, true, false, ℕ, ◌<◌, ◌≡◌, refl, some, List, [], ◌∷◌, Ptr, null, ◌==◌, not, if◌then◌else◌,
  length, take, take-length, ap, Run, ok, ◌>>=◌,
}
use riscy_os.Kernel.Endian.{Machine}
use riscy_os.Kernel.Fdt.Token.{struct_start}
use riscy_os.Kernel.Fdt.Token.Progress.{InBlock, IsBlob}
use riscy_os.Kernel.Fdt.Token.Trace.{Item, Trace}
use riscy_os.Kernel.Fdt.Prop.{fdt_get_prop_by_name}
use riscy_os.Kernel.Fdt.Node.{num_slots}
use riscy_os.Kernel.Fdt.Node.Ancestors.{ancestors}
use riscy_os.Kernel.Fdt.Node.Parents.{ancestors-Parents}
use riscy_os.Kernel.Fdt.Search.{parents_loop, fdt_node_get_inherited_prop}

-- The property that the first of the nodes has which has one, or NULL.
unfoldable pub nearest : (Ptr → Run Ptr) → List Ptr → Run Ptr
nearest lookup [] = ok null
nearest lookup (node ∷ nodes) =
    let rest = nearest lookup nodes in
    lookup node >>= λ prop. if prop == null then rest else ok prop

-- A test for absence, and one for presence.
swap_branches : (b : Bool) (r q : Run Ptr) → (if not b then r else q) ≡ (if b then q else r)
swap_branches true r q = refl
swap_branches false r q = refl

module _ (m : Machine) (fuel fdt top : ℕ) (blob : IsBlob m fuel fdt top) where
  parents_loop-nearest :
      (name : Ptr) (parents : List Ptr)
      → parents_loop m fuel fdt name parents
        ≡ nearest (λ n. fdt_get_prop_by_name m fuel fdt n null name) parents
  unfolding parents_loop nearest
  parents_loop-nearest name [] = refl
  parents_loop-nearest name (parent ∷ parents) = rw (parents_loop-nearest name parents) refl

  -- In a tree with enough fuel whose structure block is not empty, for a node that is reached before
  -- more nodes end than have begun: the call does what the lookups of the name at the node, and then
  -- at its ancestors from the nearest on, do until one of them gives a property; it gives NULL if none
  -- does.
  pub fdt_node_get_inherited_prop-nearest :
      (items : List Item) (node : Ptr) (found : List Ptr) (name : Ptr)
      → InBlock m fdt (struct_start m fdt)
      → length items < fuel
      → Trace m fuel fdt (struct_start m fdt) items
      → ancestors node [] items ≡ some found
      → fdt_node_get_inherited_prop m fuel fdt node name
        ≡ nearest (λ n. fdt_get_prop_by_name m fuel fdt n null name) (node ∷ found)
  unfolding fdt_node_get_inherited_prop nearest
  fdt_node_get_inherited_prop-nearest items node found name inside short trace e =
      let (deepest, run, sound, low, parents) =
        ancestors-Parents m fuel fdt top blob items node found inside short trace e in
      let whole : take (num_slots deepest) found ≡ found =
        take-length (num_slots deepest) found low in
      rw (run, sound, parents (num_slots deepest), whole, parents_loop-nearest name found)
        (ap (λ k. fdt_get_prop_by_name m fuel fdt node null name >>= k)
          (fun_ext λ prop. swap_branches (prop == null) (ok prop) _))
