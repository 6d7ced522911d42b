-- ===== src/Kernel/BootMem/FreeList/Splice.antt =====
-- Cutting a region out of a chain, or putting another in its place.
use riscy_os.Prelude.{
  ℕ, ◌+◌, ◌≤◌, ◌<◌, ◌≡◌, refl, ◌≢◌, List, [], ◌∷◌, ◌++◌, Ptr, null, arith, ap, sym, ◌∙◌,
}
use mathlib.Core.Path.{subst}
use riscy_os.Kernel.BootMem.FreeList.{Region}
use riscy_os.Kernel.BootMem.FreeList.Scan.{Chain}
use riscy_os.Kernel.BootMem.FreeList.Ordered.{Ordered, Ordered-behind}

-- A chain of regions at or behind `low` survives any change below `low`.
pub Chain-frame :
    (region g : Ptr → Region) (low : ℕ) (prev p : Ptr) (xs : List (Ptr × ℕ))
    → Chain region prev p xs
    → Ordered low xs
    → ((x : Ptr) → low ≤ x → g x ≡ region x)
    → Chain g prev p xs
Chain-frame region g low prev p [] chain order same = chain
Chain-frame region g low prev p ((q, n) ∷ xs) chain order same =
    let e = same q order.0 in
    (
      chain.0,
      chain.1,
      ap Region.prev e ∙ chain.2,
      ap Region.size e ∙ chain.3,
      subst (λ t. Chain g q t xs) (sym (ap Region.next e))
          (Chain-frame region g (q + n) q (region q).next xs chain.4 order.3
            λ x le. same x (omega (arith, order.0))),
    )

-- The region at `q` is not the first, so its predecessor is not before the first.
pub Chain-prev :
    (region : Ptr → Region) (prev p low : ℕ) (y k : ℕ) (ys : List (Ptr × ℕ)) (q n : ℕ)
    (zs : List (Ptr × ℕ))
    → Chain region prev p ((y, k) ∷ ys ++ (q, n) ∷ zs)
    → Ordered low ((y, k) ∷ ys ++ (q, n) ∷ zs)
    → y ≤ (region q).prev
Chain-prev region prev p low y k [] q n zs chain order = omega (arith, chain.4.2)
Chain-prev region prev p low y k ((z, l) ∷ ys) q n zs chain order =
    omega
      (arith, order.3.0, Chain-prev region y (region y).next (y + k) z l ys q n zs chain.4 order.3)

-- The store `g` differs from `region` only in the links of the neighbours of the region at `q`: the
-- one before leads to `to`, the one behind back to `from`.
pub record Relinked (region g : Ptr → Region) (q n : ℕ) (to from : Ptr) : Type 0 where
  pub below : (x : Ptr) → x < q → x ≢ (region q).prev → g x ≡ region x
  pub above : (x : Ptr) → q + n ≤ x → x ≢ (region q).next → g x ≡ region x
  pub before :
      (region q).prev ≢ null
      → ((g (region q).prev).next ≡ to)
        × ((g (region q).prev).prev ≡ (region (region q).prev).prev)
        × ((g (region q).prev).size ≡ (region (region q).prev).size)
  pub behind :
      (region q).next ≢ null
      → ((g (region q).next).prev ≡ from)
        × ((g (region q).next).next ≡ (region (region q).next).next)
        × ((g (region q).next).size ≡ (region (region q).next).size)

-- Where a chain starts whose part behind `ys` starts at `to`.
abbrev pub start_of : List (Ptr × ℕ) → Ptr → Ptr
start_of [] to = to
start_of ((y, k) ∷ ys) to = y

module _ (region g : Ptr → Region) (q n : ℕ) (zs : List (Ptr × ℕ)) (to from : Ptr)
    (links : Relinked region g q n to from) where
  -- The regions behind `q`.
  pub Chain-suffix :
      (prev : Ptr)
      → Chain region prev q ((q, n) ∷ zs)
      → Ordered q ((q, n) ∷ zs)
      → Chain g from (region q).next zs
  Chain-suffix prev chain order = go zs chain.4 order.3
    where
      go :
          (zs : List (Ptr × ℕ))
          → Chain region q (region q).next zs
          → Ordered (q + n) zs
          → Chain g from (region q).next zs
      go [] chain order = chain
      go ((z, k) ∷ zs) chain order =
          let ne : (region q).next ≢ null = λ e. chain.1 (sym chain.0 ∙ e) in
          let (back, next, size) = links.behind ne in
          let at = chain.0 in
          (
            at,
            chain.1,
            ap (λ x. (g x).prev) (sym at) ∙ back,
            ap (λ x. (g x).size) (sym at) ∙ (size ∙ (ap (λ x. (region x).size) at ∙ chain.3)),
            subst (λ t. Chain g z t zs)
                (sym (ap (λ x. (g x).next) (sym at) ∙ (next ∙ ap (λ x. (region x).next) at)))
                (Chain-frame region g (z + k) z (region z).next zs chain.4 order.3
                  λ x le. links.above x (omega (arith, order.0)) λ e. omega (arith, order.1, at)),
          )

  -- The regions before `q`, with the rest of the chain put behind them.
  pub Chain-prefix :
      (low : ℕ) (prev p : Ptr) (ys rest : List (Ptr × ℕ))
      → Chain region prev p (ys ++ (q, n) ∷ zs)
      → Ordered low (ys ++ (q, n) ∷ zs)
      → Chain g (region q).prev to rest
      → Chain g prev (start_of ys to) (ys ++ rest)
  Chain-prefix low prev p [] rest chain order tail = subst (λ t. Chain g t to rest) chain.2 tail
  Chain-prefix low prev p ((y, k) ∷ []) rest chain order tail =
      let at : (region q).prev ≡ y = chain.4.2 in
      let ne : (region q).prev ≢ null = λ e. chain.1 (sym at ∙ e) in
      let (next, back, size) = links.before ne in
      (
        refl,
        chain.1,
        ap (λ x. (g x).prev) (sym at) ∙ (back ∙ (ap (λ x. (region x).prev) at ∙ chain.2)),
        ap (λ x. (g x).size) (sym at) ∙ (size ∙ (ap (λ x. (region x).size) at ∙ chain.3)),
        subst (λ t. Chain g y t rest) (sym (ap (λ x. (g x).next) (sym at) ∙ next))
            (subst (λ t. Chain g t to rest) at tail),
      )
  Chain-prefix low prev p ((y, k) ∷ (z, l) ∷ ys) rest chain order tail =
      let ge = Chain-prev region y (region y).next (y + k) z l ys q n zs chain.4 order.3 in
      let q_ge = (Ordered-behind (y + k) ((z, l) ∷ ys) q n zs order.3).0 in
      let e = links.below y (omega (arith, order.1)) λ e. omega (arith, order.1, order.3.0, e) in
      (
        refl,
        chain.1,
        ap Region.prev e ∙ chain.2,
        ap Region.size e ∙ chain.3,
        subst (λ t. Chain g y t ((z, l) ∷ ys ++ rest)) (sym (ap Region.next e ∙ chain.4.0))
            (Chain-prefix (y + k) y (region y).next ((z, l) ∷ ys) rest chain.4 order.3 tail),
      )

-- A region shrinks in its place.
pub Chain-shrink :
    (region g : Ptr → Region) (low : ℕ) (prev p : Ptr) (ys : List (Ptr × ℕ)) (q n left : ℕ)
    (zs : List (Ptr × ℕ))
    → Chain region prev p (ys ++ (q, n) ∷ zs)
    → Ordered low (ys ++ (q, n) ∷ zs)
    → ((x : Ptr) → x ≢ q → g x ≡ region x)
    → ((g q).prev ≡ (region q).prev) × ((g q).next ≡ (region q).next) × ((g q).size ≡ left)
    → Chain g prev p (ys ++ (q, left) ∷ zs)
Chain-shrink region g low prev p [] q n left zs chain order same (back, next, size) = (
  chain.0,
  chain.1,
  back ∙ chain.2,
  size,
  subst (λ t. Chain g q t zs) (sym next)
      (Chain-frame region g (q + n) q (region q).next zs chain.4 order.3
        λ x le. same x λ e. omega (arith, order.1)),
)
Chain-shrink region g low prev p ((y, k) ∷ ys) q n left zs chain order same at =
    let q_ge = (Ordered-behind (y + k) ys q n zs order.3).0 in
    let e = same y λ e. omega (arith, order.1) in
    (
      chain.0,
      chain.1,
      ap Region.prev e ∙ chain.2,
      ap Region.size e ∙ chain.3,
      subst (λ t. Chain g y t (ys ++ (q, left) ∷ zs)) (sym (ap Region.next e))
          (Chain-shrink region g (y + k) y (region y).next ys q n left zs chain.4 order.3 same at),
    )
