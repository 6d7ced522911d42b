-- ===== src/Kernel/BootMem/FreeList/Ordered.antt =====
-- Free regions in increasing order, each large enough for its struct, and the bytes that they hold.
use riscy_os.Prelude.{
  ℕ, zero, suc, ◌+◌, ◌^◌, ◌≤◌, ◌<◌, ◌≡◌, some, List, [], ◌∷◌, ◌++◌, ◌⊎◌, inl, inr, Ptr, get_elem?,
  arith, ap,
}
use riscy_os.Kernel.BootMem.FreeList.{sizeof_region}

-- The regions are at or behind `low`, in increasing order, do not overlap, hold their struct each, and
-- end below 2^63.
abbrev pub Ordered : ℕ → List (Ptr × ℕ) → Type 0
Ordered low [] = Unit {0}
Ordered low ((q, n) ∷ xs) = (low ≤ q) × (sizeof_region ≤ n) × (q + n < 2 ^ 63) × Ordered (q + n) xs

-- The byte at `a` is in one of the regions.
abbrev pub InList : ℕ → List (Ptr × ℕ) → Type 0
InList a [] = ⊥
InList a ((q, n) ∷ xs) = ((q ≤ a) × (a < q + n)) ⊎ InList a xs

pub Ordered-weaken :
    (low low' : ℕ) (xs : List (Ptr × ℕ)) → low' ≤ low → Ordered low xs → Ordered low' xs
Ordered-weaken low low' [] le h = tt
Ordered-weaken low low' ((q, n) ∷ xs) le h = (omega (arith, h.0), h.1, h.2, h.3)

pub InList-low : (a low : ℕ) (xs : List (Ptr × ℕ)) → Ordered low xs → InList a xs → low ≤ a
InList-low a low [] h i = absurd i
InList-low a low ((q, n) ∷ xs) h (inl here) = omega (arith, h.0, here.0)
InList-low a low ((q, n) ∷ xs) h (inr later) = omega (arith, h.0, InList-low a (q + n) xs h.3 later)

-- What stands behind a part of an ordered list.
pub Ordered-behind :
    (low : ℕ) (ys : List (Ptr × ℕ)) (q n : ℕ) (zs : List (Ptr × ℕ))
    → Ordered low (ys ++ (q, n) ∷ zs)
    → (low ≤ q) × Ordered q ((q, n) ∷ zs)
Ordered-behind low [] q n zs h = (h.0, (omega arith, h.1, h.2, h.3))
Ordered-behind low ((y, k) ∷ ys) q n zs h =
    let (le, rest) = Ordered-behind (y + k) ys q n zs h.3 in (omega (arith, h.0), rest)

-- A part that lies within the region at `q` may take its place.
pub Ordered-replace :
    (low : ℕ) (ys : List (Ptr × ℕ)) (q n : ℕ) (zs rest : List (Ptr × ℕ))
    → Ordered low (ys ++ (q, n) ∷ zs)
    → Ordered q rest
    → Ordered low (ys ++ rest)
Ordered-replace low [] q n zs rest h part = Ordered-weaken q low rest h.0 part
Ordered-replace low ((y, k) ∷ ys) q n zs rest h part =
    (h.0, h.1, h.2, Ordered-replace (y + k) ys q n zs rest h.3 part)

pub InList-append :
    (a : ℕ) (ys zs : List (Ptr × ℕ)) → InList a (ys ++ zs) → InList a ys ⊎ InList a zs
InList-append a [] zs i = inr i
InList-append a ((y, k) ∷ ys) zs (inl here) = inl (inl here)
InList-append a ((y, k) ∷ ys) zs (inr later) = elim (InList-append a ys zs later) [
  | inl before ↦ inl (inr before)
  | inr behind ↦ inr behind
]

pub InList-left : (a : ℕ) (ys zs : List (Ptr × ℕ)) → InList a ys → InList a (ys ++ zs)
InList-left a [] zs i = absurd i
InList-left a ((y, k) ∷ ys) zs (inl here) = inl here
InList-left a ((y, k) ∷ ys) zs (inr later) = inr (InList-left a ys zs later)

pub InList-right : (a : ℕ) (ys zs : List (Ptr × ℕ)) → InList a zs → InList a (ys ++ zs)
InList-right a [] zs i = i
InList-right a (y ∷ ys) zs i = inr (InList-right a ys zs i)

-- The bytes of the regions before `q` are before `q`.
pub InList-before :
    (a low : ℕ) (ys : List (Ptr × ℕ)) (q n : ℕ) (zs : List (Ptr × ℕ))
    → Ordered low (ys ++ (q, n) ∷ zs)
    → InList a ys
    → a < q
InList-before a low [] q n zs h i = absurd i
InList-before a low ((y, k) ∷ ys) q n zs h (inl here) =
    omega (arith, here.1, (Ordered-behind (y + k) ys q n zs h.3).0)
InList-before a low ((y, k) ∷ ys) q n zs h (inr later) = InList-before a (y + k) ys q n zs h.3 later

-- A list split at one of its regions.
pub split_at :
    (xs : List (Ptr × ℕ)) (i q n : ℕ)
    → get_elem? xs i ≡ some (q, n)
    → (ys : List (Ptr × ℕ)) × (zs : List (Ptr × ℕ)) × (xs ≡ ys ++ (q, n) ∷ zs)
split_at [] i q n at = cc
split_at (x ∷ xs) zero q n at = ([], xs, ap (λ y. y ∷ xs) (ground arith))
split_at (x ∷ xs) (suc i) q n at =
    let (ys, zs, e) = split_at xs i q n at in (x ∷ ys, zs, ap (λ l. x ∷ l) e)
