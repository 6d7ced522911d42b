-- ===== src/Kernel/FdtMem/Init/Reserved.antt =====
-- The reserve entries are carved out of a region, and the loop over them ends.
use riscy_os.Prelude.{
  ℕ, zero, suc, ◌+◌, ◌*◌, ◌^◌, ◌≤◌, ◌<◌, ◌≡◌, refl, ◌≢◌, ◌⊎◌, inl, inr, Ptr, null, ◌==◌, arith,
  Bool-cases, ◌↔◌, Run, ok, Returns, ==→eq, ==→ne,
}
use mathlib.Core.Path.{subst}
use riscy_os.Kernel.Endian.{Machine}
use riscy_os.Kernel.Fdt.Reserve.Steps.{fdt_next_reserve_entry-cases}
use riscy_os.Kernel.Fdt.Token.{struct_start}
use riscy_os.Kernel.Fdt.Reserve.{
  fdt_next_reserve_entry, fdt_reserve_entry_address, fdt_reserve_entry_size,
}
use riscy_os.Kernel.FdtMem.Trim.{Trimmed, trim_or_split_around_reserved}
use riscy_os.Kernel.FdtMem.Trim.Coverage.{Within, WithinTrimmed, trim_or_split-Within}
use riscy_os.Kernel.FdtMem.Init.{Carved, gone, one, two, carved, carve, reserve_loop}

-- The byte at `a` is in what is left.
abbrev pub Left : ℕ → Carved → Type 0
Left a gone = ⊥
Left a (one p n) = Within a p n
Left a (two p n q k) = Within a p n ⊎ Within a q k

carved-Left : (a : ℕ) (t : Trimmed) → Left a (carved t.start t.size t.split) ↔ WithinTrimmed a t
carved-Left a t = ground arith

pub carve-Left :
    (start size resv_start resv_size a : ℕ)
    → start + size < 2 ^ 64
    → resv_start + resv_size < 2 ^ 64
    → Left a (carve start size resv_start resv_size)
      ↔ (Within a start size × ¬ Within a resv_start resv_size)
unfolding carve
carve-Left start size resv_start resv_size a fits resv_fits =
    let (to, from) = trim_or_split-Within start size resv_start resv_size a fits resv_fits in
    let t = trim_or_split_around_reserved start size resv_start resv_size in
    (λ left. to ((carved-Left a t).0 left), λ inside. (carved-Left a t).1 (from inside))

-- What is left of a region of `size` bytes does not wrap; one region is no larger, and the two of a
-- split are smaller and do not overlap.
abbrev pub Sized : ℕ → Carved → Type 0
Sized size gone = Unit {0}
Sized size (one p n) = (p + n < 2 ^ 64) × (n ≤ size)
Sized size (two p n q k) = (p + n ≤ q) × (q + k < 2 ^ 64) × (n < size) × (k < size)

pub Sized-weaken : (n size : ℕ) (c : Carved) → n ≤ size → Sized n c → Sized size c
Sized-weaken n size gone le h = tt
Sized-weaken n size (one p k) le h = (h.0, omega (arith, h.1))
Sized-weaken n size (two p k q l) le h = (h.0, h.1, omega (arith, h.2), omega (arith, h.3))

pub carve-Sized :
    (start size resv_start resv_size : ℕ)
    → start + size < 2 ^ 64
    → resv_start + resv_size < 2 ^ 64
    → Sized size (carve start size resv_start resv_size)
unfolding carve trim_or_split_around_reserved
carve-Sized start size resv_start resv_size fits resv_fits = ground arith

abbrev pub IsOne : Carved → Type 0
IsOne gone = ⊥
IsOne (one p n) = Unit {0}
IsOne (two p n q k) = ⊥

-- The walk over the reserve entries from the last argument on comes to the entry `e`.
pub data Visits (m : Machine) (fdt : Ptr) (e : Ptr) : Ptr → Type 0 where
  here : e ≢ null → Visits m fdt e e
  later :
      {entry : Ptr}
      → entry ≢ null
      → Visits m fdt e (fdt_next_reserve_entry m fdt entry)
      → Visits m fdt e entry

pub Visits-ne : {m : Machine} {fdt e entry : Ptr} → Visits m fdt e entry → entry ≢ null
Visits-ne (here ne) = ne
Visits-ne (later ne v) = ne

module _ (m : Machine) (fdt : Ptr) where
  abbrev Reserved : ℕ → Ptr → Type 0
  Reserved a e = Within a (fdt_reserve_entry_address m e) (fdt_reserve_entry_size m e)

  -- The byte at `a` is in no entry from `entry` on.
  abbrev pub Unreserved : Ptr → ℕ → Type 0
  Unreserved entry a = (e : Ptr) → Visits m fdt e entry → ¬ Reserved a e

  -- No entry from `entry` on wraps.
  abbrev pub EntriesFit : Ptr → Type 0
  EntriesFit entry =
      (e : Ptr)
      → Visits m fdt e entry
      → fdt_reserve_entry_address m e + fdt_reserve_entry_size m e < 2 ^ 64

  Unreserved-cons :
      (entry : Ptr) (a : ℕ)
      → ¬ Reserved a entry
      → Unreserved (fdt_next_reserve_entry m fdt entry) a
      → Unreserved entry a
  Unreserved-cons entry a not_here behind e (here ne) = not_here
  Unreserved-cons entry a not_here behind e (later ne v) = behind e v

  abbrev pub Exact : Ptr → Ptr → ℕ → Carved → ℕ → Type 0
  Exact entry start size c a =
      (Left a c → Within a start size)
      × (Within a start size → Unreserved entry a → Left a c)
      × (IsOne c → Left a c → Unreserved entry a)

  abbrev pub Result : Ptr → Ptr → ℕ → Carved → Type 0
  Result entry start size c = Sized size c × ((a : ℕ) → Exact entry start size c a)

  step-Result :
      (entry start : Ptr) (size : ℕ) (cut : Carved) (rest : Ptr → ℕ → Run Carved) (c : Carved)
      → entry ≢ null
      → Sized size cut
      → ((a : ℕ) → Left a cut ↔ (Within a start size × ¬ Reserved a entry))
      → ((p : Ptr) (n : ℕ)
          → p + n < 2 ^ 64
          → rest p n ≡ ok c
          → Result (fdt_next_reserve_entry m fdt entry) p n c)
      → (elim cut [ gone ↦ ok gone | one p n ↦ rest p n | two p n q k ↦ ok (two p n q k) ]) ≡ ok c
      → Result entry start size c
  step-Result entry start size gone rest c ne fit exact ih e =
      subst (Result entry start size) {x = gone} (cc) (
        tt,
        λ a. (
          λ left. absurd left,
          λ inside free. (exact a).1 (inside, free entry (here ne)),
          λ is_one left. absurd left,
        ),
      )
  step-Result entry start size (one p n) rest c ne fit exact ih e =
      let (fits, next) = ih p n fit.0 e in
      (
        Sized-weaken n size c fit.1 fits,
        λ a.
            let (into, from, free) = next a in
            (
              λ left. ((exact a).0 (into left)).0,
              λ inside unreserved.
                  from ((exact a).1 (inside, unreserved entry (here ne)))
                    λ x v. unreserved x (later ne v),
              λ is_one left. Unreserved-cons entry a ((exact a).0 (into left)).1 (free is_one left),
            ),
      )
  step-Result entry start size (two p n q k) rest c ne fit exact ih e =
      subst (Result entry start size) {x = two p n q k} (cc) (
        fit,
        λ a. (
          λ left. ((exact a).0 left).0,
          λ inside free. (exact a).1 (inside, free entry (here ne)),
          λ is_one left. absurd is_one,
        ),
      )

  pub reserve_loop-Result :
      (rounds : ℕ) (entry start : Ptr) (size : ℕ) (c : Carved)
      → start + size < 2 ^ 64
      → EntriesFit entry
      → reserve_loop m rounds fdt entry start size ≡ ok c
      → Result entry start size c
  unfolding reserve_loop
  reserve_loop-Result zero entry start size c fits entries e = cc
  reserve_loop-Result (suc rounds) entry start size c fits entries e =
      elim (Bool-cases (entry == null)) [
        | inl end ↦
            let is_null = ==→eq entry null end in
            subst (Result entry start size) {x = one start size} (ground (arith, e, end)) (
              (fits, omega arith),
              λ a. (
                λ left. left,
                λ inside free. inside,
                λ is_one left x v. absurd (Visits-ne v is_null),
              ),
            )
        | inr more ↦
            let ne = ==→ne entry null more in
            let resv_fits = entries entry (here ne) in
            step-Result entry start size
              (carve start size (fdt_reserve_entry_address m entry)
                (fdt_reserve_entry_size m entry))
              (reserve_loop m rounds fdt (fdt_next_reserve_entry m fdt entry)) c ne
              (carve-Sized start size (fdt_reserve_entry_address m entry)
                (fdt_reserve_entry_size m entry) fits resv_fits)
              (λ a.
                carve-Left start size (fdt_reserve_entry_address m entry)
                  (fdt_reserve_entry_size m entry) a fits resv_fits)
              (λ p n small.
                reserve_loop-Result rounds (fdt_next_reserve_entry m fdt entry) p n c small
                  λ x v. entries x (later ne v))
              (rw more at e)
      ]

  -- Rounds that suffice from an entry on.
  abbrev pub Suffice : ℕ → Ptr → Type 0
  Suffice rounds entry =
      (1 ≤ rounds)
      × ((entry ≡ null)
          ⊎ ((2 ≤ rounds)
              × (entry + 31 < 2 ^ 64)
              × (struct_start m fdt + 16 ≤ entry + 16 * rounds)))

  Suffice-next :
      (rounds : ℕ) (entry : Ptr)
      → struct_start m fdt < 2 ^ 63
      → entry ≢ null
      → Suffice (suc rounds) entry
      → Suffice rounds (fdt_next_reserve_entry m fdt entry)
  Suffice-next rounds entry low ne (some_rounds, inl is_null) = absurd (ne is_null)
  Suffice-next rounds entry low ne (some_rounds, inr (two_rounds, fits, bound)) =
      elim (fdt_next_reserve_entry-cases m fdt entry fits) [
        | inl is_null ↦ (omega arith, inl is_null)
        | inr (at, inside) ↦
            (omega arith, inr (omega (arith, inside), omega (arith, at, inside), omega (arith, at)))
      ]

  rest_Returns :
      (cut : Carved) (rest : Ptr → ℕ → Run Carved)
      → ((p : Ptr) (n : ℕ) → Returns (rest p n))
      → Returns (elim cut [ gone ↦ ok gone | one p n ↦ rest p n | two p n q k ↦ ok (two p n q k) ])
  rest_Returns gone rest h = (gone, refl)
  rest_Returns (one p n) rest h = h p n
  rest_Returns (two p n q k) rest h = (two p n q k, refl)

  pub reserve_loop-Returns :
      (rounds : ℕ) (entry start : Ptr) (size : ℕ)
      → struct_start m fdt < 2 ^ 63
      → Suffice rounds entry
      → Returns (reserve_loop m rounds fdt entry start size)
  unfolding reserve_loop
  reserve_loop-Returns zero entry start size low enough = absurd (omega arith)
  reserve_loop-Returns (suc rounds) entry start size low enough =
      elim (Bool-cases (entry == null)) [
        | inl end ↦ rw end (one start size, refl)
        | inr more ↦ rw more (
            rest_Returns
              (carve start size (fdt_reserve_entry_address m entry)
                (fdt_reserve_entry_size m entry))
              (reserve_loop m rounds fdt (fdt_next_reserve_entry m fdt entry))
              λ p n.
                reserve_loop-Returns rounds (fdt_next_reserve_entry m fdt entry) p n low
                  (Suffice-next rounds entry low (==→ne entry null more) enough))
      ]
