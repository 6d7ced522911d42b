-- ===== src/Libc/Memory/Laws.antt =====
-- What the copying functions leave in memory.
use riscy_os.Prelude.{
  ℕ, zero, suc, ◌+◌, ◌-◌, ◌^◌, ◌≤◌, ◌<◌, ◌≡◌, refl, ◌≢◌, ◌⊎◌, inl, inr, Ptr, null, ltb, ◌==◌, arith,
  Bool-cases, ap, ◌∙◌, add64, ok, ==→eq, ==→ne, ne→==, ltb→lt, ltb→le,
}
use riscy_os.Kernel.Endian.{Machine}
use riscy_os.Libc.Memory.{put_byte, copy_up, copy_down, memmove}

-- The `left` bytes of `m'` from `dest + i` on are those of `m` from `src + i` on, and all others are
-- those of `m`.
abbrev pub Copied : Machine → Machine → Ptr → Ptr → ℕ → ℕ → Type 0
Copied m m' dest src i left =
    (p : Ptr)
    → ((dest + i ≤ p) → (p < dest + i + left) → m'.byte p ≡ m.byte (src + (p - dest)))
      × ((p < dest + i) ⊎ (dest + i + left ≤ p) → m'.byte p ≡ m.byte p)

put_byte_self : (m : Machine) (p c q : ℕ) → q ≡ p → (put_byte m p c).byte q ≡ c
put_byte_self m p c q e = ground arith

put_byte_other : (m : Machine) (p c q : ℕ) → q ≢ p → (put_byte m p c).byte q ≡ m.byte q
put_byte_other m p c q ne = ground arith

copy_up-Copied :
    (left : ℕ) (m : Machine) (dest src i : ℕ)
    → dest < src
    → src + i + left < 2 ^ 64
    → Copied m (copy_up m dest src i left) dest src i left
unfolding copy_up
copy_up-Copied zero m dest src i below fits p = (λ from to. absurd (omega arith), λ out. refl)
copy_up-Copied (suc left) m dest src i below fits p =
    let c : ℕ = m.byte (add64 src i) in
    let m1 : Machine = put_byte m (add64 dest i) c in
    let (copied, kept) = copy_up-Copied left m1 dest src (i + 1) below (omega arith) p in
    let at : add64 dest i ≡ dest + i = omega arith in
    let at' : add64 src i ≡ src + i = omega arith in
    (
      λ from to. elim (Bool-cases (p == dest + i)) [
        | inl here ↦
            let eq = ==→eq p (dest + i) here in
            kept (inl (omega arith))
            ∙ (put_byte_self m (add64 dest i) c p (omega arith) ∙ ap m.byte (omega arith))
        | inr later ↦
            let ne = ==→ne p (dest + i) later in
            copied (omega arith) (omega arith)
            ∙ put_byte_other m (add64 dest i) c (src + (p - dest)) (λ e. omega arith)
      ],
      λ out.
          elim out [ inl low ↦ kept (inl (omega arith)) | inr high ↦ kept (inr (omega arith)) ]
          ∙ put_byte_other m (add64 dest i) c p (λ e. omega arith),
    )

copy_down-Copied :
    (left : ℕ) (m : Machine) (dest src : ℕ)
    → src ≤ dest
    → dest + left < 2 ^ 64
    → Copied m (copy_down m dest src left) dest src 0 left
unfolding copy_down
copy_down-Copied zero m dest src below fits p = (λ from to. absurd (omega arith), λ out. refl)
copy_down-Copied (suc left) m dest src below fits p =
    let c : ℕ = m.byte (add64 src left) in
    let m1 : Machine = put_byte m (add64 dest left) c in
    let (copied, kept) = copy_down-Copied left m1 dest src below (omega arith) p in
    let at : add64 dest left ≡ dest + left = omega arith in
    let at' : add64 src left ≡ src + left = omega arith in
    (
      λ from to. elim (Bool-cases (p == dest + left)) [
        | inl here ↦
            let eq = ==→eq p (dest + left) here in
            kept (inr (omega arith))
            ∙ (put_byte_self m (add64 dest left) c p (omega arith) ∙ ap m.byte (omega arith))
        | inr earlier ↦
            let ne = ==→ne p (dest + left) earlier in
            copied (omega arith) (omega arith)
            ∙ put_byte_other m (add64 dest left) c (src + (p - dest)) (λ e. omega arith)
      ],
      λ out.
          elim out [ inl low ↦ kept (inl (omega arith)) | inr high ↦ kept (inr (omega arith)) ]
          ∙ put_byte_other m (add64 dest left) c p (λ e. omega arith),
    )

-- For ranges within the address space and pointers that are not NULL, `memmove` returns its
-- destination, and the bytes there are those that were at the source, also where the two ranges
-- overlap; no byte outside of the destination changes.
pub memmove-Copied :
    (m : Machine) (dest src count : ℕ)
    → dest ≢ null
    → src ≢ null
    → dest + count < 2 ^ 64
    → src + count < 2 ^ 64
    → (m' : Machine) × (memmove m dest src count ≡ ok (dest, m')) × Copied m m' dest src 0 count
unfolding memmove
memmove-Copied m dest src count dest_ne src_ne fits fits' = elim (Bool-cases (ltb dest src)) [
  | inl below ↦ (
    copy_up m dest src 0 count,
    rw (ne→== dest 0 dest_ne, ne→== src 0 src_ne, below) refl,
    copy_up-Copied count m dest src 0 (ltb→lt dest src below) (omega arith),
  )
  | inr above ↦ (
    copy_down m dest src count,
    rw (ne→== dest 0 dest_ne, ne→== src 0 src_ne, above) refl,
    copy_down-Copied count m dest src (ltb→le dest src above) fits,
  )
]
