-- ===== src/Libc/Printf/Pointer.antt =====
-- `pointer_print`: the text of an address.
use riscy_os.Prelude.{
  ℕ, zero, suc, ◌+◌, ◌-◌, ◌*◌, ◌/◌, ◌%◌, ◌^◌, ◌≤◌, ◌<◌, ◌≡◌, refl, List, [], ◌∷◌, ◌⊎◌, inl, inr,
  Ptr, ltb, leb, if◌then◌else◌, length, arith, Bool-cases, ap, ◌∙◌, ltb→le,
}
use native.Mathlib.Nat.{pow-suc}
use riscy_os.Libc.Printf.{hex_digit, pointer_loop, pointer_print}

-- The value of an upper-case hexadecimal digit, and of a number written with them.
abbrev pub digit_value : ℕ → ℕ
digit_value c = if leb c b'9' then c - b'0' else c - b'A' + 10

abbrev pub hex_value : ℕ → List ℕ → ℕ
hex_value acc [] = acc
hex_value acc (c ∷ cs) = hex_value (acc * 16 + digit_value c) cs

abbrev pub IsHexDigit : ℕ → Type 0
IsHexDigit c = ((b'0' ≤ c) × (c ≤ b'9')) ⊎ ((b'A' ≤ c) × (c ≤ b'F'))

abbrev pub All {ℓ κ} : {A : Type ℓ} → (A → Type κ) → List A → Type κ
All P [] = Unit
All P (x ∷ xs) = P x × All P xs

hex_digit_value : (d : ℕ) → d < 16 → digit_value (hex_digit d) ≡ d
unfolding hex_digit
hex_digit_value d h = ground arith

hex_digit-IsHexDigit : (d : ℕ) → d < 16 → IsHexDigit (hex_digit d)
unfolding hex_digit
hex_digit-IsHexDigit d h = ground arith

-- The loop in one form: both branches write the digit of the low four bits.
pointer_loop-suc :
    (n ip : ℕ) (buf : List ℕ)
    → pointer_loop (suc n) ip buf ≡ pointer_loop n (ip / 16) (hex_digit (ip % 16) ∷ buf)
unfolding pointer_loop hex_digit
pointer_loop-suc n ip buf = elim (Bool-cases (ltb 0 ip)) [
  | inl more ↦ rw more
  | inr done ↦ let z : ip ≡ 0 = omega (arith, ltb→le 0 ip done) in rw z
]

hex_value-pointer_loop :
    (n ip acc : ℕ) (buf : List ℕ)
    → ip < 16 ^ n
    → hex_value acc (pointer_loop n ip buf) ≡ hex_value (acc * 16 ^ n + ip) buf
unfolding pointer_loop
hex_value-pointer_loop zero ip acc buf h = ap (λ v. hex_value v buf) (omega arith)
hex_value-pointer_loop (suc n) ip acc buf h =
    let low : ip / 16 < 16 ^ n = omega (arith, pow-suc 16 n) in
    pointer_path n ip acc buf
    ∙ hex_value-pointer_loop n (ip / 16) acc (hex_digit (ip % 16) ∷ buf) low
    ∙ ap (λ v. hex_value v buf)
        (omega (
          arith,
          hex_digit_value (ip % 16) (omega arith),
          pow-suc 16 n,
          ap (λ (t : ℕ). acc * t) (pow-suc 16 n),
        ))
  where
    pointer_path :
        (n ip acc : ℕ) (buf : List ℕ)
        → hex_value acc (pointer_loop (suc n) ip buf)
          ≡ hex_value acc (pointer_loop n (ip / 16) (hex_digit (ip % 16) ∷ buf))
    pointer_path n ip acc buf = ap (hex_value acc) (pointer_loop-suc n ip buf)

pub pointer_loop-All :
    (n ip : ℕ) (buf : List ℕ)
    → All IsHexDigit buf
    → All IsHexDigit (pointer_loop n ip buf) × (length (pointer_loop n ip buf) ≡ n + length buf)
unfolding pointer_loop
pointer_loop-All zero ip buf h = (h, omega arith)
pointer_loop-All (suc n) ip buf h =
    let digit = hex_digit-IsHexDigit (ip % 16) (omega arith) in
    let rest = pointer_loop-All n (ip / 16) (hex_digit (ip % 16) ∷ buf) (digit, h) in
    rw (pointer_loop-suc n ip buf) (rest.0, omega (arith, rest.1))

-- For every 64-bit address `pointer_print` puts the two characters 0x and sixteen upper-case
-- hexadecimal digits, which read back as the address, and counts the characters that it puts.
pub hex_value-pointer_print :
    (p : Ptr)
    → p < 2 ^ 64
    → (digits : List ℕ) × (pointer_print p ≡ (b'0' ∷ b'x' ∷ digits, 2 + length digits))
      × (length digits ≡ 16)
      × All IsHexDigit digits
      × (hex_value 0 digits ≡ p)
unfolding pointer_print
hex_value-pointer_print p h =
    let shape = pointer_loop-All 16 p [] tt in
    let all_digits : length (pointer_loop 16 p []) ≡ 16 = omega (arith, shape.1) in
    (
      pointer_loop 16 p [],
      rw all_digits refl,
      all_digits,
      shape.0,
      hex_value-pointer_loop 16 p 0 [] (omega arith) ∙ omega arith,
    )

pub pointer_print-length : (p : Ptr) → (pointer_print p).1 ≡ length (pointer_print p).0
unfolding pointer_print
pointer_print-length p = omega (arith, (pointer_loop-All 16 p [] tt).1)
