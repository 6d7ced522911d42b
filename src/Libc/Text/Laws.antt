-- ===== src/Libc/Text/Laws.antt =====
-- `strlen` and `strcmp` on texts that lie in memory.
use riscy_os.Prelude.{
  ℕ, zero, suc, ◌+◌, ◌^◌, ◌≤◌, ◌<◌, ◌≡◌, ◌≢◌, false, List, [], ◌∷◌, inl, inr, Ptr, null, ◌==◌,
  if◌then◌else◌, length, arith, Bool-cases, ap, ◌∙◌, add64, ok, ==→ne, ne→==,
}
use mathlib.Core.Path.{subst}
use riscy_os.Prelude.Int.{ℤ, pos, sub_ℕ}
use riscy_os.Kernel.Endian.{Machine}
use riscy_os.Libc.Text.{strlen_loop, strlen}

-- The bytes at `p` are the text `s` and its terminator.
abbrev pub Holds : Machine → Ptr → List ℕ → Type 0
Holds m p [] = m.byte p ≡ 0
Holds m p (c ∷ s) = (m.byte p ≡ c) × (c ≢ 0) × Holds m (add64 p 1) s

-- A result of the loop lies between `len` and the fuel.
pub strlen_loop-bounds :
    (m : Machine) (fuel str len n : ℕ)
    → len + fuel ≤ 2 ^ 64
    → strlen_loop m fuel str len ≡ ok n
    → (len ≤ n) × (n < len + fuel) × (m.byte (add64 str n) ≡ 0)
unfolding strlen_loop
strlen_loop-bounds m zero str len n h e = cc
strlen_loop-bounds m (suc fuel) str len n h e =
    ground (arith, strlen_loop-bounds m fuel str (add64 len 1) n)

pub strlen-lt : (m : Machine) (fuel str n : ℕ) → fuel ≤ 2 ^ 64 → strlen m fuel str ≡ ok n → n < fuel
unfolding strlen
strlen-lt m fuel str n h e = ground (arith, strlen_loop-bounds m fuel str 0 n)

-- A zero byte at `top` within the fuel ends the loop.
strlen_loop-ok :
    (m : Machine) (fuel str len top : ℕ)
    → m.byte top ≡ 0
    → top < 2 ^ 62
    → str + len ≤ top
    → top < str + len + fuel
    → (n : ℕ) × (strlen_loop m fuel str len ≡ ok n)
unfolding strlen_loop
strlen_loop-ok m zero str len top nul low le enough = absurd (omega arith)
strlen_loop-ok m (suc fuel) str len top nul low le enough =
    elim (Bool-cases (m.byte (add64 str len) == 0)) [
      | inl stop ↦ (len, rw stop)
      | inr more ↦
          let not_top : add64 str len ≢ top =
            λ e. ==→ne (m.byte (add64 str len)) 0 more (ap m.byte e ∙ nul) in
          let step : add64 len 1 ≡ len + 1 = omega arith in
          rw more (strlen_loop-ok m fuel str (add64 len 1) top nul low (omega arith) (omega arith))
    ]

pub strlen-ok :
    (m : Machine) (fuel str top : ℕ)
    → m.byte top ≡ 0
    → top < 2 ^ 62
    → 0 < str
    → str ≤ top
    → top < str + fuel
    → (n : ℕ) × (strlen m fuel str ≡ ok n)
unfolding strlen
strlen-ok m fuel str top nul low pos_str le enough =
    rw (ne→== str 0 (omega arith))
      (strlen_loop-ok m fuel str 0 top nul low (omega arith) (omega arith))

strlen_loop-length :
    (m : Machine) (fuel str len : ℕ) (s : List ℕ)
    → str + len + length s < 2 ^ 64
    → Holds m (add64 str len) s
    → length s < fuel
    → strlen_loop m fuel str len ≡ ok (len + length s)
unfolding strlen_loop
strlen_loop-length m zero str len s h t enough = absurd (omega arith)
strlen_loop-length m (suc fuel) str len [] h t enough = ground (arith, t)
strlen_loop-length m (suc fuel) str len (c ∷ s) h t enough =
    let step : add64 len 1 ≡ len + 1 = omega arith in
    let at : add64 (add64 str len) 1 ≡ add64 str (add64 len 1) = omega arith in
    let rest : Holds m (add64 str (add64 len 1)) s = subst (λ p. Holds m p s) at t.2 in
    let more : (m.byte (add64 str len) == 0) ≡ false = ground (arith, t.0, t.1) in
    rw more (
      strlen_loop-length m fuel str (add64 len 1) s (omega arith) rest (omega arith)
      ∙ ap ok (omega arith))

-- `strlen` returns the length of the text at its argument, which is not NULL, if the text lies
-- within the address space and the fuel exceeds its length.
pub strlen_lem :
    (m : Machine) (fuel str : ℕ) (s : List ℕ)
    → str ≢ null
    → str + length s < 2 ^ 64
    → length s < fuel
    → Holds m str s
    → strlen m fuel str ≡ ok (length s)
unfolding strlen
strlen_lem m fuel str s ne fits enough t =
    let at : add64 str 0 ≡ str = omega arith in
    rw (ne→== str 0 ne)
      (strlen_loop-length m fuel str 0 s (omega arith) (rw at t) enough ∙ ap ok (omega arith))

-- Lexicographic order of two texts, the terminator below every character.
abbrev pub order : List ℕ → List ℕ → ℤ
order [] [] = pos 0
order [] (d ∷ t) = sub_ℕ 0 d
order (c ∷ s) [] = sub_ℕ c 0
order (c ∷ s) (d ∷ t) = if c == d then order s t else sub_ℕ c d

sub_ℕ-refl : (c : ℕ) → sub_ℕ c c ≡ pos 0
sub_ℕ-refl c = ground arith
