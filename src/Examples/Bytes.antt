-- ===== src/Examples/Bytes.antt =====
-- Memory that holds a list of bytes, for the trees of the examples.
use riscy_os.Prelude.{
  ℕ, zero, suc, ◌-◌, ◌+◌, ◌%◌, ◌<◌, true, List, [], ◌∷◌, ltb, if◌then◌else◌, arith,
}
use riscy_os.Kernel.Endian.{Machine, IsBytes}

unfoldable pub byte_of : List ℕ → ℕ → ℕ
byte_of [] i = 0
byte_of (b ∷ bs) zero = b % 256
byte_of (b ∷ bs) (suc i) = byte_of bs i

byte_of-lt : (bs : List ℕ) (i : ℕ) → byte_of bs i < 256
unfolding byte_of
byte_of-lt [] i = omega arith
byte_of-lt (b ∷ bs) zero = omega arith
byte_of-lt (b ∷ bs) (suc i) = byte_of-lt bs i

-- The bytes stand at 4096, and all other bytes are 0.
abbrev pub base : ℕ
base = 4096

abbrev pub holding : List ℕ → Machine
holding bytes = record {
  little = true;
  byte = λ p. byte_of bytes (p - base + (if ltb p base then 1000 else 0));
}

pub IsBytes-holding : (bytes : List ℕ) → IsBytes (holding bytes)
IsBytes-holding bytes p = byte_of-lt bytes (p - base + (if ltb p base then 1000 else 0))
