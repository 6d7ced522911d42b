-- ===== src/Kernel/Endian/Overloads.antt =====
-- The overloads of include/kernel/endian.h for C++: the width of the argument chooses the function.
use riscy_os.Prelude.{ℕ, ◌^◌, ◌<◌, ◌≡◌, Ptr, ap}
use riscy_os.Kernel.Endian.{
  Machine, IsBytes, load16, load32, load64, bswap16, bswap32, bswap64, be16toh, be32toh, be64toh,
  le16toh, le32toh, le64toh,
}
use riscy_os.Kernel.Endian.Laws.{
  bswap_twice, be16, be32, be64, le16, le32, le64, be-load, le-load, bswap-le,
}

-- An argument with its width: uint16_t, uint32_t or uint64_t.
pub data Word : Type 0 where
  word16 word32 word64 : ℕ → Word

pub bswap : Word → Word
bswap (word16 x) = word16 (bswap16 x)
bswap (word32 x) = word32 (bswap32 x)
bswap (word64 x) = word64 (bswap64 x)

pub betoh : Machine → Word → Word
betoh m (word16 x) = word16 (be16toh m x)
betoh m (word32 x) = word32 (be32toh m x)
betoh m (word64 x) = word64 (be64toh m x)

pub letoh : Machine → Word → Word
letoh m (word16 x) = word16 (le16toh m x)
letoh m (word32 x) = word32 (le32toh m x)
letoh m (word64 x) = word64 (le64toh m x)

abbrev pub Fits : Word → Type 0
Fits (word16 x) = x < 2 ^ 16
Fits (word32 x) = x < 2 ^ 32
Fits (word64 x) = x < 2 ^ 64

-- Swapping the bytes of a word of any width twice gives it back.
pub bswap_involutive : (w : Word) → Fits w → bswap (bswap w) ≡ w
unfolding bswap
bswap_involutive (word16 x) h = ap word16 (bswap_twice.0 x h)
bswap_involutive (word32 x) h = ap word32 (bswap_twice.1 x h)
bswap_involutive (word64 x) h = ap word64 (bswap_twice.2 x h)

pub data Width : Type 0 where
  bits16 bits32 bits64 : Width

-- The word that the machine reads at an address.
pub load : Machine → Width → Ptr → Word
load m bits16 p = word16 (load16 m p)
load m bits32 p = word32 (load32 m p)
load m bits64 p = word64 (load64 m p)

-- The words that the bytes at an address write with the highest byte first, and with the lowest.
pub be : Machine → Width → Ptr → Word
be m bits16 p = word16 (be16 m p)
be m bits32 p = word32 (be32 m p)
be m bits64 p = word64 (be64 m p)

pub le : Machine → Width → Ptr → Word
le m bits16 p = word16 (le16 m p)
le m bits32 p = word32 (le32 m p)
le m bits64 p = word64 (le64 m p)

-- On a machine of either byte order whose memory holds bytes, for a word of any width that the machine reads in memory:
-- `betoh` gives the word that the bytes write with the highest byte first, `letoh` the one that they
-- write with the lowest byte first, and `bswap` turns each of the two words into the other.
pub betoh-load :
    (m : Machine)
    → IsBytes m
    → (w : Width) (p : Ptr)
    → (betoh m (load m w p) ≡ be m w p)
      × (letoh m (load m w p) ≡ le m w p)
      × (bswap (be m w p) ≡ le m w p)
      × (bswap (le m w p) ≡ be m w p)
unfolding betoh letoh bswap load be le
betoh-load m bytes bits16 p =
    let (b, _, _) = be-load m bytes p in
    let (l, _, _) = le-load m bytes p in
    let ((to, from), _, _) = bswap-le m bytes p in
    (ap word16 b, ap word16 l, ap word16 from, ap word16 to)
betoh-load m bytes bits32 p =
    let (_, b, _) = be-load m bytes p in
    let (_, l, _) = le-load m bytes p in
    let (_, (to, from), _) = bswap-le m bytes p in
    (ap word32 b, ap word32 l, ap word32 from, ap word32 to)
betoh-load m bytes bits64 p =
    let (_, _, b) = be-load m bytes p in
    let (_, _, l) = le-load m bytes p in
    let (_, _, (to, from)) = bswap-le m bytes p in
    (ap word64 b, ap word64 l, ap word64 from, ap word64 to)
