-- ===== src/Wire.antt =====
-- Byte order of the protocol (include/common.h, the branch for a little-endian host) and the
-- 16-byte commands of include/netiso.h as the structs that the handlers read their fields from.
pub mod ByteOrder
use ps3netsrv.Prelude.{ℕ, ◌+◌, ◌-◌, ◌*◌, ◌/◌, ◌%◌, ◌^◌, List, [], ◌∷◌, get_or}

-- `(x << k) & mask` of one byte is that byte at its new place, `(x >> k) & 0xff` is a byte of `x`,
-- and `|` joins bytes at different places, so it is a sum.
abbrev pub byte_of : ℕ → ℕ → ℕ
byte_of x k = x / 2 ^ k % 256

unfoldable pub be16 : ℕ → ℕ
be16 x = byte_of x 0 * 2 ^ 8 + byte_of x 8

unfoldable pub be32 : ℕ → ℕ
be32 x = byte_of x 0 * 2 ^ 24 + byte_of x 8 * 2 ^ 16 + byte_of x 16 * 2 ^ 8 + byte_of x 24

unfoldable pub be64 : ℕ → ℕ
be64 x =
    byte_of x 0 * 2 ^ 56
    + byte_of x 8 * 2 ^ 48
    + byte_of x 16 * 2 ^ 40
    + byte_of x 24 * 2 ^ 32
    + byte_of x 32 * 2 ^ 24
    + byte_of x 40 * 2 ^ 16
    + byte_of x 48 * 2 ^ 8
    + byte_of x 56

-- An integer field of a packed struct at byte `i`, as a little-endian host loads it.
abbrev pub load16 : List ℕ → ℕ → ℕ
load16 b i = get_or b i 0 + get_or b (i + 1) 0 * 2 ^ 8

abbrev pub load32 : List ℕ → ℕ → ℕ
load32 b i = load16 b i + load16 b (i + 2) * 2 ^ 16

abbrev pub load64 : List ℕ → ℕ → ℕ
load64 b i = load32 b i + load32 b (i + 4) * 2 ^ 32

-- The same integer as a host stores it in a result struct.
abbrev pub store16 : ℕ → List ℕ
store16 x = byte_of x 0 ∷ byte_of x 8 ∷ []

abbrev pub store32 : ℕ → List ℕ
store32 x = byte_of x 0 ∷ byte_of x 8 ∷ byte_of x 16 ∷ byte_of x 24 ∷ []

abbrev pub store64 : ℕ → List ℕ
store64 x =
    byte_of x 0
    ∷ byte_of x 8
    ∷ byte_of x 16
    ∷ byte_of x 24
    ∷ byte_of x 32
    ∷ byte_of x 40
    ∷ byte_of x 48
    ∷ byte_of x 56
    ∷ []

-- NONE, which is -1, in 32 and in 64 bits.
abbrev pub none32 : ℕ
none32 = 2 ^ 32 - 1

abbrev pub none64 : ℕ
none64 = 2 ^ 64 - 1
