-- ===== src/Viso/Names.antt =====
-- The names of a virtual ISO: strncpy_upper, get_ucs2_from_utf8 (not the variant for Windows) and
-- utf8_to_ucs2 of src/VIsoFile.cpp. A string is a list of bytes without its final zero.
pub mod Encoded
use ps3netsrv.Prelude.{
  ℕ, zero, suc, ◌+◌, ◌-◌, ◌*◌, ◌/◌, ◌%◌, ◌^◌, ◌&&◌, ltb, leb, ◌==◌, if◌then◌else◌, Option, none,
  some, List, [], ◌∷◌, ◌++◌, length, get_or, drop,
}

abbrev pub to_upper : ℕ → ℕ
to_upper c = if leb 97 c && leb c 122 then c - 32 else c

-- strncpy_upper: at most `n` bytes of the string, of which it returns the number.
unfoldable pub strncpy_upper : List ℕ → ℕ → List ℕ
strncpy_upper s zero = []
strncpy_upper [] (suc n) = []
strncpy_upper (c ∷ s) (suc n) = to_upper c ∷ strncpy_upper s n

-- A character and what follows it, a byte that starts no character, or a character whose end lies behind
-- the end of the string.
pub data Decoded : Type 0 where
  decoded : ℕ → List ℕ → Decoded
  invalid overrun : Decoded

-- `input[i] & 0x3F`.
abbrev pub six_bits : List ℕ → ℕ → ℕ
six_bits input i = get_or input i 0 % 64

-- `*end_ptr = input + n`, with the character that is returned.
abbrev pub advance : List ℕ → ℕ → ℕ → Decoded
advance input n ch = if ltb (length input) n then overrun else decoded ch (drop n input)

-- `(x & mask) << k` is the low bits of x at their place, and `|` joins bits at different places, so it
-- is a sum. A test of leading bits is a test of the quotient.
unfoldable pub get_ucs2_from_utf8 : List ℕ → Decoded
get_ucs2_from_utf8 input =
    let b = get_or input 0 0 in
    if ltb b 128
    then advance input 1 b
    else if b / 32 == 6
    then advance input 2 (b % 32 * 64 + six_bits input 1)
    else if b / 16 == 14
    then advance input 3 (b % 16 * 4096 + six_bits input 1 * 64 + six_bits input 2)
    else if b / 8 == 30
    then advance input 4
        (b % 8 * 262144 + six_bits input 1 * 4096 + six_bits input 2 * 64 + six_bits input 3)
    else if b / 4 == 62
    then advance input 4 (
        b % 4 * 16777216
        + six_bits input 1 * 262144
        + six_bits input 2 * 4096
        + six_bits input 3 * 64
        + six_bits input 4)
    else if b / 2 == 126
    then advance input 5 (
        b % 2 * 1073741824
        + six_bits input 1 * 16777216
        + six_bits input 2 * 262144
        + six_bits input 3 * 4096
        + six_bits input 4 * 64
        + six_bits input 5)
    else invalid

-- BE16 of the low 16 bits, as it is stored.
abbrev pub ucs2_bytes : ℕ → List ℕ
ucs2_bytes ch = ch / 256 % 256 ∷ ch % 256 ∷ []

-- utf8_to_ucs2: the bytes of at most `max_length` characters; `none` is a read behind the string.
unfoldable pub utf8_to_ucs2 : List ℕ → ℕ → Option (List ℕ)
unfolding get_ucs2_from_utf8
utf8_to_ucs2 utf8 zero = some []
utf8_to_ucs2 [] (suc n) = some []
utf8_to_ucs2 (c ∷ cs) (suc n) = elim (get_ucs2_from_utf8 (c ∷ cs)) [
  | invalid ↦ some []
  | overrun ↦ none
  | decoded ch rest ↦ elim (utf8_to_ucs2 rest n) [
    | none ↦ none
    | some more ↦ some (ucs2_bytes ch ++ more)
  ]
]
