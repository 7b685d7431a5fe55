-- ===== src/Viso/Names/Encoded.antt =====
-- utf8_to_ucs2 of src/VIsoFile.cpp on text that is properly encoded.
use ps3netsrv.Prelude.{
  ℕ, zero, suc, ◌+◌, ◌/◌, ◌%◌, ◌^◌, ◌<◌, ◌≡◌, refl, arith, ltb, if◌then◌else◌, some, List, [], ◌∷◌,
  ◌++◌, length, take,
}
use ps3netsrv.Viso.Names.{decoded, get_ucs2_from_utf8, ucs2_bytes, utf8_to_ucs2}

-- A continuation byte: six bits of a character from bit `k` on.
abbrev pub follow : ℕ → ℕ
follow x = 128 + x % 64

-- A character in UTF-8, for numbers below 2 ^ 21.
abbrev pub encode : ℕ → List ℕ
encode c =
    if ltb c 128
    then c ∷ []
    else if ltb c 2048
    then (192 + c / 64) ∷ follow c ∷ []
    else if ltb c 65536
    then (224 + c / 4096) ∷ follow (c / 64) ∷ follow c ∷ []
    else (240 + c / 262144) ∷ follow (c / 4096) ∷ follow (c / 64) ∷ follow c ∷ []

abbrev pub encode_all : List ℕ → List ℕ
encode_all [] = []
encode_all (c ∷ cs) = encode c ++ encode_all cs

abbrev pub Characters : List ℕ → Type 0
Characters [] = Unit {0}
Characters (c ∷ cs) = (0 < c) × (c < 2 ^ 21) × Characters cs

abbrev pub ucs2_all : List ℕ → List ℕ
ucs2_all [] = []
ucs2_all (c ∷ cs) = ucs2_bytes c ++ ucs2_all cs

get_ucs2_from_utf8-encode :
    (c : ℕ) (rest : List ℕ) → c < 2 ^ 21 → get_ucs2_from_utf8 (encode c ++ rest) ≡ decoded c rest
unfolding get_ucs2_from_utf8
get_ucs2_from_utf8-encode c rest small = ground arith

utf8_step :
    (bs : List ℕ) (ch : ℕ) (rest more : List ℕ) (n : ℕ)
    → 0 < length bs
    → get_ucs2_from_utf8 bs ≡ decoded ch rest
    → utf8_to_ucs2 rest n ≡ some more
    → utf8_to_ucs2 bs (suc n) ≡ some (ucs2_bytes ch ++ more)
unfolding utf8_to_ucs2
utf8_step [] ch rest more n some_bytes first later = absurd (omega arith)
utf8_step (b ∷ bs) ch rest more n some_bytes first later = rw (first, utf8_to_ucs2, later) refl

encode_starts : (c : ℕ) (rest : List ℕ) → 0 < length (encode c ++ rest)
encode_starts c rest = ground arith

-- Text in UTF-8 gives the characters one by one, at most as many as there is room for, each in two
-- bytes with the higher one first. It holds for all characters below 2 ^ 21 but 0; of one from 2 ^ 16
-- on the lower 16 bits are left.
pub utf8_to_ucs2-encode_all :
    (cs : List ℕ) (n : ℕ)
    → Characters cs
    → utf8_to_ucs2 (encode_all cs) n ≡ some (ucs2_all (take n cs))
unfolding utf8_to_ucs2
utf8_to_ucs2-encode_all cs zero valid = refl
utf8_to_ucs2-encode_all [] (suc n) valid = refl
utf8_to_ucs2-encode_all (c ∷ cs) (suc n) (positive, small, valid) =
    utf8_step (encode c ++ encode_all cs) c (encode_all cs) (ucs2_all (take n cs)) n
      (encode_starts c (encode_all cs)) (get_ucs2_from_utf8-encode c (encode_all cs) small)
      (utf8_to_ucs2-encode_all cs n valid)
