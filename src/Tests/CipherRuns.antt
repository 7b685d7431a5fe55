-- ===== src/Tests/CipherRuns.antt =====
-- Decryption with a cipher that puts the last byte of its initial vector first.
use ps3netsrv.Prelude.{
  ℕ, ◌+◌, ◌≡◌, refl, arith, true, false, ltb, some, List, [], ◌∷◌, ◌++◌, length, length-replicate,
  drop, replicate, get_or,
}
use ps3netsrv.Path.{is_some}
use ps3netsrv.File.Encrypted.{
  Cipher, regions, region_info, find_region, decrypt_data, overrun, blank, keystr_to_keyarr,
}
use ps3netsrv.File.Encrypted.Decrypt.{
  TakesSectors, decrypt_data-append, reaches, find_region-reaches, to_hex, keystr_to_keyarr-to_hex,
  blank-eq-overrun,
}

abbrev marking : Cipher
marking iv bytes = some (get_or iv 15 0 ∷ drop 1 bytes)

TakesSectors-marking : TakesSectors marking
TakesSectors-marking iv bytes len = (get_or iv 15 0 ∷ drop 1 bytes, refl)

abbrev sector : List ℕ
sector = replicate 2048 9

decrypt_data-append_example :
    decrypt_data marking (1 + 1) 5 (sector ++ sector)
    ≡ decrypt_data marking 1 5 sector ++ decrypt_data marking 1 (5 + 1) sector
decrypt_data-append_example =
    decrypt_data-append marking TakesSectors-marking 1 1 5 sector sector
      (length-replicate {A = ℕ} 2048 9) (omega arith)

-- Two plain regions around an encrypted one: sectors 0 to 1, 2 to 3 and 4 to 5.
abbrev table : List ℕ
table =
    0 ∷ 0 ∷ 0 ∷ 2 ∷ 0 ∷ 0 ∷ 0 ∷ 0 ∷ 0 ∷ 0 ∷ 0 ∷ 0 ∷ 0 ∷ 0 ∷ 0 ∷ 1 ∷ 0 ∷ 0 ∷ 0 ∷ 4 ∷ 0 ∷ 0 ∷ 0 ∷ 5
    ∷ []

three_regions :
    region_info table
    ≡ some (
        record { encrypted = false; first = 0; stop = 4096 }
        ∷ record { encrypted = true; first = 4096; stop = 8192 }
        ∷ record { encrypted = false; first = 8192; stop = 12288 }
        ∷ [])
unfolding region_info regions
three_regions = refl

find_region-reaches_example :
    is_some (find_region (regions table 3 0 0) 5000) ≡ reaches (regions table 3 0 0) 5000
find_region-reaches_example = find_region-reaches table 3 0 0 5000 (omega arith)

keystr_to_keyarr-to_hex_example :
    keystr_to_keyarr (to_hex (λ j. ltb 0 j) 0 (171 ∷ 0 ∷ 255 ∷ [])) ≡ 171 ∷ 0 ∷ 255 ∷ []
keystr_to_keyarr-to_hex_example =
    keystr_to_keyarr-to_hex (λ j. ltb 0 j) 0 (171 ∷ 0 ∷ 255 ∷ [])
      (omega arith, (omega arith, (omega arith, record {})))

abbrev three_sectors : List ℕ
three_sectors = replicate 6144 1

blank-eq-overrun_example : blank 0 6144 three_sectors ≡ overrun
blank-eq-overrun_example =
    let len : length three_sectors ≡ 6144 = length-replicate {A = ℕ} 6144 1 in
    blank-eq-overrun 0 6144 three_sectors (omega arith) (omega (arith, len)) (omega arith)
