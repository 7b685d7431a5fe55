-- ===== src/File/Encrypted/Decrypt.antt =====
-- Decryption in src/File.cpp does not depend on how a range of sectors is read, the regions leave no
-- gap, a key survives its text form, and the zeros over a watermark can leave the buffer.
use ps3netsrv.Prelude.{
  ℕ, zero, suc, ◌+◌, ◌-◌, ◌*◌, ◌/◌, ◌%◌, ◌^◌, ◌≤◌, ◌<◌, ◌≡◌, inl, inr, refl, sym, ap, ◌∙◌, arith,
  Bool, true, false, ltb, leb, if◌then◌else◌, Bool-cases, some, List, [], ◌∷◌, ◌++◌, length,
  length-take, length-drop, append_assoc, take, drop,
}
use ps3netsrv.Path.{is_some}
use ps3netsrv.File.Encrypted.{
  Cipher, Region, be_uint, regions, find_region, reset_iv, decrypt_data, overrun, blank,
  ascii_to_byte, keystr_to_keyarr,
}

-- A cipher takes every sector of 2048 bytes, since that is a multiple of its block.
abbrev pub TakesSectors : Cipher → Type 0
TakesSectors cbc =
    (iv bytes : List ℕ) → length bytes ≡ 2048 → (plain : List ℕ) × (cbc iv bytes ≡ some plain)

take-front : (n : ℕ) (xs ys : List ℕ) → n ≤ length xs → take n (xs ++ ys) ≡ take n xs
take-front zero xs ys h = refl
take-front (suc n) [] ys h = absurd (omega (arith, h))
take-front (suc n) (x ∷ xs) ys h = ap (λ t. x ∷ t) (take-front n xs ys (omega (arith, h)))

drop-front : (n : ℕ) (xs ys : List ℕ) → n ≤ length xs → drop n (xs ++ ys) ≡ drop n xs ++ ys
drop-front zero xs ys h = refl
drop-front (suc n) [] ys h = absurd (omega (arith, h))
drop-front (suc n) (x ∷ xs) ys h = drop-front n xs ys (omega (arith, h))

nothing_of : (xs : List ℕ) → length xs ≡ 0 → xs ≡ []
nothing_of [] h = refl
nothing_of (x ∷ xs) h = absurd (omega (arith, h))

-- Sectors that are read together are decrypted as when they are read one range after the other, each
-- from its own sector number on, for a cipher that takes every sector and sector numbers below 2^32.
pub decrypt_data-append :
    (cbc : Cipher)
    → TakesSectors cbc
    → (n m lba : ℕ) (xs ys : List ℕ) → length xs ≡ n * 2048
    → lba + n < 2 ^ 32
    → decrypt_data cbc (n + m) lba (xs ++ ys)
      ≡ decrypt_data cbc n lba xs ++ decrypt_data cbc m (lba + n) ys
unfolding decrypt_data
decrypt_data-append cbc takes zero m lba xs ys len small =
    let empty = nothing_of xs len in
    let same : lba + 0 ≡ lba = omega arith in
    let all : 0 + m ≡ m = omega arith in rw (empty, same, all) refl
decrypt_data-append cbc takes (suc n) m lba xs ys len small =
    let more : suc n + m ≡ suc (n + m) = omega arith in
    let first = take-front 2048 xs ys (omega (arith, len)) in
    let rest = drop-front 2048 xs ys (omega (arith, len)) in
    let (plain, done) =
      takes (reset_iv lba) (take 2048 xs) (length-take 2048 xs ∙ omega (arith, len)) in
    let next : (lba + 1) % 2 ^ 32 ≡ lba + 1 = omega (arith, small) in
    let at : lba + 1 + n ≡ lba + suc n = omega arith in
    let others =
      decrypt_data-append cbc takes n m (lba + 1) (drop 2048 xs) ys
        (length-drop 2048 xs ∙ omega (arith, len)) (omega (arith, small)) in
    rw (more, decrypt_data, first, done, rest, next)
      (ap (λ t. plain ++ t)
          (others
            ∙ ap (λ k. decrypt_data cbc n (lba + 1) (drop 2048 xs) ++ decrypt_data cbc m k ys) at)
        ∙ sym (
            append_assoc plain (decrypt_data cbc n (lba + 1) (drop 2048 xs))
              (decrypt_data cbc m (lba + suc n) ys)))

-- Some region of the table ends behind the position.
abbrev pub reaches : List Region → ℕ → Bool
reaches [] pos = false
reaches (r ∷ rs) pos = if ltb pos r.stop then true else reaches rs pos

-- The regions of a table leave no gap: from the start of the first one on, a position lies in a region
-- exactly where some region ends behind it.
pub find_region-reaches :
    (sec0sec1 : List ℕ) (n i first pos : ℕ)
    → first ≤ pos
    → is_some (find_region (regions sec0sec1 n i first) pos)
      ≡ reaches (regions sec0sec1 n i first) pos
unfolding regions
find_region-reaches sec0sec1 zero i first pos h = refl
find_region-reaches sec0sec1 (suc n) i first pos h =
    let stop = (be_uint sec0sec1 (12 + i * 4) + 1 - i % 2) * 2048 in
    let started : leb first pos ≡ true = ground (arith, h) in
    elim (Bool-cases (ltb pos stop)) [
      | inl inside ↦ rw (started, inside) refl
      | inr behind ↦
          rw (started, behind)
            (find_region-reaches sec0sec1 n (suc i) stop pos (ground (arith, behind)))
    ]

-- A digit, and the bytes of a key as text.
abbrev pub hex_digit : Bool → ℕ → ℕ
hex_digit lower k = if ltb k 10 then 48 + k else if lower then 87 + k else 55 + k

-- The digits from number `i` on, of which `lower` says for each whether a letter is a small one.
abbrev pub to_hex : (ℕ → Bool) → ℕ → List ℕ → List ℕ
to_hex lower i [] = []
to_hex lower i (b ∷ bs) =
    hex_digit (lower i) (b / 16) ∷ hex_digit (lower (i + 1)) (b % 16) ∷ to_hex lower (i + 2) bs

abbrev pub Bytes : List ℕ → Type 0
Bytes [] = Unit {0}
Bytes (b ∷ bs) = (b < 256) × Bytes bs

digit-hex : (lower : Bool) (k : ℕ) → k < 16 → ascii_to_byte (hex_digit lower k) ≡ k
digit-hex true k h = ground (arith, h)
digit-hex false k h = ground (arith, h)

-- A key that is written out in hexadecimal digits, with capital and small letters in any mixture, is
-- read back as it was.
pub keystr_to_keyarr-to_hex :
    (lower : ℕ → Bool) (i : ℕ) (arr : List ℕ)
    → Bytes arr
    → keystr_to_keyarr (to_hex lower i arr) ≡ arr
unfolding keystr_to_keyarr
keystr_to_keyarr-to_hex lower i [] small = refl
keystr_to_keyarr-to_hex lower i (b ∷ bs) (h, small) =
    let high = digit-hex (lower i) (b / 16) (omega (arith, h)) in
    let low = digit-hex (lower (i + 1)) (b % 16) (omega arith) in
    let both : (b / 16 * 16 + b % 16) % 256 ≡ b = omega (arith, h) in
    rw (high, low, both) (ap (λ t. b ∷ t) (keystr_to_keyarr-to_hex lower (i + 2) bs small))

-- A read of an image with a watermark that starts more than 256 bytes before it and reaches its end
-- makes File::read blank bytes past the end of the caller's buffer.
pub blank-eq-overrun :
    (pos nbyte : ℕ) (got : List ℕ)
    → pos + 256 < 3952
    → 4208 ≤ pos + length got
    → nbyte < 2 ^ 63
    → blank pos nbyte got ≡ overrun
unfolding blank
blank-eq-overrun pos nbyte got early late small = ground (arith, early, late, small)
