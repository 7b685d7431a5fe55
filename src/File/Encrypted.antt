-- ===== src/File/Encrypted.antt =====
-- Encrypted images in src/File.cpp: the table of regions that File::open makes, the part of File::read
-- that blanks the watermark and decrypts, and the functions on keys. The cipher, with the key set, is a
-- parameter: from an initial vector and a sector to the plain sector, `none` where the call fails.
pub mod Decrypt
use ps3netsrv.Prelude.{
  ℕ, zero, suc, ◌+◌, ◌-◌, ◌*◌, ◌/◌, ◌%◌, ◌^◌, Bool, true, false, not, ◌&&◌, ◌||◌, ltb, leb, ◌==◌,
  if◌then◌else◌, Option, none, some, List, [], ◌∷◌, ◌++◌, length, take, drop, replicate, get_or,
}

abbrev pub Cipher : Type 0
Cipher = List ℕ → List ℕ → Option (List ℕ)

-- PS3EncDiscType.
pub data DiscType : Type 0 where
  disc_none disc_3k3y_dec disc_3k3y_enc disc_redump : DiscType

-- PS3RegionInfo; `stop` is regions_last_addr + 1.
pub record Region : Type 0 where
  pub encrypted : Bool
  pub first : ℕ
  pub stop : ℕ

-- char_arr_BE_to_uint of the four bytes at `i`.
abbrev pub be_uint : List ℕ → ℕ → ℕ
be_uint arr i =
    get_or arr (i + 3) 0
    + 256 * (get_or arr (i + 2) 0 + 256 * (get_or arr (i + 1) 0 + 256 * get_or arr i 0))

-- `n` regions from number `i` on, the first one from `first` on; every second one is encrypted, and
-- ends one sector before the sector that the table names.
unfoldable pub regions : List ℕ → ℕ → ℕ → ℕ → List Region
regions sec0sec1 zero i first = []
regions sec0sec1 (suc n) i first =
    let stop = (be_uint sec0sec1 (12 + i * 4) + 1 - i % 2) * 2048 in
    record { encrypted = i % 2 == 1; first = first; stop = stop } ∷ regions sec0sec1 n (suc i) stop

-- The table of an image, `none` where the count is not proper.
unfoldable pub region_info : List ℕ → Option (List Region)
unfolding regions
region_info sec0sec1 =
    let region_count = be_uint sec0sec1 0 in
    if ltb 0 region_count && ltb region_count 32
    then some (regions sec0sec1 (region_count * 2 - 1) 0 0)
    else none

-- The first region that has the position.
abbrev pub find_region : List Region → ℕ → Option Region
find_region [] pos = none
find_region (r ∷ rs) pos = if leb r.first pos && ltb pos r.stop then some r else find_region rs pos

-- reset_iv.
abbrev pub reset_iv : ℕ → List ℕ
reset_iv lba =
    replicate 12 0 ++ lba / 2 ^ 24 % 256 ∷ lba / 2 ^ 16 % 256 ∷ lba / 2 ^ 8 % 256 ∷ lba % 256 ∷ []

-- decrypt_data: it stops at the first sector that the cipher does not take.
unfoldable pub decrypt_data : Cipher → ℕ → ℕ → List ℕ → List ℕ
decrypt_data cbc zero lba data_left = data_left
decrypt_data cbc (suc n) lba data_left = elim (cbc (reset_iv lba) (take 2048 data_left)) [
  | none ↦ data_left
  | some plain ↦ plain ++ decrypt_data cbc n ((lba + 1) % 2 ^ 32) (drop 2048 data_left)
]

-- What blanking the watermark comes to; `overrun` is a _memset past the end of the caller's buffer.
pub data Blanked : Type 0 where
  blanked : List ℕ → Blanked
  overrun : Blanked

-- The zeros over the bytes from 0xF70 to 0x1070 of the image, in a buffer of `nbyte` bytes of which
-- the read has stored `got` from `pos` on. The count is a size_t.
unfoldable pub blank : ℕ → ℕ → List ℕ → Blanked
blank pos nbyte got =
    let ret = length got in
    let start = if ltb pos 3952 then 3952 - pos else 0 in
    let count = if ltb (pos + ret) 4208 then ret - start else (256 + 2 ^ 64 - start) % 2 ^ 64 in
    if leb 3952 (pos + ret) && leb pos 4208
    then if ltb nbyte (start + count)
      then overrun
      else blanked (take ret (take start got ++ (replicate count 0 ++ drop (start + count) got)))
    else blanked got

-- What File::read makes of the bytes that read_file stored, where the image has a key or a watermark.
abbrev pub plain : Cipher → List Region → ℕ → List ℕ → List ℕ
plain cbc region_table pos got = elim (find_region region_table pos) [
  | none ↦ got
  | some r ↦
      if r.encrypted then decrypt_data cbc (length got / 2048) (pos / 2048 % 2 ^ 32) got else got
]

unfoldable pub read_encrypted : Cipher → DiscType → List Region → ℕ → ℕ → List ℕ → Blanked
unfolding blank decrypt_data
read_encrypted cbc disc_none region_table pos nbyte got = blanked got
read_encrypted cbc disc_3k3y_dec region_table pos nbyte got = blank pos nbyte got
read_encrypted cbc disc_3k3y_enc region_table pos nbyte got = elim (blank pos nbyte got) [
  | overrun ↦ overrun
  | blanked bytes ↦ blanked (plain cbc region_table pos bytes)
]
read_encrypted cbc disc_redump region_table pos nbyte got = blanked (plain cbc region_table pos got)

-- asciischar_to_byte and keystr_to_keyarr.
abbrev pub ascii_to_byte : ℕ → ℕ
ascii_to_byte c =
    if leb 48 c && leb c 57
    then c - 48
    else if leb 65 c && leb c 70
    then c - 55
    else if leb 97 c && leb c 102
    then c - 87
    else 0

unfoldable pub keystr_to_keyarr : List ℕ → List ℕ
keystr_to_keyarr (a ∷ b ∷ str) =
    (ascii_to_byte a * 16 + ascii_to_byte b) % 256 ∷ keystr_to_keyarr str
keystr_to_keyarr _ = []
