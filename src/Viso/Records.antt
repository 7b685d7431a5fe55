-- ===== src/Viso/Records.antt =====
-- Directory records of src/VIsoFile.cpp: the struct of include/iso9660.h as bytes, how buildContent
-- puts records into sectors, and the loops of findDirRecord and fixDirLba over them. A directory's
-- content is the list of its bytes.
pub mod Found
pub mod Pack
pub mod Packed
use ps3netsrv.Prelude.{
  ℕ, zero, suc, ◌+◌, ◌-◌, ◌*◌, ◌/◌, ◌%◌, ◌^◌, Bool, true, false, not, ◌&&◌, ltb, leb, ◌==◌,
  if◌then◌else◌, Option, none, some, List, [], ◌∷◌, ◌++◌, length, get_or, take, drop, replicate,
}
use ps3netsrv.Wire.{be16, be32, load32, store16, store32}
use ps3netsrv.Viso.{sector_size, round_up}
use ps3netsrv.Viso.Build.{same}

-- What genIso9660Time stores: the year since 1900, month, day, hour, minute and second, which
-- localtime computes.
pub record Time : Type 0 where
  pub year : ℕ
  pub month : ℕ
  pub day : ℕ
  pub hour : ℕ
  pub minute : ℕ
  pub second : ℕ

abbrev pub time_bytes : Time → List ℕ
time_bytes t = t.year ∷ t.month ∷ t.day ∷ t.hour ∷ t.minute ∷ t.second ∷ []

-- ISO_FILE, ISO_DIRECTORY and ISO_MULTIEXTENT.
abbrev pub iso_file : ℕ
iso_file = 0

abbrev pub iso_directory : ℕ
iso_directory = 2

abbrev pub iso_multiextent : ℕ
iso_multiextent = 128

-- `0x27 + len_fi`, made even, in a uint8_t.
abbrev pub record_len : ℕ → ℕ
record_len len_fi = let len = (39 + len_fi) % 256 in if len % 2 == 1 then (len + 1) % 256 else len

-- An Iso9660DirectoryRecord in a sector of zeros, of which `len_dr` bytes are copied.
abbrev pub dir_record : ℕ → ℕ → ℕ → Time → ℕ → List ℕ → List ℕ
dir_record len_dr start data_length time flags fi = take len_dr (
    len_dr
    ∷ 0
    ∷ (store32 start
        ++ store32 (be32 start)
        ++ store32 data_length
        ++ store32 (be32 data_length)
        ++ time_bytes time
        ++ (0 ∷ flags ∷ 0 ∷ 0 ∷ (store16 1 ++ store16 (be16 1) ++ length fi ∷ fi))
        ++ replicate 2048 0))

-- TEMP_BUF_SIZE.
abbrev pub temp_buf_size : ℕ
temp_buf_size = 4 * 1024 * 1024

-- A record that would reach the end of its sector starts the next one.
abbrev pub aligned : ℕ → ℕ → ℕ
aligned offs len = if ltb (offs / 2048) ((offs + len) / 2048) then round_up offs else offs

-- The record is copied behind what stands in tempBuf; `none` where there is no room.
unfoldable pub put_record : List ℕ → List ℕ → Option (List ℕ)
put_record bytes r =
    let offs = aligned (length bytes) (length r) in
    if leb temp_buf_size (offs + length r)
    then none
    else some (bytes ++ (replicate (offs - length bytes) 0 ++ r))

unfoldable pub put_records : List ℕ → List (List ℕ) → Option (List ℕ)
unfolding put_record
put_records bytes [] = some bytes
put_records bytes (r ∷ rs) = elim (put_record bytes r) [
  | none ↦ none
  | some more ↦ put_records more rs
]

-- The bytes up to the end of the last sector.
abbrev pub padded : List ℕ → List ℕ
padded bytes = bytes ++ replicate (round_up (length bytes) - length bytes) 0

-- Both loops step over the rest of a sector where a record of length 0 stands: how far the next record
-- is, `none` where the loop ends.
abbrev pub starts_record : List ℕ → Bool
starts_record [] = false
starts_record (len_dr ∷ rest) = not (len_dr == 0)

abbrev pub next_record : ℕ → List ℕ → Option ℕ
next_record pos [] = none
next_record pos (len_dr ∷ rest) =
    let gap = 2048 - pos % 2048 in
    if not (len_dr == 0)
    then some 0
    else if starts_record (drop gap (len_dr ∷ rest))
    then some gap
    else none

-- The comparison of an identifier: `len_fi` and the bytes behind it.
abbrev pub is_named : List ℕ → List ℕ → Bool
is_named name r = get_or r 32 0 == length name && same (take (length name) (drop 33 r)) name

-- findDirRecord: the position of the record with that identifier. A round takes a record, which has at
-- least one byte, so the number of bytes is fuel enough.
unfoldable pub find_dir_record : ℕ → List ℕ → ℕ → List ℕ → Option ℕ
find_dir_record zero name pos rest = none
find_dir_record (suc fuel) name pos rest = elim (next_record pos rest) [
  | none ↦ none
  | some gap ↦
      let r = drop gap rest in
      let later = find_dir_record fuel name (pos + gap + get_or r 0 0) (drop (get_or r 0 0) r) in
      if is_named name r then some (pos + gap) else later
]

-- The first block of a record, in both byte orders, moved by the first block of its area. What would be
-- written behind the end of the content is left out.
abbrev pub moved_bytes : ℕ → ℕ → List ℕ → List ℕ
moved_bytes dir_lba files_lba r =
    let lba = if get_or r 25 0 / 2 % 2 == 1 then dir_lba else files_lba in
    take 2 r
    ++ (store32 ((load32 r 2 + lba) % 2 ^ 32)
        ++ (store32 (be32 ((be32 (load32 r 6) + lba) % 2 ^ 32)) ++ drop 10 r))

abbrev pub move_record : ℕ → ℕ → List ℕ → List ℕ
move_record dir_lba files_lba r = take (length r) (moved_bytes dir_lba files_lba r)

-- fixDirLba, with fuel as findDirRecord has it.
unfoldable pub fix_dir_lba : ℕ → ℕ → ℕ → ℕ → List ℕ → List ℕ
fix_dir_lba zero dir_lba files_lba pos rest = rest
fix_dir_lba (suc fuel) dir_lba files_lba pos rest = elim (next_record pos rest) [
  | none ↦ rest
  | some gap ↦
      let r = move_record dir_lba files_lba (drop gap rest) in
      take gap rest
      ++ (take (get_or r 0 0) r
          ++ fix_dir_lba fuel dir_lba files_lba (pos + gap + get_or r 0 0) (drop (get_or r 0 0) r))
]
