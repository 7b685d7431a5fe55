-- ===== src/Viso/Volume.antt =====
-- write of src/VIsoFile.cpp: the area of the file system in front of the files, with the descriptors of
-- include/iso9660.h, the path tables and the directories. The code writes each piece at its offset in a
-- buffer of zeros; here the pieces are filled up with zeros to their sectors and joined.
pub mod Fixed
pub mod Placement
pub mod Standing
use ps3netsrv.Prelude.{
  ℕ, zero, suc, ◌+◌, ◌-◌, ◌*◌, ◌/◌, ◌%◌, ◌^◌, Bool, true, false, ltb, leb, ◌==◌, if◌then◌else◌,
  Option, none, some, List, [], ◌∷◌, ◌++◌, length, take, drop, replicate, flatten,
}
use ps3netsrv.Wire.{be16, be32, store16, store32}
use ps3netsrv.Viso.{bytes_to_sectors}
use ps3netsrv.Viso.Names.{strncpy_upper}
use ps3netsrv.Viso.Tables.{LaidOut}

-- What localtime gives: the year, the month from 1 on, and the rest of the date and time.
pub record Moment : Type 0 where
  pub year : ℕ
  pub month : ℕ
  pub day : ℕ
  pub hour : ℕ
  pub minute : ℕ
  pub second : ℕ

-- `& 0xF`, and the digit.
abbrev pub digit : ℕ → ℕ
digit x = x % 16 + 48

abbrev pub two_digits : ℕ → List ℕ
two_digits x = digit (x / 10) ∷ (x % 10 + 48) ∷ []

-- genIso9660TimePvd.
abbrev pub volume_time : Moment → List ℕ
volume_time t =
    let thousands = t.year / 1000 % 16 in
    let hundreds = (t.year - thousands * 1000) / 100 % 16 in
    let tens = (t.year - thousands * 1000 - hundreds * 100) / 10 % 16 in
    (thousands + 48)
    ∷ (hundreds + 48)
    ∷ (tens + 48)
    ∷ (t.year % 10 + 48)
    ∷ (((if leb 10 t.month then 49 else 48) ∷ (t.month % 10 + 48) ∷ [])
        ++ (two_digits t.day
            ++ (two_digits t.hour
                ++ (two_digits t.minute ++ (two_digits t.second ++ 48 ∷ 48 ∷ 0 ∷ [])))))

-- `text` in a field of `n` bytes, filled up with `c`.
unfoldable pub field_of : ℕ → ℕ → List ℕ → List ℕ
field_of n c text = take n text ++ replicate (n - length (take n text)) c

-- "CD001".
abbrev pub standard_id : List ℕ
standard_id = 67 ∷ 68 ∷ 48 ∷ 48 ∷ 49 ∷ []

-- What the two descriptors share: the numbers in both byte orders.
abbrev pub both16 : ℕ → List ℕ
both16 x = store16 x ++ store16 (be16 x)

abbrev pub both32 : ℕ → List ℕ
both32 x = store32 x ++ store32 (be32 x)

-- `_memcpy(pvd->rootDirectoryRecord, ..., 34)`, with its length.
unfoldable pub root_record : List ℕ → List ℕ
root_record content = 34 ∷ field_of 33 0 (drop 1 content)

-- The times of a volume: its creation, and three that are not set.
unfoldable pub volume_times : Moment → List ℕ
volume_times now =
    volume_time now
    ++ ((replicate 16 48 ++ 0 ∷ []) ++ ((replicate 16 48 ++ 0 ∷ []) ++ (replicate 16 48 ++ 0 ∷ [])))

-- An Iso9660PVD: `kind` is the type, `blank` fills the text fields, and `identifier` has 32 bytes.
unfoldable pub descriptor : ℕ → ℕ → List ℕ → List ℕ → ℕ → ℕ → ℕ → ℕ → List ℕ → Moment → List ℕ
descriptor kind blank identifier escapes volume_size table_size table_l table_m root now = flatten (
    (kind ∷ (standard_id ++ 1 ∷ 0 ∷ []))
    ∷ replicate 32 blank
    ∷ identifier
    ∷ replicate 8 0
    ∷ both32 volume_size
    ∷ field_of 32 0 escapes
    ∷ both16 1
    ∷ both16 1
    ∷ both16 2048
    ∷ both32 table_size
    ∷ store32 table_l
    ∷ store32 0
    ∷ store32 (be32 table_m)
    ∷ store32 0
    ∷ root_record root
    ∷ field_of 128 blank identifier
    ∷ replicate 128 blank
    ∷ replicate 128 blank
    ∷ replicate 128 blank
    ∷ replicate 37 blank
    ∷ replicate 37 blank
    ∷ replicate 37 blank
    ∷ volume_times now
    ∷ (1 ∷ 0 ∷ replicate 512 0)
    ∷ replicate 653 0
    ∷ [])

-- What `write` is given: `joliet_name` is the volume name in UCS-2, and `random` what get_rand
-- delivers for the disc information of a PS3 image.
pub record Volume : Type 0 where
  pub ps3_mode : Bool
  pub name : List ℕ
  pub joliet_name : List ℕ
  pub game_code : List ℕ
  pub random : List ℕ
  pub now : Moment
  pub volume_size : ℕ

-- "PlayStation3".
abbrev pub console_id : List ℕ
console_id = 80 ∷ 108 ∷ 97 ∷ 121 ∷ 83 ∷ 116 ∷ 97 ∷ 116 ∷ 105 ∷ 111 ∷ 110 ∷ 51 ∷ []

-- DiscInfoSector: the product is the game code with a dash behind its first four characters.
unfoldable pub disc_info : Volume → List ℕ
disc_info v =
    field_of 16 0 console_id
    ++ ((field_of 4 0 v.game_code ++ (45 ∷ (field_of 5 0 (drop 4 v.game_code) ++ replicate 22 32)))
        ++ (replicate 16 0 ++ field_of 448 0 v.random))

-- The first 16 sectors; those of a PS3 image begin with the ranges and the disc information.
unfoldable pub system_area : Volume → List ℕ
system_area v =
    if v.ps3_mode
    then field_of 2048 0 (
        store32 (be32 1) ++ (store32 0 ++ (store32 (be32 0) ++ store32 (be32 (v.volume_size - 1)))))
      ++ field_of 30720 0 (disc_info v)
    else replicate 32768 0

unfoldable pub primary : Volume → LaidOut → List ℕ
primary v a =
    descriptor 1 32 (field_of 32 32 (strncpy_upper v.name 32)) [] v.volume_size a.table_size 20
      ((20 + bytes_to_sectors a.table_size) % 2 ^ 32) (take 34 (flatten (take 1 a.contents))) v.now

-- "%/@".
unfoldable pub joliet : Volume → LaidOut → List ℕ
joliet v a =
    let after = bytes_to_sectors a.table_size * 2 in
    descriptor 2 0 (field_of 32 0 v.joliet_name) (37 ∷ 47 ∷ 64 ∷ []) v.volume_size a.joliet_size
      ((20 + after) % 2 ^ 32) ((20 + after + bytes_to_sectors a.joliet_size) % 2 ^ 32)
      (take 34 (flatten (take 1 a.joliet_contents))) v.now

-- A path table in its sectors: `size` bytes are copied.
unfoldable pub table_area : ℕ → List ℕ → List ℕ
table_area size table = field_of (bytes_to_sectors size * 2048) 0 (take size table)

unfoldable pub write : Volume → LaidOut → List ℕ
write v a = flatten (
    system_area v
    ∷ primary v a
    ∷ joliet v a
    ∷ field_of 2048 0 (255 ∷ standard_id)
    ∷ replicate 2048 0
    ∷ table_area a.table_size a.table_l
    ∷ table_area a.table_size a.table_m
    ∷ table_area a.joliet_size a.joliet_l
    ∷ table_area a.joliet_size a.joliet_m
    ∷ flatten a.contents
    ∷ flatten a.joliet_contents
    ∷ [])
