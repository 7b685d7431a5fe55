-- ===== src/Viso/Tables.antt =====
-- buildPathTable, fixPathTableLba and fixLba of src/VIsoFile.cpp. An Iso9660PathTable of
-- include/iso9660.h is the list of its bytes.
pub mod Blocks
pub mod Entries
use ps3netsrv.Prelude.{
  ℕ, zero, suc, ◌+◌, ◌-◌, ◌*◌, ◌/◌, ◌%◌, ◌^◌, Bool, true, false, ltb, leb, ◌==◌, if◌then◌else◌,
  Option, none, some, List, [], ◌∷◌, ◌++◌, map, length, get_or, take, drop, replicate,
}
use ps3netsrv.Wire.{be16, be32, load32, store16, store32}
use ps3netsrv.Viso.{bytes_to_sectors}
use ps3netsrv.Viso.Records.{Time, temp_buf_size, fix_dir_lba}
use ps3netsrv.Viso.Content.{Directory, dir_id, build_contents}

-- The blank byte behind an identifier of odd length.
abbrev pub blank_byte : ℕ → List ℕ
blank_byte len = if len % 2 == 1 then 0 ∷ [] else []

-- The entry with the identifier `id`, which copies the first block from the first record of the content.
abbrev pub table_entry : Bool → List ℕ → ℕ → List ℕ → List ℕ
table_entry msb content parent_idx id =
    length id
    ∷ 0
    ∷ ((if msb then take 4 (drop 6 content) else take 4 (drop 2 content))
        ++ (store16 (if msb then be16 parent_idx else parent_idx)
            ++ (id ++ blank_byte (length id))))

-- Identifier and parent number of directory `i`; the root is number 1 and its own parent.
abbrev pub entry_id : Bool → ℕ → Directory → Option (List ℕ)
entry_id joliet zero d = some (0 ∷ [])
entry_id joliet (suc i) d = dir_id joliet d.name

abbrev pub parent_number : ℕ → Directory → ℕ
parent_number zero d = 1
parent_number (suc i) d = (d.parent % 2 ^ 16 + 1) % 2 ^ 16

-- buildPathTable, from directory `i` on, with what has been written; `none` where the temporary buffer
-- has no room for the longest entry, or a name ends within a character.
unfoldable pub build_path_table :
    Bool → Bool → List (List ℕ) → ℕ → List Directory → List ℕ → Option (List ℕ)
build_path_table msb joliet contents i [] table = some table
build_path_table msb joliet contents i (d ∷ ds) table = elim (i == 65536) [
  | true ↦ some table
  | false ↦ elim (ltb temp_buf_size (length table + 8 + 254)) [
    | true ↦ none
    | false ↦ elim (entry_id joliet i d) [
      | none ↦ none
      | some id ↦
          build_path_table msb joliet contents (suc i) ds
            (table ++ table_entry msb (get_or contents i []) (parent_number i d) id)
    ]
  ]
]

-- The first block of an entry, moved.
abbrev pub move_entry : Bool → ℕ → List ℕ → List ℕ
move_entry msb dir_lba p =
    let location = load32 p 2 in
    take 2 p
    ++ (store32
          (if msb then be32 ((be32 location + dir_lba) % 2 ^ 32) else (location + dir_lba) % 2 ^ 32)
        ++ drop 6 p)

-- The bytes of the entry at the start.
abbrev pub entry_len : List ℕ → ℕ
entry_len p = 8 + get_or p 0 0 + get_or p 0 0 % 2

-- fixPathTableLba; a round takes at least 8 bytes, so the number of bytes is fuel enough.
unfoldable pub fix_path_table_lba : ℕ → Bool → ℕ → List ℕ → List ℕ
fix_path_table_lba fuel msb dir_lba [] = []
fix_path_table_lba zero msb dir_lba (b ∷ p) = b ∷ p
fix_path_table_lba (suc fuel) msb dir_lba (b ∷ p) =
    let fixed = move_entry msb dir_lba (b ∷ p) in
    let n = entry_len (b ∷ p) in take n fixed ++ fix_path_table_lba fuel msb dir_lba (drop n fixed)

-- The loop of fixLba over the contents in one name space.
abbrev pub fix_contents : ℕ → ℕ → List (List ℕ) → List (List ℕ)
fix_contents dir_lba files_lba [] = []
fix_contents dir_lba files_lba (c ∷ cs) =
    fix_dir_lba (length c) dir_lba files_lba 0 c ∷ fix_contents dir_lba files_lba cs

-- What build leaves behind: the tables in both byte orders and the contents, in both name spaces, with the
-- sizes that the code keeps (pathTableSize, pathTableSizeJoliet, dirsSizeSectors, dirsSizeSectorsJoliet).
pub record LaidOut : Type 0 where
  pub table_l : List ℕ
  pub table_m : List ℕ
  pub joliet_l : List ℕ
  pub joliet_m : List ℕ
  pub contents : List (List ℕ)
  pub joliet_contents : List (List ℕ)
  pub table_size : ℕ
  pub joliet_size : ℕ
  pub sectors : ℕ
  pub joliet_sectors : ℕ

-- The tables of a name space in both byte orders.
unfoldable pub both_tables : Bool → List (List ℕ) → List Directory → Option (List ℕ × List ℕ)
both_tables joliet contents dirs = elim (build_path_table false joliet contents 0 dirs []) [
  | none ↦ none
  | some l ↦ elim (build_path_table true joliet contents 0 dirs []) [
    | none ↦ none
    | some m ↦ some (l, m)
  ]
]

-- The first block of the directories.
abbrev pub iso_lba : LaidOut → ℕ
iso_lba a = (20 + bytes_to_sectors a.table_size * 2 + bytes_to_sectors a.joliet_size * 2) % 2 ^ 32

-- fixLba, as build calls it.
unfoldable pub fix_lba : LaidOut → LaidOut
fix_lba a =
    let iso = iso_lba a in
    let joliet = (iso + a.sectors) % 2 ^ 32 in
    let files = (joliet + a.joliet_sectors) % 2 ^ 32 in
    record a {
      contents = fix_contents iso files a.contents;
      joliet_contents = fix_contents joliet files a.joliet_contents;
      table_l = fix_path_table_lba (length a.table_l) false iso a.table_l;
      table_m = fix_path_table_lba (length a.table_m) true iso a.table_m;
      joliet_l = fix_path_table_lba (length a.joliet_l) false joliet a.joliet_l;
      joliet_m = fix_path_table_lba (length a.joliet_m) true joliet a.joliet_m;
    }

-- build, from where the directories have been listed.
unfoldable pub build_areas : (List ℕ → Option Time) → List Directory → Option LaidOut
build_areas times dirs = elim (build_contents times false dirs dirs [] 0) [
  | none ↦ none
  | some (contents, sectors) ↦ elim (build_contents times true dirs dirs [] 0) [
    | none ↦ none
    | some (joliet_contents, joliet_sectors) ↦ elim (both_tables false contents dirs) [
      | none ↦ none
      | some (l, m) ↦ elim (both_tables true joliet_contents dirs) [
        | none ↦ none
        | some (joliet_l, joliet_m) ↦ some (
            fix_lba (record {
              table_l = l;
              table_m = m;
              joliet_l = joliet_l;
              joliet_m = joliet_m;
              contents = contents;
              joliet_contents = joliet_contents;
              table_size = length m;
              joliet_size = length joliet_m;
              sectors = sectors;
              joliet_sectors = joliet_sectors;
            }))
      ]
    ]
  ]
]
