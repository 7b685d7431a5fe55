-- ===== src/Tests/VolumeRuns.antt =====
-- A virtual ISO of a directory that holds another one and a file: its records, its tables and the
-- area in front of the files.
use ps3netsrv.Prelude.{
  ℕ, ◌≡◌, refl, arith, Bool, true, false, Option, none, some, List, [], ◌∷◌, ◌++◌, inl, inr, length,
  map,
}
use ps3netsrv.Viso.{bytes_to_sectors}
use ps3netsrv.Viso.Names.{strncpy_upper, utf8_to_ucs2, get_ucs2_from_utf8}
use ps3netsrv.Viso.Names.Encoded.{encode_all, utf8_to_ucs2-encode_all}
use ps3netsrv.Viso.Records.{
  Time, iso_directory, dir_record, record_len, put_record, put_records, find_dir_record,
  fix_dir_lba,
}
use ps3netsrv.Viso.Content.{
  Directory, extent_records, file_records, child_records, directory_bytes, put_in_parent,
  build_content, build_contents,
}
use ps3netsrv.Viso.Content.Located.{Placed}
use ps3netsrv.Viso.Content.Blocks.{build_contents-Placed}
use ps3netsrv.Viso.Content.Own.{AllNameable}
use ps3netsrv.Viso.Tables.{
  LaidOut, build_path_table, fix_path_table_lba, both_tables, fix_lba, build_areas,
}
use ps3netsrv.Viso.Tables.Entries.{Line, table_bytes, move_line}
use ps3netsrv.Viso.Tables.Blocks.{blocks_from, build_path_table-blocks}

-- "aé€" in UTF-8, with room for two characters.
utf8_to_ucs2-encode_all_example :
    utf8_to_ucs2 (encode_all (97 ∷ 233 ∷ 8364 ∷ [])) 2 ≡ some (0 ∷ 97 ∷ 0 ∷ 233 ∷ [])
utf8_to_ucs2-encode_all_example =
    utf8_to_ucs2-encode_all (97 ∷ 233 ∷ 8364 ∷ []) 2
      (omega arith, omega arith, (omega arith, omega arith, (omega arith, omega arith, record {})))

abbrev time : Time
time = record { year = 100; month = 1; day = 2; hour = 3; minute = 4; second = 5 }

-- The records of "X" and "YZ".
abbrev record_x : List ℕ
record_x = dir_record 40 0 0 time iso_directory (88 ∷ [])

abbrev record_yz : List ℕ
record_yz = dir_record 42 1 0 time 0 (89 ∷ 90 ∷ [])

abbrev two_records : List (List ℕ)
two_records = record_x ∷ record_yz ∷ []

abbrev two_bytes : List ℕ
two_bytes = record_x ++ record_yz

-- The directory "d" with the file "a" and the directory "x".
abbrev root_dir : Directory
root_dir = record {
  path = 100 ∷ [];
  name = [];
  parent = 0;
  children = 1 ∷ [];
  files = record { path = 100 ∷ 47 ∷ 97 ∷ []; rlba = 0; size = 3; multipart = false } ∷ [];
}

abbrev dir_x : Directory
dir_x = record {
  path = 100 ∷ 47 ∷ 120 ∷ [];
  name = 120 ∷ [];
  parent = 0;
  children = [];
  files = [];
}

abbrev dirs : List Directory
dirs = root_dir ∷ dir_x ∷ []

abbrev times : List ℕ → Option Time
times path = some time

nameable : (joliet : Bool) → AllNameable times joliet 0 dirs
unfolding strncpy_upper utf8_to_ucs2 get_ucs2_from_utf8
nameable false = (inl refl, (inr ((88 ∷ []), refl, omega arith, refl), record {}))
nameable true = (inl refl, (inr ((0 ∷ 120 ∷ []), refl, omega arith, refl), record {}))

abbrev or_empty : Option LaidOut → LaidOut
or_empty none = record {
  table_l = [];
  table_m = [];
  joliet_l = [];
  joliet_m = [];
  contents = [];
  joliet_contents = [];
  table_size = 0;
  joliet_size = 0;
  sectors = 0;
  joliet_sectors = 0;
}
or_empty (some a) = a

abbrev laid : LaidOut
laid = or_empty (build_areas times dirs)

laid_out : build_areas times dirs ≡ some laid
unfolding build_areas build_contents build_content extent_records file_records child_records
    directory_bytes put_in_parent put_records put_record find_dir_record strncpy_upper utf8_to_ucs2
    get_ucs2_from_utf8 both_tables build_path_table fix_lba fix_dir_lba fix_path_table_lba
laid_out = refl

-- The same contents before fixLba, with their numbers of sectors.
abbrev or_nothing : Option (List (List ℕ) × ℕ) → List (List ℕ) × ℕ
or_nothing none = ([], 0)
or_nothing (some built) = built

abbrev contents_of : List (List ℕ) × ℕ → List (List ℕ)
contents_of (contents, sectors) = contents

abbrev built : List (List ℕ)
built = contents_of (or_nothing (build_contents times false dirs dirs [] 0))

was_built : build_contents times false dirs dirs [] 0 ≡ some (built, 2)
unfolding build_contents build_content extent_records file_records child_records directory_bytes
    put_in_parent put_records put_record find_dir_record strncpy_upper utf8_to_ucs2
    get_ucs2_from_utf8 bytes_to_sectors
was_built = refl

built_Placed : Placed 0 built
built_Placed =
    let (placed, counted) =
      build_contents-Placed times false dirs built 2 (nameable false) (omega arith) was_built in
    placed

-- Blocks 0 and 1, of the root and of "X".
abbrev table : List ℕ
table = 1 ∷ 0 ∷ 0 ∷ 0 ∷ 0 ∷ 0 ∷ 1 ∷ 0 ∷ 0 ∷ 0 ∷ (1 ∷ 0 ∷ 1 ∷ 0 ∷ 0 ∷ 0 ∷ 1 ∷ 0 ∷ 88 ∷ 0 ∷ [])

table_built : build_path_table false false built 0 dirs [] ≡ some table
unfolding build_path_table build_contents build_content extent_records file_records child_records
    directory_bytes put_in_parent put_records put_record find_dir_record strncpy_upper utf8_to_ucs2
    get_ucs2_from_utf8 bytes_to_sectors
table_built = refl

two_built : length dirs ≡ length built
unfolding build_contents build_content extent_records file_records child_records directory_bytes
    put_in_parent put_records put_record find_dir_record strncpy_upper utf8_to_ucs2
    get_ucs2_from_utf8 bytes_to_sectors
two_built = refl

build_path_table-blocks_example :
    (ls : List Line) × (table ≡ table_bytes false ls)
    × (map (λ l. Line.block l) ls ≡ blocks_from built 0 dirs)
    × (fix_path_table_lba 2 false 24 table ≡ table_bytes false (map (move_line 24) ls))
build_path_table-blocks_example =
    build_path_table-blocks false false built dirs table 2 24 built_Placed two_built
      (rw (← two_built) (omega arith)) (omega arith) table_built

-- An identifier of 217 bytes makes a record of no length.
record_len_wraps : record_len 217 ≡ 0
record_len_wraps = refl

-- A character that begins at the last byte has its end behind the string.
truncated : utf8_to_ucs2 (97 ∷ 195 ∷ []) 5 ≡ none
unfolding utf8_to_ucs2 get_ucs2_from_utf8
truncated = refl

-- The character 128512 leaves its lower 16 bits.
beyond_ucs2 : utf8_to_ucs2 (240 ∷ 159 ∷ 152 ∷ 128 ∷ []) 1 ≡ some (246 ∷ 0 ∷ [])
unfolding utf8_to_ucs2 get_ucs2_from_utf8
beyond_ucs2 = refl
