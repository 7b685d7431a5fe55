-- ===== src/Tests/GenerateRuns.antt =====
-- The image of a directory of the host that holds a file and another directory.
use ps3netsrv.Prelude.{
  ℕ, length, ◌+◌, ◌-◌, ◌≡◌, ◌≢◌, ◌<◌, ◌≤◌, ◌^◌, refl, arith, min, true, false, if◌then◌else◌,
  Bool-cases, inl, inr, none, some, List, [], ◌∷◌, take, drop,
}
use ps3netsrv.Prelude.Window.{window}
use ps3netsrv.Viso.{VisoFile, FileEntry, Disk, read, bytes_to_sectors}
use ps3netsrv.Viso.Build.{Stats, same, build_dirs, build_files, file_size, sizes}
use ps3netsrv.Viso.Shown.{Store}
use ps3netsrv.Viso.Mounted.{generated}
use ps3netsrv.Viso.Names.{strncpy_upper, utf8_to_ucs2, get_ucs2_from_utf8}
use ps3netsrv.Viso.Records.{put_record, put_records, find_dir_record, fix_dir_lba}
use ps3netsrv.Viso.Content.{
  Directory, extent_records, file_records, child_records, directory_bytes, put_in_parent,
  build_content, build_contents,
}
use ps3netsrv.Viso.Tables.{
  LaidOut, build_path_table, fix_path_table_lba, both_tables, fix_lba, build_areas,
}
use ps3netsrv.Viso.Volume.Standing.{Standing, fs_buf_sectors}
use ps3netsrv.Viso.Walk.{
  Dirent, Scan, selected, nodes_below, numbers, Walked, walk, root_list, file_names, with_files,
}
use ps3netsrv.Viso.Walk.Ends.{
  below, no_more, tree_and, Tree, Shows, ShowsAll, directories, walk-ne-endless,
}
use ps3netsrv.Viso.Walk.Linked.{Linked, walk-Linked}
use ps3netsrv.Viso.Walk.Named.{FindsUtf8}
use ps3netsrv.Viso.Generate.{
  Host, Generated, made, unmade, not_made, lost, generate_endless, build, generate,
}
use ps3netsrv.Viso.Generate.Reads.{shown, moved_to}
use ps3netsrv.Viso.Open.{OpenHost, open_ok, open_path, last_name, close_viso}
use ps3netsrv.Viso.Open.Reads.{open-read}

-- "d", "d/a" and "d/x".
abbrev path_d : List ℕ
path_d = 100 ∷ []

abbrev path_a : List ℕ
path_a = 100 ∷ 47 ∷ 97 ∷ []

abbrev path_x : List ℕ
path_x = 100 ∷ 47 ∷ 120 ∷ []

abbrev entries_d : List Dirent
entries_d =
    record { name = 46 ∷ []; is_dir = true }
    ∷ record { name = 97 ∷ []; is_dir = false }
    ∷ record { name = 120 ∷ []; is_dir = true }
    ∷ []

abbrev scan : Scan
scan path = if same path path_d then some entries_d else if same path path_x then some [] else none

abbrev stat : Stats
stat path = if same path path_a then some 3 else none

abbrev content : List ℕ → List ℕ
content path = 1 ∷ 2 ∷ 3 ∷ []

abbrev disk : Disk
disk path i k = elim (stat path) [ none ↦ none | some size ↦ some (window (content path) i k) ]

store : Store stat disk content
store = record {
  has_size = λ path size h. ground (arith, h);
  readable = λ path i k size h fits. ground (arith, h);
}

abbrev host : Host
host = record {
  scan = scan;
  stat = stat;
  times =
      λ path. some (record { year = 100; month = 1; day = 2; hour = 3; minute = 4; second = 5 });
  random = [];
  now = record { year = 2024; month = 1; day = 2; hour = 3; minute = 4; second = 5 };
}

finds : FindsUtf8 scan
unfolding selected
finds path entries found = elim (Bool-cases (same path path_d)) [
  | inl here ↦
      let e : entries_d ≡ entries = cc (rw here at found) in
      rw (← e) ((120, [], refl, (omega arith, omega arith, record {})), record {})
  | inr other ↦ elim (Bool-cases (same path path_x)) [
    | inl below_it ↦
        let e : [] ≡ entries = cc (rw (other, below_it) at found) in rw (← e) (record {})
    | inr nowhere ↦ absurd (ground (arith, rw (other, nowhere) at found))
  ]
]

abbrev tree : Tree
tree = below (tree_and (below no_more) no_more)

tree_shown : Shows scan path_d tree
unfolding Shows ShowsAll selected
tree_shown = (entries_d, refl, (([], refl, record {}), record {}))

tree_size : directories tree ≤ 2
unfolding directories
tree_size = omega arith

walk-ne-endless_example : walk scan 2 [] (root_list path_d ∷ []) ≢ Walked.endless
walk-ne-endless_example = walk-ne-endless scan path_d tree 2 tree_shown tree_size

abbrev found : List Directory
found =
    record { path = path_d; name = []; parent = 0; children = 1 ∷ []; files = [] }
    ∷ record { path = path_x; name = 120 ∷ []; parent = 0; children = []; files = [] }
    ∷ []

walk_found : walk scan 2 [] (root_list path_d ∷ []) ≡ Walked.walked found
unfolding walk selected nodes_below numbers
walk_found = refl

walk-Linked_example : Linked found
walk-Linked_example = walk-Linked scan 2 path_d found walk_found

-- What generate makes of "d", taken apart.
abbrev outcome : Generated
outcome = generate host 2 path_d false (100 ∷ []) []

abbrev empty_object : VisoFile
empty_object = generated [] [] (sizes 0 0 0 0 0) 0

abbrev object_of : Generated → VisoFile
object_of (made dirs a sectors v) = v
object_of unmade = empty_object
object_of not_made = empty_object
object_of lost = empty_object
object_of generate_endless = empty_object

abbrev empty_areas : LaidOut
empty_areas = record {
  table_l = [];
  table_m = [];
  joliet_l = [];
  joliet_m = [];
  contents = [];
  joliet_contents = [];
  table_size = 0;
  joliet_size = 0;
  sectors = 0;
  joliet_sectors = 0;
}

abbrev areas_of : Generated → LaidOut
areas_of (made dirs a sectors v) = a
areas_of unmade = empty_areas
areas_of not_made = empty_areas
areas_of lost = empty_areas
areas_of generate_endless = empty_areas

abbrev entry_a : FileEntry
entry_a = record { path = path_a; rlba = 0; size = 3; multipart = false }

abbrev dirs : List Directory
dirs =
    record { path = path_d; name = []; parent = 0; children = 1 ∷ []; files = entry_a ∷ [] }
    ∷ record { path = path_x; name = 120 ∷ []; parent = 0; children = []; files = [] }
    ∷ []

abbrev object : VisoFile
object = object_of outcome

abbrev areas : LaidOut
areas = areas_of outcome

was_made : outcome ≡ made dirs areas 1 object
unfolding generate build walk selected nodes_below numbers file_names with_files build_dirs
    build_files file_size sizes bytes_to_sectors build_areas build_contents build_content
    extent_records file_records child_records directory_bytes put_in_parent put_records put_record
    find_dir_record strncpy_upper utf8_to_ucs2 get_ucs2_from_utf8 both_tables build_path_table
    fix_lba fix_dir_lba fix_path_table_lba
was_made = refl

one_file : object.dirs ≡ (entry_a ∷ []) ∷ [] ∷ []
unfolding generate build walk selected nodes_below numbers file_names with_files build_dirs
    build_files file_size sizes bytes_to_sectors build_areas build_contents build_content
    extent_records file_records child_records directory_bytes put_in_parent put_records put_record
    find_dir_record strncpy_upper utf8_to_ucs2 get_ucs2_from_utf8 both_tables build_path_table
    fix_lba fix_dir_lba fix_path_table_lba
one_file = refl

small : fs_buf_sectors areas + 1 < 2 ^ 32 - 64
unfolding generate build walk selected nodes_below numbers file_names with_files build_dirs
    build_files file_size sizes bytes_to_sectors build_areas build_contents build_content
    extent_records file_records child_records directory_bytes put_in_parent put_records put_record
    find_dir_record strncpy_upper utf8_to_ucs2 get_ucs2_from_utf8 both_tables build_path_table
    fix_lba fix_dir_lba fix_path_table_lba
small = omega arith

-- 28 sectors in front of the file, the one of the file, and zeros up to 64 sectors.
total : object.total_size ≡ 131072
unfolding generate build walk selected nodes_below numbers file_names with_files build_dirs
    build_files file_size sizes bytes_to_sectors build_areas build_contents build_content
    extent_records file_records child_records directory_bytes put_in_parent put_records put_record
    find_dir_record strncpy_upper utf8_to_ucs2 get_ucs2_from_utf8 both_tables build_path_table
    fix_lba fix_dir_lba fix_path_table_lba
total = refl

abbrev open_host : OpenHost
open_host = record {
  host = host;
  is_dir = λ path. some true;
  contents = λ path. none;
  max_path = 2048;
}

was_opened : open_path open_host 2 false path_d true ≡ open_ok dirs areas 1 object
unfolding open_path last_name generate build walk selected nodes_below numbers file_names with_files
    build_dirs build_files file_size sizes bytes_to_sectors build_areas build_contents build_content
    extent_records file_records child_records directory_bytes put_in_parent put_records put_record
    find_dir_record strncpy_upper utf8_to_ucs2 get_ucs2_from_utf8 both_tables build_path_table
    fix_lba fix_dir_lba fix_path_table_lba
was_opened = refl

-- A read of the file.
open-read_example :
    (fs : List ℕ) × (object.fs_buf ≡ some fs)
    × (length fs ≡ object.fs_buf_size)
    × (length (shown content fs object) ≡ object.total_size)
    × Standing fs areas.contents
    × Standing fs areas.joliet_contents
    × (read disk (moved_to object 57344) 3 ≡ (
      some (take (min 3 (object.total_size - 57344)) (drop 57344 (shown content fs object))),
      moved_to object (57344 + min 3 (object.total_size - 57344)),
    ))
open-read_example =
    open-read open_host disk content 2 path_d false dirs areas 1 object finds store was_opened
      (omega arith) (rw one_file (((refl, record {})), (record {}, record {})))
      (rw one_file (omega arith)) small 57344 3 (rw total (omega arith)) (omega arith)

-- A file that has been closed cannot be closed again.
closed_again : (close_viso (close_viso object).1).0 ≡ false
unfolding close_viso generate build walk selected nodes_below numbers file_names with_files
    build_dirs build_files file_size sizes bytes_to_sectors build_areas build_contents build_content
    extent_records file_records child_records directory_bytes put_in_parent put_records put_record
    find_dir_record strncpy_upper utf8_to_ucs2 get_ucs2_from_utf8 both_tables build_path_table
    fix_lba fix_dir_lba fix_path_table_lba
closed_again = refl
