-- ===== src/Tests/VisoRuns.antt =====
-- A virtual ISO of one directory with two files.
use ps3netsrv.Prelude.{ℕ, ◌≡◌, refl, arith, true, false, if◌then◌else◌, none, some, List, [], ◌∷◌}
use ps3netsrv.Prelude.Window.{window}
use ps3netsrv.Viso.{FileEntry, Disk, bytes_to_sectors}
use ps3netsrv.Viso.Build.{
  Stats, BuiltAll, build_dirs, sizes, same, first_part, file_size, build_files, Built,
}
use ps3netsrv.Viso.Shown.{Store}
use ps3netsrv.Viso.Parts.{file_size-first_part}

-- "/a" in the directory "d" is "d/a".
abbrev path_a : List ℕ
path_a = 100 ∷ 47 ∷ 97 ∷ []

abbrev path_b : List ℕ
path_b = 100 ∷ 47 ∷ 98 ∷ []

abbrev contents : List ℕ → List ℕ
contents path = if same path path_a then 1 ∷ 2 ∷ 3 ∷ [] else 7 ∷ []

abbrev stats : Stats
stats path = if same path path_a then some 3 else if same path path_b then some 1 else none

abbrev tree : List (List ℕ × List (List ℕ))
tree = ((100 ∷ []), (97 ∷ []) ∷ (98 ∷ []) ∷ []) ∷ []

abbrev disk : Disk
disk path i k = elim (stats path) [ none ↦ none | some size ↦ some (window (contents path) i k) ]

store : Store stats disk contents
store = record {
  has_size = λ path size h. ground (arith, h);
  readable = λ path i k size h fits. ground (arith, h);
}

abbrev entry_a : FileEntry
entry_a = record { path = path_a; rlba = 0; size = 3; multipart = false }

abbrev entry_b : FileEntry
entry_b = record { path = path_b; rlba = 1; size = 1; multipart = false }

tree_built : build_dirs stats 0 tree ≡ BuiltAll.built_all ((entry_a ∷ entry_b ∷ []) ∷ []) 2
unfolding build_dirs build_files file_size bytes_to_sectors
tree_built = refl

-- The first name of the directory is a later part, so the list has no first node yet.
crash_on_orphan :
    build_files stats
      (100 ∷ [])
      0
      false
      0
      ((97 ∷ 46 ∷ 54 ∷ 54 ∷ 54 ∷ 48 ∷ 49 ∷ []) ∷ (97 ∷ []) ∷ [])
    ≡ Built.crashed
unfolding build_files file_size bytes_to_sectors
crash_on_orphan = refl

sizes_fit : (sizes 10 10 1 1 2).fs_buf_size ≡ 53248
unfolding sizes bytes_to_sectors
sizes_fit = refl

sizes_total : (sizes 10 10 1 1 2).total_size ≡ 131072
unfolding sizes bytes_to_sectors
sizes_total = refl

-- "ab.66600" and "ab.66601", of 10 and 4 bytes.
abbrev two_parts : Stats
two_parts path =
    if same path (97 ∷ 98 ∷ first_part)
    then some 10
    else if same path (97 ∷ 98 ∷ 46 ∷ 54 ∷ 54 ∷ 54 ∷ 48 ∷ 49 ∷ [])
    then some 4
    else none

file_size-first_part_example :
    file_size two_parts (97 ∷ 98 ∷ first_part) true 7 ≡ some (10, 97 ∷ [])
file_size-first_part_example =
    file_size-first_part two_parts (97 ∷ 98 ∷ []) 10 (omega arith) refl refl
