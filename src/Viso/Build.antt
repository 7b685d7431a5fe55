-- ===== src/Viso/Build.antt =====
-- The loop over the files of VIsoFile::build, and the sizes that VIsoFile::generate computes, of
-- src/VIsoFile.cpp. Paths and names are C strings: lists of bytes without the final zero.
use ps3netsrv.Prelude.{
  ℕ, zero, suc, ◌+◌, ◌-◌, ◌*◌, ◌/◌, ◌%◌, ◌^◌, Bool, true, false, not, ◌&&◌, ◌||◌, ltb, leb, ◌==◌,
  if◌then◌else◌, Option, none, some, List, [], ◌∷◌, ◌++◌, length, get_or, set, take, drop,
}
use ps3netsrv.Viso.{FileEntry, sector_size, bytes_to_sectors}

-- stat_file: the size of a file, `none` where the call fails.
abbrev pub Stats : Type 0
Stats = List ℕ → Option ℕ

-- strcmp of two strings is zero.
abbrev pub same : List ℕ → List ℕ → Bool
same [] [] = true
same [] (y ∷ ys) = false
same (x ∷ xs) [] = false
same (x ∷ xs) (y ∷ ys) = x == y && same xs ys

abbrev pub is_digit : ℕ → Bool
is_digit c = leb 48 c && leb c 57

-- createPath.
abbrev pub create_path : List ℕ → List ℕ → List ℕ
create_path dir file = dir ++ 47 ∷ file

-- ".66600".
abbrev pub first_part : List ℕ
first_part = 46 ∷ 54 ∷ 54 ∷ 54 ∷ 48 ∷ 48 ∷ []

-- p[4] and p[5] are set to the digits of `i`, where p is `file + len - 6`.
abbrev pub renumber : List ℕ → ℕ → ℕ → List ℕ
renumber file len i = set (set file (len - 6 + 4) (48 + i / 10)) (len - 6 + 5) (48 + i % 10)

-- The loop over the parts; the file's name is edited in place.
unfoldable pub add_parts : Stats → ℕ → ℕ → ℕ → List ℕ → ℕ → ℕ × List ℕ
add_parts stat zero i len file size = (size, file)
add_parts stat (suc rounds) i len file size = elim (stat (renumber file len i)) [
  | none ↦ (size, renumber file len i)
  | some more ↦ add_parts stat rounds (suc i) len (renumber file len i) (size + more)
]

-- getFileSizeAndProcessMultipart: the size, and the path as it is left.
unfoldable pub file_size : Stats → List ℕ → Bool → ℕ → Option (ℕ × List ℕ)
unfolding add_parts
file_size stat file multipart len = elim (stat file) [
  | none ↦ none
  | some size ↦
      if not multipart || (ltb len 6 || not (same (drop (len - 6 + 1) file) first_part))
      then some (size, file)
      else (let (total, renamed) = add_parts stat 99 1 len file size in
          some (total, take (len - 6) renamed))
]

-- The name ends in `.666` and two digits, and whether these are not both zero.
abbrev pub is_part : List ℕ → Bool
is_part name =
    let p = length name - 6 in
    ltb 6 (length name)
    && (get_or name p 0 == 46
        && (get_or name (p + 1) 0 == 54
            && (get_or name (p + 2) 0 == 54
                && (get_or name (p + 3) 0 == 54
                    && (is_digit (get_or name (p + 4) 0) && is_digit (get_or name (p + 5) 0))))))

abbrev pub is_later_part : List ℕ → Bool
is_later_part name =
    let p = length name - 6 in
    is_part name && (not (get_or name (p + 4) 0 == 48) || not (get_or name (p + 5) 0 == 48))

-- What building the list of one directory comes to. `crashed` is the write through the null pointer
-- `fileList`, where the first name of the directory was skipped.
pub data Built : Type 0 where
  built : List FileEntry → ℕ → Built
  failed : Built
  crashed : Built

abbrev pub add_entry : FileEntry → Built → Built
add_entry e (built es sectors) = built (e ∷ es) sectors
add_entry e failed = failed
add_entry e crashed = crashed

module _ (stat : Stats) where
  -- The loop over the names that scandir found; `i` counts them, `linked` says that `fileList` is not
  -- null and `sectors` is `filesSizeSectors`.
  unfoldable pub build_files : List ℕ → ℕ → Bool → ℕ → List (List ℕ) → Built
  unfolding file_size bytes_to_sectors
  build_files dir i linked sectors [] = built [] sectors
  build_files dir i linked sectors (name ∷ names) =
      let multipart = is_part name in
      let path = create_path dir name in
      if is_later_part name
      then build_files dir (suc i) linked sectors names
      else if not (i == 0) && not linked
      then crashed
      else elim (file_size stat path multipart ((length dir + length name) % 2 ^ 16)) [
        | none ↦ failed
        | some (size, renamed) ↦
            add_entry
              (record { path = renamed; rlba = sectors; size = size; multipart = multipart })
              (build_files dir (suc i) true ((sectors + bytes_to_sectors size) % 2 ^ 32) names)
      ]

-- What building the lists of all directories comes to.
pub data BuiltAll : Type 0 where
  built_all : List (List FileEntry) → ℕ → BuiltAll
  failed_all : BuiltAll
  crashed_all : BuiltAll

abbrev pub add_dir : List FileEntry → BuiltAll → BuiltAll
add_dir d (built_all ds sectors) = built_all (d ∷ ds) sectors
add_dir d failed_all = failed_all
add_dir d crashed_all = crashed_all

-- The loop over the flat list of directories, each with the names that scandir finds in it.
unfoldable pub build_dirs : Stats → ℕ → List (List ℕ × List (List ℕ)) → BuiltAll
unfolding build_files
build_dirs stat sectors [] = built_all [] sectors
build_dirs stat sectors ((dir, names) ∷ ds) = elim (build_files stat dir 0 false sectors names) [
  | built es after ↦ add_dir es (build_dirs stat after ds)
  | failed ↦ failed_all
  | crashed ↦ crashed_all
]

-- The fields that `generate` computes.
pub record Sizes : Type 0 where
  pub fs_buf_size : ℕ
  pub volume_size : ℕ
  pub pad_area_start : ℕ
  pub pad_area_size : ℕ
  pub total_size : ℕ

-- The sizes in `generate`, from the numbers of bytes of the path tables and of sectors of the
-- directories and files. `volumeSize` is a uint32_t.
unfoldable pub sizes : ℕ → ℕ → ℕ → ℕ → ℕ → Sizes
unfolding bytes_to_sectors
sizes path_table_size path_table_size_joliet dirs_sectors dirs_sectors_joliet files_sectors =
    let fs_sectors =
      40960 / sector_size
      + bytes_to_sectors path_table_size * 2 % 2 ^ 32
      + bytes_to_sectors path_table_size_joliet * 2 % 2 ^ 32
      + dirs_sectors
      + dirs_sectors_joliet in
    let volume = (fs_sectors + files_sectors) % 2 ^ 32 in
    let pad_sectors = if volume % 32 == 0 then 32 else 32 + (32 - volume % 32) in
    record {
      fs_buf_size = fs_sectors * sector_size;
      volume_size = (volume + pad_sectors) % 2 ^ 32;
      pad_area_start = volume * sector_size;
      pad_area_size = pad_sectors * sector_size;
      total_size = (volume + pad_sectors) % 2 ^ 32 * sector_size;
    }
