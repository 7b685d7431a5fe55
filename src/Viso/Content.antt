-- ===== src/Viso/Content.antt =====
-- buildContent of src/VIsoFile.cpp: the records of one directory, in both name spaces, and the loop of
-- build over all directories. The year to second of a record are what genIso9660Time stores, of which
-- localtime is not modelled: `times` gives them for a path, and `none` where stat_file fails.
pub mod Blocks
pub mod Located
pub mod Own
use ps3netsrv.Prelude.{
  ℕ, zero, suc, ◌+◌, ◌-◌, ◌*◌, ◌/◌, ◌%◌, ◌^◌, Bool, true, false, not, ltb, leb, ◌==◌, if◌then◌else◌,
  Option, none, some, List, [], ◌∷◌, ◌++◌, length, get_or, set, take, drop, replicate,
}
use ps3netsrv.Wire.{be16, be32, store16, store32}
use ps3netsrv.Viso.{FileEntry, bytes_to_sectors}
use ps3netsrv.Viso.Build.{create_path, first_part}
use ps3netsrv.Viso.Names.{strncpy_upper, utf8_to_ucs2}
use ps3netsrv.Viso.Records.{
  Time, iso_file, iso_directory, iso_multiextent, record_len, dir_record, temp_buf_size,
  put_records, padded, find_dir_record,
}

-- A DirList node: its path, its name (the path behind `path_len + 1`), the index of its parent, those
-- of its children and its files. The root has the index 0 and is its own parent.
pub record Directory : Type 0 where
  pub path : List ℕ
  pub name : List ℕ
  pub parent : ℕ
  pub children : List ℕ
  pub files : List FileEntry

abbrev pub no_directory : Directory
no_directory = record { path = []; name = []; parent = 0; children = []; files = [] }

-- MULTIEXTENT_PART_SIZE.
abbrev pub part_size : ℕ
part_size = 0xFFFFF800

-- The identifier of a directory in a record, of at most MAX_ISODIR bytes.
abbrev pub dir_id : Bool → List ℕ → Option (List ℕ)
dir_id false name = some (strncpy_upper name 254)
dir_id true name = utf8_to_ucs2 name 127

-- `strCheck` of findDirRecord.
abbrev pub searched_id : Bool → List ℕ → Option (List ℕ)
searched_id false name = some (strncpy_upper name 204)
searched_id true name = utf8_to_ucs2 name 127

-- ";1".
abbrev pub version : List ℕ
version = 59 ∷ 49 ∷ []

-- The identifier of a file. `file_len` still counts the ".66600" that was taken off the path of a split
-- file, so that in Joliet its version lands behind the end of the string.
abbrev pub file_id : Bool → FileEntry → List ℕ → Option (List ℕ)
file_id false f name = some (strncpy_upper name 204 ++ version)
file_id true f name = utf8_to_ucs2 (if f.multipart then name else name ++ version) 103

-- The number of extents of a file.
abbrev pub extents : ℕ → ℕ
extents size =
    if ltb 0xFFFFFFFF size then size / part_size + (if size % part_size == 0 then 0 else 1) else 1

-- The records "." and "..", of 0x28 bytes each. The second has the block and size of the parent, which
-- are bytes 2 to 17 of its first record.
abbrev pub dot_records : ℕ → Time → List ℕ → Time → List (List ℕ)
dot_records sectors time parent_extent parent_time =
    dir_record 40 sectors 0 time iso_directory (0 ∷ [])
    ∷ (40 ∷ 0 ∷ (parent_extent ++ drop 18 (dir_record 40 0 0 parent_time iso_directory (1 ∷ []))))
    ∷ []

-- Block and size of a record.
abbrev pub extent_of : List ℕ → List ℕ
extent_of r = take 16 (drop 2 r)

-- They are stored in the record that stands at `p`.
abbrev pub put_extent : ℕ → List ℕ → List ℕ → List ℕ
put_extent p extent content = take (p + 2) content ++ (extent ++ drop (p + 18) content)

-- The size of the content goes into its first record.
abbrev pub put_size : List ℕ → List ℕ
put_size content =
    let size = length content in
    take 10 content ++ (store32 size ++ (store32 (be32 size) ++ drop 18 content))

module _ (times : List ℕ → Option Time) (joliet : Bool) where
  -- The loop over the extents of a file, from number `i` on, `n` of them: `parts` is their number and
  -- `lba` the first block of this one.
  unfoldable pub extent_records : FileEntry → List ℕ → Time → ℕ → ℕ → ℕ → ℕ → List (List ℕ)
  extent_records f id time parts i lba zero = []
  extent_records f id time parts i lba (suc n) =
      let last = i + 1 == parts in
      let size =
        if parts == 1 then f.size else if last then f.size - i * part_size else part_size in
      let flags = if parts == 1 then iso_file else if last then iso_file else iso_multiextent in
      let next = if last then lba else (lba + bytes_to_sectors part_size) % 2 ^ 32 in
      dir_record (record_len (length id)) lba (size % 2 ^ 32) time flags id
      ∷ extent_records f id time parts (suc i) next n

  -- The loop over the files; `none` where a file cannot be found, or its name ends within a character.
  unfoldable pub file_records : Directory → List FileEntry → Option (List (List ℕ))
  unfolding extent_records
  file_records d [] = some []
  file_records d (f ∷ files) =
      let path = if f.multipart then f.path ++ first_part else f.path in
      elim (times path) [
        | none ↦ none
        | some time ↦ elim (file_id joliet f (drop (length d.path + 1) f.path)) [
          | none ↦ none
          | some id ↦ elim (file_records d files) [
            | none ↦ none
            | some more ↦
                let parts = extents f.size in
                some (extent_records f id time parts 0 f.rlba parts ++ more)
          ]
        ]
      ]

  -- The loop over the directories below; their blocks and sizes are filled in later.
  unfoldable pub child_records : List Directory → List ℕ → Option (List (List ℕ))
  child_records dirs [] = some []
  child_records dirs (i ∷ children) =
      let child = get_or dirs i no_directory in
      elim (times child.path) [
        | none ↦ none
        | some time ↦ elim (dir_id joliet child.name) [
          | none ↦ none
          | some id ↦ elim (child_records dirs children) [
            | none ↦ none
            | some more ↦
                some (dir_record (record_len (length id)) 0 0 time iso_directory id ∷ more)
          ]
        ]
      ]

  -- All records of a directory, before the padding.
  unfoldable pub directory_bytes :
      List Directory → List (List ℕ) → ℕ → Directory → Bool → Option (List ℕ)
  unfolding file_records child_records
  directory_bytes dirs contents sectors d is_root =
      let parent = get_or dirs d.parent no_directory in
      let parent_extent =
        if is_root then replicate 16 0 else extent_of (get_or contents d.parent []) in
      elim (times d.path) [
        | none ↦ none
        | some time ↦ elim (times parent.path) [
          | none ↦ none
          | some parent_time ↦ elim (file_records d d.files) [
            | none ↦ none
            | some files ↦ elim (child_records dirs d.children) [
              | none ↦ none
              | some children ↦
                  put_records []
                    (dot_records sectors time parent_extent parent_time ++ (files ++ children))
            ]
          ]
        ]
      ]

  -- The record of the directory in its parent gets its block and size.
  unfoldable pub put_in_parent : Directory → List ℕ → List (List ℕ) → Option (List (List ℕ))
  unfolding find_dir_record
  put_in_parent d content contents =
      let parent = get_or contents d.parent [] in
      elim (searched_id joliet d.name) [
        | none ↦ none
        | some id ↦ elim (find_dir_record (length parent) id 0 parent) [
          | none ↦ none
          | some p ↦ some (set contents d.parent (put_extent p (extent_of content) parent))
        ]
      ]

  -- buildContent, where `contents` are those of the directories that were built before, of which there
  -- is the parent; the new one is put behind them, and its sectors are added.
  unfoldable pub build_content :
      List Directory → Directory → List (List ℕ) → ℕ → Option (List (List ℕ) × ℕ)
  unfolding directory_bytes put_in_parent
  build_content dirs d contents sectors =
      let is_root = d.parent == length contents in
      elim (directory_bytes dirs contents sectors d is_root) [
        | none ↦ none
        | some bytes ↦
            let content = put_size (padded bytes) in
            let after = (sectors + bytes_to_sectors (length content)) % 2 ^ 32 in
            if ltb temp_buf_size (length content)
            then none
            else if is_root
            then some (contents ++ put_extent 40 (extent_of content) content ∷ [], after)
            else elim (put_in_parent d content contents) [
              | none ↦ none
              | some patched ↦ some (patched ++ content ∷ [], after)
            ]
      ]

  -- The loop over the flat list of directories.
  unfoldable pub build_contents :
      List Directory → List Directory → List (List ℕ) → ℕ → Option (List (List ℕ) × ℕ)
  unfolding build_content
  build_contents dirs [] contents sectors = some (contents, sectors)
  build_contents dirs (d ∷ ds) contents sectors = elim (build_content dirs d contents sectors) [
    | none ↦ none
    | some (contents', sectors') ↦ build_contents dirs ds contents' sectors'
  ]
