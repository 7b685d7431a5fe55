-- ===== src/Listing/Items.antt =====
-- process_read_dir of src/main.cpp: the entries of a directory, and with `subdirs` those of its
-- subdirectories, in an array of `max_items` results.
pub mod Bounds
use ps3netsrv.Prelude.{
  ℕ, zero, suc, ◌+◌, ◌-◌, Bool, true, false, not, ◌&&◌, ◌||◌, ltb, leb, ◌==◌, if◌then◌else◌, Option,
  none, some, List, [], ◌∷◌, ◌++◌, length, take, drop,
}
use ps3netsrv.Env.{Stat}
use ps3netsrv.Path.{normalize_path}
use ps3netsrv.Listing.{is_parent_dir}

-- netiso_read_dir_result_data before its fields are put in network order.
pub record Item : Type 0 where
  pub file_size : ℕ
  pub mtime : ℕ
  pub is_directory : Bool
  pub name : List ℕ

-- The entries that have been filled in; `overrun` is a write behind the last one of the array.
pub data Filled : Type 0 where
  filled : List Item → Filled
  overrun : Filled

-- What stands for a path that stat_file does not know.
abbrev pub unknown : Stat
unknown = record { file_size = 0; is_dir = true; is_reg = false; mtime = 0; ctime = 0; atime = 0 }

abbrev pub known_stat : Option Stat → Stat
known_stat none = unknown
known_stat (some st) = st

abbrev pub item_of : Stat → List ℕ → Item
item_of st name = record {
  file_size = if st.is_dir then 0 else st.file_size;
  mtime =
      if not (st.mtime == 0) then st.mtime else if not (st.ctime == 0) then st.ctime else st.atime;
  is_directory = st.is_dir;
  name = take 511 name;
}

module _ (stat_file : List ℕ → Option Stat) (max_items path_len dirpath_len : ℕ) where
  -- The loop around readdir, below the directory `path`. `nested` is the call for a subdirectory.
  unfoldable pub fill :
      ℕ → (List ℕ → List Item → Filled) → List ℕ → List (List ℕ) → List Item → Filled
  fill subdirs nested path [] items = filled items
  fill subdirs nested path (name ∷ names) items =
      let full = path ++ name in
      let st = known_stat (stat_file full) in
      let item = item_of st (if subdirs == 0 then name else drop dirpath_len full) in
      if is_parent_dir name || leb path_len (length full)
      then fill subdirs nested path names items
      else if st.is_dir && not (subdirs == 0)
      then elim (if ltb subdirs 2 then nested full items else filled items) [
        | overrun ↦ overrun
        | filled more ↦ fill subdirs nested path names more
      ]
      else if leb max_items (length items)
      then overrun
      else if leb max_items (length items + 1)
      then filled (items ++ item ∷ [])
      else fill subdirs nested path names (items ++ item ∷ [])

  -- The directory with a slash behind it, if there is room for one.
  abbrev pub with_slash : List ℕ → List ℕ
  with_slash path = if ltb (length path + 1) path_len then path ++ 47 ∷ [] else path

  module _ (opendir : List ℕ → Option (List (List ℕ))) where
    unfoldable pub read_level : ℕ → (List ℕ → List Item → Filled) → List ℕ → List Item → Filled
    unfolding fill
    read_level subdirs nested dir_path items =
        let path = normalize_path dir_path true in
        if leb path_len (length dir_path) then filled items else elim (opendir path) [
          | none ↦ filled items
          | some names ↦ fill subdirs nested (with_slash path) names items
        ]

    -- A call for a subdirectory has `subdirs` 2, and makes no further one.
    unfoldable pub process_read_dir : ℕ → List ℕ → List Item → Filled
    unfolding read_level
    process_read_dir subdirs dir_path items =
        read_level subdirs (read_level 2 (λ path more. filled more)) dir_path items
