-- ===== src/Viso/Walk.antt =====
-- The walk of VIsoFile::build in src/VIsoFile.cpp over the directories of the host, which makes the flat
-- list with its links, and the names of the files that the second loop over the list goes through.
pub mod Ends
pub mod Linked
pub mod Named
use ps3netsrv.Prelude.{
  ℕ, zero, suc, ◌+◌, Bool, not, ◌&&◌, ◌||◌, Option, none, some, List, [], ◌∷◌, ◌++◌, length,
  if◌then◌else◌,
}
use ps3netsrv.Viso.{FileEntry}
use ps3netsrv.Viso.Build.{same, create_path}
use ps3netsrv.Viso.Content.{Directory}

-- struct dirent2: the name, and whether d_type has DT_DIR.
pub record Dirent : Type 0 where
  pub name : List ℕ
  pub is_dir : Bool

-- What scandir finds at a path, sorted by alphasort and before it is selected; `none` where it fails.
abbrev pub Scan : Type 0
Scan = List ℕ → Option (List Dirent)

abbrev pub select_directories : Dirent → Bool
select_directories e = e.is_dir && not (same e.name (46 ∷ []) || same e.name (46 ∷ 46 ∷ []))

abbrev pub select_files : Dirent → Bool
select_files e = not e.is_dir

-- The names that a selection leaves.
unfoldable pub selected : (Dirent → Bool) → List Dirent → List (List ℕ)
selected select [] = []
selected select (e ∷ es) = let rest = selected select es in if select e then e.name ∷ rest else rest

-- The nodes that the loop over the names appends below directory `i`.
unfoldable pub nodes_below : Directory → ℕ → List (List ℕ) → List Directory
nodes_below d i [] = []
nodes_below d i (name ∷ names) =
    record { path = create_path d.path name; name = name; parent = i; children = []; files = [] }
    ∷ nodes_below d i names

-- `idx++`, as often as there are names.
unfoldable pub numbers : ℕ → List (List ℕ) → List ℕ
numbers idx [] = []
numbers idx (name ∷ names) = idx ∷ numbers (suc idx) names

-- `refused` is `return false`, and `endless` a walk that fuel does not end.
pub data Walked : Type 0 where
  walked : List Directory → Walked
  refused endless : Walked

-- The loop over the list: `done` are the directories behind which `dirList` is, `todo` those from it on.
-- A round has a directory off `todo`, so the number of directories is fuel enough.
unfoldable pub walk : Scan → ℕ → List Directory → List Directory → Walked
unfolding selected nodes_below numbers
walk scan fuel done [] = walked done
walk scan zero done (d ∷ todo) = endless
walk scan (suc fuel) done (d ∷ todo) = elim (scan d.path) [
  | none ↦ refused
  | some entries ↦
      let names = selected select_directories entries in
      walk scan fuel
        (done ++ record d { children = numbers (length done + suc (length todo)) names } ∷ [])
        (todo ++ nodes_below d (length done) names)
]

-- The root of the list.
abbrev pub root_list : List ℕ → Directory
root_list in_dir = record { path = in_dir; name = []; parent = 0; children = []; files = [] }

-- Every directory with the names of its files; `none` where scandir fails.
unfoldable pub file_names : Scan → List Directory → Option (List (List ℕ × List (List ℕ)))
unfolding selected
file_names scan [] = some []
file_names scan (d ∷ ds) = elim (scan d.path) [
  | none ↦ none
  | some entries ↦ elim (file_names scan ds) [
    | none ↦ none
    | some more ↦ some ((d.path, selected select_files entries) ∷ more)
  ]
]

-- `dirList->fileList` of every directory.
unfoldable pub with_files : List Directory → List (List FileEntry) → List Directory
with_files [] es = []
with_files (d ∷ ds) [] = d ∷ ds
with_files (d ∷ ds) (e ∷ es) = record d { files = e } ∷ with_files ds es
