-- ===== src/DirSize.antt =====
-- calculate_directory_size and process_get_dir_size_cmd of src/main.cpp. Sizes are int64_t: what is
-- negative there has its top bit set here. The fuel bounds the depth of the directories, which the
-- code leaves to its stack; `none` means that it ran out.
pub mod Levels
pub mod Tree
use ps3netsrv.Prelude.{
  ℕ, zero, suc, ◌+◌, ◌%◌, ◌^◌, Bool, true, false, leb, if◌then◌else◌, Option, none, some, List, [],
  ◌∷◌, ◌++◌,
}
use ps3netsrv.Env.{Os, Stat}
use ps3netsrv.Session.{Status, succeeded, failed, Session}
use ps3netsrv.Wire.{be16, be64, store64, none64}
use ps3netsrv.Path.{is_some}
use ps3netsrv.Listing.{is_listed_name}
use ps3netsrv.Commands.{PathCmd, reply, recv_path, translate}

module _ (stat_file : List ℕ → Option Stat) (opendir : List ℕ → Option (List (List ℕ))) where
  -- The loop around readdir, below `path`. `nested` is the call for a subdirectory.
  unfoldable pub add_entries : (List ℕ → Option ℕ) → List ℕ → List (List ℕ) → ℕ → Option ℕ
  add_entries nested path [] result = some result
  add_entries nested path (name ∷ names) result = elim (is_listed_name name) [
    | false ↦ add_entries nested path names result
    | true ↦ elim (stat_file (path ++ 47 ∷ name)) [
      | none ↦ some none64
      | some st ↦ elim st.is_dir [
        | true ↦ elim (nested (path ++ 47 ∷ name)) [
          | none ↦ none
          | some temp ↦
              let rest = add_entries nested path names ((result + temp) % 2 ^ 64) in
              if leb (2 ^ 63) temp then some temp else rest
        ]
        | false ↦
            add_entries nested path names
              (if st.is_reg then (result + st.file_size) % 2 ^ 64 else result)
      ]
    ]
  ]

  unfoldable pub calculate_directory_size : ℕ → List ℕ → Option ℕ
  unfolding add_entries
  calculate_directory_size zero path = none
  calculate_directory_size (suc fuel) path = elim (stat_file path) [
    | none ↦ some none64
    | some _ ↦ elim (opendir path) [
      | none ↦ some none64
      | some names ↦ add_entries (calculate_directory_size fuel) path names 0
    ]
  ]

module _ {os : Os} (root : List ℕ) where
  unfoldable pub process_get_dir_size_cmd : ℕ → PathCmd → Session os → Option (Status × Session os)
  unfolding calculate_directory_size reply recv_path translate
  process_get_dir_size_cmd fuel cmd s =
      let (r, s1) = recv_path (be16 cmd.path_len) s in
      elim r [
        | none ↦ some (failed, s1)
        | some path ↦ elim (translate root false path s1) [
          | none ↦ some (failed, s1)
          | some (dirpath, _) ↦
              elim (calculate_directory_size (λ p. Os.stat_file os p s1.world)
                (λ p. Os.opendir os p s1.world) fuel dirpath) [
                  | none ↦ none
                  | some size ↦ some (reply (store64 (be64 size)) succeeded s1)
                ]
        ]
      ]
