-- ===== src/Listing.antt =====
-- process_read_dir_entry_cmd of src/main.cpp, in both versions; process_read_dir is in Listing/Items.antt.
pub mod Items
pub mod Order
pub mod Whole
use ps3netsrv.Prelude.{
  ℕ, zero, suc, ◌+◌, ◌^◌, Bool, true, false, not, ◌&&◌, ◌||◌, leb, ◌==◌, if◌then◌else◌, Option,
  none, some, List, [], ◌∷◌, ◌++◌, length,
}
use ps3netsrv.Env.{AbstractFile, Os, Stat}
use ps3netsrv.Session.{Status, succeeded, failed, Client, Session, send_all}
use ps3netsrv.Wire.{be16, be64, store16, store64, none64}
use ps3netsrv.Path.{starts_with}

-- IS_PARENT_DIR: "." and "..".
abbrev pub is_parent_dir : List ℕ → Bool
is_parent_dir (a ∷ []) = a == 46
is_parent_dir (a ∷ b ∷ []) = a == 46 && b == 46
is_parent_dir _ = false

-- A name that the command reports: MAX_FILE_LEN is 255.
abbrev pub is_listed_name : List ℕ → Bool
is_listed_name name = not (is_parent_dir name) && (leb 1 (length name) && leb (length name) 255)

-- The loop around readdir: the first name to report and the names behind it.
abbrev pub next_entry : List (List ℕ) → Option (List ℕ × List (List ℕ))
next_entry [] = none
next_entry (name ∷ names) = if is_listed_name name then some (name, names) else next_entry names

pub data Version : Type 0 where
  v1 v2 : Version

-- netiso_read_dir_entry_result and its second version.
abbrev pub entry_result : Version → ℕ → ℕ → ℕ → ℕ → ℕ → ℕ → List ℕ
entry_result v1 size mtime ctime atime fn_len is_directory =
    store64 size ++ store16 fn_len ++ is_directory ∷ []
entry_result v2 size mtime ctime atime fn_len is_directory =
    store64 size
    ++ store64 mtime
    ++ store64 ctime
    ++ store64 atime
    ++ store16 fn_len
    ++ is_directory ∷ []

-- The result where there is no entry.
abbrev pub no_entry : Version → List ℕ
no_entry v = entry_result v (be64 none64) 0 0 0 0 0

abbrev pub stat_entry : Version → Stat → List ℕ → List ℕ
stat_entry v st name =
    entry_result v (be64 (if st.is_dir then 0 else st.file_size)) (be64 st.mtime) (be64 st.ctime)
      (be64 st.atime) (be16 (length name)) (if st.is_dir then 1 else 0)

module _ {os : Os} where
  -- closedir and free.
  abbrev pub close_dir : Session os → Session os
  close_dir s = record s { client = record s.client { dir = none; dirpath = none } }

  abbrev pub put_dir : List (List ℕ) → Session os → Session os
  put_dir names s = record s { client = record s.client { dir = some names } }

  -- The result is sent, with nothing behind it.
  unfoldable pub send_none : Version → Session os → Status × Session os
  send_none v s =
      let (sent, s1) = send_all (no_entry v) s in (if sent then succeeded else failed, s1)

  -- The result is sent and the name behind it, unless the size reads as -1.
  unfoldable pub send_entry : Version → Stat → List ℕ → Session os → Status × Session os
  send_entry v st name s =
      let (sent, s1) = send_all (stat_entry v st name) s in
      let (sent_name, s2) = send_all name s1 in
      if sent
      then if be64 (if st.is_dir then 0 else st.file_size) == be64 none64
        then (succeeded, s1)
        else (if sent_name then succeeded else failed, s2)
      else (failed, s1)

  unfoldable pub list_entry : Version → List ℕ → List (List ℕ) → Session os → Status × Session os
  unfolding send_none send_entry
  list_entry v dirpath names s = elim (next_entry names) [
    | none ↦ send_none v (close_dir s)
    | some (name, rest) ↦ elim (Os.stat_file os (dirpath ++ 47 ∷ name) s.world) [
      | none ↦ send_none v (close_dir s)
      | some st ↦ send_entry v st name (put_dir rest s)
    ]
  ]

  unfoldable pub process_read_dir_entry_cmd : Version → Session os → Status × Session os
  unfolding list_entry
  process_read_dir_entry_cmd v s = elim s.client.dir [
    | none ↦ send_none v s
    | some names ↦ elim s.client.dirpath [
      | none ↦ send_none v s
      | some dirpath ↦ list_entry v dirpath names s
    ]
  ]
