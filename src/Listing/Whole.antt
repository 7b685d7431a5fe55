-- ===== src/Listing/Whole.antt =====
-- process_read_dir_cmd of src/main.cpp: all entries of the open directory in one reply, and those of
-- the directories that an INI file adds to it.
-- The allocations are taken to succeed, so `max_items` is MAX_ENTRIES, and client->dirpath is taken to
-- be no shorter than the served root.
pub mod Replies
use ps3netsrv.Prelude.{
  ℕ, zero, suc, ◌+◌, ◌-◌, ◌*◌, Bool, true, false, ◌&&◌, ◌||◌, ltb, leb, ◌==◌, if◌then◌else◌, Option,
  none, some, List, [], ◌∷◌, ◌++◌, length, get_or, take, replicate,
}
use ps3netsrv.Env.{Os, Stat}
use ps3netsrv.Session.{Status, succeeded, failed, Session, send_all}
use ps3netsrv.Wire.{be64, store64}
use ps3netsrv.Path.{c_str, normalize_path, starts_with, ini, is_some, skip_blanks, split_line}
use ps3netsrv.Listing.Items.{Item, Filled, filled, overrun, process_read_dir}

-- MAX_ENTRIES.
abbrev pub max_entries : ℕ
max_entries = 4096

-- netiso_read_dir_result_data, as it is sent: the array was zeroed before the name went in.
abbrev pub item_bytes : Item → List ℕ
item_bytes i =
    store64 (be64 i.file_size)
    ++ store64 (be64 i.mtime)
    ++ (if i.is_directory then 1 else 0) ∷ (i.name ++ replicate (512 - length i.name) 0)

abbrev pub items_bytes : List Item → List ℕ
items_bytes [] = []
items_bytes (i ∷ items) = item_bytes i ++ items_bytes items

-- The paths of the INI file, one for each round of the loop over its text, where a round takes at least
-- one byte; `none` means that the fuel ran out.
pub ini_lines : ℕ → List ℕ → Option (List (List ℕ))
ini_lines fuel [] = some []
ini_lines zero (c ∷ cs) = none
ini_lines (suc fuel) (c ∷ cs) =
    let (line, more) = split_line (skip_blanks (c ∷ cs)) in
    elim more [
      | none ↦ some (normalize_path line true ∷ [])
      | some text ↦ elim (ini_lines fuel text) [
        | none ↦ none
        | some lines ↦ some (normalize_path line true ∷ lines)
      ]
    ]

module _ (stat_file : List ℕ → Option Stat) where
  -- The loop that looks for the INI file, from position `i` of the directory down, `n` positions: what
  -- the buffer holds behind it, which is the last name that was tried where no name is known.
  -- With an empty root the code, which counts in a size_t, would go on below position 0; that is not
  -- modelled, the loop ends there.
  unfoldable pub find_ini : List ℕ → ℕ → ℕ → ℕ → List ℕ → List ℕ
  find_ini p slen i zero ini_file = ini_file
  find_ini p slen i (suc n) ini_file =
      let tried = find_ini p slen (i - 1) n (take i p ++ ini) in
      let passed = find_ini p slen (i - 1) n ini_file in
      if get_or p i 0 == 47 || i == slen
      then if is_some (stat_file (take i p ++ ini)) then take i p ++ ini else tried
      else passed

  module _ (opendir : List ℕ → Option (List (List ℕ))) (root : List ℕ) where
    -- The directories of the INI file that exist are read behind the entries there are.
    pub merge_entries : ℕ → ℕ → List (List ℕ) → List Item → Filled
    merge_entries path_len subdirs [] items = filled items
    merge_entries path_len subdirs (dir_path ∷ lines) items = elim (is_some (stat_file dir_path)) [
      | false ↦ merge_entries path_len subdirs lines items
      | true ↦
          elim (process_read_dir stat_file max_entries path_len
            (if starts_with root dir_path then length root else 0) opendir subdirs dir_path items) [
              | overrun ↦ overrun
              | filled more ↦ merge_entries path_len subdirs lines more
            ]
    ]

module _ {os : Os} where
  -- The count goes first and the entries follow where there are any.
  unfoldable pub send_items : List Item → Session os → Status × Session os
  send_items items s =
      let (sent, s1) = send_all (store64 (be64 (length items))) s in
      let (sent_items, s2) = send_all (items_bytes items) s1 in
      if sent
      then if ltb 0 (length items)
        then (if sent_items then succeeded else failed, s2)
        else (succeeded, s1)
      else (failed, s1)

  module _ (root : List ℕ) where
    -- What the array holds when the reply is sent.
    pub collect : List ℕ → Session os → Filled
    unfolding find_ini ini_lines merge_entries process_read_dir
    collect dirpath s =
        let stat_file = λ (p : List ℕ). Os.stat_file os p s.world in
        let opendir = λ (p : List ℕ). Os.opendir os p s.world in
        let path_len = 510 + length dirpath + 255 + 2 in
        let slen = length dirpath - 1 in
        let ini_file = find_ini stat_file dirpath slen slen (slen + 1 - length root) dirpath in
        elim (process_read_dir stat_file max_entries path_len (length dirpath) opendir
          s.client.subdirs dirpath []) [
            | overrun ↦ overrun
            | filled items ↦ elim (Os.read_file os ini_file 2048 s.world) [
              | none ↦ filled items
              | some text ↦ elim (ini_lines (length text) (c_str text)) [
                | none ↦ filled items
                | some lines ↦
                    merge_entries stat_file opendir root path_len s.client.subdirs lines items
              ]
            ]
          ]

    -- The directory is closed, and the slash at the end of its path overwritten.
    abbrev pub dir_read : List ℕ → Session os → Session os
    dir_read dirpath s = record s {
      client = record s.client { dir = none; dirpath = some (take (length dirpath - 1) dirpath) };
    }

    -- `none` is a write behind the array of entries.
    unfoldable pub process_read_dir_cmd : Session os → Option (Status × Session os)
    unfolding collect send_items
    process_read_dir_cmd s = elim s.client.dir [
      | none ↦ some (send_items [] s)
      | some _ ↦ elim s.client.dirpath [
        | none ↦ some (send_items [] s)
        | some dirpath ↦ elim (collect dirpath s) [
          | overrun ↦ none
          | filled items ↦ some (send_items items (dir_read dirpath s))
        ]
      ]
    ]
