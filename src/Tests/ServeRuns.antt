-- ===== src/Tests/ServeRuns.antt =====
-- A client thread that is sent two commands, a directory that is listed in one reply, and the size of
-- a small tree.
use ps3netsrv.Prelude.{
  ℕ, ◌*◌, ◌^◌, ◌<◌, ◌≡◌, refl, ap, ◌∙◌, ◌⊎◌, arith, true, false, if◌then◌else◌, Option, none, some,
  List, [], ◌∷◌, ◌++◌, length, flatten, take, drop, length-drop, length-take,
}
use ps3netsrv.Prelude.Window.{window}
use ps3netsrv.Env.{Os, Stat}
use ps3netsrv.Session.{succeeded, Session, send_all}
use ps3netsrv.Wire.{be16, be32, be64, store64, none64}
use ps3netsrv.Path.{translate_path, merge_dirs, find_link}
use ps3netsrv.Commands.{recv_path, reply, translate, equal, process_open_cmd}
use ps3netsrv.Commands.Opened.{HonestStat, Recorded}
use ps3netsrv.Listing.Items.{Item, item_of, filled, fill, read_level, process_read_dir}
use ps3netsrv.Listing.Whole.{process_read_dir_cmd, collect, find_ini, send_items, items_bytes}
use ps3netsrv.Listing.Whole.Replies.{messages, process_read_dir_cmd-messages}
use ps3netsrv.Read.{ReadFileCmd, process_read_file_critical}
use ps3netsrv.DirSize.{calculate_directory_size}
use ps3netsrv.DirSize.Tree.{
  file, dir, end, dots, entry, Entries, Shows, depth, total, totals, are_whole,
  calculate_directory_size-total,
}
use ps3netsrv.Serve.{fresh_client, Setup, dispatch, opcode, round, client_thread, finalized, ended}
use ps3netsrv.Serve.Reached.{
  Reached, at_start, after_round, client_thread-Recorded, client_thread-window,
}
use ps3netsrv.Serve.Input.{FiniteInput}
use ps3netsrv.Serve.Input.Outcomes.{EndsReleased, EndsOverrun, client_thread_ends}
use ps3netsrv.DirSize.Levels.{Nesting}
use ps3netsrv.Tests.Memory.{MemFile, mem_file, mem_regular, net_os, regular}

abbrev setup : Setup net_os
setup = record { root = 47 ∷ 114 ∷ []; deepest = 8; junk = λ s. regular 0; stack = λ s. [] }

-- OPEN_FILE of "/g".
abbrev open_g : List ℕ
open_g = 18 ∷ 36 ∷ 0 ∷ 2 ∷ 0 ∷ 0 ∷ 0 ∷ 0 ∷ 0 ∷ 0 ∷ 0 ∷ 0 ∷ 0 ∷ 0 ∷ 0 ∷ 0 ∷ 47 ∷ 103 ∷ []

abbrev connected : Session net_os
connected = record { world = open_g; client = fresh_client []; sent = [] }

abbrev g_file : MemFile
g_file = record { bytes = 7 ∷ 8 ∷ 9 ∷ []; at = 0 }

abbrev g_opened : Session net_os
g_opened = record {
  world = [];
  client = record (fresh_client {F = mem_file} []) { ro_file = some g_file; ro_file_size = 3 };
  sent = (store64 (3 * 2 ^ 56) ++ store64 (2 ^ 56)) ∷ [];
}

opens_g : round setup connected ≡ some (succeeded, g_opened)
unfolding round dispatch opcode process_open_cmd recv_path reply translate translate_path merge_dirs
    find_link send_all be16 be64
opens_g = refl

ends_there : client_thread setup 2 connected ≡ ended (finalized setup g_opened)
unfolding client_thread round dispatch opcode process_open_cmd recv_path reply translate
    translate_path merge_dirs find_link send_all be16 be64
ends_there = refl

reached : Reached setup connected g_opened
reached = after_round {s1 = connected} at_start opens_g

honest : HonestStat mem_regular
honest = record { file_size-length = λ h st e. ground (arith, e); content-fstat = λ h. refl }

client_thread-Recorded_example : Recorded mem_regular g_opened.client
client_thread-Recorded_example =
    client_thread-Recorded mem_regular honest setup connected g_opened [] refl reached

-- Two bytes from offset 1.
abbrev two_from_one : ReadFileCmd
two_from_one = record { num_bytes = 2 * 2 ^ 24; offset = 2 ^ 56 }

client_thread-window_example :
    (s2 : Session net_os) × (process_read_file_critical two_from_one g_opened
      ≡ some (succeeded, s2))
    × (flatten s2.sent
        ≡ flatten g_opened.sent
          ++ window g_file.bytes (be64 two_from_one.offset) (be32 two_from_one.num_bytes))
client_thread-window_example =
    client_thread-window mem_regular honest setup connected g_opened [] two_from_one g_file
      (λ b w. refl) refl reached refl (unfold be32 be64 in omega arith)

got_all : (taken got : List ℕ) → some taken ≡ some got → taken ≡ got
got_all taken got e = cc

takes_all : (n : ℕ) (w : List ℕ) → length (take n w) ≡ n → 0 < n → length (drop n w) < length w
takes_all n w all more = ground (arith, length-drop n w, length-take n w)

abbrev input : FiniteInput net_os
input = record {
  left = λ w. length w;
  left-recv_le = λ n w. omega (arith, length-drop n w);
  left-recv_lt =
      λ n w got e all more. takes_all n w (ap length (got_all (take n w) got e) ∙ all) more;
  left-send = λ b w. omega arith;
  left-open_read = λ v p w. omega arith;
  left-open_create = λ p w. omega arith;
  left-unlink = λ p w. omega arith;
  left-mkdir = λ p w. omega arith;
  left-rmdir = λ p w. omega arith;
}

-- No directory of this host can be opened.
abbrev nesting : Nesting net_os 8
nesting = record {
  level = λ w p. 0;
  bounded = λ w p. omega arith;
  below = λ w p names e. absurd (ground (arith, e));
}

client_thread_ends_example :
    EndsReleased setup connected (client_thread setup 19 connected)
    ⊎ EndsOverrun setup connected (client_thread setup 19 connected)
client_thread_ends_example = client_thread_ends setup nesting input 19 connected (omega arith)

-- Every directory has one file, "a".
abbrev list_os : Os
list_os = record net_os {
  stat_file = λ p w. some (regular 3);
  opendir = λ p w. some ((97 ∷ []) ∷ []);
}

abbrev browsing : Session list_os
browsing = record {
  world = [];
  client = record (fresh_client {F = mem_file} []) {
    dir = some [];
    dirpath = some (47 ∷ 114 ∷ 47 ∷ []);
  };
  sent = [];
}

abbrev one_item : List Item
one_item = item_of (regular 3) (97 ∷ []) ∷ []

abbrev listed : Session list_os
listed = record {
  world = [];
  client = record (fresh_client {F = mem_file} []) { dirpath = some (47 ∷ 114 ∷ []) };
  sent = messages one_item;
}

lists : process_read_dir_cmd (47 ∷ 114 ∷ []) browsing ≡ some (succeeded, listed)
unfolding process_read_dir_cmd find_ini process_read_dir read_level fill send_items send_all be64
lists = refl

process_read_dir_cmd-messages_example :
    (items : List Item) × (collect (47 ∷ 114 ∷ []) (47 ∷ 114 ∷ 47 ∷ []) browsing ≡ filled items)
    × (listed.sent ≡ browsing.sent ++ messages items)
    × (length (items_bytes items) ≡ 529 * length items)
    × (listed.client.dir ≡ none)
process_read_dir_cmd-messages_example =
    process_read_dir_cmd-messages (47 ∷ 114 ∷ []) (47 ∷ 114 ∷ 47 ∷ []) [] browsing listed refl refl
      lists

-- "/r" has ".", the file "a" of 5 bytes and the directory "d" with the file "b" of 7.
abbrev small_tree : Entries
small_tree =
    dots (46 ∷ [])
      (entry (97 ∷ []) (file 5) (entry (100 ∷ []) (dir (entry (98 ∷ []) (file 7) end)) end))

abbrev directory : Stat
directory = record { file_size = 0; is_dir = true; is_reg = false; mtime = 1; ctime = 1; atime = 1 }

abbrev tree_stats : List ℕ → Option Stat
tree_stats path =
    if equal path (47 ∷ 114 ∷ 47 ∷ 97 ∷ [])
    then some (regular 5)
    else if equal path (47 ∷ 114 ∷ 47 ∷ 100 ∷ 47 ∷ 98 ∷ [])
    then some (regular 7)
    else some directory

abbrev tree_names : List ℕ → Option (List (List ℕ))
tree_names path =
    if equal path (47 ∷ 114 ∷ [])
    then some ((46 ∷ []) ∷ (97 ∷ []) ∷ (100 ∷ []) ∷ [])
    else some ((98 ∷ []) ∷ [])

shows : Shows tree_stats tree_names (47 ∷ 114 ∷ []) (dir small_tree)
unfolding Shows
shows = (
  directory,
  refl,
  refl,
  refl,
  (
    refl,
    (
      refl,
      (regular 5, refl, refl, refl, refl),
      (
        refl,
        (directory, refl, refl, refl, (refl, (regular 7, refl, refl, refl, refl), record {})),
        record {},
      ),
    ),
  ),
)

calculate_directory_size-total_example :
    calculate_directory_size tree_stats tree_names 3 (47 ∷ 114 ∷ [])
    ≡ some (if are_whole small_tree then totals small_tree else none64)
calculate_directory_size-total_example =
    calculate_directory_size-total tree_stats tree_names small_tree 3 (47 ∷ 114 ∷ []) shows
      (unfold depth in omega arith) (unfold total in omega arith)

twelve_bytes : calculate_directory_size tree_stats tree_names 3 (47 ∷ 114 ∷ []) ≡ some 12
unfolding calculate_directory_size
twelve_bytes = refl
