-- ===== src/Tests/ListingRuns.antt =====
-- Directories that are listed entry by entry and as a whole; first one with the entries ".", "a" and "b".
use ps3netsrv.Prelude.{
  ℕ, ◌≡◌, refl, arith, true, false, if◌then◌else◌, Option, none, some, List, [], ◌∷◌,
}
use ps3netsrv.Env.{Stat}
use ps3netsrv.Commands.{equal}
use ps3netsrv.Listing.Items.{Item, item_of, overrun, fill, read_level, process_read_dir}
use ps3netsrv.Listing.Items.Bounds.{Fits, process_read_dir-Fits}
use ps3netsrv.Session.{Client, Session}
use ps3netsrv.Tests.Memory.{mem_file, regular, full_os}

abbrev browsing : Client mem_file
browsing = record {
  ro_file = none;
  wo_file = none;
  dir = some ((46 ∷ []) ∷ (97 ∷ []) ∷ (98 ∷ []) ∷ []);
  dirpath = some (47 ∷ 114 ∷ 47 ∷ []);
  buf = some [];
  cd_sector_size = 2352;
  subdirs = 0;
  ro_file_size = 0;
  eof_pad_logged = false;
}

abbrev session : Session full_os
session = record { world = []; client = browsing; sent = [] }

-- Every directory has the files "a" and "b", and the array has one entry.
abbrev two_names : List ℕ → Option (List (List ℕ))
two_names path = some ((97 ∷ []) ∷ (98 ∷ []) ∷ [])

abbrev files_only : List ℕ → Option Stat
files_only path = some (regular 3)

process_read_dir-Fits_example :
    Fits 1 (process_read_dir files_only 1 100 3 two_names 0 (47 ∷ 114 ∷ []) [])
process_read_dir-Fits_example =
    process_read_dir-Fits files_only 1 100 3 two_names (47 ∷ 114 ∷ []) [] (omega arith)

abbrev one_item : List Item
one_item = item_of (regular 3) (97 ∷ []) ∷ []

-- With `subdirs` the first directory "d" fills the array and the file "a" behind it leaves it.
abbrev nested_names : List ℕ → Option (List (List ℕ))
nested_names path =
    if equal path (47 ∷ 114 ∷ []) then some ((100 ∷ []) ∷ (97 ∷ []) ∷ []) else some ((98 ∷ []) ∷ [])

abbrev directory : Stat
directory = record { file_size = 0; is_dir = true; is_reg = false; mtime = 1; ctime = 1; atime = 1 }

abbrev nested_stats : List ℕ → Option Stat
nested_stats path =
    if equal path (47 ∷ 114 ∷ 47 ∷ 100 ∷ []) then some directory else some (regular 3)

subdirs_overrun : process_read_dir nested_stats 1 100 3 nested_names 1 (47 ∷ 114 ∷ []) [] ≡ overrun
unfolding process_read_dir read_level fill
subdirs_overrun = refl
