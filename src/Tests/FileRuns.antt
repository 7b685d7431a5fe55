-- ===== src/Tests/FileRuns.antt =====
-- An image in three parts, of two, two and one bytes.
use ps3netsrv.Prelude.{
  ℕ, ◌≡◌, refl, arith, true, false, ◌==◌, if◌then◌else◌, Option, none, some, List, [], ◌∷◌,
}
use ps3netsrv.File.{Parts, stored, underrun, read, read_next, seek}
use ps3netsrv.File.Multipart.{Even, read-joined}
use ps3netsrv.File.Open.{is_first_part, open_parts, open_multipart}
use ps3netsrv.File.Open.Opens.{IsOpened, open_multipart-IsOpened}
use ps3netsrv.Viso.Build.{same}
use ps3netsrv.Env.{AbstractFile}
use ps3netsrv.Tests.Memory.{mem_file, mem_regular}

abbrev three : Parts mem_file
three = record {
  fp = λ i. record {
    bytes = if i == 0 then 1 ∷ 2 ∷ [] else if i == 1 then 3 ∷ 4 ∷ [] else 5 ∷ [];
    at = 0;
  };
  is_multipart = 3;
  part_size = 2;
  index = 0;
}

Even-three : Even mem_regular three
Even-three = record { sized = λ i h. ground (arith, h); some_size = omega arith }

across : (read (seek three 1).1 2).0 ≡ stored (2 ∷ 3 ∷ [])
unfolding read seek read_next
across = refl

read-joined_example :
    ((seek three 3).0 ≡ true) × ((read (seek three 3).1 2).0 ≡ stored (4 ∷ 5 ∷ []))
read-joined_example =
    read-joined mem_regular three Even-three 3 2 (omega arith) (omega arith) (omega arith)

-- A read that reaches into the third part stops at the end of the second.
stops_short : (read (seek three 1).1 4).0 ≡ stored (2 ∷ 3 ∷ 4 ∷ [])
unfolding read seek read_next
stops_short = refl

-- An image whose first part cannot be read.
abbrev broken_file : AbstractFile
broken_file = record {
  Handle = ℕ;
  read = λ h n. (if h == 0 then none else some (7 ∷ []), h);
  write = λ h b. (none, h);
  seek = λ h n. (true, h);
  fstat = λ h. (none, h);
  supports_bulk_read = λ h. false;
}

stores_before_buffer :
    (read {F = broken_file}
      (record { fp = λ i. i; is_multipart = 2; part_size = 1; index = 0 })
      1).0
    ≡ underrun
unfolding read read_next
stores_before_buffer = refl

-- "x.iso.0" of two bytes, with "x.iso.1".
abbrev iso_path : List ℕ
iso_path = 120 ∷ 46 ∷ 105 ∷ 115 ∷ 111 ∷ 46 ∷ 48 ∷ []

abbrev iso_fd : AbstractFile.Handle mem_file
iso_fd = record { bytes = 1 ∷ 2 ∷ []; at = 0 }

abbrev next_fd : AbstractFile.Handle mem_file
next_fd = record { bytes = 3 ∷ []; at = 0 }

abbrev open_next : List ℕ → Option (AbstractFile.Handle mem_file)
open_next path =
    if same path (120 ∷ 46 ∷ 105 ∷ 115 ∷ 111 ∷ 46 ∷ 49 ∷ []) then some next_fd else none

abbrev two_parts : Parts mem_file
two_parts = record {
  fp = λ j. if j == 1 then next_fd else iso_fd;
  is_multipart = 2;
  part_size = 2;
  index = 0;
}

names_first_part : is_first_part iso_path ≡ true
names_first_part = refl

two_opened : open_multipart mem_file open_next iso_path iso_fd ≡ some two_parts
unfolding open_multipart open_parts
two_opened = refl

open_multipart-IsOpened_example : IsOpened mem_file open_next iso_path iso_fd two_parts
open_multipart-IsOpened_example =
    open_multipart-IsOpened mem_file open_next iso_path iso_fd two_parts two_opened
