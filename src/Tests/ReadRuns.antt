-- ===== src/Tests/ReadRuns.antt =====
-- Reads from an image in memory.
use ps3netsrv.Prelude.{
  ℕ, ◌*◌, ◌≡◌, ◌≢◌, refl, true, false, arith, Option, none, some, List, [], ◌∷◌, ◌++◌, length,
  flatten,
}
use ps3netsrv.Prelude.Window.{window}
use ps3netsrv.Session.{Status, succeeded, Client, Session, send_all, log_eof_padding}
use ps3netsrv.Wire.{be32, be64}
use ps3netsrv.Read.{
  ReadFileCmd, ReadCdCmd, process_read_file_critical, process_read_cd_2048_critical_cmd,
  process_read_file_cmd, bulk_sectors, single_sectors,
}
use ps3netsrv.Read.Critical.{critical-window, process_read_file_critical-ne-none}
use ps3netsrv.Read.Sectors.{payloads, bulk_sectors-single_sectors, process_read_cd-payloads}
use ps3netsrv.Tests.Memory.{MemFile, mem_file, mem_regular, mem_os}

abbrev image : MemFile
image = record { bytes = 10 ∷ 11 ∷ 12 ∷ 13 ∷ 14 ∷ []; at = 0 }

abbrev client : Client mem_file
client = record {
  ro_file = some image;
  wo_file = none;
  dir = none;
  dirpath = none;
  buf = some [];
  cd_sector_size = 2352;
  subdirs = 0;
  ro_file_size = 5;
  eof_pad_logged = false;
}

abbrev session : Session mem_os
session = record { world = tt; client = client; sent = [] }

-- Six bytes from offset 3, in network byte order.
abbrev six_from_three : ReadFileCmd
six_from_three = record { num_bytes = 6 * 16777216; offset = 3 * 72057594037927936 }

abbrev sent_by : Option (Status × Session mem_os) → List (List ℕ)
sent_by none = []
sent_by (some (st, s)) = s.sent

pads_with_zeros :
    sent_by (process_read_file_critical six_from_three session)
    ≡ (13 ∷ 14 ∷ 0 ∷ 0 ∷ 0 ∷ 0 ∷ []) ∷ []
unfolding process_read_file_critical be32 be64 send_all log_eof_padding
pads_with_zeros = refl

short_count :
    (process_read_file_cmd six_from_three session).1.sent
    ≡ (0 ∷ 0 ∷ 0 ∷ 2 ∷ []) ∷ (13 ∷ 14 ∷ []) ∷ []
unfolding process_read_file_cmd be32 be64 send_all
short_count = refl

critical-window_example :
    (s' : Session mem_os) × (process_read_file_critical six_from_three session
      ≡ some (succeeded, s'))
    × (flatten s'.sent
        ≡ flatten session.sent
          ++ window image.bytes (be64 (3 * 72057594037927936)) (be32 (6 * 16777216)))
critical-window_example =
    critical-window {os = mem_os} mem_regular image.bytes (λ b w. refl) six_from_three image session
      [] refl refl refl refl (unfold be32 be64 in omega arith)

process_read_file_critical-ne-none_example :
    process_read_file_critical six_from_three session ≢ none
process_read_file_critical-ne-none_example =
    process_read_file_critical-ne-none six_from_three session

bulk_sectors-single_sectors_example :
    (bulk_sectors 2 0 image client).0 ≡ (single_sectors 2 0 image client).0
bulk_sectors-single_sectors_example =
    bulk_sectors-single_sectors mem_regular image.bytes 2 0 image client refl refl (omega arith)
      (omega arith)

-- Sector 1, two sectors.
abbrev two_from_one : ReadCdCmd
two_from_one = record { start_sector = 16777216; sector_count = 2 * 16777216 }

process_read_cd-payloads_example :
    let reply = payloads image.bytes (be32 16777216 * 2352) 2352 (be32 (2 * 16777216)) in
    ((process_read_cd_2048_critical_cmd two_from_one session).0 ≡ succeeded)
    × ((process_read_cd_2048_critical_cmd two_from_one session).1.sent ≡ reply ∷ [])
    × (length reply ≡ be32 (2 * 16777216) * 2048)
process_read_cd-payloads_example =
    process_read_cd-payloads mem_regular image.bytes (λ b w. refl) two_from_one image session []
      refl refl refl refl (omega arith) (unfold be32 in omega arith)

abbrev all_sectors : ReadCdCmd
all_sectors = record { start_sector = 0; sector_count = 65535 }

-- The session behind the read of six bytes.
abbrev behind : Session mem_os
behind = record {
  world = tt;
  client = record client {
    ro_file = some (record { bytes = 10 ∷ 11 ∷ 12 ∷ 13 ∷ 14 ∷ []; at = 5 });
    buf = some (13 ∷ 14 ∷ 0 ∷ 0 ∷ 0 ∷ 0 ∷ []);
    eof_pad_logged = true;
  };
  sent = (13 ∷ 14 ∷ 0 ∷ 0 ∷ 0 ∷ 0 ∷ []) ∷ [];
}

ends_behind : process_read_file_critical six_from_three session ≡ some (succeeded, behind)
unfolding process_read_file_critical be32 be64 send_all log_eof_padding
ends_behind = refl
