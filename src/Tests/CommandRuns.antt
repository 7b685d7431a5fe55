-- ===== src/Tests/CommandRuns.antt =====
-- Commands on paths, with a world of bytes that arrive.
use ps3netsrv.Prelude.{
  ◌*◌, ℕ, ◌≡◌, ◌⊎◌, refl, false, none, some, List, [], ◌∷◌, ◌++◌, length, replicate, drop,
}
use ps3netsrv.Session.{succeeded, failed, Client, Session, send_all}
use ps3netsrv.Wire.{be16, be32, be64, store32}
use ps3netsrv.Path.{translate_path, merge_dirs, find_link}
use ps3netsrv.Commands.{playstation, detect, PathCmd, recv_path, reply, translate, process_open_cmd}
use ps3netsrv.Commands.Paths.{WriteFileCmd, on_path, process_mkdir_cmd}
use ps3netsrv.Commands.Replies.{Answers, process_open_cmd-Answers, on_path-below}
use ps3netsrv.Path.Normal.{Clean}
use ps3netsrv.Tests.Memory.{MemFile, mem_file, net_os}

abbrev root : List ℕ
root = 47 ∷ 114 ∷ []

Clean-root : Clean root
Clean-root = record { slashes = refl; no_return = refl; no_slash = refl }

abbrev idle : Client mem_file
idle = record {
  ro_file = none;
  wo_file = none;
  dir = none;
  dirpath = none;
  buf = some [];
  cd_sector_size = 2352;
  subdirs = 0;
  ro_file_size = 0;
  eof_pad_logged = false;
}

-- "/g" arrives.
abbrev session : Session net_os
session = record { world = 47 ∷ 103 ∷ []; client = idle; sent = [] }

abbrev two_bytes : PathCmd
two_bytes = record { path_len = 512 }

opens :
    (process_open_cmd root two_bytes session).1.client.ro_file
    ≡ some (record { bytes = 7 ∷ 8 ∷ 9 ∷ []; at = 0 })
unfolding process_open_cmd recv_path reply translate translate_path merge_dirs find_link send_all
    be16 be64
opens = refl

process_open_cmd-Answers_example : Answers 16 session (process_open_cmd root two_bytes session).1
process_open_cmd-Answers_example = process_open_cmd-Answers root two_bytes session

-- "PLAY" 8 bytes behind the place where sectors of one byte have their data, and "STATION " in the
-- buffer behind what the first read stores.
abbrev marked_file : MemFile
marked_file = record { bytes = replicate 48 0 ++ 80 ∷ 76 ∷ 65 ∷ 89 ∷ replicate 40 0; at = 0 }

abbrev with_rest : Client mem_file
with_rest = record idle { buf = some (replicate 12 0 ++ drop 4 playstation) }

finds_size : (detect (3 ∷ 1 ∷ []) marked_file with_rest).1.cd_sector_size ≡ 1
unfolding detect
finds_size = refl

-- Without the rest of the name in the buffer it is not found.
keeps_size : (detect (3 ∷ 1 ∷ []) marked_file idle).1.cd_sector_size ≡ 2352
unfolding detect
keeps_size = refl

abbrev mkdir_call : List ℕ → List ℕ → ℕ × List ℕ
mkdir_call p w = (length p, w)

makes_below_root : (process_mkdir_cmd root two_bytes session).1.sent ≡ (0 ∷ 0 ∷ 0 ∷ 4 ∷ []) ∷ []
unfolding process_mkdir_cmd on_path recv_path reply translate translate_path merge_dirs find_link
    send_all be16 be32
makes_below_root = refl

on_path-below_example :
    let s1 = (recv_path (be16 two_bytes.path_len) session).1 in
    (on_path root mkdir_call two_bytes session ≡ (failed, s1))
    ⊎ ((tail : List ℕ) × (on_path root mkdir_call two_bytes session
          ≡ reply
              (store32 (be32 (mkdir_call (root ++ tail) s1.world).0))
              succeeded
              (record s1 { world = (mkdir_call (root ++ tail) s1.world).1 })))
on_path-below_example = on_path-below root Clean-root (λ q w. refl) mkdir_call two_bytes session

-- Two bytes to write.
abbrev two_data : WriteFileCmd
two_data = record { num_bytes = 2 * 16777216 }

abbrev writing : Session net_os
writing = record {
  world = 5 ∷ 6 ∷ [];
  client = record idle { wo_file = some (record { bytes = []; at = 0 }) };
  sent = [];
}
