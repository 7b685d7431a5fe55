-- ===== src/Serve.antt =====
-- client_thread of src/main.cpp: the loop that receives a command of 16 bytes and calls its handler,
-- until a transfer or a handler fails; and what initialize_client and finalize_client do to the
-- client's fields of Session.antt.
pub mod Input
pub mod Reached
pub mod Untouched
use ps3netsrv.Prelude.{
  ℕ, zero, suc, ◌+◌, ◌*◌, Bool, true, false, ◌==◌, if◌then◌else◌, Option, none, some, List, [], ◌∷◌,
  length,
}
use ps3netsrv.Env.{AbstractFile, Os, Stat}
use ps3netsrv.Session.{Status, succeeded, failed, Client, Session}
use ps3netsrv.Wire.{be16, load16, load32, load64}
use ps3netsrv.Commands.{PathCmd, process_open_cmd}
use ps3netsrv.Commands.Paths.{
  WriteFileCmd, process_create_cmd, process_write_file_cmd, process_delete_file_cmd,
  process_mkdir_cmd, process_rmdir_cmd, process_open_dir_cmd, process_stat_cmd,
}
use ps3netsrv.Listing.{v1, v2, process_read_dir_entry_cmd}
use ps3netsrv.Listing.Whole.{process_read_dir_cmd}
use ps3netsrv.DirSize.{process_get_dir_size_cmd}
use ps3netsrv.Read.{
  ReadFileCmd, ReadCdCmd, process_read_file_critical, process_read_cd_2048_critical_cmd,
  process_read_file_cmd,
}

-- enum NETISO_CMD, and `unknown` for every other number.
pub data Opcode : Type 0 where
  open_file read_file_critical read_cd_2048_critical read_file create_file write_file open_dir :
      Opcode
  read_dir_entry delete_file mkdir rmdir read_dir_entry_v2 stat_file get_dir_size read_dir : Opcode
  unknown : Opcode

-- The numbers count up from 0x1224.
abbrev pub opcodes : List Opcode
opcodes =
    open_file ∷ read_file_critical ∷ read_cd_2048_critical ∷ read_file ∷ create_file ∷ write_file
    ∷ open_dir ∷ read_dir_entry ∷ delete_file ∷ mkdir ∷ rmdir ∷ read_dir_entry_v2 ∷ stat_file
    ∷ get_dir_size ∷ read_dir ∷ []

pub opcode_from : ℕ → List Opcode → ℕ → Opcode
opcode_from n [] op = unknown
opcode_from n (c ∷ cs) op = let rest = opcode_from (suc n) cs op in if op == n then c else rest

unfoldable pub opcode : ℕ → Opcode
unfolding opcode_from
opcode op = opcode_from 0x1224 opcodes op

-- The structs that the handlers cast the 16 bytes to.
abbrev pub path_cmd : List ℕ → PathCmd
path_cmd b = record { path_len = load16 b 2 }

abbrev pub read_file_cmd : List ℕ → ReadFileCmd
read_file_cmd b = record { num_bytes = load32 b 4; offset = load64 b 8 }

abbrev pub read_cd_cmd : List ℕ → ReadCdCmd
read_cd_cmd b = record { start_sector = load32 b 4; sector_count = load32 b 8 }

abbrev pub write_file_cmd : List ℕ → WriteFileCmd
write_file_cmd b = record { num_bytes = load32 b 4 }

-- initialize_client, where the buffer can be allocated.
abbrev pub fresh_client : {F : AbstractFile} → List ℕ → Client F
fresh_client buf = record {
  ro_file = none;
  wo_file = none;
  dir = none;
  dirpath = none;
  buf = some buf;
  cd_sector_size = 2352;
  subdirs = 0;
  ro_file_size = 0;
  eof_pad_logged = false;
}

abbrev pub finalize_client : {F : AbstractFile} → Client F → Client F
finalize_client c = record c {
  ro_file = none;
  wo_file = none;
  dir = none;
  dirpath = none;
  buf = none;
  cd_sector_size = 2352;
  subdirs = 0;
}

-- What a client thread is given: the served root, a bound on the depth of directories for
-- calculate_directory_size, and what process_stat_cmd finds in uninitialised memory.
pub record Setup (os : Os) : Type 0 where
  pub root : List ℕ
  pub deepest : ℕ
  pub junk : Session os → Stat
  pub stack : Session os → List ℕ

module _ {os : Os} (setup : Setup os) where
  open setup use {root, deepest, junk, stack}

  -- The switch over the opcode. `none` is a write behind an array, or directories that are deeper
  -- than the bound.
  unfoldable pub dispatch : Opcode → List ℕ → Session os → Option (Status × Session os)
  unfolding process_open_cmd process_read_file_critical process_read_cd_2048_critical_cmd
      process_read_file_cmd process_create_cmd process_write_file_cmd process_open_dir_cmd
      process_read_dir_entry_cmd process_delete_file_cmd process_mkdir_cmd process_rmdir_cmd
      process_stat_cmd process_get_dir_size_cmd process_read_dir_cmd
  dispatch open_file b s = some (process_open_cmd root (path_cmd b) s)
  dispatch read_file_critical b s = process_read_file_critical (read_file_cmd b) s
  dispatch read_cd_2048_critical b s = some (process_read_cd_2048_critical_cmd (read_cd_cmd b) s)
  dispatch read_file b s = some (process_read_file_cmd (read_file_cmd b) s)
  dispatch create_file b s = some (process_create_cmd root (path_cmd b) s)
  dispatch write_file b s = some (process_write_file_cmd (write_file_cmd b) s)
  dispatch open_dir b s = some (process_open_dir_cmd root (path_cmd b) s)
  dispatch read_dir_entry b s = some (process_read_dir_entry_cmd v1 s)
  dispatch delete_file b s = some (process_delete_file_cmd root (path_cmd b) s)
  dispatch mkdir b s = some (process_mkdir_cmd root (path_cmd b) s)
  dispatch rmdir b s = some (process_rmdir_cmd root (path_cmd b) s)
  dispatch read_dir_entry_v2 b s = some (process_read_dir_entry_cmd v2 s)
  dispatch stat_file b s = some (process_stat_cmd root (junk s) (stack s) (path_cmd b) s)
  dispatch get_dir_size b s = process_get_dir_size_cmd root deepest (path_cmd b) s
  dispatch read_dir b s = process_read_dir_cmd root s
  dispatch unknown b s = some (failed, s)

  -- One round of the loop: a command is received and handled.
  unfoldable pub round : Session os → Option (Status × Session os)
  unfolding dispatch opcode
  round s =
      let (r, w) = Os.recv os 16 s.world in
      let s1 = record s { world = w } in
      elim r [
        | none ↦ some (failed, s1)
        | some cmd ↦
            if length cmd == 16
            then dispatch (opcode (be16 (load16 cmd 0))) cmd s1
            else some (failed, s1)
      ]

  abbrev pub finalized : Session os → Session os
  finalized s = record s { client = finalize_client s.client }

  -- How a thread ends: with its client finalized, by a round that is `none`, or not within the fuel.
  pub data Outcome : Type 0 where
    ended : Session os → Outcome
    undefined : Outcome
    serving : Outcome

  unfoldable pub client_thread : ℕ → Session os → Outcome
  unfolding round
  client_thread zero s = serving
  client_thread (suc fuel) s = elim (round s) [
    | none ↦ undefined
    | some (succeeded, s1) ↦ client_thread fuel s1
    | some (failed, s1) ↦ ended (finalized s1)
  ]
