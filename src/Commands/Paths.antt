-- ===== src/Commands/Paths.antt =====
-- process_create_cmd, process_write_file_cmd, process_delete_file_cmd, process_mkdir_cmd,
-- process_rmdir_cmd, process_open_dir_cmd and process_stat_cmd of src/main.cpp.
use ps3netsrv.Prelude.{
  ℕ, Bool, true, false, not, ◌||◌, ltb, ◌==◌, if◌then◌else◌, Option, none, some, List, [], ◌∷◌,
  ◌++◌, length,
}
use ps3netsrv.Env.{AbstractFile, Os, Stat}
use ps3netsrv.Session.{Status, succeeded, failed, Session, buffer_size, filled}
use ps3netsrv.Wire.{be16, be32, be64, store32, store64, none32, none64}
use ps3netsrv.Path.{normalize_path, find, is_some}
use ps3netsrv.Commands.{PathCmd, reply, recv_path, translate}

pub record WriteFileCmd : Type 0 where
  pub num_bytes : ℕ

abbrev pub is_directory : Option Stat → Bool
is_directory none = false
is_directory (some st) = st.is_dir

-- "/is_ps3_compat1/".
abbrev pub compat1 : List ℕ
compat1 = 47 ∷ 105 ∷ 115 ∷ 95 ∷ 112 ∷ 115 ∷ 51 ∷ 95 ∷ 99 ∷ 111 ∷ 109 ∷ 112 ∷ 97 ∷ 116 ∷ 49 ∷ 47 ∷ []

-- netiso_stat_result.
abbrev pub stat_result : Stat → List ℕ
stat_result st =
    store64 (be64 (if st.is_dir then 0 else st.file_size))
    ++ store64 (be64 st.mtime)
    ++ store64 (be64 st.ctime)
    ++ store64 (be64 st.atime)
    ++ (if st.is_dir then 1 else 0) ∷ []

module _ {os : Os} where
  module _ (root : List ℕ) where
    abbrev pub create_failed : Session os → Status × Session os
    create_failed s = reply (store32 (be32 none32)) failed s

    unfoldable pub create_at : List ℕ → Session os → Status × Session os
    unfolding reply
    create_at filepath s =
        let s1 = record s { client = record s.client { wo_file = none } } in
        let (h, w) = Os.open_create os filepath s.world in
        if is_directory (Os.stat_file os filepath s.world) then create_failed s1 else elim h [
          | none ↦ create_failed (record s1 { world = w })
          | some h ↦
              reply (store32 (be32 0)) succeeded
                (record s { world = w; client = record s.client { wo_file = some h } })
        ]

    unfoldable pub process_create_cmd : PathCmd → Session os → Status × Session os
    unfolding create_at recv_path translate
    process_create_cmd cmd s =
        let (r, s1) = recv_path (be16 cmd.path_len) s in
        elim r [
          | none ↦ create_failed s1
          | some path ↦ elim (translate root false path s1) [
            | none ↦ create_failed s1
            | some (filepath, _) ↦ create_at filepath s1
          ]
        ]

    -- A call on a path whose 32-bit result is the reply; a path that does not arrive or is refused
    -- ends the connection without a reply.
    unfoldable pub on_path :
        (List ℕ → Os.World os → ℕ × Os.World os) → PathCmd → Session os → Status × Session os
    unfolding reply recv_path translate
    on_path call cmd s =
        let (r, s1) = recv_path (be16 cmd.path_len) s in
        elim r [
          | none ↦ (failed, s1)
          | some path ↦ elim (translate root false path s1) [
            | none ↦ (failed, s1)
            | some (filepath, _) ↦
                let (result, w) = call filepath s1.world in
                reply (store32 (be32 result)) succeeded (record s1 { world = w })
          ]
        ]

    unfoldable pub process_delete_file_cmd : PathCmd → Session os → Status × Session os
    unfolding on_path
    process_delete_file_cmd cmd s = on_path (Os.unlink os) cmd s

    unfoldable pub process_mkdir_cmd : PathCmd → Session os → Status × Session os
    unfolding on_path
    process_mkdir_cmd cmd s = on_path (Os.mkdir os) cmd s

    unfoldable pub process_rmdir_cmd : PathCmd → Session os → Status × Session os
    unfolding on_path
    process_rmdir_cmd cmd s = on_path (Os.rmdir os) cmd s

    -- The old directory is closed and the new one opened.
    abbrev pub dir_opened : Bool → List ℕ → Session os → Session os
    dir_opened subdirs dirpath s =
        let dir =
          if is_some (Os.stat_file os dirpath s.world)
          then Os.opendir os dirpath s.world
          else none in
        record s {
          client = record s.client {
            dir = dir;
            dirpath = elim dir [ none ↦ none | some _ ↦ some (dirpath ++ 47 ∷ []) ];
            subdirs = if subdirs then 1 else 0;
          };
        }

    unfoldable pub process_open_dir_cmd : PathCmd → Session os → Status × Session os
    unfolding reply recv_path translate
    process_open_dir_cmd cmd s =
        let (r, s1) = recv_path (be16 cmd.path_len) s in
        elim r [
          | none ↦ (failed, s1)
          | some path ↦
              let subdirs = is_some (find (47 ∷ 47 ∷ []) path) in
              elim (translate root false path s1) [
                | none ↦ (
                  failed,
                  record s1 { client = record s1.client { subdirs = if subdirs then 1 else 0 } },
                )
                | some (dirpath, _) ↦
                    let s2 = dir_opened subdirs (normalize_path dirpath true) s1 in
                    reply (store32 (be32 (if is_some s2.client.dir then 0 else none32))) succeeded
                      s2
              ]
        ]

    -- `junk` is what the uninitialised `st` holds, and `stack` the 25 bytes of the uninitialised
    -- `result` behind its size: where stat_file fails, the code reads the one or sends the other.
    unfoldable pub process_stat_cmd : Stat → List ℕ → PathCmd → Session os → Status × Session os
    unfolding reply recv_path translate
    process_stat_cmd junk stack cmd s =
        let (r, s1) = recv_path (be16 cmd.path_len) s in
        elim r [
          | none ↦ (failed, s1)
          | some path ↦ elim (translate root false path s1) [
            | none ↦ (failed, s1)
            | some (filepath, _) ↦ elim (Os.stat_file os filepath s1.world) [
              | some st ↦ reply (stat_result st) succeeded s1
              | none ↦
                  if is_some (find compat1 filepath)
                  then reply (stat_result junk) succeeded s1
                  else reply (store64 (be64 none64) ++ stack) succeeded s1
            ]
          ]
        ]

  abbrev pub put_writer : AbstractFile.Handle (Os.file os) → Session os → Session os
  put_writer h s = record s { client = record s.client { wo_file = some h } }

  -- The data is in the buffer: it is written, and the count is the reply.
  unfoldable pub write_data :
      List ℕ → AbstractFile.Handle (Os.file os) → Session os → Status × Session os
  unfolding reply
  write_data bytes h s =
      let (r, h1) = AbstractFile.write (Os.file os) h bytes in
      elim r [
        | none ↦ reply (store32 (be32 none32)) failed (put_writer h1 s)
        | some n ↦ reply (store32 (be32 n)) succeeded (put_writer h1 s)
      ]

  unfoldable pub write_received :
      ℕ → AbstractFile.Handle (Os.file os) → Session os → Status × Session os
  unfolding write_data reply
  write_received write_size h s =
      let (r, w) = Os.recv os write_size s.world in
      let s1 = record s { world = w; client = filled r s.client } in
      if write_size == 0 then write_data [] h s else elim r [
        | none ↦ reply (store32 (be32 none32)) failed s1
        | some got ↦
            if length got == write_size
            then write_data got h s1
            else reply (store32 (be32 none32)) failed s1
      ]

  unfoldable pub process_write_file_cmd : WriteFileCmd → Session os → Status × Session os
  unfolding write_received reply
  process_write_file_cmd cmd s =
      let write_size = be32 cmd.num_bytes in
      elim s.client.wo_file [
        | none ↦ reply (store32 (be32 none32)) failed s
        | some h ↦
            if not (is_some s.client.buf) || ltb buffer_size write_size
            then reply (store32 (be32 none32)) failed s
            else write_received write_size h s
      ]
