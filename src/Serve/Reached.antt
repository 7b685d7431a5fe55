-- ===== src/Serve/Reached.antt =====
-- The sessions that the loop of client_thread of src/main.cpp goes through.
use ps3netsrv.Prelude.{
  ℕ, ◌+◌, ◌^◌, ◌<◌, ◌≡◌, refl, sym, ◌∙◌, arith, ◌==◌, some, List, length, flatten, ◌++◌, Bool-cases,
  Option-cases, inl, inr,
}
use ps3netsrv.Prelude.Window.{window}
use ps3netsrv.Env.{AbstractFile, RegularFile, Os}
use ps3netsrv.Session.{Status, succeeded, failed, Client, Session}
use ps3netsrv.Wire.{be16, be32, be64, load16}
use ps3netsrv.Commands.Opened.{HonestStat, Recorded, process_open_cmd-Recorded}
use ps3netsrv.Read.{ReadFileCmd, process_read_file_critical}
use ps3netsrv.Read.Critical.{TakesAll, critical-window}
use ps3netsrv.Read.Recorded.{process_read_file_critical-Recorded}
use ps3netsrv.Read.Handles.{process_read_cd-Recorded, process_read_file-Recorded}
use ps3netsrv.Commands.Paths.{process_delete_file_cmd, process_mkdir_cmd, process_rmdir_cmd}
use ps3netsrv.Listing.{v1, v2}
use ps3netsrv.Serve.{
  Opcode, open_file, read_file_critical, read_cd_2048_critical, read_file, create_file, write_file,
  open_dir, read_dir_entry, delete_file, mkdir, rmdir, read_dir_entry_v2, stat_file, get_dir_size,
  read_dir, unknown, opcode, path_cmd, read_file_cmd, read_cd_cmd, write_file_cmd, fresh_client,
  Setup, dispatch, round,
}
use ps3netsrv.Serve.Untouched.{
  Untouched, create-Untouched, on_path-Untouched, open_dir-Untouched, stat-Untouched,
  write_file-Untouched, read_dir_entry-Untouched, read_dir-Untouched, get_dir_size-Untouched,
}

untouched-Recorded :
    {F : AbstractFile} (f : RegularFile F) (c c' : Client F)
    → Untouched c c'
    → Recorded f c
    → Recorded f c'
untouched-Recorded f c c' u r = record {
  sized = λ h e. u.same_size ∙ r.sized h (sym u.same_file ∙ e);
  sector = omega (arith, u.same_sector, r.sector);
  detected = λ h e. rw u.same_sector (r.detected h (sym u.same_file ∙ e));
  buffered = λ h e. u.same_buffer ∙ r.buffered h (sym u.same_file ∙ e);
}

module _ {os : Os} (f : RegularFile (Os.file os)) (honest : HonestStat f) (setup : Setup os) where
  -- A handler's result, by its session.
  by_session :
      (r : Status × Session os) (st : Status) (s' : Session os)
      → Recorded f r.1.client
      → some r ≡ some (st, s')
      → Recorded f s'.client
  by_session r st s' kept e = let same : r.1 ≡ s' = cc e in rw (← same) kept

  -- A handler that does not touch the image.
  by_untouched :
      (s : Session os) (r : Status × Session os) (st : Status) (s' : Session os)
      → Untouched s.client r.1.client
      → Recorded f s.client
      → some r ≡ some (st, s')
      → Recorded f s'.client
  by_untouched s r st s' u before e =
      by_session r st s' (untouched-Recorded f s.client r.1.client u before) e

  dispatch-Recorded :
      (op : Opcode) (b : List ℕ) (s : Session os) (st : Status) (s' : Session os)
      → Recorded f s.client
      → dispatch setup op b s ≡ some (st, s')
      → Recorded f s'.client
  unfolding dispatch process_delete_file_cmd process_mkdir_cmd process_rmdir_cmd
  dispatch-Recorded open_file b s st s' r e =
      by_session _ st s' (process_open_cmd-Recorded f honest setup.root (path_cmd b) s r) e
  dispatch-Recorded read_file_critical b s st s' r e =
      process_read_file_critical-Recorded f (read_file_cmd b) s st s' r e
  dispatch-Recorded read_cd_2048_critical b s st s' r e =
      by_session _ st s' (process_read_cd-Recorded f (read_cd_cmd b) s r) e
  dispatch-Recorded read_file b s st s' r e =
      by_session _ st s' (process_read_file-Recorded f (read_file_cmd b) s r) e
  dispatch-Recorded create_file b s st s' r e =
      by_untouched s _ st s' (create-Untouched setup.root (path_cmd b) s) r e
  dispatch-Recorded write_file b s st s' r e =
      by_untouched s _ st s' (write_file-Untouched s (write_file_cmd b)) r e
  dispatch-Recorded open_dir b s st s' r e =
      by_untouched s _ st s' (open_dir-Untouched setup.root (path_cmd b) s) r e
  dispatch-Recorded read_dir_entry b s st s' r e =
      by_untouched s _ st s' (read_dir_entry-Untouched s v1) r e
  dispatch-Recorded delete_file b s st s' r e =
      by_untouched s _ st s' (on_path-Untouched setup.root (path_cmd b) s (Os.unlink os)) r e
  dispatch-Recorded mkdir b s st s' r e =
      by_untouched s _ st s' (on_path-Untouched setup.root (path_cmd b) s (Os.mkdir os)) r e
  dispatch-Recorded rmdir b s st s' r e =
      by_untouched s _ st s' (on_path-Untouched setup.root (path_cmd b) s (Os.rmdir os)) r e
  dispatch-Recorded read_dir_entry_v2 b s st s' r e =
      by_untouched s _ st s' (read_dir_entry-Untouched s v2) r e
  dispatch-Recorded stat_file b s st s' r e =
      by_untouched s _ st s'
        (stat-Untouched setup.root (path_cmd b) s (setup.junk s) (setup.stack s)) r e
  dispatch-Recorded get_dir_size b s st s' r e =
      untouched-Recorded f s.client s'.client
        (get_dir_size-Untouched s setup.root setup.deepest (path_cmd b) st s' e) r
  dispatch-Recorded read_dir b s st s' r e =
      untouched-Recorded f s.client s'.client (read_dir-Untouched s setup.root st s' e) r
  dispatch-Recorded unknown b s st s' r e = by_session (failed, s) st s' r e

  pub round-Recorded :
      (s : Session os) (st : Status) (s' : Session os)
      → Recorded f s.client
      → round setup s ≡ some (st, s')
      → Recorded f s'.client
  unfolding round
  round-Recorded s st s' r e =
      let (got, w) = Os.recv os 16 s.world in
      let s1 : Session os = record s { world = w } in
      elim (Option-cases got) [
        | inl lost ↦ by_session (failed, s1) st s' r (rw (round, lost) at e)
        | inr (cmd, there) ↦ elim (Bool-cases (length cmd == 16)) [
          | inl whole ↦
              dispatch-Recorded (opcode (be16 (load16 cmd 0))) cmd s1 st s' r
                (rw (round, there, whole) at e)
          | inr short ↦ by_session (failed, s1) st s' r (rw (round, there, short) at e)
        ]
      ]

-- The sessions behind any number of rounds that succeed.
pub data Reached {os : Os} (setup : Setup os) (s : Session os) : Session os → Type 0 where
  at_start : Reached setup s s
  after_round :
      {s1 s2 : Session os}
      → Reached setup s s1
      → round setup s1 ≡ some (succeeded, s2)
      → Reached setup s s2

-- A client that initialize_client has made.
fresh-Recorded :
    {F : AbstractFile} (f : RegularFile F) (buf : List ℕ) → Recorded f (fresh_client buf)
fresh-Recorded f buf = record {
  sized = λ h e. absurd (ground (arith, e));
  sector = omega arith;
  detected = λ h e. absurd (ground (arith, e));
  buffered = λ h e. refl;
}

module _ {os : Os} (f : RegularFile (Os.file os)) (honest : HonestStat f) (setup : Setup os) where
  -- Whatever commands a client has sent: where it has a file open, the recorded size is that of the
  -- file, and there is a buffer. If the file has 2 MB to 848 MB, the sector size is one of sec_size
  -- that the file has a mark for, with no mark of a CD for an earlier one, or it is 2352 and no size
  -- has a mark of a CD; and it is 2352 for other files. It holds behind any rounds that succeed, from
  -- the client that initialize_client makes on, for files whose fstat gives their length.
  pub client_thread-Recorded :
      (s s' : Session os) (buf : List ℕ)
      → s.client ≡ fresh_client buf
      → Reached setup s s'
      → Recorded f s'.client
  client_thread-Recorded s s' buf start at_start = rw start (fresh-Recorded f buf)
  client_thread-Recorded s s' buf start (after_round {s1} {s2} before e) =
      round-Recorded f honest setup s1 succeeded s' (client_thread-Recorded s s1 buf start before) e

  -- In every session that a client thread reaches, with a file open, and for a peer that takes what is
  -- sent: a critical read of a range below 2 ^ 63 succeeds and sends exactly the bytes of the range of
  -- the open file, with zeros past its end.
  pub client_thread-window :
      (s s' : Session os) (buf : List ℕ) (cmd : ReadFileCmd) (h : AbstractFile.Handle (Os.file os))
      → TakesAll os
      → s.client ≡ fresh_client buf
      → Reached setup s s'
      → s'.client.ro_file ≡ some h
      → be64 cmd.offset + be32 cmd.num_bytes < 2 ^ 63
      → (s2 : Session os) × (process_read_file_critical cmd s' ≡ some (succeeded, s2))
        × (flatten s2.sent
            ≡ flatten s'.sent
              ++ window (RegularFile.content f h) (be64 cmd.offset) (be32 cmd.num_bytes))
  client_thread-window s s' buf cmd h takes start reached file fits =
      let r = client_thread-Recorded s s' buf start reached in
      elim (Option-cases s'.client.buf) [
        | inl missing ↦ absurd (ground (arith, missing, r.buffered h file))
        | inr (b, there) ↦
            critical-window f (RegularFile.content f h) takes cmd h s' b file there refl
              (r.sized h file) fits
      ]
