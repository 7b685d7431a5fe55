-- ===== src/Serve/Input/Ends.antt =====
-- client_thread of src/main.cpp ends.
use ps3netsrv.Prelude.{
  ℕ, zero, suc, ◌+◌, ◌-◌, ◌%◌, ◌^◌, ◌<◌, ◌≤◌, ◌≡◌, arith, ltb, ◌==◌, if◌then◌else◌, Option, none,
  some, List, length, min, Bool-cases, Option-cases, inl, inr,
}
use ps3netsrv.Env.{AbstractFile, Os}
use ps3netsrv.Session.{Status, succeeded, failed, Session, send_all, buffer_size}
use ps3netsrv.Wire.{be16, be32, be64, load16}
use ps3netsrv.Read.{
  ReadFileCmd, read_chunk, after_chunk, critical_loop, run_critical, process_read_file_critical,
}
use ps3netsrv.Commands.Paths.{process_delete_file_cmd, process_mkdir_cmd, process_rmdir_cmd}
use ps3netsrv.Listing.{v1, v2}
use ps3netsrv.Serve.{
  Opcode, open_file, read_file_critical, read_cd_2048_critical, read_file, create_file, write_file,
  open_dir, read_dir_entry, delete_file, mkdir, rmdir, read_dir_entry_v2, stat_file, get_dir_size,
  read_dir, unknown, opcode, path_cmd, read_file_cmd, read_cd_cmd, write_file_cmd, Setup, dispatch,
  round,
}
use ps3netsrv.Serve.Input.Paths.{
  left-create, left-on_path, left-open_dir, left-stat, left-get_dir_size, left-open,
}
use ps3netsrv.Serve.Input.Files.{
  left-read_dir_entry, left-read_dir, left-write_file, left-read_cd, left-read_file,
}
use ps3netsrv.Serve.Input.{FiniteInput, by_result}

abbrev Out : Os → Type 0
Out os = Option (Status × AbstractFile.Handle (Os.file os) × Session os)

module _ {os : Os} (input : FiniteInput os) where
  open input use {left, left-send}

  -- Where the loop ends, it has received nothing.
  abbrev TakesNone : ℕ → Out os → Type 0
  TakesNone n out =
      (st : Status) (h2 : AbstractFile.Handle (Os.file os)) (s2 : Session os)
      → out ≡ some (st, h2, s2)
      → left s2.world ≤ n

  stops :
      (h : AbstractFile.Handle (Os.file os)) (s : Session os) (st : Status) (n : ℕ)
      → left s.world ≤ n
      → TakesNone n (some (st, h, s))
  stops h s st n le st2 h2 s2 e = let same : s ≡ s2 = cc e in rw (← same) le

  after_chunk-TakesNone :
      (chunk : Option (List ℕ)) (h : AbstractFile.Handle (Os.file os)) (s : Session os) (n : ℕ)
      (continue : AbstractFile.Handle (Os.file os) → Session os → Out os)
      → left s.world ≤ n
      → ((h1 : AbstractFile.Handle (Os.file os)) (s1 : Session os)
          → left s1.world ≤ n
          → TakesNone n (continue h1 s1))
      → TakesNone n (after_chunk chunk h s continue)
  unfolding after_chunk send_all
  after_chunk-TakesNone none h s n continue le ih = stops h s failed n le
  after_chunk-TakesNone (some bytes) h s n continue le ih =
      let s1 = (send_all bytes s).1 in
      let less : left s1.world ≤ n = omega (arith, left-send bytes s.world, le) in
      elim (Bool-cases (send_all bytes s).0) [
        | inl sent ↦ λ st h2 s2 e. ih h s1 less st h2 s2 (rw sent at e)
        | inr lost ↦ λ st h2 s2 e. stops h s1 failed n less st h2 s2 (rw lost at e)
      ]

  critical_loop-TakesNone :
      (fuel read_size remaining pos : ℕ) (h : AbstractFile.Handle (Os.file os)) (s : Session os)
      (n : ℕ)
      → left s.world ≤ n
      → TakesNone n (critical_loop fuel read_size remaining pos h s)
  unfolding critical_loop
  critical_loop-TakesNone fuel read_size zero pos h s n le st h2 s2 e =
      stops h s succeeded n le st h2 s2 e
  critical_loop-TakesNone zero read_size (suc r) pos h s n le st h2 s2 e =
      absurd (ground (arith, e))
  critical_loop-TakesNone (suc fuel) read_size (suc r) pos h s n le st h2 s2 e =
      let k = if ltb (suc r) read_size then suc r else read_size in
      let (chunk, h', c) = read_chunk k pos h s.client in
      let s1 : Session os = record s { client = c } in
      after_chunk-TakesNone chunk h' s1 n
        (λ h3 s3. critical_loop fuel k (suc r - k) ((pos + k) % 2 ^ 64) h3 s3) le
        (λ h3 s3 le3. critical_loop-TakesNone fuel k (suc r - k) ((pos + k) % 2 ^ 64) h3 s3 n le3)
        st h2 s2 e

  left-run_critical :
      (remaining offset : ℕ) (h : AbstractFile.Handle (Os.file os)) (s : Session os) (st : Status)
      (s' : Session os)
      → run_critical remaining offset h s ≡ some (st, s')
      → left s'.world ≤ left s.world
  unfolding run_critical
  left-run_critical remaining offset h s st s' e =
      let (found, h1) = AbstractFile.seek (Os.file os) h offset in
      let out = critical_loop remaining (min buffer_size remaining) remaining offset h1 s in
      elim (Bool-cases found) [
        | inr lost ↦ by_result input _ st s' _ (omega arith) (rw (run_critical, lost) at e)
        | inl there ↦ elim (Option-cases out) [
          | inl stuck ↦ absurd (ground (arith, rw (run_critical, there, stuck) at e))
          | inr ((st2, h2, s2), ends) ↦
              let le =
                critical_loop-TakesNone remaining (min buffer_size remaining) remaining offset h1 s
                  (left s.world) (omega arith) st2 h2 s2 ends in
              by_result input _ st s' _ le (rw (run_critical, there, ends) at e)
        ]
      ]

  left-read_critical :
      (cmd : ReadFileCmd) (s : Session os) (st : Status) (s' : Session os)
      → process_read_file_critical cmd s ≡ some (st, s')
      → left s'.world ≤ left s.world
  unfolding process_read_file_critical
  left-read_critical cmd s st s' e = elim (Option-cases s.client.ro_file) [
    | inl closed ↦
        by_result input _ st s' _ (omega arith) (rw (process_read_file_critical, closed) at e)
    | inr (h, file) ↦ elim (Option-cases s.client.buf) [
      | inl missing ↦
          by_result input _ st s' _ (omega arith)
            (rw (process_read_file_critical, file, missing) at e)
      | inr (b, there) ↦
          left-run_critical (be32 cmd.num_bytes) (be64 cmd.offset) h s st s'
            (rw (process_read_file_critical, file, there) at e)
    ]
  ]

  module _ (setup : Setup os) where
    left-dispatch :
        (op : Opcode) (b : List ℕ) (s : Session os) (st : Status) (s' : Session os)
        → dispatch setup op b s ≡ some (st, s')
        → left s'.world ≤ left s.world
    unfolding dispatch process_delete_file_cmd process_mkdir_cmd process_rmdir_cmd
    left-dispatch open_file b s st s' e =
        by_result input _ st s' _ (left-open input setup.root (path_cmd b) s) e
    left-dispatch read_file_critical b s st s' e = left-read_critical (read_file_cmd b) s st s' e
    left-dispatch read_cd_2048_critical b s st s' e =
        by_result input _ st s' _ (left-read_cd input (read_cd_cmd b) s) e
    left-dispatch read_file b s st s' e =
        by_result input _ st s' _ (left-read_file input (read_file_cmd b) s) e
    left-dispatch create_file b s st s' e =
        by_result input _ st s' _ (left-create input setup.root (path_cmd b) s) e
    left-dispatch write_file b s st s' e =
        by_result input _ st s' _ (left-write_file input (write_file_cmd b) s) e
    left-dispatch open_dir b s st s' e =
        by_result input _ st s' _ (left-open_dir input setup.root (path_cmd b) s) e
    left-dispatch read_dir_entry b s st s' e =
        by_result input _ st s' _ (left-read_dir_entry input v1 s) e
    left-dispatch delete_file b s st s' e =
        by_result input _ st s' _
          (left-on_path input setup.root (path_cmd b) s (Os.unlink os) input.left-unlink) e
    left-dispatch mkdir b s st s' e =
        by_result input _ st s' _
          (left-on_path input setup.root (path_cmd b) s (Os.mkdir os) input.left-mkdir) e
    left-dispatch rmdir b s st s' e =
        by_result input _ st s' _
          (left-on_path input setup.root (path_cmd b) s (Os.rmdir os) input.left-rmdir) e
    left-dispatch read_dir_entry_v2 b s st s' e =
        by_result input _ st s' _ (left-read_dir_entry input v2 s) e
    left-dispatch stat_file b s st s' e =
        by_result input _ st s' _
          (left-stat input setup.root (path_cmd b) s (setup.junk s) (setup.stack s)) e
    left-dispatch get_dir_size b s st s' e =
        left-get_dir_size input setup.root (path_cmd b) s setup.deepest st s' e
    left-dispatch read_dir b s st s' e = left-read_dir input setup.root s st s' e
    left-dispatch unknown b s st s' e = by_result input (failed, s) st s' _ (omega arith) e

    -- A round that goes on has received a command.
    pub left-round :
        (s s' : Session os) → round setup s ≡ some (succeeded, s') → left s'.world < left s.world
    unfolding round
    left-round s s' e =
        let (got, w) = Os.recv os 16 s.world in
        let s1 : Session os = record s { world = w } in
        elim (Option-cases got) [
          | inl lost ↦ absurd (ground (arith, rw (round, lost) at e))
          | inr (cmd, there) ↦ elim (Bool-cases (length cmd == 16)) [
            | inl whole ↦
                let less =
                  input.left-recv_lt 16 s.world cmd there (ground (arith, whole)) (omega arith) in
                let le =
                  left-dispatch (opcode (be16 (load16 cmd 0))) cmd s1 succeeded s'
                    (rw (round, there, whole) at e) in
                omega (arith, less, le)
            | inr short ↦ absurd (ground (arith, rw (round, there, short) at e))
          ]
        ]
