-- ===== src/Serve/Input/Files.antt =====
-- The commands of src/main.cpp on open files and directories take from the input and never add to it.
use ps3netsrv.Prelude.{
  ℕ, ◌*◌, ◌≤◌, ◌≡◌, arith, not, ◌||◌, ltb, ◌==◌, Option, none, some, List, [], ◌∷◌, ◌++◌, length,
  Bool-cases, Option-cases, inl, inr,
}
use ps3netsrv.Env.{AbstractFile, Os, Stat}
use ps3netsrv.Session.{Status, Session, filled, send_all, buffer_size}
use ps3netsrv.Wire.{be32, be64, store32, store64}
use ps3netsrv.Path.{is_some}
use ps3netsrv.Commands.Paths.{WriteFileCmd, write_data, write_received, process_write_file_cmd}
use ps3netsrv.Listing.{
  Version, next_entry, put_dir, close_dir, stat_entry, send_none, send_entry, list_entry,
  process_read_dir_entry_cmd,
}
use ps3netsrv.Listing.Items.{Item}
use ps3netsrv.Listing.Whole.{items_bytes, collect, dir_read, send_items, process_read_dir_cmd}
use ps3netsrv.Listing.Whole.Replies.{Filled-cases}
use ps3netsrv.Read.{
  ReadFileCmd, ReadCdCmd, read_sectors, run_cd, process_read_cd_2048_critical_cmd, read_file_bytes,
  send_read_result, process_read_file_cmd,
}
use ps3netsrv.Serve.Input.{FiniteInput, sends, by_result}

module _ {os : Os} (input : FiniteInput os) where
  open input use {left, left-recv_le, left-send}

  left-send_all : (b : List ℕ) (s : Session os) → left (send_all b s).1.world ≤ left s.world
  unfolding send_all
  left-send_all b s = left-send b s.world

  -- Two messages, the second behind the first.
  left-send_two :
      (a b : List ℕ) (s : Session os) → left (send_all b (send_all a s).1).1.world ≤ left s.world
  left-send_two a b s = omega (arith, left-send_all a s, left-send_all b (send_all a s).1)

  left-send_items :
      (items : List Item) (s : Session os) → left (send_items items s).1.world ≤ left s.world
  unfolding send_items
  left-send_items items s =
      let count = store64 (be64 (length items)) in
      ground (arith, left-send_all count s, left-send_two count (items_bytes items) s)

  left-send_none : (v : Version) (s : Session os) → left (send_none v s).1.world ≤ left s.world
  unfolding send_none send_all
  left-send_none v s = left-send _ s.world

  left-send_entry :
      (v : Version) (st : Stat) (name : List ℕ) (s : Session os)
      → left (send_entry v st name s).1.world ≤ left s.world
  unfolding send_entry
  left-send_entry v st name s =
      ground
        (arith, left-send_all (stat_entry v st name) s, left-send_two (stat_entry v st name) name s)

  pub left-read_dir_entry :
      (v : Version) (s : Session os) → left (process_read_dir_entry_cmd v s).1.world ≤ left s.world
  unfolding process_read_dir_entry_cmd
  left-read_dir_entry v s = elim (Option-cases s.client.dir) [
    | inl closed ↦ rw (process_read_dir_entry_cmd, closed) (left-send_none v s)
    | inr (names, is_open) ↦ elim (Option-cases s.client.dirpath) [
      | inl lost ↦ rw (process_read_dir_entry_cmd, is_open, lost) (left-send_none v s)
      | inr (dirpath, at) ↦ elim (Option-cases (next_entry names)) [
        | inl last ↦
            rw (process_read_dir_entry_cmd, is_open, at, list_entry, last)
              (left-send_none v (close_dir s))
        | inr ((name, rest), next) ↦
            elim (Option-cases (Os.stat_file os (dirpath ++ 47 ∷ name) s.world)) [
              | inl missing ↦
                  rw (process_read_dir_entry_cmd, is_open, at, list_entry, next, missing)
                    (left-send_none v (close_dir s))
              | inr (st, known) ↦
                  rw (process_read_dir_entry_cmd, is_open, at, list_entry, next, known)
                    (left-send_entry v st name (put_dir rest s))
            ]
      ]
    ]
  ]

  pub left-read_dir :
      (root : List ℕ) (s : Session os) (st : Status) (s' : Session os)
      → process_read_dir_cmd root s ≡ some (st, s')
      → left s'.world ≤ left s.world
  unfolding process_read_dir_cmd
  left-read_dir root s st s' e = elim (Option-cases s.client.dir) [
    | inl closed ↦
        by_result input _ st s' _ (left-send_items [] s) (rw (process_read_dir_cmd, closed) at e)
    | inr (names, is_open) ↦ elim (Option-cases s.client.dirpath) [
      | inl lost ↦
          by_result input _ st s' _ (left-send_items [] s)
            (rw (process_read_dir_cmd, is_open, lost) at e)
      | inr (dirpath, at_path) ↦ elim (Filled-cases (collect root dirpath s)) [
        | inl over ↦ absurd (ground (arith, rw (process_read_dir_cmd, is_open, at_path, over) at e))
        | inr (items, found) ↦
            by_result input _ st s' _ (left-send_items items (dir_read root dirpath s))
              (rw (process_read_dir_cmd, is_open, at_path, found) at e)
      ]
    ]
  ]

  left-write_data :
      (bytes : List ℕ) (h : AbstractFile.Handle (Os.file os)) (s : Session os)
      → left (write_data bytes h s).1.world ≤ left s.world
  unfolding write_data send_all
  left-write_data bytes h s = elim (Option-cases (AbstractFile.write (Os.file os) h bytes).0) [
    | inl failing ↦ rw (write_data, failing) (left-send _ s.world)
    | inr (n, there) ↦ rw (write_data, there) (left-send _ s.world)
  ]

  left-write_received :
      (n : ℕ) (h : AbstractFile.Handle (Os.file os)) (s : Session os)
      → left (write_received n h s).1.world ≤ left s.world
  unfolding write_received send_all
  left-write_received n h s =
      let (r, w) = Os.recv os n s.world in
      let after = left-recv_le n s.world in
      let s1 : Session os = record s { world = w; client = filled r s.client } in
      elim (Bool-cases (n == 0)) [
        | inl empty ↦ rw (write_received, empty) (left-write_data [] h s)
        | inr more ↦ elim (Option-cases r) [
          | inl lost ↦ rw (write_received, more, lost) (sends input _ w _ after)
          | inr (got, there) ↦ elim (Bool-cases (length got == n)) [
            | inl whole ↦
                rw (write_received, more, there, whole)
                  (omega (arith, left-write_data got h s1, after))
            | inr short ↦ rw (write_received, more, there, short) (sends input _ w _ after)
          ]
        ]
      ]

  pub left-write_file :
      (cmd : WriteFileCmd) (s : Session os)
      → left (process_write_file_cmd cmd s).1.world ≤ left s.world
  unfolding process_write_file_cmd send_all
  left-write_file cmd s = elim (Option-cases s.client.wo_file) [
    | inl closed ↦ rw (process_write_file_cmd, closed) (left-send _ s.world)
    | inr (h, is_open) ↦
        elim (Bool-cases (not (is_some s.client.buf) || ltb buffer_size (be32 cmd.num_bytes))) [
          | inl bad ↦ rw (process_write_file_cmd, is_open, bad) (left-send _ s.world)
          | inr fine ↦
              rw (process_write_file_cmd, is_open, fine)
                (left-write_received (be32 cmd.num_bytes) h s)
        ]
  ]

  left-run_cd :
      (start n : ℕ) (h : AbstractFile.Handle (Os.file os)) (s : Session os)
      → left (run_cd start n h s).1.world ≤ left s.world
  unfolding run_cd send_all
  left-run_cd start n h s = elim (Bool-cases (ltb buffer_size (n * 2048))) [
    | inl too_many ↦ rw (run_cd, too_many) (omega arith)
    | inr fits ↦
        elim (Option-cases (read_sectors n (start * s.client.cd_sector_size) h s.client).0) [
          | inl failing ↦ rw (run_cd, fits, failing) (omega arith)
          | inr (bytes, there) ↦ rw (run_cd, fits, there) (left-send bytes s.world)
        ]
  ]

  pub left-read_cd :
      (cmd : ReadCdCmd) (s : Session os)
      → left (process_read_cd_2048_critical_cmd cmd s).1.world ≤ left s.world
  unfolding process_read_cd_2048_critical_cmd
  left-read_cd cmd s = elim (Option-cases s.client.ro_file) [
    | inl closed ↦ rw (process_read_cd_2048_critical_cmd, closed) (omega arith)
    | inr (h, file) ↦ elim (Option-cases s.client.buf) [
      | inl missing ↦ rw (process_read_cd_2048_critical_cmd, file, missing) (omega arith)
      | inr (b, there) ↦
          rw (process_read_cd_2048_critical_cmd, file, there)
            (left-run_cd (be32 cmd.start_sector) (be32 cmd.sector_count) h s)
    ]
  ]

  left-send_read_result :
      (r : Option (List ℕ)) (s : Session os) → left (send_read_result r s).1.world ≤ left s.world
  unfolding send_read_result
  left-send_read_result none s = left-send_all _ s
  left-send_read_result (some got) s =
      let count = store32 (be32 (length got)) in
      ground (arith, left-send_all count s, left-send_two count got s)

  world-read_file_bytes :
      (n offset : ℕ) (s : Session os) → left (read_file_bytes n offset s).1.world ≡ left s.world
  unfolding read_file_bytes
  world-read_file_bytes n offset s = ground arith

  pub left-read_file :
      (cmd : ReadFileCmd) (s : Session os)
      → left (process_read_file_cmd cmd s).1.world ≤ left s.world
  unfolding process_read_file_cmd
  left-read_file cmd s =
      let (got, s1) = read_file_bytes (be32 cmd.num_bytes) (be64 cmd.offset) s in
      omega (
        arith,
        left-send_read_result got s1,
        world-read_file_bytes (be32 cmd.num_bytes) (be64 cmd.offset) s,
      )
