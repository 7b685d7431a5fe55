-- ===== src/Read/Handles.antt =====
-- process_read_cd_2048_critical_cmd and process_read_file_cmd of src/main.cpp leave what
-- process_open_cmd has recorded.
use ps3netsrv.Prelude.{
  ℕ, zero, suc, ◌+◌, ◌-◌, ◌*◌, ◌%◌, ◌^◌, ◌≡◌, refl, ◌∙◌, arith, ltb, leb, ◌==◌, ◌&&◌, Bool-cases,
  Option-cases, inl, inr, Option, none, some, List, length,
}
use ps3netsrv.Env.{AbstractFile, RegularFile, Os}
use ps3netsrv.Session.{Client, Session, buffer_size, fill_buf, filled, log_eof_padding, send_all}
use ps3netsrv.Wire.{be32, be64}
use ps3netsrv.Commands.Detected.{Kept}
use ps3netsrv.Commands.Opened.{Recorded}
use ps3netsrv.Read.{
  ReadFileCmd, ReadCdCmd, read_padded, bulk_sectors, single_sectors, read_sectors, run_cd,
  process_read_cd_2048_critical_cmd, read_file_bytes, send_read_result, process_read_file_cmd,
}
use ps3netsrv.Read.Recorded.{fill-Kept, Kept-trans, log-Kept, stored}

module _ {F : AbstractFile} (f : RegularFile F) where
  moved-Kept :
      (h h' : AbstractFile.Handle F) (c : Client F)
      → RegularFile.content f h' ≡ RegularFile.content f h
      → Kept f h h' c c
  moved-Kept h h' c same = record { content = same; size = refl; sector = refl; buffer = refl }

  seek-Kept :
      (n : ℕ) (h : AbstractFile.Handle F) (c : Client F) → Kept f h (AbstractFile.seek F h n).1 c c
  seek-Kept n h c = moved-Kept h (AbstractFile.seek F h n).1 c (RegularFile.content-seek f h n)

  read_padded-Kept :
      (want pos : ℕ) (h : AbstractFile.Handle F) (c : Client F)
      → Kept f h (read_padded want pos h c).1 c (read_padded want pos h c).2
  unfolding read_padded
  read_padded-Kept want pos h c =
      let (r, h') = AbstractFile.read F h want in
      let read = moved-Kept h h' c (RegularFile.content-read f h want) in
      elim (Option-cases r) [
        | inl failing ↦ rw (read_padded, failing) read
        | inr (got, there) ↦
            elim (Bool-cases
              (ltb (length got) want && leb c.ro_file_size ((pos + length got) % 2 ^ 64))) [
                | inl past ↦
                    rw (read_padded, there, past)
                      (Kept-trans f h h' h' c c (log_eof_padding c) read (log-Kept f h' c))
                | inr inside ↦ elim (Bool-cases (length got == want)) [
                  | inl whole ↦ rw (read_padded, there, inside, whole) read
                  | inr short ↦ rw (read_padded, there, inside, short) read
                ]
              ]
      ]

  pub filled-Kept :
      (h h' : AbstractFile.Handle F) (r : Option (List ℕ)) (c : Client F)
      → RegularFile.content f h' ≡ RegularFile.content f h
      → Kept f h h' c (filled r c)
  filled-Kept h h' none c same = moved-Kept h h' c same
  filled-Kept h h' (some got) c same = fill-Kept f h h' got c same

  -- A seek and then a read.
  read_at-Kept :
      (at want pos : ℕ) (h : AbstractFile.Handle F) (c : Client F)
      → let h1 = (AbstractFile.seek F h at).1 in
        Kept f h (read_padded want pos h1 c).1 c (read_padded want pos h1 c).2
  read_at-Kept at want pos h c =
      let h1 = (AbstractFile.seek F h at).1 in
      Kept-trans f h h1 (read_padded want pos h1 c).1 c c (read_padded want pos h1 c).2
        (seek-Kept at h c) (read_padded-Kept want pos h1 c)

  bulk_sectors-Kept :
      (n offset : ℕ) (h : AbstractFile.Handle F) (c : Client F)
      → Kept f h (bulk_sectors n offset h c).1 c (bulk_sectors n offset h c).2
  unfolding bulk_sectors
  bulk_sectors-Kept n offset h c =
      let span = (n - 1) * c.cd_sector_size + 24 + 2048 in
      let h1 = (AbstractFile.seek F h (offset + 24)).1 in
      elim (Option-cases (read_padded span (offset + 24) h1 c).0) [
        | inl failing ↦
            rw (bulk_sectors, failing) (read_at-Kept (offset + 24) span (offset + 24) h c)
        | inr (scratch, there) ↦
            rw (bulk_sectors, there) (read_at-Kept (offset + 24) span (offset + 24) h c)
      ]

  single_sectors-Kept :
      (n offset : ℕ) (h : AbstractFile.Handle F) (c : Client F)
      → Kept f h (single_sectors n offset h c).1 c (single_sectors n offset h c).2
  unfolding single_sectors
  single_sectors-Kept zero offset h c = moved-Kept h h c refl
  single_sectors-Kept (suc n) offset h c =
      let h1 = (AbstractFile.seek F h (offset + 24)).1 in
      let (r, h2, c2) = read_padded 2048 (offset + 24) h1 c in
      let first = read_at-Kept (offset + 24) 2048 (offset + 24) h c in
      elim (Option-cases r) [
        | inl failing ↦ rw (single_sectors, failing) first
        | inr (sector, there) ↦
            let (more, h3, c3) = single_sectors n (offset + c.cd_sector_size) h2 c2 in
            rw (single_sectors, there)
              (Kept-trans f h h2 h3 c c2 c3 first
                (single_sectors-Kept n (offset + c.cd_sector_size) h2 c2))
      ]

  read_sectors-Kept :
      (n offset : ℕ) (h : AbstractFile.Handle F) (c : Client F)
      → Kept f h (read_sectors n offset h c).1 c (read_sectors n offset h c).2
  unfolding read_sectors
  read_sectors-Kept n offset h c =
      elim (Bool-cases (ltb 0 n && AbstractFile.supports_bulk_read F h)) [
        | inl bulk ↦ rw (read_sectors, bulk) (bulk_sectors-Kept n offset h c)
        | inr single ↦ rw (read_sectors, single) (single_sectors-Kept n offset h c)
      ]

  -- The buffer of the client is filled, which `Recorded` does not look at.
  refilled :
      (bytes : List ℕ) (h : AbstractFile.Handle F) (c : Client F)
      → Recorded f (record c { ro_file = some h })
      → Recorded f (fill_buf bytes (record c { ro_file = some h }))
  refilled bytes h c r =
      let k = fill-Kept f h h bytes (record c { ro_file = some h }) refl in
      record {
        sized = r.sized;
        sector = r.sector;
        detected = r.detected;
        buffered = λ g e. k.buffer ∙ r.buffered g e;
      }

module _ {os : Os} (f : RegularFile (Os.file os)) where
  run_cd-Recorded :
      (start n : ℕ) (h : AbstractFile.Handle (Os.file os)) (s : Session os)
      → s.client.ro_file ≡ some h
      → Recorded f s.client
      → Recorded f (run_cd start n h s).1.client
  unfolding run_cd send_all
  run_cd-Recorded start n h s file r =
      let offset = start * s.client.cd_sector_size in
      let (got, h', c) = read_sectors n offset h s.client in
      let s1 : Session os = record s { client = c } in
      let after = stored f h h' s s1 file r (read_sectors-Kept f n offset h s.client) in
      elim (Bool-cases (ltb buffer_size (n * 2048))) [
        | inl too_many ↦ rw (run_cd, too_many) r
        | inr fits ↦ elim (Option-cases got) [
          | inl failing ↦ rw (run_cd, fits, failing) after
          | inr (bytes, there) ↦ rw (run_cd, fits, there) (refilled f bytes h' c after)
        ]
      ]

  pub process_read_cd-Recorded :
      (cmd : ReadCdCmd) (s : Session os)
      → Recorded f s.client
      → Recorded f (process_read_cd_2048_critical_cmd cmd s).1.client
  unfolding process_read_cd_2048_critical_cmd
  process_read_cd-Recorded cmd s r = elim (Option-cases s.client.ro_file) [
    | inl closed ↦ rw (process_read_cd_2048_critical_cmd, closed) r
    | inr (h, file) ↦ elim (Option-cases s.client.buf) [
      | inl missing ↦ rw (process_read_cd_2048_critical_cmd, file, missing) r
      | inr (b, there) ↦
          rw (process_read_cd_2048_critical_cmd, file, there)
            (run_cd-Recorded (be32 cmd.start_sector) (be32 cmd.sector_count) h s file r)
    ]
  ]

  send_read_result-client :
      (r : Option (List ℕ)) (s : Session os) → (send_read_result r s).1.client ≡ s.client
  unfolding send_read_result send_all
  send_read_result-client none s = refl
  send_read_result-client (some got) s = ground arith

  read_file_bytes-Recorded :
      (n offset : ℕ) (s : Session os)
      → Recorded f s.client
      → Recorded f (read_file_bytes n offset s).1.client
  unfolding read_file_bytes
  read_file_bytes-Recorded n offset s r = elim (Option-cases s.client.ro_file) [
    | inl closed ↦ rw (read_file_bytes, closed) r
    | inr (h, file) ↦ elim (Option-cases s.client.buf) [
      | inl missing ↦ rw (read_file_bytes, file, missing) r
      | inr (b, there) ↦
          let (found, h1) = AbstractFile.seek (Os.file os) h offset in
          let (got, h2) = AbstractFile.read (Os.file os) h1 n in
          let moved = seek-Kept f offset h s.client in
          let s1 : Session os = record s { client = filled got s.client } in
          let kept : Kept f h h2 s.client (filled got s.client) =
            Kept-trans f h h1 h2 s.client s.client (filled got s.client) moved
              (filled-Kept f h1 h2 got s.client (RegularFile.content-read f h1 n)) in
          elim (Bool-cases (ltb buffer_size n)) [
            | inl long ↦ rw (read_file_bytes, file, there, long) r
            | inr short ↦ elim (Bool-cases found) [
              | inl yes_found ↦
                  rw (read_file_bytes, file, there, short, yes_found)
                    (stored f h h2 s s1 file r kept)
              | inr lost ↦
                  rw (read_file_bytes, file, there, short, lost) (stored f h h1 s s file r moved)
            ]
          ]
    ]
  ]

  pub process_read_file-Recorded :
      (cmd : ReadFileCmd) (s : Session os)
      → Recorded f s.client
      → Recorded f (process_read_file_cmd cmd s).1.client
  unfolding process_read_file_cmd
  process_read_file-Recorded cmd s r =
      let (got, s1) = read_file_bytes (be32 cmd.num_bytes) (be64 cmd.offset) s in
      rw (send_read_result-client got s1)
        (read_file_bytes-Recorded (be32 cmd.num_bytes) (be64 cmd.offset) s r)
