-- ===== src/Read/Recorded.antt =====
-- process_read_file_critical of src/main.cpp leaves what process_open_cmd has recorded.
use ps3netsrv.Prelude.{
  ℕ, zero, suc, ◌+◌, ◌-◌, ◌%◌, ◌^◌, ◌≡◌, min, refl, sym, ap, ◌∙◌, arith, ltb, ◌==◌, if◌then◌else◌,
  Bool-cases, Option-cases, inl, inr, Option, none, some, List, ◌++◌, length, replicate,
}
use ps3netsrv.Env.{AbstractFile, RegularFile, Os}
use ps3netsrv.Session.{
  Status, succeeded, failed, Client, Session, buffer_size, fill_buf, log_eof_padding, send_all,
}
use ps3netsrv.Wire.{be32, be64}
use ps3netsrv.Commands.Detected.{Kept, filled-buf}
use ps3netsrv.Commands.Opened.{Recorded, stored-Recorded}
use ps3netsrv.Read.{
  ReadFileCmd, read_chunk, after_chunk, critical_loop, run_critical, put_handle,
  process_read_file_critical,
}

module _ {F : AbstractFile} (f : RegularFile F) where
  pub fill-Kept :
      (h h' : AbstractFile.Handle F) (bytes : List ℕ) (c : Client F)
      → RegularFile.content f h' ≡ RegularFile.content f h
      → Kept f h h' c (fill_buf bytes c)
  fill-Kept h h' bytes c same = record {
    content = same;
    size = refl;
    sector = refl;
    buffer = filled-buf f (some bytes) c;
  }

  pub Kept-trans :
      (h h' h2 : AbstractFile.Handle F) (c c' c2 : Client F)
      → Kept f h h' c c'
      → Kept f h' h2 c' c2
      → Kept f h h2 c c2
  Kept-trans h h' h2 c c' c2 k l = record {
    content = l.content ∙ k.content;
    size = l.size ∙ k.size;
    sector = l.sector ∙ k.sector;
    buffer = l.buffer ∙ k.buffer;
  }

  pub log-Kept : (h : AbstractFile.Handle F) (c : Client F) → Kept f h h c (log_eof_padding c)
  unfolding log_eof_padding
  log-Kept h c = elim (Bool-cases c.eof_pad_logged) [
    | inl logged ↦
        rw (log_eof_padding, logged)
          (record { content = refl; size = refl; sector = refl; buffer = refl })
    | inr first ↦
        rw (log_eof_padding, first)
          (record { content = refl; size = refl; sector = refl; buffer = refl })
  ]

  read_chunk-Kept :
      (n pos : ℕ) (h : AbstractFile.Handle F) (c : Client F)
      → Kept f h (read_chunk n pos h c).1 c (read_chunk n pos h c).2
  unfolding read_chunk
  read_chunk-Kept n pos h c =
      let (r, h') = AbstractFile.read F h n in
      let same = RegularFile.content-read f h n in
      elim (Option-cases r) [
        | inl failing ↦
            rw (read_chunk, failing)
              (record { content = same; size = refl; sector = refl; buffer = refl })
        | inr (got, there) ↦ elim (Bool-cases (length got == n)) [
          | inl whole ↦ rw (read_chunk, there, whole) (fill-Kept h h' got c same)
          | inr short ↦ elim (Bool-cases (ltb ((pos + length got) % 2 ^ 64) c.ro_file_size)) [
            | inl early ↦ rw (read_chunk, there, short, early) (fill-Kept h h' got c same)
            | inr late ↦
                rw (read_chunk, there, short, late)
                  (Kept-trans h h' h' c (log_eof_padding c) _
                    (Kept-trans h h' h' c c (log_eof_padding c)
                      (record { content = same; size = refl; sector = refl; buffer = refl })
                      (log-Kept h' c))
                    (fill-Kept h' h' (got ++ replicate (n - length got) 0) (log_eof_padding c)
                      refl))
          ]
        ]
      ]

abbrev Out : Os → Type 0
Out os = Option (Status × AbstractFile.Handle (Os.file os) × Session os)

-- Where the loop ends, it has kept the file and what is recorded of it.
abbrev Keeps :
    {os : Os}
    → RegularFile (Os.file os)
    → AbstractFile.Handle (Os.file os)
    → Client (Os.file os)
    → Out os
    → Type 0
Keeps {os} f h c out =
    (st : Status) (h2 : AbstractFile.Handle (Os.file os)) (s2 : Session os)
    → out ≡ some (st, h2, s2)
    → Kept f h h2 c s2.client

module _ {os : Os} (f : RegularFile (Os.file os)) where
  ended :
      (h : AbstractFile.Handle (Os.file os)) (s : Session os) (st : Status)
      → Keeps f h s.client (some (st, h, s))
  ended h s st st2 h2 s2 e =
      let same_h : h ≡ h2 = cc e in
      let same_s : s ≡ s2 = cc e in
      rw (← same_h, ← same_s) (record { content = refl; size = refl; sector = refl; buffer = refl })

  after_chunk-Keeps :
      (chunk : Option (List ℕ)) (h : AbstractFile.Handle (Os.file os)) (s : Session os)
      (continue : AbstractFile.Handle (Os.file os) → Session os → Out os)
      → ((h1 : AbstractFile.Handle (Os.file os)) (s1 : Session os)
          → Keeps f h1 s1.client (continue h1 s1))
      → Keeps f h s.client (after_chunk chunk h s continue)
  unfolding after_chunk send_all
  after_chunk-Keeps none h s continue ih = ended h s failed
  after_chunk-Keeps (some bytes) h s continue ih = elim (Bool-cases (send_all bytes s).0) [
    | inl sent ↦ λ st h2 s2 e. ih h (send_all bytes s).1 st h2 s2 (rw sent at e)
    | inr lost ↦ λ st h2 s2 e. ended h (send_all bytes s).1 failed st h2 s2 (rw lost at e)
  ]

  critical_loop-Keeps :
      (fuel read_size remaining pos : ℕ) (h : AbstractFile.Handle (Os.file os)) (s : Session os)
      → Keeps f h s.client (critical_loop fuel read_size remaining pos h s)
  unfolding critical_loop
  critical_loop-Keeps fuel read_size zero pos h s st h2 s2 e = ended h s succeeded st h2 s2 e
  critical_loop-Keeps zero read_size (suc r) pos h s st h2 s2 e = absurd (ground (arith, e))
  critical_loop-Keeps (suc fuel) read_size (suc r) pos h s st h2 s2 e =
      let n = if ltb (suc r) read_size then suc r else read_size in
      let (chunk, h', c) = read_chunk n pos h s.client in
      let s1 : Session os = record s { client = c } in
      Kept-trans f h h' h2 s.client c s2.client (read_chunk-Kept f n pos h s.client) (
        after_chunk-Keeps chunk h' s1
          (λ h3 s3. critical_loop fuel n (suc r - n) ((pos + n) % 2 ^ 64) h3 s3)
          (λ h3 s3. critical_loop-Keeps fuel n (suc r - n) ((pos + n) % 2 ^ 64) h3 s3) st h2 s2 e)

  pub stored :
      (h h2 : AbstractFile.Handle (Os.file os)) (s s2 : Session os)
      → s.client.ro_file ≡ some h
      → Recorded f s.client
      → Kept f h h2 s.client s2.client
      → Recorded f (put_handle h2 s2).client
  stored h h2 s s2 file r k =
      stored-Recorded f (put_handle h2 s2).client h2 refl
        (k.size ∙ r.sized h file ∙ ap length (sym k.content))
        (rw (k.content, k.sector) (r.detected h file)) (k.buffer ∙ r.buffered h file)

  run_critical-Recorded :
      (remaining offset : ℕ) (h : AbstractFile.Handle (Os.file os)) (s : Session os) (st : Status)
      (s' : Session os)
      → s.client.ro_file ≡ some h
      → Recorded f s.client
      → run_critical remaining offset h s ≡ some (st, s')
      → Recorded f s'.client
  unfolding run_critical
  run_critical-Recorded remaining offset h s st s' file r e =
      let (found, h1) = AbstractFile.seek (Os.file os) h offset in
      let moved : Kept f h h1 s.client s.client = record {
        content = RegularFile.content-seek f h offset;
        size = refl;
        sector = refl;
        buffer = refl;
      } in
      let out = critical_loop remaining (min buffer_size remaining) remaining offset h1 s in
      elim (Bool-cases found) [
        | inr lost ↦
            let same : put_handle h1 s ≡ s' = cc (rw (run_critical, lost) at e) in
            rw (← same) (stored h h1 s s file r moved)
        | inl there ↦ elim (Option-cases out) [
          | inl stuck ↦ absurd (ground (arith, rw (run_critical, there, stuck) at e))
          | inr ((st2, h2, s2), ends) ↦
              let same : put_handle h2 s2 ≡ s' = cc (rw (run_critical, there, ends) at e) in
              let kept =
                critical_loop-Keeps remaining (min buffer_size remaining) remaining offset h1 s st2
                  h2 s2 ends in
              rw (← same) (
                stored h h2 s s2 file r
                  (Kept-trans f h h1 h2 s.client s.client s2.client moved kept))
        ]
      ]

  -- A critical read leaves the client as an open command did: where a file is open its size and its
  -- sector size are recorded and there is a buffer, if it was so before.
  pub process_read_file_critical-Recorded :
      (cmd : ReadFileCmd) (s : Session os) (st : Status) (s' : Session os)
      → Recorded f s.client
      → process_read_file_critical cmd s ≡ some (st, s')
      → Recorded f s'.client
  unfolding process_read_file_critical run_critical
  process_read_file_critical-Recorded cmd s st s' r e = elim (Option-cases s.client.ro_file) [
    | inl closed ↦
        let same : s ≡ s' = cc (rw (process_read_file_critical, closed) at e) in rw (← same) r
    | inr (h, file) ↦ elim (Option-cases s.client.buf) [
      | inl missing ↦
          let same : s ≡ s' = cc (rw (process_read_file_critical, file, missing) at e) in
          rw (← same) r
      | inr (b, there) ↦
          run_critical-Recorded (be32 cmd.num_bytes) (be64 cmd.offset) h s st s' file r
            (rw (process_read_file_critical, file, there) at e)
    ]
  ]
