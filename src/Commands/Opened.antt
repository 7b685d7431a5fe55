-- ===== src/Commands/Opened.antt =====
-- process_open_cmd of src/main.cpp leaves the client as the read commands need it.
use ps3netsrv.Prelude.{
  ℕ, ◌≤◌, ◌≡◌, refl, sym, ap, ◌∙◌, arith, true, false, not, ◌&&◌, ◌||◌, leb, ◌==◌, Bool-cases, inl,
  inr, Option-cases, none, some, List, length,
}
use ps3netsrv.Env.{AbstractFile, RegularFile, Os, Stat}
use ps3netsrv.Session.{Status, Client, Session, send_all}
use ps3netsrv.Wire.{be16}
use ps3netsrv.Path.{is_some}
use ps3netsrv.Commands.Detected.{in_range, SectorSize, SectorSize-le, search-SectorSize}
use ps3netsrv.Commands.{
  PathCmd, equal, close_file, sec_size, detect, reply, recv_path, translate, no_file, opened,
  open_path, process_open_cmd,
}

-- fstat of a regular file gives the number of its bytes and leaves them.
pub record HonestStat {F : AbstractFile} (f : RegularFile F) : Type 0 where
  pub file_size-length :
      (h : AbstractFile.Handle F) (st : Stat)
      → (AbstractFile.fstat F h).0 ≡ some st
      → st.file_size ≡ length (RegularFile.content f h)
  pub content-fstat :
      (h : AbstractFile.Handle F)
      → RegularFile.content f (AbstractFile.fstat F h).1 ≡ RegularFile.content f h

-- Where the client has a file open, it has recorded its size and its sector size, and it has a buffer;
-- the sector size is at most 2448 also where no file is open.
pub record Recorded {F : AbstractFile} (f : RegularFile F) (c : Client F) : Type 0 where
  pub sized :
      (h : AbstractFile.Handle F)
      → c.ro_file ≡ some h
      → c.ro_file_size ≡ length (RegularFile.content f h)
  pub sector : c.cd_sector_size ≤ 2448
  pub detected :
      (h : AbstractFile.Handle F)
      → c.ro_file ≡ some h
      → SectorSize (RegularFile.content f h) c.cd_sector_size
  pub buffered : (h : AbstractFile.Handle F) → c.ro_file ≡ some h → is_some c.buf ≡ true

module _ {F : AbstractFile} (f : RegularFile F) where
  closed-Recorded : (c : Client F) → c.ro_file ≡ none → c.cd_sector_size ≤ 2448 → Recorded f c
  closed-Recorded c closed le = record {
    sized = λ h e. absurd (cc (sym closed ∙ e));
    sector = le;
    detected = λ h e. absurd (cc (sym closed ∙ e));
    buffered = λ h e. absurd (cc (sym closed ∙ e));
  }

  -- A client that has just stored the handle `h2` and the size of its file.
  pub stored-Recorded :
      (c : Client F) (h2 : AbstractFile.Handle F)
      → c.ro_file ≡ some h2
      → c.ro_file_size ≡ length (RegularFile.content f h2)
      → SectorSize (RegularFile.content f h2) c.cd_sector_size
      → is_some c.buf ≡ true
      → Recorded f c
  stored-Recorded c h2 open_file size sector buffer = record {
    sized = λ h e.
        let same : h2 ≡ h = cc (sym open_file ∙ e) in
        size ∙ ap (λ k. length (RegularFile.content f k)) same;
    sector = SectorSize-le (RegularFile.content f h2) c.cd_sector_size sector;
    detected = λ h e. let same : h2 ≡ h = cc (sym open_file ∙ e) in rw (← same) sector;
    buffered = λ h e. buffer;
  }

module _ {os : Os} (f : RegularFile (Os.file os)) (honest : HonestStat f) (root : List ℕ) where
  reply-client : (b : List ℕ) (st : Status) (s : Session os) → (reply b st s).1.client ≡ s.client
  unfolding reply send_all
  reply-client b st s = refl

  opened-Recorded :
      (h : AbstractFile.Handle (Os.file os)) (s : Session os)
      → s.client.ro_file ≡ none
      → s.client.cd_sector_size ≡ 2352
      → is_some s.client.buf ≡ true
      → Recorded f (opened root h s).1.client
  unfolding opened reply send_all
  opened-Recorded h s closed start buffer =
      elim (Option-cases (AbstractFile.fstat (Os.file os) h).0) [
        | inl failing ↦
            rw (opened, failing) (closed-Recorded f s.client closed (omega (arith, start)))
        | inr (st, known) ↦
            let h1 = (AbstractFile.fstat (Os.file os) h).1 in
            let c = record s.client { ro_file_size = st.file_size } in
            let size =
              HonestStat.file_size-length honest h st known
              ∙ ap length (sym (HonestStat.content-fstat honest h)) in
            elim (Bool-cases (leb 2097152 st.file_size && leb st.file_size 889192448)) [
              | inl cd ↦
                  let inside : in_range (length (RegularFile.content f h1)) ≡ true =
                    rw size at cd in
                  let k = search-SectorSize f h1 c inside buffer start in
                  rw (opened, known, cd)
                    (stored-Recorded f
                      (record (detect sec_size h1 c).1 { ro_file = some (detect sec_size h1 c).0 })
                      (detect sec_size h1 c).0 refl
                      (k.same_size ∙ size ∙ ap length (sym k.same_content))
                      (rw k.same_content (record {
                        searched = λ e. k.chosen;
                        fixed = λ outside. absurd (ground (arith, inside, outside));
                      }))
                      (k.same_buffer ∙ buffer))
              | inr plain ↦
                  let outside : in_range (length (RegularFile.content f h1)) ≡ false =
                    rw size at plain in
                  rw (opened, known, plain)
                    (stored-Recorded f (record c { ro_file = some h1 }) h1 refl size
                      (record {
                        searched = λ inside. absurd (ground (arith, inside, outside));
                        fixed = λ e. start;
                      })
                      buffer)
            ]
      ]

  open_path-Recorded :
      (path : List ℕ) (s : Session os)
      → s.client.ro_file ≡ none
      → s.client.cd_sector_size ≤ 2448
      → is_some s.client.buf ≡ true
      → Recorded f (open_path root path s).1.client
  unfolding open_path reply send_all
  open_path-Recorded path s closed le buffer = elim (Option-cases (translate root true path s)) [
    | inl refused ↦ rw (open_path, refused) (closed-Recorded f s.client closed le)
    | inr ((filepath, viso), accepted) ↦
        let (file, w) = Os.open_read os viso filepath s.world in
        let s1 : Session os = record s {
          world = w;
          client = record s.client { cd_sector_size = 2352 };
        } in
        elim (Option-cases file) [
          | inl failing ↦
              rw (open_path, accepted, failing) (closed-Recorded f s1.client closed (omega arith))
          | inr (h, there) ↦
              rw (open_path, accepted, there) (opened-Recorded h s1 closed refl buffer)
        ]
  ]

  pub process_open_cmd-Recorded :
      (cmd : PathCmd) (s : Session os)
      → Recorded f s.client
      → Recorded f (process_open_cmd root cmd s).1.client
  unfolding process_open_cmd recv_path reply send_all
  process_open_cmd-Recorded cmd s r =
      let fp_len = be16 cmd.path_len in
      let (got, s1) = recv_path fp_len s in
      let closed = closed-Recorded f (no_file root s1).client refl r.sector in
      elim (Bool-cases (not (is_some s.client.buf) || fp_len == 0)) [
        | inl bad ↦ rw (process_open_cmd, bad) r
        | inr fine ↦
            let buffer : is_some s.client.buf ≡ true = ground (arith, fine) in
            elim (Option-cases got) [
              | inl lost ↦ rw (process_open_cmd, fine, lost) r
              | inr (path, received) ↦ elim (Bool-cases (fp_len == 10 && equal path close_file)) [
                | inl close ↦ rw (process_open_cmd, fine, received, close) closed
                | inr other ↦
                    rw (process_open_cmd, fine, received, other)
                      (open_path-Recorded path (no_file root s1) refl r.sector buffer)
              ]
            ]
      ]
