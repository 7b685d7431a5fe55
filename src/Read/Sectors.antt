-- ===== src/Read/Sectors.antt =====
-- The fast path of process_read_cd_2048_critical_cmd delivers what the per-sector loop delivers.
use ps3netsrv.Prelude.{
  ℕ, zero, suc, ◌+◌, ◌-◌, ◌*◌, ◌^◌, ◌≤◌, ◌<◌, ◌≡◌, refl, sym, ap, ap₂, ◌∙◌, arith, some, List, [],
  ◌∷◌, ◌++◌, length, length-append,
}
use native.Mathlib.Nat.{zero-add}
use native.Mathlib.Numerals.{sub-one}
use ps3netsrv.Prelude.Window.{window, window-window, length-window, take-drop-window}
use ps3netsrv.Env.{AbstractFile, RegularFile, Os}
use ps3netsrv.Session.{Client, Session, succeeded, buffer_size, send_all}
use ps3netsrv.Read.Critical.{TakesAll}
use ps3netsrv.Read.{
  read_padded, pick_sectors, bulk_sectors, single_sectors, read_sectors, run_cd, ReadCdCmd,
  process_read_cd_2048_critical_cmd,
}
use ps3netsrv.Wire.{be32}
use ps3netsrv.Wire.ByteOrder.{be32-lt}
use ps3netsrv.Read.Chunk.{ReadsAt, read_padded-window, read_padded-ReadsAt, step-read_padded}

-- The payloads of `n` sectors that lie `step` bytes apart from `offset` on: 2048 bytes behind the
-- 24 of each header, zeros where the image has ended.
unfoldable pub payloads : List ℕ → ℕ → ℕ → ℕ → List ℕ
payloads bytes offset step zero = []
payloads bytes offset step (suc n) =
    window bytes (offset + 24) 2048 ++ payloads bytes (offset + step) step n

pick_sectors-payloads :
    (bytes : List ℕ) (offset span step n i : ℕ)
    → (i + n) * step + 2048 ≤ span + step
    → pick_sectors n i step (window bytes (offset + 24) span)
      ≡ payloads bytes (offset + i * step) step n
unfolding pick_sectors payloads
pick_sectors-payloads bytes offset span step zero i h = refl
pick_sectors-payloads bytes offset span step (suc n) i h =
    ap₂ ◌++◌
      (take-drop-window (window bytes (offset + 24) span) (i * step) 2048
          (rw length-window (grind arith))
        ∙ window-window bytes (offset + 24) span (i * step) 2048 (grind arith)
        ∙ ap (λ t. window bytes t 2048) (omega arith))
      (pick_sectors-payloads bytes offset span step n (suc i) (grind arith)
        ∙ ap (λ t. payloads bytes t step n) (grind arith))

last_step : (n step : ℕ) → 0 < n → (n - 1) * step + step ≡ n * step
last_step zero step h = absurd (omega arith)
last_step (suc n) step h = rw sub-one (omega arith)

module _ {F : AbstractFile} (f : RegularFile F) (bytes : List ℕ) where
  -- Where a seek to `pos` lands.
  seek-ReadsAt :
      (pos : ℕ) (h : AbstractFile.Handle F) (c : Client F)
      → RegularFile.content f h ≡ bytes
      → c.ro_file_size ≡ length bytes
      → pos < 2 ^ 63
      → ReadsAt f bytes pos (AbstractFile.seek F h pos).1 c
  seek-ReadsAt pos h c same size fits = record {
    same = RegularFile.content-seek f h pos ∙ same;
    here = rw (RegularFile.position-seek f h pos fits);
    size = size;
  }

  bulk_sectors-payloads :
      (n offset : ℕ) (h : AbstractFile.Handle F) (c : Client F)
      → RegularFile.content f h ≡ bytes
      → c.ro_file_size ≡ length bytes
      → offset + n * c.cd_sector_size + 2072 < 2 ^ 63
      → 0 < n
      → (bulk_sectors n offset h c).0 ≡ some (payloads bytes offset c.cd_sector_size n)
  unfolding bulk_sectors
  bulk_sectors-payloads n offset h c same size fits some_sector =
      let h1 = (AbstractFile.seek F h (offset + 24)).1 in
      let span = (n - 1) * c.cd_sector_size + 24 + 2048 in
      let at = seek-ReadsAt (offset + 24) h c same size (omega arith) in
      let spans = last_step n c.cd_sector_size some_sector in
      let read = read_padded-window f bytes span (offset + 24) h1 c at (omega arith) in
      let enough : (0 + n) * c.cd_sector_size + 2048 ≤ span + c.cd_sector_size =
        rw zero-add (omega arith) in
      ground (arith, read, pick_sectors-payloads bytes offset span c.cd_sector_size n 0 enough)

  single_sectors-payloads :
      (n offset : ℕ) (h : AbstractFile.Handle F) (c : Client F)
      → RegularFile.content f h ≡ bytes
      → c.ro_file_size ≡ length bytes
      → offset + n * c.cd_sector_size + 2072 < 2 ^ 63
      → (single_sectors n offset h c).0 ≡ some (payloads bytes offset c.cd_sector_size n)
  unfolding single_sectors payloads
  single_sectors-payloads zero offset h c same size fits = refl
  single_sectors-payloads (suc n) offset h c same size fits =
      let h1 = (AbstractFile.seek F h (offset + 24)).1 in
      let at = seek-ReadsAt (offset + 24) h c same size (omega arith) in
      let at' = read_padded-ReadsAt f bytes 2048 (offset + 24) h1 c at in
      let step = step-read_padded f bytes 2048 (offset + 24) h1 c in
      let h2 = (read_padded 2048 (offset + 24) h1 c).1 in
      let c2 = (read_padded 2048 (offset + 24) h1 c).2 in
      ground (
        arith,
        read_padded-window f bytes 2048 (offset + 24) h1 c at (omega arith),
        step,
        single_sectors-payloads n (offset + c.cd_sector_size) h2 c2 at'.same at'.size
            (rw step (omega arith)),
      )

  read_sectors-payloads :
      (n offset : ℕ) (h : AbstractFile.Handle F) (c : Client F)
      → RegularFile.content f h ≡ bytes
      → c.ro_file_size ≡ length bytes
      → offset + n * c.cd_sector_size + 2072 < 2 ^ 63
      → (read_sectors n offset h c).0 ≡ some (payloads bytes offset c.cd_sector_size n)
  unfolding read_sectors
  read_sectors-payloads n offset h c same size fits = ground (
    arith,
    bulk_sectors-payloads n offset h c same size fits,
    single_sectors-payloads n offset h c same size fits,
  )

  -- The fast path is an optimisation only: for a regular file whose size is recorded, and a range
  -- below 2 ^ 63, it gets the payloads that the loop over single sectors gets.
  pub bulk_sectors-single_sectors :
      (n offset : ℕ) (h : AbstractFile.Handle F) (c : Client F)
      → RegularFile.content f h ≡ bytes
      → c.ro_file_size ≡ length bytes
      → offset + n * c.cd_sector_size + 2072 < 2 ^ 63
      → 0 < n
      → (bulk_sectors n offset h c).0 ≡ (single_sectors n offset h c).0
  bulk_sectors-single_sectors n offset h c same size fits some_sector =
      bulk_sectors-payloads n offset h c same size fits some_sector
      ∙ sym (single_sectors-payloads n offset h c same size fits)

pub length-payloads :
    (bytes : List ℕ) (offset step n : ℕ) → length (payloads bytes offset step n) ≡ n * 2048
unfolding payloads
length-payloads bytes offset step zero = refl
length-payloads bytes offset step (suc n) =
    rw (length-append, length-window, length-payloads bytes (offset + step) step n) (omega arith)

in_range :
    (start n step : ℕ)
    → start < 2 ^ 32
    → n ≤ 2048
    → step ≤ 2448
    → start * step + n * step + 2072 < 2 ^ 63
in_range start n step hs hn hp = grind arith

module _ {os : Os} (f : RegularFile (Os.file os)) (bytes : List ℕ) (takes : TakesAll os) where
  run_cd-payloads :
      (start n : ℕ) (h : AbstractFile.Handle (Os.file os)) (s : Session os)
      → RegularFile.content f h ≡ bytes
      → s.client.ro_file_size ≡ length bytes
      → s.client.cd_sector_size ≤ 2448
      → start < 2 ^ 32
      → n * 2048 ≤ buffer_size
      → ((run_cd start n h s).0 ≡ succeeded)
        × ((run_cd start n h s).1.sent
            ≡ s.sent
              ++ payloads bytes (start * s.client.cd_sector_size) s.client.cd_sector_size n ∷ [])
  unfolding run_cd send_all
  run_cd-payloads start n h s same size small hs fits =
      let offset = start * s.client.cd_sector_size in
      ground (
        arith,
        read_sectors-payloads f bytes n offset h s.client same size
            (in_range start n s.client.cd_sector_size hs (omega arith) small),
        takes (payloads bytes offset s.client.cd_sector_size n) s.world,
      )

  -- The reply to a CD read of at most 2048 sectors is one send of their payloads, 2048 bytes for
  -- each sector, and the command succeeds. It needs an open regular file whose size the client has
  -- recorded, a buffer, a sector size that the server can detect (at most 2448) and a peer that
  -- takes what is sent.
  pub process_read_cd-payloads :
      (cmd : ReadCdCmd) (h : AbstractFile.Handle (Os.file os)) (s : Session os) (b : List ℕ)
      → s.client.ro_file ≡ some h
      → s.client.buf ≡ some b
      → RegularFile.content f h ≡ bytes
      → s.client.ro_file_size ≡ length bytes
      → s.client.cd_sector_size ≤ 2448
      → be32 cmd.sector_count ≤ 2048
      → let step = s.client.cd_sector_size in
        let reply = payloads bytes (be32 cmd.start_sector * step) step (be32 cmd.sector_count) in
        ((process_read_cd_2048_critical_cmd cmd s).0 ≡ succeeded)
        × ((process_read_cd_2048_critical_cmd cmd s).1.sent ≡ s.sent ++ reply ∷ [])
        × (length reply ≡ be32 cmd.sector_count * 2048)
  unfolding process_read_cd_2048_critical_cmd
  process_read_cd-payloads cmd h s b file buffer same size small few =
      let n = be32 cmd.sector_count in
      let start = be32 cmd.start_sector in
      let step = s.client.cd_sector_size in
      let (done, sent) =
        run_cd-payloads start n h s same size small (be32-lt cmd.start_sector) (omega arith) in
      (ground (arith, done), ground (arith, sent), length-payloads bytes (start * step) step n)
