-- ===== src/Read.antt =====
-- The three commands that read from the open image: process_read_file_critical,
-- process_read_cd_2048_critical_cmd and process_read_file_cmd of src/main.cpp.
-- The casts that cannot change a value are left out; what wraps is written with its modulus. What a
-- transfer that fails leaves in client->buf is left out, since the connection ends there, and the
-- allocation of the scratch buffer is taken to succeed.
pub mod Chunk
pub mod Critical
pub mod Handles
pub mod Recorded
pub mod Sectors
use ps3netsrv.Prelude.{
  ℕ, zero, suc, ◌+◌, ◌-◌, ◌*◌, ◌%◌, ◌^◌, Bool, true, false, ◌&&◌, ltb, leb, ◌==◌, if◌then◌else◌,
  Option, none, some, List, [], ◌∷◌, ◌++◌, length, take, drop, replicate, min,
}
use ps3netsrv.Env.{AbstractFile, Os}
use ps3netsrv.Session.{
  Status, succeeded, failed, Client, Session, buffer_size, fill_buf, filled, log_eof_padding,
  send_all,
}
use ps3netsrv.Wire.{be32, be64, store32, none32}

-- The fields of netiso_read_file_critical_cmd and netiso_read_file_cmd, as loaded by the host.
pub record ReadFileCmd : Type 0 where
  pub num_bytes : ℕ
  pub offset : ℕ

pub record ReadCdCmd : Type 0 where
  pub start_sector : ℕ
  pub sector_count : ℕ

module _ {F : AbstractFile} where
  -- One read of the critical command: the bytes to send, or `none` where the connection ends.
  pub read_chunk :
      ℕ → ℕ → AbstractFile.Handle F → Client F → Option (List ℕ) × AbstractFile.Handle F × Client F
  read_chunk read_size pos h c =
      let (r, h') = AbstractFile.read F h read_size in
      elim r [
        | none ↦ (none, h', c)
        | some got ↦
            let read_ret = length got in
            if read_ret == read_size
            then (some got, h', fill_buf got c)
            else if ltb ((pos + read_ret) % 2 ^ 64) c.ro_file_size
            then (none, h', fill_buf got c)
            else (let bytes = got ++ replicate (read_size - read_ret) 0 in
                (some bytes, h', fill_buf bytes (log_eof_padding c)))
      ]

module _ {os : Os} where
  -- The end of a round: the chunk is sent, and the loop goes on where the peer took all of it.
  unfoldable pub after_chunk :
      Option (List ℕ)
      → AbstractFile.Handle (Os.file os)
      → Session os
      → (AbstractFile.Handle (Os.file os)
          → Session os
          → Option (Status × AbstractFile.Handle (Os.file os) × Session os))
      → Option (Status × AbstractFile.Handle (Os.file os) × Session os)
  after_chunk none h s continue = some (failed, h, s)
  after_chunk (some bytes) h s continue =
      let (sent, s') = send_all bytes s in if sent then continue h s' else some (failed, h, s')

  -- The while loop; `none` means that the fuel ran out.
  unfoldable pub critical_loop :
      ℕ
      → ℕ
      → ℕ
      → ℕ
      → AbstractFile.Handle (Os.file os)
      → Session os
      → Option (Status × AbstractFile.Handle (Os.file os) × Session os)
  unfolding after_chunk
  critical_loop fuel read_size zero pos h s = some (succeeded, h, s)
  critical_loop zero read_size (suc r) pos h s = none
  critical_loop (suc fuel) read_size (suc r) pos h s =
      let n = if ltb (suc r) read_size then suc r else read_size in
      let (chunk, h', c) = read_chunk n pos h s.client in
      after_chunk chunk h' (record s { client = c })
        (λ h1 s1. critical_loop fuel n (suc r - n) ((pos + n) % 2 ^ 64) h1 s1)

  -- The object that client->ro_file points to is changed in place.
  abbrev pub put_handle : AbstractFile.Handle (Os.file os) → Session os → Session os
  put_handle h s = record s { client = record s.client { ro_file = some h } }

  -- `num_bytes` rounds are enough: a round that goes on takes at least one byte off.
  unfoldable pub run_critical :
      ℕ → ℕ → AbstractFile.Handle (Os.file os) → Session os → Option (Status × Session os)
  unfolding critical_loop read_chunk
  run_critical remaining offset h s =
      let (found, h1) = AbstractFile.seek (Os.file os) h offset in
      if found
      then elim (critical_loop remaining (min buffer_size remaining) remaining offset h1 s) [
        | none ↦ none
        | some (st, h2, s2) ↦ some (st, put_handle h2 s2)
      ]
      else some (failed, put_handle h1 s)

  unfoldable pub process_read_file_critical :
      ReadFileCmd → Session os → Option (Status × Session os)
  unfolding run_critical
  process_read_file_critical cmd s = elim s.client.ro_file [
    | none ↦ some (failed, s)
    | some h ↦ elim s.client.buf [
      | none ↦ some (failed, s)
      | some _ ↦ run_critical (be32 cmd.num_bytes) (be64 cmd.offset) h s
    ]
  ]

-- The payloads that memcpy takes from the scratch buffer: 2048 bytes at every `step`.
pub pick_sectors : ℕ → ℕ → ℕ → List ℕ → List ℕ
pick_sectors zero i step scratch = []
pick_sectors (suc n) i step scratch =
    take 2048 (drop (i * step) scratch) ++ pick_sectors n (suc i) step scratch

module _ {F : AbstractFile} where
  -- A read of `want` bytes at `pos` whose tail may lie past the end of the image.
  pub read_padded :
      ℕ → ℕ → AbstractFile.Handle F → Client F → Option (List ℕ) × AbstractFile.Handle F × Client F
  read_padded want pos h c =
      let (r, h') = AbstractFile.read F h want in
      elim r [
        | none ↦ (none, h', c)
        | some got ↦
            let ret = length got in
            if ltb ret want && leb c.ro_file_size ((pos + ret) % 2 ^ 64)
            then (some (got ++ replicate (want - ret) 0), h', log_eof_padding c)
            else if ret == want
            then (some got, h', c)
            else (none, h', c)
      ]

  -- One read over the whole span; `none` where the read fails.
  unfoldable pub bulk_sectors :
      ℕ → ℕ → AbstractFile.Handle F → Client F → Option (List ℕ) × AbstractFile.Handle F × Client F
  unfolding read_padded pick_sectors
  bulk_sectors sector_count offset h c =
      let span = (sector_count - 1) * c.cd_sector_size + 24 + 2048 in
      let (_, h1) = AbstractFile.seek F h (offset + 24) in
      let (r, h2, c2) = read_padded span (offset + 24) h1 c in
      elim r [
        | none ↦ (none, h2, c2)
        | some scratch ↦ (some (pick_sectors sector_count 0 c.cd_sector_size scratch), h2, c2)
      ]

  -- The loop that seeks and reads each sector by itself.
  unfoldable pub single_sectors :
      ℕ → ℕ → AbstractFile.Handle F → Client F → Option (List ℕ) × AbstractFile.Handle F × Client F
  single_sectors zero offset h c = (some [], h, c)
  single_sectors (suc n) offset h c =
      let (_, h1) = AbstractFile.seek F h (offset + 24) in
      let (r, h2, c2) = read_padded 2048 (offset + 24) h1 c in
      let (more, h3, c3) = single_sectors n (offset + c.cd_sector_size) h2 c2 in
      elim r [
        | none ↦ (none, h2, c2)
        | some sector ↦ (elim more [ none ↦ none | some l ↦ some (sector ++ l) ], h3, c3)
      ]

  -- The fast path where the backend allows it and there is a sector to read.
  pub read_sectors :
      ℕ → ℕ → AbstractFile.Handle F → Client F → Option (List ℕ) × AbstractFile.Handle F × Client F
  unfolding bulk_sectors single_sectors
  read_sectors sector_count offset h c =
      if ltb 0 sector_count && AbstractFile.supports_bulk_read F h
      then bulk_sectors sector_count offset h c
      else single_sectors sector_count offset h c

module _ {os : Os} where
  unfoldable pub run_cd :
      ℕ → ℕ → AbstractFile.Handle (Os.file os) → Session os → Status × Session os
  unfolding read_sectors
  run_cd start sector_count h s =
      if ltb buffer_size (sector_count * 2048)
      then (failed, s)
      else (let (r, h', c) =
            read_sectors sector_count (start * s.client.cd_sector_size) h s.client in
          let s1 = put_handle h' (record s { client = c }) in
          elim r [
            | none ↦ (failed, s1)
            | some bytes ↦
                let (sent, s2) = send_all bytes (record s1 { client = fill_buf bytes s1.client }) in
                (if sent then succeeded else failed, s2)
          ])

  unfoldable pub process_read_cd_2048_critical_cmd : ReadCdCmd → Session os → Status × Session os
  unfolding run_cd
  process_read_cd_2048_critical_cmd cmd s = elim s.client.ro_file [
    | none ↦ (failed, s)
    | some h ↦ elim s.client.buf [
      | none ↦ (failed, s)
      | some _ ↦ run_cd (be32 cmd.start_sector) (be32 cmd.sector_count) h s
    ]
  ]

  -- What process_read_file_cmd has read when it reaches its label: `none` is bytes_read = NONE.
  unfoldable pub read_file_bytes : ℕ → ℕ → Session os → Option (List ℕ) × Session os
  read_file_bytes read_size offset s = elim s.client.ro_file [
    | none ↦ (none, s)
    | some h ↦ elim s.client.buf [
      | none ↦ (none, s)
      | some _ ↦
          if ltb buffer_size read_size
          then (none, s)
          else (let (found, h1) = AbstractFile.seek (Os.file os) h offset in
              let (r, h2) = AbstractFile.read (Os.file os) h1 read_size in
              if found
              then (r, put_handle h2 (record s { client = filled r s.client }))
              else (none, put_handle h1 s))
    ]
  ]

  -- The count goes first, and the bytes follow where there are any.
  unfoldable pub send_read_result : Option (List ℕ) → Session os → Status × Session os
  send_read_result none s =
      let (sent, s1) = send_all (store32 (be32 none32)) s in
      (if sent then succeeded else failed, s1)
  send_read_result (some got) s =
      let (sent, s1) = send_all (store32 (be32 (length got))) s in
      let (sent_bytes, s2) = send_all got s1 in
      if sent
      then if ltb 0 (length got)
        then (if sent_bytes then succeeded else failed, s2)
        else (succeeded, s1)
      else (failed, s1)

  unfoldable pub process_read_file_cmd : ReadFileCmd → Session os → Status × Session os
  unfolding read_file_bytes send_read_result
  process_read_file_cmd cmd s =
      let (r, s1) = read_file_bytes (be32 cmd.num_bytes) (be64 cmd.offset) s in
      send_read_result r s1
