-- ===== src/Read/Chunk.antt =====
-- One read of a regular file delivers the window at its position: the file's bytes, and zeros
-- past its end.
use ps3netsrv.Prelude.{
  ℕ, ◌+◌, ◌-◌, ◌^◌, ◌<◌, ◌≡◌, ◌∙◌, arith, some, List, ◌++◌, length, length-take, length-drop, take,
  drop, drop-add, drop-length-take, replicate, append-nil,
}
use ps3netsrv.Prelude.Window.{window, window-drop, window-take}
use ps3netsrv.Env.{AbstractFile, RegularFile}
use ps3netsrv.Session.{Client, log_eof_padding}
use ps3netsrv.Read.{read_chunk, read_padded}

-- The handle stands at `pos` of a file with these bytes, or both are past its end; the client has
-- recorded the file's size.
pub record ReadsAt {F : AbstractFile} (f : RegularFile F) (bytes : List ℕ) (pos : ℕ)
    (h : AbstractFile.Handle F) (c : Client F) : Type 0 where
  pub same : RegularFile.content f h ≡ bytes
  pub here : drop (RegularFile.position f h) bytes ≡ drop pos bytes
  pub size : c.ro_file_size ≡ length bytes

module _ {F : AbstractFile} (f : RegularFile F) (bytes : List ℕ) (n pos : ℕ) where
  reads :
      (h : AbstractFile.Handle F) (c : Client F)
      → ReadsAt f bytes pos h c
      → (AbstractFile.read F h n).0 ≡ some (take n (drop pos bytes))
  reads h c r = RegularFile.read-eq-take f h n ∙ rw (r.same, r.here)

  filled_up :
      take n (drop pos bytes) ++ replicate (n - length (take n (drop pos bytes))) 0
      ≡ window bytes pos n
  filled_up = rw window-drop (window-take (drop pos bytes) n)

  pub read_chunk-window :
      (h : AbstractFile.Handle F) (c : Client F)
      → ReadsAt f bytes pos h c
      → pos + n < 2 ^ 64
      → (read_chunk n pos h c).0 ≡ some (window bytes pos n)
  unfolding read_chunk
  read_chunk-window h c r fits = ground (
    arith,
    reads h c r,
    filled_up,
    length-take n (drop pos bytes),
    length-drop pos bytes,
    append-nil (take n (drop pos bytes)),
  )

  pub read_padded-window :
      (h : AbstractFile.Handle F) (c : Client F)
      → ReadsAt f bytes pos h c
      → pos + n < 2 ^ 64
      → (read_padded n pos h c).0 ≡ some (window bytes pos n)
  unfolding read_padded
  read_padded-window h c r fits = ground (
    arith,
    reads h c r,
    filled_up,
    length-take n (drop pos bytes),
    length-drop pos bytes,
    append-nil (take n (drop pos bytes)),
  )

  after_read :
      (h : AbstractFile.Handle F) (c : Client F)
      → ReadsAt f bytes pos h c
      → drop (RegularFile.position f (AbstractFile.read F h n).1) bytes ≡ drop (pos + n) bytes
  after_read h c r =
      rw (RegularFile.position-read f h n, r.same, drop-add, r.here, drop-length-take, ← drop-add)

  module _ (h : AbstractFile.Handle F) (c : Client F) where
    handle-read_chunk : (read_chunk n pos h c).1 ≡ (AbstractFile.read F h n).1
    unfolding read_chunk
    handle-read_chunk = ground arith

    size-read_chunk : (read_chunk n pos h c).2.ro_file_size ≡ c.ro_file_size
    unfolding read_chunk log_eof_padding
    size-read_chunk = ground arith

    handle-read_padded : (read_padded n pos h c).1 ≡ (AbstractFile.read F h n).1
    unfolding read_padded
    handle-read_padded = ground arith

    size-read_padded : (read_padded n pos h c).2.ro_file_size ≡ c.ro_file_size
    unfolding read_padded log_eof_padding
    size-read_padded = ground arith

    pub step-read_padded : (read_padded n pos h c).2.cd_sector_size ≡ c.cd_sector_size
    unfolding read_padded log_eof_padding
    step-read_padded = ground arith

    -- After a chunk the handle stands behind it.
    pub read_chunk-ReadsAt :
        ReadsAt f bytes pos h c
        → ReadsAt f bytes (pos + n) (read_chunk n pos h c).1 (read_chunk n pos h c).2
    read_chunk-ReadsAt r = record {
      same = rw handle-read_chunk (RegularFile.content-read f h n ∙ r.same);
      here = rw handle-read_chunk (after_read h c r);
      size = size-read_chunk ∙ r.size;
    }

    -- And so after a padded read.
    pub read_padded-ReadsAt :
        ReadsAt f bytes pos h c
        → ReadsAt f bytes (pos + n) (read_padded n pos h c).1 (read_padded n pos h c).2
    read_padded-ReadsAt r = record {
      same = rw handle-read_padded (RegularFile.content-read f h n ∙ r.same);
      here = rw handle-read_padded (after_read h c r);
      size = size-read_padded ∙ r.size;
    }
