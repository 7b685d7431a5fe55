-- ===== src/Read/Critical.antt =====
-- process_read_file_critical sends the bytes that were asked for, whatever the size of the image.
use ps3netsrv.Prelude.{
  ℕ, zero, suc, ◌+◌, ◌-◌, ◌%◌, min, ◌^◌, ◌≤◌, ◌<◌, ◌≡◌, refl, sym, ◌∙◌, arith, Option, none, some,
  ◌≢◌, true, ltb, if◌then◌else◌, List, [], ◌∷◌, ◌++◌, length, flatten, flatten_snoc, append-nil,
  append_assoc, Option-cases, Bool-cases, inl, inr,
}
use ps3netsrv.Prelude.Window.{window, window-add}
use ps3netsrv.Env.{AbstractFile, RegularFile, Os}
use ps3netsrv.Session.{Status, succeeded, Session, buffer_size, send_all}
use ps3netsrv.Read.{
  read_chunk, after_chunk, critical_loop, run_critical, put_handle, ReadFileCmd,
  process_read_file_critical,
}
use ps3netsrv.Wire.{be32, be64}
use ps3netsrv.Read.Chunk.{ReadsAt, read_chunk-window, read_chunk-ReadsAt}

-- The peer takes every byte of every send.
abbrev pub TakesAll : Os → Type 0
TakesAll os = (bytes : List ℕ) (w : Os.World os) → (Os.send os bytes w).0 ≡ some (length bytes)

-- A chunk behind what was sent, and the rest of the window behind the chunk.
joined :
    (bytes : List ℕ) (before : List (List ℕ)) (pos n m total : ℕ)
    → n + m ≡ total
    → flatten (before ++ window bytes pos n ∷ []) ++ window bytes (pos + n) m
      ≡ flatten before ++ window bytes pos total
joined bytes before pos n m total e = rw (← e, window-add, flatten_snoc, append_assoc)

module _ {os : Os} (f : RegularFile (Os.file os)) (bytes : List ℕ) (takes : TakesAll os) where
  send_all_ok : (b : List ℕ) (s : Session os) → (send_all b s).0 ≡ true
  unfolding send_all
  send_all_ok b s = ground (arith, takes b s.world)

  -- A round that goes on: the chunk is sent and the loop continues behind it.
  critical_round :
      (fuel read_size r pos n : ℕ) (h : AbstractFile.Handle (Os.file os)) (s : Session os)
      → n ≡ (if ltb (suc r) read_size then suc r else read_size)
      → ReadsAt f bytes pos h s.client
      → pos + n < 2 ^ 64
      → critical_loop (suc fuel) read_size (suc r) pos h s
        ≡ critical_loop fuel n
            (suc r - n)
            (pos + n)
            (read_chunk n pos h s.client).1
            (send_all
              (window bytes pos n)
              (record s { client = (read_chunk n pos h s.client).2 })).1
  unfolding critical_loop
  critical_round fuel read_size r pos n h s e at fits = ground (
    arith,
    read_chunk-window f bytes n pos h s.client at fits,
    send_all_ok (window bytes pos n) (record s { client = (read_chunk n pos h s.client).2 }),
  )

  -- What the loop ends in: success, with the bytes asked for behind what was sent before.
  abbrev pub Sends :
      List (List ℕ)
      → List ℕ
      → Option (Status × AbstractFile.Handle (Os.file os) × Session os)
      → Type 0
  Sends before reply r =
      (h : AbstractFile.Handle (Os.file os)) × (s : Session os) × (r ≡ some (succeeded, h, s))
      × (flatten s.sent ≡ flatten before ++ reply)

  pub critical_loop-window :
      (fuel read_size remaining pos : ℕ) (h : AbstractFile.Handle (Os.file os)) (s : Session os)
      → remaining ≤ fuel
      → (0 < remaining → 0 < read_size)
      → ReadsAt f bytes pos h s.client
      → pos + remaining < 2 ^ 64
      → Sends s.sent (window bytes pos remaining) (critical_loop fuel read_size remaining pos h s)
  unfolding critical_loop window send_all
  critical_loop-window fuel read_size zero pos h s enough some_size at fits =
      (h, s, refl, sym (append-nil (flatten s.sent)))
  critical_loop-window zero read_size (suc r) pos h s enough some_size at fits =
      absurd (omega arith)
  critical_loop-window (suc fuel) read_size (suc r) pos h s enough some_size at fits =
      let n = if ltb (suc r) read_size then suc r else read_size in
      let h1 = (read_chunk n pos h s.client).1 in
      let s1 =
        (send_all (window bytes pos n) (record s { client = (read_chunk n pos h s.client).2 })).1 in
      let n_le : n ≤ suc r = ground arith in
      let size_pos : 0 < read_size = some_size (omega arith) in
      let n_pos : 0 < n = ground arith in
      let fits_n : pos + n < 2 ^ 64 = omega arith in
      let (h2, s2, e, sent) =
        critical_loop-window fuel n (suc r - n) (pos + n) h1 s1 (omega arith) (λ _. n_pos)
          (read_chunk-ReadsAt f bytes n pos h s.client at) (omega arith) in
      (
        h2,
        s2,
        critical_round fuel read_size r pos n h s refl at fits_n ∙ e,
        sent ∙ joined bytes s.sent pos n (suc r - n) (suc r) (omega arith),
      )

  run_critical-window :
      (num offset : ℕ) (h : AbstractFile.Handle (Os.file os)) (s : Session os)
      → RegularFile.content f h ≡ bytes
      → s.client.ro_file_size ≡ length bytes
      → offset + num < 2 ^ 63
      → (s' : Session os) × (run_critical num offset h s ≡ some (succeeded, s'))
        × (flatten s'.sent ≡ flatten s.sent ++ window bytes offset num)
  unfolding run_critical
  run_critical-window num offset h s same size fits =
      let h1 = (AbstractFile.seek (Os.file os) h offset).1 in
      let at : ReadsAt f bytes offset h1 s.client = record {
        same = RegularFile.content-seek f h offset ∙ same;
        here = rw (RegularFile.position-seek f h offset (omega arith));
        size = size;
      } in
      let (h2, s2, e, sent) =
        critical_loop-window num (min buffer_size num) num offset h1 s (omega arith)
          (λ p. omega arith) at (omega arith) in
      (put_handle h2 s2, ground (arith, RegularFile.seek_ok f h offset (omega arith), e), sent)

  -- The reply to a critical read of `num_bytes` from `offset` is the bytes of the image from there
  -- on, exactly `num_bytes` of them, with zeros past the end of the image; the command succeeds.
  -- It needs an open regular file whose size the client has recorded, a buffer, a peer that takes
  -- what is sent, and a range below 2 ^ 63.
  pub critical-window :
      (cmd : ReadFileCmd) (h : AbstractFile.Handle (Os.file os)) (s : Session os) (b : List ℕ)
      → s.client.ro_file ≡ some h
      → s.client.buf ≡ some b
      → RegularFile.content f h ≡ bytes
      → s.client.ro_file_size ≡ length bytes
      → be64 cmd.offset + be32 cmd.num_bytes < 2 ^ 63
      → (s' : Session os) × (process_read_file_critical cmd s ≡ some (succeeded, s'))
        × (flatten s'.sent ≡ flatten s.sent ++ window bytes (be64 cmd.offset) (be32 cmd.num_bytes))
  unfolding process_read_file_critical
  critical-window cmd h s b file buffer same size fits =
      let (s', e, sent) =
        run_critical-window (be32 cmd.num_bytes) (be64 cmd.offset) h s same size fits in
      (s', ground (arith, e), sent)

after_chunk-ne-none :
    {os : Os} (chunk : Option (List ℕ)) (h : AbstractFile.Handle (Os.file os)) (s : Session os)
    (continue : AbstractFile.Handle (Os.file os)
      → Session os
      → Option (Status × AbstractFile.Handle (Os.file os) × Session os))
    → ((h' : AbstractFile.Handle (Os.file os)) (s' : Session os) → continue h' s' ≢ none)
    → after_chunk chunk h s continue ≢ none
unfolding after_chunk
after_chunk-ne-none none h s continue ih e = cc
after_chunk-ne-none (some b) h s continue ih e = elim (Bool-cases (send_all b s).0) [
  | inl sent ↦ ih h (send_all b s).1 (rw sent at e)
  | inr lost ↦ cc (rw lost at e)
]

-- The loop ends by itself: with fuel for the bytes that remain it never runs out of it.
critical_loop-ne-none :
    {os : Os} (fuel read_size remaining pos : ℕ) (h : AbstractFile.Handle (Os.file os))
    (s : Session os)
    → remaining ≤ fuel
    → (0 < remaining → 0 < read_size)
    → critical_loop fuel read_size remaining pos h s ≢ none
critical_loop-ne-none fuel read_size zero pos h s enough some_size e = unfold critical_loop in cc
critical_loop-ne-none zero read_size (suc r) pos h s enough some_size e = absurd (omega arith)
critical_loop-ne-none (suc fuel) read_size (suc r) pos h s enough some_size e =
    let n = if ltb (suc r) read_size then suc r else read_size in
    let size_pos : 0 < read_size = some_size (omega arith) in
    let n_pos : 0 < n = ground arith in
    let (chunk, h', c) = read_chunk n pos h s.client in
    after_chunk-ne-none chunk h' (record s { client = c })
      (λ h1 s1. critical_loop fuel n (suc r - n) ((pos + n) % 2 ^ 64) h1 s1)
      (λ h1 s1.
        critical_loop-ne-none fuel n (suc r - n) ((pos + n) % 2 ^ 64) h1 s1 (omega arith)
          (λ _. n_pos))
      (unfold critical_loop in e)

-- Every critical read returns a result, whatever the file, the peer and the request.
pub process_read_file_critical-ne-none :
    {os : Os} (cmd : ReadFileCmd) (s : Session os) → process_read_file_critical cmd s ≢ none
unfolding process_read_file_critical run_critical
process_read_file_critical-ne-none {os} cmd s = elim (Option-cases s.client.ro_file) [
  | inl closed ↦ ground (arith, closed)
  | inr (h, opened) ↦
      let num = be32 cmd.num_bytes in
      let h1 = (AbstractFile.seek (Os.file os) h (be64 cmd.offset)).1 in
      ground (
        arith,
        opened,
        critical_loop-ne-none num (min buffer_size num) num (be64 cmd.offset) h1 s (omega arith)
            (λ p. omega arith),
      )
]
