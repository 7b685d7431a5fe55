-- ===== src/Viso/Pieces.antt =====
-- One round of the read loop, against the bytes that the image should have there.
use ps3netsrv.Prelude.{
  ℕ, ◌+◌, ◌-◌, ◌*◌, ◌≤◌, ◌<◌, ◌≡◌, ◌⊎◌, inl, inr, sym, ap, arith, min, ap₂, ◌≡⟨◌⟩◌, ◌∎, Bool, true,
  false, not, ltb, ◌==◌, ◌&&◌, if◌then◌else◌, some, List, ◌++◌, length, length-replicate, replicate,
  Bool-cases, ltb→lt,
}
use ps3netsrv.Prelude.Window.{window, window-add, length-window}
use ps3netsrv.Viso.{
  FileEntry, Progress, deliver, stop, round_up, sector_size, Disk, read_body, read_fill, read_entry,
}

-- A read of `n` bytes of `img` from `start` on, under way.
pub record Reads (img : List ℕ) (start n : ℕ) (p : Progress) : Type 0 where
  pub balance : p.ptr + p.remaining ≡ start + n
  pub within : p.remaining ≤ n
  pub bounded : p.ptr ≤ length img
  pub so_far : p.out ≡ window img start (n - p.remaining)

-- All that the read may find between `from` and `to` has been delivered, or nothing is wanted.
abbrev pub Passed : ℕ → Progress → Type 0
Passed to p =
    ((p.stopped ≡ true) × (p.remaining ≡ 0))
    ⊎ ((p.stopped ≡ false) × (to ≤ p.ptr) × (0 < p.remaining))

module _ (img : List ℕ) (start n : ℕ) where
  extend :
      (k m ptr : ℕ)
      → start + k ≡ ptr
      → window img start k ++ window img ptr m ≡ window img start (k + m)
  extend k m ptr e = rw (← e) (sym (window-add img start k m))

  pub deliver-Reads :
      (bytes : List ℕ) (p : Progress)
      → Reads img start n p
      → bytes ≡ window img p.ptr (length bytes)
      → length bytes ≤ p.remaining
      → p.ptr + length bytes ≤ length img
      → Reads img start n (deliver bytes p)
  deliver-Reads bytes p r right fits there = record {
    balance = omega (arith, r.balance);
    within = omega (arith, r.within);
    bounded = there;
    so_far =
        p.out ++ bytes
        ≡⟨ ap₂ ◌++◌ r.so_far right ⟩
          window img start (n - p.remaining) ++ window img p.ptr (length bytes)
        ≡⟨ extend (n - p.remaining) (length bytes) p.ptr (omega (arith, r.balance, r.within)) ⟩
          window img start (n - p.remaining + length bytes)
        ≡⟨ ap (window img start) (omega (arith, r.within)) ⟩
          window img start (n - (p.remaining - length bytes)) ∎;
  }

-- The image holds the bytes of `f`, and zeros up to the next sector, from `f_start` on.
pub record Holds (disk : Disk) (img : List ℕ) (fs_buf_size : ℕ) (f : FileEntry) : Type 0 where
  pub single : f.multipart ≡ false
  pub fits : fs_buf_size + f.rlba * sector_size + round_up f.size ≤ length img
  pub aligned :
      round_up (fs_buf_size + f.rlba * sector_size + f.size)
      ≡ fs_buf_size + f.rlba * sector_size + round_up f.size
  pub body :
      (i k : ℕ)
      → i + k ≤ f.size
      → disk f.path i k ≡ some (window img (fs_buf_size + f.rlba * sector_size + i) k)
  pub fill :
      (i k : ℕ)
      → i + k ≤ round_up f.size - f.size
      → window img (fs_buf_size + f.rlba * sector_size + f.size + i) k ≡ replicate k 0

module _ (disk : Disk) (img : List ℕ) (start n fs_buf_size : ℕ) (f : FileEntry)
    (holds : Holds disk img fs_buf_size f) where
  abbrev f_start : ℕ
  f_start = fs_buf_size + f.rlba * sector_size

  -- how much of the file itself is delivered
  abbrev body_size : Progress → ℕ
  body_size p = min (f.size - (p.ptr - f_start)) p.remaining

  body-deliver :
      (p : Progress)
      → f_start ≤ p.ptr
      → p.ptr < f_start + f.size
      → read_body disk f_start f p ≡ deliver (window img p.ptr (body_size p)) p
  unfolding read_body
  body-deliver p lo hi =
      let k = body_size p in
      let there : f_start + (p.ptr - f_start) ≡ p.ptr = omega arith in
      let found = holds.body (p.ptr - f_start) k (omega arith) in
      ground (arith, rw there at found, length-window img p.ptr k)

  body-Reads :
      (p : Progress)
      → Reads img start n p
      → p.stopped ≡ false
      → f_start ≤ p.ptr
      → p.ptr < f_start + f.size
      → let q = read_body disk f_start f p in
        Reads img start n q
        × (q.stopped ≡ false)
        × (q.ptr ≤ f_start + f.size)
        × ((q.remaining ≡ 0) ⊎ (q.ptr ≡ f_start + f.size))
  body-Reads p r going lo hi =
      let k = body_size p in
      let len = length-window img p.ptr k in
      rw (body-deliver p lo hi) (
        deliver-Reads img start n (window img p.ptr k) p r (rw len) (omega (arith, len))
            (omega (arith, len, holds.fits)),
        going,
        omega (arith, len),
        ground (arith, len),
      )

  -- how many zeros follow
  abbrev fill_size : Progress → ℕ
  fill_size p =
      min (f_start + round_up f.size - (f_start + f.size) - (p.ptr - (f_start + f.size)))
        p.remaining

  abbrev has_fill : Progress → Bool
  has_fill p = ltb 0 p.remaining && not (f_start + f.size == f_start + round_up f.size)

  fill-deliver :
      (p : Progress)
      → p.stopped ≡ false
      → has_fill p ≡ true
      → read_fill (f_start + f.size) (f_start + round_up f.size) p
        ≡ deliver (replicate (fill_size p) 0) p
  unfolding read_fill
  fill-deliver p going some_fill = ground (arith, going, some_fill)

  fill-Reads :
      (p : Progress)
      → Reads img start n p
      → p.stopped ≡ false
      → (p.remaining ≡ 0) ⊎ (f_start + f.size ≤ p.ptr)
      → p.ptr ≤ f_start + round_up f.size
      → let q = read_fill (f_start + f.size) (f_start + round_up f.size) p in
        Reads img start n q
        × (q.stopped ≡ false)
        × ((q.remaining ≡ 0) ⊎ (f_start + round_up f.size ≤ q.ptr))
  unfolding read_fill
  fill-Reads p r going from inside = elim (Bool-cases (has_fill p)) [
    | inr skip ↦ ground (arith, skip, going)
    | inl some_fill ↦
        let k = fill_size p in
        let zeros : List ℕ = replicate k 0 in
        let len : length zeros ≡ k = length-replicate k 0 in
        let there : f_start + f.size + (p.ptr - (f_start + f.size)) ≡ p.ptr =
          ground (arith, some_fill) in
        let found = holds.fill (p.ptr - (f_start + f.size)) k (omega arith) in
        rw (fill-deliver p going some_fill) (
          deliver-Reads img start n (replicate k 0) p r (rw len (sym (rw there at found)))
              (omega (arith, len)) (omega (arith, len, inside, holds.fits)),
          going,
          ground (arith, len),
        )
  ]

  abbrev settle : Progress → Progress
  settle q = if q.remaining == 0 then stop q else q

  abbrev after_body : Progress → Progress
  after_body p = if ltb p.ptr (f_start + f.size) then read_body disk f_start f p else p

  entry-inside :
      (p : Progress)
      → f_start ≤ p.ptr
      → p.ptr < f_start + round_up f.size
      → read_entry disk fs_buf_size f p
        ≡ settle (read_fill (f_start + f.size) (f_start + round_up f.size) (after_body p))
  unfolding read_entry
  entry-inside p lo hi = rw holds.aligned (ground (arith, holds.single))

  entry-outside :
      (p : Progress) → f_start + round_up f.size ≤ p.ptr → read_entry disk fs_buf_size f p ≡ p
  unfolding read_entry
  entry-outside p hi = rw holds.aligned (ground arith)

  settle-Passed :
      (q : Progress)
      → q.stopped ≡ false
      → (q.remaining ≡ 0) ⊎ (f_start + round_up f.size ≤ q.ptr)
      → Passed (f_start + round_up f.size) (settle q)
  settle-Passed q going from = ground (arith, going, from)

  settle-Reads : (q : Progress) → Reads img start n q → Reads img start n (settle q)
  settle-Reads q r = elim (Bool-cases (q.remaining == 0)) [
    | inl done ↦
        rw done (record {
          balance = r.balance;
          within = r.within;
          bounded = r.bounded;
          so_far = r.so_far;
        })
    | inr more ↦ rw more r
  ]

  after_body-Reads :
      (p : Progress)
      → Reads img start n p
      → p.stopped ≡ false
      → f_start ≤ p.ptr
      → p.ptr < f_start + round_up f.size
      → let q = after_body p in
        Reads img start n q
        × (q.stopped ≡ false)
        × ((q.remaining ≡ 0) ⊎ (f_start + f.size ≤ q.ptr))
        × (q.ptr ≤ f_start + round_up f.size)
  after_body-Reads p r going lo hi = elim (Bool-cases (ltb p.ptr (f_start + f.size))) [
    | inl inside ↦
        let (reads, on, at, past) = body-Reads p r going lo (ltb→lt _ _ inside) in
        rw inside (reads, on, ground (arith, past), omega (arith, at))
    | inr behind ↦ rw behind (r, going, inr (ground (arith, behind)), omega arith)
  ]

  -- After the round for a file the read is past it, or has all that it wanted.
  pub entry-Passed :
      (p : Progress)
      → Reads img start n p
      → p.stopped ≡ false
      → f_start ≤ p.ptr
      → 0 < p.remaining
      → let q = read_entry disk fs_buf_size f p in
        Reads img start n q × Passed (f_start + round_up f.size) q
  entry-Passed p r going lo wanted = elim (Bool-cases (ltb p.ptr (f_start + round_up f.size))) [
    | inr outside ↦
        let past : f_start + round_up f.size ≤ p.ptr = ground (arith, outside) in
        rw (entry-outside p past) (r, inr (going, past, wanted))
    | inl inside ↦
        let hi = ltb→lt _ _ inside in
        let (reads, on, from, within) = after_body-Reads p r going lo hi in
        let (filled, still, past) = fill-Reads (after_body p) reads on from within in
        rw (entry-inside p lo hi) (settle-Reads _ filled, settle-Passed _ still past)
  ]
