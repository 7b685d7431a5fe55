-- ===== src/Viso/ReadLaws.antt =====
-- VIsoFile::read of src/VIsoFile.cpp against the image that it shows.
use ps3netsrv.Prelude.{
  ℕ, ◌+◌, ◌-◌, ◌≤◌, ◌<◌, ◌≡◌, ◌⊎◌, inl, inr, refl, sym, ap, ap₂, ◌∙◌, arith, min, true, false, ltb,
  leb, ◌==◌, ◌||◌, if◌then◌else◌, some, List, [], length, length-replicate, take, drop, replicate,
  Bool-cases, ltb→lt,
}
use ps3netsrv.Prelude.Int.{pos}
use ps3netsrv.Prelude.Window.{window, window-zero, length-window}
use ps3netsrv.Viso.{VisoFile, Progress, deliver, Disk, read_dirs, read_fs, read_pad, read_at, read}
use ps3netsrv.Viso.Pieces.{Reads, Passed, deliver-Reads}
use ps3netsrv.Viso.Image.{DirsHold, dirs_end, dirs-Passed}

-- The open image `v` stands for the bytes `img`: the area in memory, every file in its place and
-- zeros at the end.
pub record Shows (disk : Disk) (img : List ℕ) (fs : List ℕ) (v : VisoFile) : Type 0 where
  pub mounted : v.fs_buf ≡ some fs
  pub fs_area : (i k : ℕ) → i + k ≤ v.fs_buf_size → take k (drop i fs) ≡ window img i k
  pub files : DirsHold disk img v.fs_buf_size v.fs_buf_size v.dirs
  pub files_end : dirs_end v.fs_buf_size v.dirs ≡ v.pad_area_start
  pub pad :
      (i k : ℕ) → i + k ≤ v.pad_area_size → window img (v.pad_area_start + i) k ≡ replicate k 0
  pub total : v.total_size ≡ v.pad_area_start + v.pad_area_size
  pub extent : length img ≡ v.total_size
  pub order : v.fs_buf_size ≤ v.pad_area_start

module _ (disk : Disk) (img : List ℕ) (fs : List ℕ) (v : VisoFile) (shows : Shows disk img fs v)
    (start n : ℕ) where
  abbrev fs_size : Progress → ℕ
  fs_size p = min (v.fs_buf_size - p.ptr) p.remaining

  -- The area in memory is delivered up to its end, or as far as it is wanted.
  fs-Reads :
      (p : Progress)
      → Reads img start n p
      → p.stopped ≡ false
      → let q = read_fs v fs p in
        Reads img start n q × (q.stopped ≡ false) × ((q.remaining ≡ 0) ⊎ (v.fs_buf_size ≤ q.ptr))
  unfolding read_fs
  fs-Reads p r going = elim (Bool-cases (ltb p.ptr v.fs_buf_size)) [
    | inr behind ↦ rw behind (r, going, inr (ground (arith, behind)))
    | inl inside ↦
        let lt = ltb→lt p.ptr v.fs_buf_size inside in
        let k = fs_size p in
        let found = shows.fs_area p.ptr k (omega (arith, lt)) in
        let len = length-window img p.ptr k in
        rw (inside, found)
          (
            deliver-Reads img start n (window img p.ptr k) p r (rw len) (omega (arith, len))
                (omega (arith, len, lt, shows.extent, shows.total, shows.order)),
            going,
            ground (arith, len, lt),
          )
  ]

  abbrev pad_size : Progress → ℕ
  pad_size p = min (v.pad_area_size - (p.ptr - v.pad_area_start)) p.remaining

  pad-deliver :
      (p : Progress)
      → v.pad_area_start ≤ p.ptr
      → p.ptr < v.total_size
      → read_pad v p ≡ deliver (replicate (pad_size p) 0) p
  unfolding read_pad
  pad-deliver p lo hi = ground (arith, shows.total)

  pad-outside : (p : Progress) → v.total_size ≤ p.ptr → read_pad v p ≡ p
  unfolding read_pad
  pad-outside p hi = ground arith

  -- The zeros at the end are delivered up to the end of the image, or as far as they are wanted.
  pad-Reads :
      (p : Progress)
      → Reads img start n p
      → v.pad_area_start ≤ p.ptr
      → let q = read_pad v p in Reads img start n q × ((q.remaining ≡ 0) ⊎ (v.total_size ≤ q.ptr))
  pad-Reads p r lo = elim (Bool-cases (ltb p.ptr v.total_size)) [
    | inr outside ↦
        let past : v.total_size ≤ p.ptr = ground (arith, outside) in
        rw (pad-outside p past) (r, inr past)
    | inl inside ↦
        let lt = ltb→lt p.ptr v.total_size inside in
        let k = pad_size p in
        let zeros : List ℕ = replicate k 0 in
        let len : length zeros ≡ k = length-replicate k 0 in
        let there : v.pad_area_start + (p.ptr - v.pad_area_start) ≡ p.ptr = omega arith in
        let found = shows.pad (p.ptr - v.pad_area_start) k (omega (arith, shows.total)) in
        rw (pad-deliver p lo lt) (
          deliver-Reads img start n zeros p r (rw len (sym (rw there at found)))
              (omega (arith, len)) (omega (arith, len, lt, shows.extent, shows.total)),
          ground (arith, len, shows.total),
        )
  ]

  abbrev Done : Progress → Type 0
  Done q = Reads img start n q × ((q.remaining ≡ 0) ⊎ (v.total_size ≤ q.ptr))

  read_at-early :
      (p : Progress)
      → ((read_fs v fs p).remaining ≡ 0) ⊎ (v.total_size ≤ (read_fs v fs p).ptr)
      → read_at disk v fs p ≡ read_fs v fs p
  unfolding read_at
  read_at-early p early = ground (arith, early)

  abbrev from_files : Progress → Progress
  from_files q = if ltb q.ptr v.pad_area_start then read_dirs disk v.fs_buf_size v.dirs q else q

  read_at-late :
      (p : Progress)
      → 0 < (read_fs v fs p).remaining
      → (read_fs v fs p).ptr < v.total_size
      → let q = from_files (read_fs v fs p) in
        read_at disk v fs p ≡ (if q.stopped then q else read_pad v q)
  unfolding read_at
  read_at-late p wanted short = ground (arith, wanted, short)

  from_files-Passed :
      (q : Progress)
      → Reads img start n q
      → q.stopped ≡ false
      → v.fs_buf_size ≤ q.ptr
      → 0 < q.remaining
      → Reads img start n (from_files q) × Passed v.pad_area_start (from_files q)
  from_files-Passed q r going lo wanted = elim (Bool-cases (ltb q.ptr v.pad_area_start)) [
    | inr past ↦ rw past (r, inr (going, ground (arith, past), wanted))
    | inl inside ↦
        rw (inside, sym shows.files_end)
          (dirs-Passed disk img v.fs_buf_size start n v.dirs v.fs_buf_size q shows.files r going lo
            wanted)
  ]

  last-stopped : (q : Progress) → q.stopped ≡ true → (if q.stopped then q else read_pad v q) ≡ q
  last-stopped q stopped = ap (λ b. if b then q else read_pad v q) stopped

  last-going :
      (q : Progress) → q.stopped ≡ false → (if q.stopped then q else read_pad v q) ≡ read_pad v q
  last-going q going = ap (λ b. if b then q else read_pad v q) going

  finish :
      (q : Progress)
      → Reads img start n q
      → Passed v.pad_area_start q
      → Done (if q.stopped then q else read_pad v q)
  finish q r past = elim past [
    | inl (stopped, done) ↦ rw (last-stopped q stopped) (r, inl done)
    | inr (going, beyond, wanted) ↦ rw (last-going q going) (pad-Reads q r beyond)
  ]

  read_at-Done :
      (p : Progress) → Reads img start n p → p.stopped ≡ false → Done (read_at disk v fs p)
  read_at-Done p r going =
      let q = read_fs v fs p in
      let (reads, on, at) = fs-Reads p r going in
      elim (Bool-cases (q.remaining == 0 || leb v.total_size q.ptr)) [
        | inl early ↦ rw (read_at-early p (ground (arith, early))) (reads, ground (arith, early))
        | inr late ↦
            let wanted : 0 < q.remaining = ground (arith, late) in
            let (found, past) = from_files-Passed q reads on (ground (arith, at, wanted)) wanted in
            rw (read_at-late p wanted (ground (arith, late))) (finish _ found past)
      ]

module _ (disk : Disk) (img : List ℕ) (fs : List ℕ) (v : VisoFile)
    (shows : Shows disk img fs v) where
  abbrev fresh : ℕ → ℕ → Progress
  fresh at n = record { ptr = at; remaining = n; out = []; stopped = false }

  fresh-Reads : (at n : ℕ) → at ≤ length img → Reads img at n (fresh at n)
  fresh-Reads at n inside = record {
    balance = refl;
    within = omega arith;
    bounded = inside;
    so_far = let none_yet : n - n ≡ 0 = omega arith in rw none_yet (sym (window-zero img at));
  }

  read-inside :
      (at n : ℕ)
      → v.v_file_ptr ≡ pos at
      → at < v.total_size
      → 0 < n
      → let q = read_at disk v fs (fresh at n) in
        read disk v n ≡ (some q.out, record v { v_file_ptr = pos q.ptr })
  unfolding read
  read-inside at n here inside wanted = rw (shows.mounted, here) (ground arith)

  -- A read of `n` bytes inside the image stores exactly the bytes that the image has from the pointer
  -- on, as many as `n` or as there are up to the end, and moves the pointer behind them.
  pub read-window :
      (at n : ℕ)
      → v.v_file_ptr ≡ pos at
      → at < v.total_size
      → 0 < n
      → let k = min n (v.total_size - at) in
        read disk v n ≡ (some (window img at k), record v { v_file_ptr = pos (at + k) })
  read-window at n here inside wanted =
      let k = min n (v.total_size - at) in
      let q = read_at disk v fs (fresh at n) in
      let (r, done) =
        read_at-Done disk img fs v shows at n (fresh at n)
          (fresh-Reads at n (omega (arith, shows.extent))) refl in
      let count : n - q.remaining ≡ k =
        ground (arith, r.balance, r.within, r.bounded, done, shows.extent) in
      let stop_at : q.ptr ≡ at + k = omega (arith, r.balance, r.within, count) in
      read-inside at n here inside wanted
      ∙ ap₂ (λ out end. (some out, record v { v_file_ptr = pos end }))
          (r.so_far ∙ ap (window img at) count) stop_at
