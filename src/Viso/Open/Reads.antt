-- ===== src/Viso/Open/Reads.antt =====
-- What VIsoFile::read of src/VIsoFile.cpp delivers of a directory that VIsoFile::open has opened.
use ps3netsrv.Prelude.{
  ℕ, ◌⊎◌, ◌+◌, ◌-◌, ◌^◌, ◌<◌, ◌≤◌, ◌≡◌, Bool, true, false, refl, arith, min, Bool-cases,
  Option-cases, inl, inr, some, List, [], length, take, drop,
}
use ps3netsrv.Viso.{VisoFile, Disk, read}
use ps3netsrv.Viso.Layout.{all_sectors}
use ps3netsrv.Viso.Shown.{Store, AllSingles}
use ps3netsrv.Viso.Content.{Directory}
use ps3netsrv.Viso.Tables.{LaidOut}
use ps3netsrv.Viso.Volume.Standing.{Standing, fs_buf_sectors}
use ps3netsrv.Viso.Walk.Named.{FindsUtf8}
use ps3netsrv.Viso.Sfo.{Sfo, sfo_value, sfo_failed, sfo_overrun, get_title_id}
use ps3netsrv.Viso.Generate.{Generated, made, unmade, not_made, lost, generate_endless, generate}
use ps3netsrv.Viso.Generate.Reads.{shown, moved_to, generate-read}
use ps3netsrv.Viso.Open.{OpenHost, open_ok, after_generate, ps3_volume, last_name, open_path}

after-made :
    (g : Generated) (dirs : List Directory) (a : LaidOut) (sectors : ℕ) (v : VisoFile)
    → after_generate g ≡ open_ok dirs a sectors v
    → g ≡ made dirs a sectors v
after-made (made ds b n w) dirs a sectors v e =
    let e1 : ds ≡ dirs = cc e in
    let e2 : b ≡ a = cc e in
    let e3 : n ≡ sectors = cc e in let e4 : w ≡ v = cc e in rw (e1, e2, e3, e4) refl
after-made unmade dirs a sectors v e = absurd (ground (arith, e))
after-made not_made dirs a sectors v e = absurd (ground (arith, e))
after-made lost dirs a sectors v e = absurd (ground (arith, e))
after-made generate_endless dirs a sectors v e = absurd (ground (arith, e))

Sfo-cases :
    (s : Sfo) → (s ≡ sfo_failed) ⊎ ((s ≡ sfo_overrun) ⊎ ((code : List ℕ) × (s ≡ sfo_value code)))
Sfo-cases sfo_failed = inl refl
Sfo-cases sfo_overrun = inr (inl refl)
Sfo-cases (sfo_value code) = inr (inr (code, refl))

open_path-made :
    (o : OpenHost) (fuel : ℕ) (ps3_mode : Bool) (path : List ℕ) (dirs : List Directory)
    (a : LaidOut) (sectors : ℕ) (v : VisoFile)
    → open_path o fuel ps3_mode path true ≡ open_ok dirs a sectors v
    → (name : List ℕ) × (code : List ℕ) × (generate o.host fuel path ps3_mode name code
        ≡ made dirs a sectors v)
unfolding open_path
open_path-made o fuel ps3_mode path dirs a sectors v e = elim (Option-cases (o.is_dir path)) [
  | inl bad ↦ absurd (ground (arith, rw (open_path, bad) at e))
  | inr (dir, there) ↦ elim (Bool-cases dir) [
    | inr bad ↦ absurd (ground (arith, rw (open_path, there, bad) at e))
    | inl is_dir ↦ elim (Bool-cases ps3_mode) [
      | inl game ↦ elim (Sfo-cases (get_title_id o.contents o.max_path path)) [
        | inl bad ↦ absurd (ground (arith, rw (open_path, there, is_dir, game, bad) at e))
        | inr (inl bad) ↦ absurd (ground (arith, rw (open_path, there, is_dir, game, bad) at e))
        | inr (inr (code, title)) ↦ (
          ps3_volume,
          code,
          rw game (
              after-made (generate o.host fuel path true ps3_volume code) dirs a sectors v
                (rw (open_path, there, is_dir, game, title) at e)),
        )
      ]
      | inr plain ↦ (
        take 31 (last_name path),
        [],
        rw plain (
            after-made (generate o.host fuel path false (take 31 (last_name path)) []) dirs a
              sectors v (rw (open_path, there, is_dir, plain) at e)),
      )
    ]
  ]
]

-- Where open succeeds on a directory of the host, in which the names of directories are in
-- UTF-8, and no file is the first part of several; with at most 2 ^ 20 directories, fewer than
-- 2 ^ 32 - 64 sectors, and a disk that still has the files that were measured: a read of `n` bytes from
-- `at` on stores `n` bytes of the image, or as many as are left, and moves the pointer behind them. The
-- image is fsBuf, of fsBufSize bytes, then the bytes of every file, filled up to a sector, then zeros,
-- and has totalSize bytes; and in fsBuf the content of each directory stands, in both name spaces, at
-- the block that its first record names.
pub open-read :
    (o : OpenHost) (disk : Disk) (content : List ℕ → List ℕ) (fuel : ℕ) (path : List ℕ)
    (ps3_mode : Bool) (dirs : List Directory) (a : LaidOut) (sectors : ℕ) (v : VisoFile)
    → FindsUtf8 o.host.scan
    → Store o.host.stat disk content
    → open_path o fuel ps3_mode path true ≡ open_ok dirs a sectors v
    → length dirs ≤ 2 ^ 20
    → AllSingles v.dirs
    → all_sectors v.dirs < 2 ^ 32
    → fs_buf_sectors a + sectors < 2 ^ 32 - 64
    → (at n : ℕ) → at < v.total_size
    → 0 < n
    → let k = min n (v.total_size - at) in
      (fs : List ℕ) × (v.fs_buf ≡ some fs)
      × (length fs ≡ v.fs_buf_size)
      × (length (shown content fs v) ≡ v.total_size)
      × Standing fs a.contents
      × Standing fs a.joliet_contents
      × (read disk (moved_to v at) n
          ≡ (some (take k (drop at (shown content fs v))), moved_to v (at + k)))
open-read o disk content fuel path ps3_mode dirs a sectors v finds store e few singles measured
      small at n inside wanted =
    let (name, code, made_it) = open_path-made o fuel ps3_mode path dirs a sectors v e in
    generate-read o.host disk content fuel path ps3_mode name code dirs a sectors v finds store
      made_it few singles measured small at n inside wanted
