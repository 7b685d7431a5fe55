-- ===== src/Viso/Generate/Reads.antt =====
-- What VIsoFile::read of src/VIsoFile.cpp delivers of the object that VIsoFile::generate has made.
use ps3netsrv.Prelude.{
  ℕ, ◌+◌, ◌-◌, ◌*◌, ◌^◌, ◌<◌, ◌≤◌, ◌≡◌, Bool, true, false, refl, sym, ◌∙◌, arith, min, some, List,
  ◌++◌, length, take, drop, replicate,
}
use ps3netsrv.Prelude.Int.{pos}
use ps3netsrv.Viso.{FileEntry, VisoFile, Disk, read}
use ps3netsrv.Viso.Build.{Sizes, sizes}
use ps3netsrv.Viso.Layout.{all_sectors}
use ps3netsrv.Viso.Shown.{Store, AllSingles, dirs_image}
use ps3netsrv.Viso.Mounted.{read-image, generated-length}
use ps3netsrv.Viso.Content.{Directory}
use ps3netsrv.Viso.Tables.{LaidOut}
use ps3netsrv.Viso.Volume.{Volume, write}
use ps3netsrv.Viso.Volume.Standing.{Standing, fs_buf_sectors, write-Standing}
use ps3netsrv.Viso.Walk.Named.{FindsUtf8, walk-AllNameable}
use ps3netsrv.Viso.Generate.{Host, made, generate}
use ps3netsrv.Viso.Generate.Image.{with_files-AllNameable, Done, generate-Made}

-- fsBufSize is the size of what write puts.
sizes-fs :
    (a : LaidOut) (sectors : ℕ)
    → fs_buf_sectors a < 2 ^ 32
    → Sizes.fs_buf_size (sizes a.table_size a.joliet_size a.sectors a.joliet_sectors sectors)
      ≡ 2048 * fs_buf_sectors a
unfolding sizes
sizes-fs a sectors small = omega (arith, small)

Done-Standing :
    (h : Host) (fuel : ℕ) (in_dir : List ℕ) (dirs : List Directory) (a : LaidOut)
    (files : List (List FileEntry)) (sectors : ℕ) (v : Volume)
    → FindsUtf8 h.scan
    → Done h fuel in_dir dirs a files sectors
    → length dirs ≤ 2 ^ 20
    → fs_buf_sectors a < 2 ^ 32
    → Standing (write v a) a.contents
      × Standing (write v a) a.joliet_contents
      × (length (write v a) ≡ 2048 * fs_buf_sectors a)
Done-Standing h fuel in_dir dirs a files sectors v finds d few small =
    let nameable = λ (joliet : Bool).
      with_files-AllNameable h.times joliet 0 d.found files
        (walk-AllNameable h.scan finds h.times joliet fuel in_dir d.found d.walk_ok) in
    write-Standing h.times dirs v a (rw d.with_all at nameable false)
      (rw d.with_all at nameable true) few d.areas_ok small

-- The whole image of an object: the area in memory, the files, and the zeros.
abbrev pub shown : (List ℕ → List ℕ) → List ℕ → VisoFile → List ℕ
shown content fs v = fs ++ (dirs_image content v.dirs ++ replicate v.pad_area_size 0)

abbrev pub moved_to : VisoFile → ℕ → VisoFile
moved_to v at = record v { v_file_ptr = pos at }

-- Where generate makes an object of a directory of the host, in which the names of directories are in
-- UTF-8, and no file is the first part of several; with at most 2 ^ 20 directories, fewer than
-- 2 ^ 32 - 64 sectors, and a disk that still has the files that were measured: a read of `n` bytes from
-- `at` on stores `n` bytes of the image, or as many as are left, and moves the pointer behind them. The
-- image is fsBuf, of fsBufSize bytes, then the bytes of every file, filled up to a sector, then zeros,
-- and has totalSize bytes; and in fsBuf the content of each directory stands, in both name spaces, at
-- the block that its first record names.
pub generate-read :
    (h : Host) (disk : Disk) (content : List ℕ → List ℕ) (fuel : ℕ) (in_dir : List ℕ)
    (ps3_mode : Bool) (name code : List ℕ) (dirs : List Directory) (a : LaidOut) (sectors : ℕ)
    (v : VisoFile)
    → FindsUtf8 h.scan
    → Store h.stat disk content
    → generate h fuel in_dir ps3_mode name code ≡ made dirs a sectors v
    → length dirs ≤ 2 ^ 20
    → AllSingles v.dirs
    → all_sectors v.dirs < 2 ^ 32
    → fs_buf_sectors a + sectors < 2 ^ 32 - 64
    → (at n : ℕ) → at < v.total_size
    → 0 < n
    → let k = min n (v.total_size - at) in
      (fs : List ℕ) × (v.fs_buf ≡ some fs)
      × (length fs ≡ v.fs_buf_size)
      × (length (shown content fs v) ≡ v.total_size)
      × Standing fs a.contents
      × Standing fs a.joliet_contents
      × (read disk (moved_to v at) n
          ≡ (some (take k (drop at (shown content fs v))), moved_to v (at + k)))
generate-read h disk content fuel in_dir ps3_mode name code dirs a sectors v finds store e few
      singles measured small at n inside wanted =
    let m = generate-Made h fuel in_dir ps3_mode name code dirs a sectors v e in
    let z = sizes a.table_size a.joliet_size a.sectors a.joliet_sectors sectors in
    let fs = write m.volume a in
    let fits : fs_buf_sectors a < 2 ^ 32 = omega (arith, small) in
    let (iso, joliet, len) =
      Done-Standing h fuel in_dir dirs a m.files sectors m.volume finds m.done few fits in
    let size = sizes-fs a sectors fits in
    let singles' : AllSingles m.files = rw m.object at singles in
    let measured' : all_sectors m.files < 2 ^ 32 = rw m.object at measured in
    let inside' : at < z.total_size = rw m.object at inside in
    let reads =
      read-image h.stat disk content store m.done.named m.files sectors m.done.files_ok singles'
        a.table_size a.joliet_size a.sectors a.joliet_sectors measured' (omega (arith, size, small))
        fs at n (len ∙ sym size) inside' wanted in
    let whole =
      generated-length h.stat disk content store m.done.named m.files sectors m.done.files_ok
        singles' a.table_size a.joliet_size a.sectors a.joliet_sectors measured'
        (omega (arith, size, small)) fs (len ∙ sym size) in
    (
      fs,
      rw m.object refl,
      rw m.object (len ∙ sym size),
      rw m.object whole,
      iso,
      joliet,
      rw m.object reads,
    )
