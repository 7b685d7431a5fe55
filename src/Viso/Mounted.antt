-- ===== src/Viso/Mounted.antt =====
-- VIsoFile::read of src/VIsoFile.cpp on the image that VIsoFile::generate has laid out: build,
-- generate and read together.
use ps3netsrv.Prelude.{
  ℕ, ◌+◌, ◌-◌, ◌*◌, ◌/◌, ◌^◌, ◌<◌, ◌≡◌, refl, sym, ◌∙◌, arith, min, some, List, ◌++◌, length,
  length-replicate, length-append, append_assoc, take, drop, replicate,
}
use ps3netsrv.Prelude.Int.{pos}
use ps3netsrv.Prelude.Window.{window-right, window-left, window-zeros, take-drop-window}
use ps3netsrv.Viso.{FileEntry, VisoFile, Disk, sector_size, read}
use ps3netsrv.Viso.ReadLaws.{Shows, read-window}
use ps3netsrv.Viso.Build.{Stats, BuiltAll, build_dirs, Sizes, sizes}
use ps3netsrv.Viso.Layout.{LaidAll, all_sectors, build_dirs-LaidAll, Areas, sizes-Areas}
use ps3netsrv.Viso.Shown.{
  Store, AllSingles, dirs_image, dirs-Hold, dirs_end-after, dirs_image-length,
}

-- The object when `generate` has returned and the pointer has been moved to `ptr`.
abbrev pub generated : List ℕ → List (List FileEntry) → Sizes → ℕ → VisoFile
generated fs ds z ptr = record {
  v_file_ptr = pos ptr;
  fs_buf = some fs;
  fs_buf_size = z.fs_buf_size;
  dirs = ds;
  total_size = z.total_size;
  pad_area_start = z.pad_area_start;
  pad_area_size = z.pad_area_size;
}

-- The whole image: the area in memory, every file filled up to whole sectors, and the zeros.
abbrev pub image : (List ℕ → List ℕ) → List ℕ → List (List FileEntry) → Sizes → List ℕ
image content fs ds z = fs ++ (dirs_image content ds ++ replicate z.pad_area_size 0)

module _ (stat : Stats) (disk : Disk) (content : List ℕ → List ℕ) (store : Store stat disk content)
    (fs : List ℕ) (ds : List (List FileEntry)) (files_sectors : ℕ) (z : Sizes)
    (laid : LaidAll stat 0 ds files_sectors) (singles : AllSingles ds)
    (areas : Areas z files_sectors) (full : length fs ≡ z.fs_buf_size) where
  abbrev img : List ℕ
  img = image content fs ds z

  abbrev fs_sectors : ℕ
  fs_sectors = z.fs_buf_size / sector_size

  fs_whole : z.fs_buf_size ≡ fs_sectors * sector_size
  fs_whole = omega (arith, areas.fs_aligned)

  files_length : length (dirs_image content ds) ≡ files_sectors * sector_size
  files_length = omega (
    arith,
    dirs_image-length stat disk content store img fs_sectors ds 0 files_sectors laid singles,
  )

  image-length : length img ≡ z.total_size
  image-length =
      let zeros : List ℕ = replicate z.pad_area_size 0 in
      let outer = length-append fs (dirs_image content ds ++ zeros) in
      let inner = length-append (dirs_image content ds) zeros in
      let len : length zeros ≡ z.pad_area_size = length-replicate z.pad_area_size 0 in
      omega (arith, outer, inner, len, full, files_length, areas.whole, areas.files_area)

  image-Shows : (ptr : ℕ) → Shows disk img fs (generated fs ds z ptr)
  image-Shows ptr =
      let zeros : List ℕ = replicate z.pad_area_size 0 in
      let front = length-append fs (dirs_image content ds) in
      let here : fs_sectors * sector_size + 0 * sector_size ≡ z.fs_buf_size =
        omega (arith, fs_whole) in
      let from : z.fs_buf_size + 0 * sector_size ≡ z.fs_buf_size = omega arith in
      let held =
        dirs-Hold stat disk content store img fs_sectors ds 0 files_sectors fs zeros laid singles
          refl (omega (arith, full, fs_whole)) in
      let ends = dirs_end-after stat disk content store img fs_sectors ds 0 files_sectors laid in
      record {
        mounted = refl;
        fs_area = λ i k h.
            take-drop-window fs i k (omega (arith, h, full))
            ∙ sym (window-left fs (dirs_image content ds ++ zeros) i k (omega (arith, h, full)));
        files = rw (sym fs_whole, from) at held;
        files_end = (rw here at ends) ∙ omega (arith, fs_whole, areas.files_area);
        pad = λ i k h.
            let there : z.pad_area_start + i ≡ length (fs ++ dirs_image content ds) + i =
              omega (arith, front, full, files_length, areas.files_area) in
            rw (there, sym (append_assoc fs (dirs_image content ds) zeros))
              (window-right (fs ++ dirs_image content ds) zeros i k
                ∙ window-zeros z.pad_area_size i k h);
        total = areas.whole;
        extent = image-length;
        order = omega (arith, areas.files_area);
      }

-- The whole image has total_size bytes.
pub generated-length :
    (stat : Stats) (disk : Disk) (content : List ℕ → List ℕ)
    → Store stat disk content
    → (dirs : List (List ℕ × List (List ℕ))) (ds : List (List FileEntry)) (files_sectors : ℕ)
    → build_dirs stat 0 dirs ≡ BuiltAll.built_all ds files_sectors
    → AllSingles ds
    → (path_table_size path_table_size_joliet dirs_sectors dirs_sectors_joliet : ℕ)
    → let z =
        sizes path_table_size path_table_size_joliet dirs_sectors dirs_sectors_joliet
          files_sectors in
      all_sectors ds < 2 ^ 32
      → z.fs_buf_size / sector_size + files_sectors < 2 ^ 32 - 64
      → (fs : List ℕ) → length fs ≡ z.fs_buf_size
      → length (image content fs ds z) ≡ z.total_size
generated-length stat disk content store dirs ds sectors build_ok singles t j d dj few small fs
      full =
    let z = sizes t j d dj sectors in
    image-length stat disk content store fs ds sectors z
      (build_dirs-LaidAll stat dirs 0 ds sectors build_ok (omega (arith, few))) singles
      (sizes-Areas t j d dj sectors small) full

-- When `build` and `generate` succeed on a tree in which no file is the first part of several, the
-- volume has fewer than 2^32 - 64 sectors and the disk still has the files that were measured, then
-- a read of `n` bytes from `at` on, before the end of the image, stores `n` bytes of the image, or as
-- many as are left: the area in memory, then the bytes of every file, each filled with zeros up to a
-- whole sector, then the zeros at the end. It moves the pointer behind them.
pub read-image :
    (stat : Stats) (disk : Disk) (content : List ℕ → List ℕ)
    → Store stat disk content
    → (dirs : List (List ℕ × List (List ℕ))) (ds : List (List FileEntry)) (files_sectors : ℕ)
    → build_dirs stat 0 dirs ≡ BuiltAll.built_all ds files_sectors
    → AllSingles ds
    → (path_table_size path_table_size_joliet dirs_sectors dirs_sectors_joliet : ℕ)
    → let z =
        sizes path_table_size path_table_size_joliet dirs_sectors dirs_sectors_joliet
          files_sectors in
      all_sectors ds < 2 ^ 32
      → z.fs_buf_size / sector_size + files_sectors < 2 ^ 32 - 64
      → (fs : List ℕ) (at n : ℕ) → length fs ≡ z.fs_buf_size
      → at < z.total_size
      → 0 < n
      → let k = min n (z.total_size - at) in
        read disk (generated fs ds z at) n
        ≡ (some (take k (drop at (image content fs ds z))), generated fs ds z (at + k))
read-image stat disk content store dirs ds sectors build_ok singles t j d dj few small fs at n full
      inside wanted =
    let z = sizes t j d dj sectors in
    let laid = build_dirs-LaidAll stat dirs 0 ds sectors build_ok (omega (arith, few)) in
    let areas = sizes-Areas t j d dj sectors small in
    let k = min n (z.total_size - at) in
    let extent = image-length stat disk content store fs ds sectors z laid singles areas full in
    let shows = image-Shows stat disk content store fs ds sectors z laid singles areas full at in
    rw (take-drop-window (image content fs ds z) at k (omega (arith, extent, inside))) (
      read-window disk (image content fs ds z) fs (generated fs ds z at) shows at n refl inside
        wanted)
