-- ===== src/Viso/Layout.antt =====
-- Where VIsoFile::build puts the files of a virtual ISO and where VIsoFile::generate ends its areas,
-- of src/VIsoFile.cpp.
use ps3netsrv.Prelude.{
  ℕ, suc, ◌+◌, ◌-◌, ◌*◌, ◌/◌, ◌%◌, ◌^◌, ◌≤◌, ◌<◌, ◌≡◌, ◌⊎◌, inl, inr, refl, arith, Bool, true,
  false, not, ◌==◌, ◌&&◌, some, List, [], ◌∷◌, length, Bool-cases, Option-cases,
}
use ps3netsrv.Viso.{FileEntry, round_up, sector_size, bytes_to_sectors}
use ps3netsrv.Viso.Build.{
  Stats, create_path, file_size, is_part, is_later_part, Built, add_entry, build_files, BuiltAll,
  add_dir, build_dirs, Sizes, sizes,
}

-- The sectors that a file fills, and those of a list of files and of all directories.
abbrev pub sectors_of : FileEntry → ℕ
sectors_of e = round_up e.size / sector_size

abbrev pub total_sectors : List FileEntry → ℕ
total_sectors [] = 0
total_sectors (e ∷ es) = sectors_of e + total_sectors es

abbrev pub all_sectors : List (List FileEntry) → ℕ
all_sectors [] = 0
all_sectors (d ∷ ds) = total_sectors d + all_sectors ds

-- What holds of one file of the list: it starts at `at`, and stat_file gave its size if it is single.
pub record Placed (stat : Stats) (at : ℕ) (e : FileEntry) : Type 0 where
  pub starts : e.rlba ≡ at
  pub sized : e.multipart ≡ false → stat e.path ≡ some e.size

-- Files that lie one behind the other in whole sectors, from `at` up to `end`.
abbrev pub Laid : Stats → ℕ → List FileEntry → ℕ → Type 0
Laid stat at [] end = at ≡ end
Laid stat at (e ∷ es) end = Placed stat at e × Laid stat (at + sectors_of e) es end

abbrev pub LaidAll : Stats → ℕ → List (List FileEntry) → ℕ → Type 0
LaidAll stat at [] end = at ≡ end
LaidAll stat at (d ∷ ds) end =
    Laid stat at d (at + total_sectors d) × LaidAll stat (at + total_sectors d) ds end

module _ (stat : Stats) where
  file_size-single :
      (file : List ℕ) (len size : ℕ) (path : List ℕ)
      → file_size stat file false len ≡ some (size, path)
      → stat path ≡ some size
  unfolding file_size
  file_size-single file len size path h = elim (Option-cases (stat file)) [
    | inl missing ↦ ground (arith, missing, h)
    | inr (s, found) ↦ ground (arith, found, h)
  ]

  add_entry-inv :
      (e : FileEntry) (b : Built) (es : List FileEntry) (end : ℕ)
      → add_entry e b ≡ Built.built es end
      → (rest : List FileEntry) × (b ≡ Built.built rest end) × (es ≡ e ∷ rest)
  add_entry-inv e (Built.built fs at) es end h = (fs, cc, cc)
  add_entry-inv e Built.failed es end h = absurd cc
  add_entry-inv e Built.crashed es end h = absurd cc

  -- What a file of the list is made from.
  record Made (dir name : List ℕ) (i at : ℕ) (names : List (List ℕ)) (es : List FileEntry) (end : ℕ)
      : Type 0 where
    path : List ℕ
    size : ℕ
    rest : List FileEntry
    measured :
        file_size stat (create_path dir name) (is_part name) ((length dir + length name) % 2 ^ 16)
        ≡ some (size, path)
    shape : es ≡ record { path = path; rlba = at; size = size; multipart = is_part name } ∷ rest
    others :
        build_files stat dir (suc i) true ((at + bytes_to_sectors size) % 2 ^ 32) names
        ≡ Built.built rest end

  build-inv :
      (dir name : List ℕ) (names : List (List ℕ)) (i at : ℕ) (linked : Bool) (es : List FileEntry)
      (end : ℕ)
      → build_files stat dir i linked at (name ∷ names) ≡ Built.built es end
      → (build_files stat dir (suc i) linked at names ≡ Built.built es end)
        ⊎ Made dir name i at names es end
  unfolding build_files
  build-inv dir name names i at linked es end h = elim (Bool-cases (is_later_part name)) [
    | inl later ↦ inl (rw later at h)
    | inr kept ↦ elim (Bool-cases (not (i == 0) && not linked)) [
      | inl crash ↦ absurd (ground (arith, rw (kept, crash) at h))
      | inr fine ↦
          let measure =
            file_size stat (create_path dir name) (is_part name)
              ((length dir + length name) % 2 ^ 16) in
          elim (Option-cases measure) [
            | inl missing ↦ absurd (ground (arith, rw (kept, fine, missing) at h))
            | inr ((size, path), found) ↦
                let (rest, others, shape) =
                  add_entry-inv _ _ es end (rw (kept, fine, found) at h) in
                inr (record {
                  path = path;
                  size = size;
                  rest = rest;
                  measured = found;
                  shape = shape;
                  others = others;
                })
          ]
    ]
  ]

  files-Laid :
      (dir : List ℕ) (names : List (List ℕ)) (i at : ℕ) (linked : Bool) (es : List FileEntry)
      (end : ℕ)
      → build_files stat dir i linked at names ≡ Built.built es end
      → at + total_sectors es < 2 ^ 32
      → Laid stat at es end
  unfolding build_files bytes_to_sectors
  files-Laid dir [] i at linked es end h small =
      let none_left : es ≡ [] = ground (arith, h) in rw none_left (ground (arith, h))
  files-Laid dir (name ∷ names) i at linked es end h small =
      elim (build-inv dir name names i at linked es end h) [
        | inl skipped ↦ files-Laid dir names (suc i) at linked es end skipped small
        | inr made ↦
            let e : FileEntry = record {
              path = made.path;
              rlba = at;
              size = made.size;
              multipart = is_part name;
            } in
            let few : at + (sectors_of e + total_sectors made.rest) < 2 ^ 32 =
              rw made.shape at small in
            let next : (at + bytes_to_sectors made.size) % 2 ^ 32 ≡ at + sectors_of e =
              omega (arith, few) in
            let placed : Placed stat at e = record {
              starts = refl;
              sized = λ single.
                  file_size-single (create_path dir name) ((length dir + length name) % 2 ^ 16)
                    made.size made.path (rw single at made.measured);
            } in
            let others = rw next at made.others in
            rw made.shape (
              placed,
              files-Laid dir names (suc i) (at + sectors_of e) true made.rest end others
                  (omega (arith, few)),
            )
      ]

  add_dir-inv :
      (d : List FileEntry) (b : BuiltAll) (ds : List (List FileEntry)) (end : ℕ)
      → add_dir d b ≡ BuiltAll.built_all ds end
      → (rest : List (List FileEntry)) × (b ≡ BuiltAll.built_all rest end) × (ds ≡ d ∷ rest)
  add_dir-inv d (BuiltAll.built_all es at) ds end h = (es, cc, cc)
  add_dir-inv d BuiltAll.failed_all ds end h = absurd cc
  add_dir-inv d BuiltAll.crashed_all ds end h = absurd cc

  -- How the lists of the directories are made one after the other.
  dirs-inv :
      (dir : List ℕ) (names : List (List ℕ)) (more : List (List ℕ × List (List ℕ))) (at : ℕ)
      (ds : List (List FileEntry)) (end : ℕ)
      → build_dirs stat at ((dir, names) ∷ more) ≡ BuiltAll.built_all ds end
      → (d : List FileEntry) × (rest : List (List FileEntry)) × (mid : ℕ) × (build_files stat dir 0
            false at names
          ≡ Built.built d mid)
        × (build_dirs stat mid more ≡ BuiltAll.built_all rest end)
        × (ds ≡ d ∷ rest)
  unfolding build_dirs
  dirs-inv dir names more at ds end h = go (build_files stat dir 0 false at names) refl
    where
      go :
          (b : Built)
          → build_files stat dir 0 false at names ≡ b
          → (d : List FileEntry) × (rest : List (List FileEntry)) × (mid : ℕ) × (build_files stat
                dir 0 false at names
              ≡ Built.built d mid)
            × (build_dirs stat mid more ≡ BuiltAll.built_all rest end)
            × (ds ≡ d ∷ rest)
      go (Built.built d mid) e =
          let (rest, others, shape) =
            add_dir-inv d (build_dirs stat mid more) ds end (rw (build_dirs, e) at h) in
          (d, rest, mid, e, others, shape)
      go Built.failed e = absurd (ground (arith, rw (build_dirs, e) at h))
      go Built.crashed e = absurd (ground (arith, rw (build_dirs, e) at h))

  Laid-end :
      (at : ℕ) (es : List FileEntry) (end : ℕ) → Laid stat at es end → end ≡ at + total_sectors es
  Laid-end at [] end l = omega (arith, l)
  Laid-end at (e ∷ es) end (p, l) = omega (arith, Laid-end (at + sectors_of e) es end l)

  -- Where all files together fill fewer than 2^32 sectors, each starts on the sector behind the one
  -- before it, across the directories, and the sector after the last is the number that `build` counts.
  pub build_dirs-LaidAll :
      (dirs : List (List ℕ × List (List ℕ))) (at : ℕ) (ds : List (List FileEntry)) (end : ℕ)
      → build_dirs stat at dirs ≡ BuiltAll.built_all ds end
      → at + all_sectors ds < 2 ^ 32
      → LaidAll stat at ds end
  unfolding build_dirs
  build_dirs-LaidAll [] at ds end h small =
      let none_left : ds ≡ [] = ground (arith, h) in rw none_left (ground (arith, h))
  build_dirs-LaidAll ((dir, names) ∷ more) at ds end h small =
      let (d, rest, mid, first, others, shape) = dirs-inv dir names more at ds end h in
      let few : at + (total_sectors d + all_sectors rest) < 2 ^ 32 = rw shape at small in
      let laid = files-Laid dir names 0 at false d mid first (omega (arith, few)) in
      let ends = Laid-end at d mid laid in
      rw shape (
        rw ends at laid,
        build_dirs-LaidAll more (at + total_sectors d) rest end (rw ends at others)
            (omega (arith, few)),
      )

-- What `generate` promises of its sizes.
pub record Areas (z : Sizes) (files_sectors : ℕ) : Type 0 where
  pub files_area : z.pad_area_start ≡ z.fs_buf_size + files_sectors * sector_size
  pub whole : z.total_size ≡ z.pad_area_start + z.pad_area_size
  pub aligned : z.total_size % 65536 ≡ 0
  pub fs_aligned : z.fs_buf_size % sector_size ≡ 0
  pub pad_low : 65536 ≤ z.pad_area_size
  pub pad_high : z.pad_area_size < 131072
  pub recorded : z.volume_size * sector_size ≡ z.total_size

-- As long as the volume has fewer than 2^32 - 64 sectors, the files' area follows the one in memory,
-- the zeros follow the files, they are at least 32 and fewer than 64 sectors, the image has a
-- multiple of 32 sectors, and the volume size in sectors that the descriptors record is that of the image.
pub sizes-Areas :
    (path_table_size path_table_size_joliet dirs_sectors dirs_sectors_joliet files_sectors : ℕ)
    → let z =
        sizes path_table_size path_table_size_joliet dirs_sectors dirs_sectors_joliet
          files_sectors in
      z.fs_buf_size / sector_size + files_sectors < 2 ^ 32 - 64 → Areas z files_sectors
unfolding sizes bytes_to_sectors
sizes-Areas t j d dj f small =
    let fs_sectors : ℕ =
      40960 / sector_size
      + bytes_to_sectors t * 2 % 2 ^ 32
      + bytes_to_sectors j * 2 % 2 ^ 32
      + d
      + dj in
    let few : fs_sectors + f < 2 ^ 32 - 64 = omega (arith, small) in
    record {
      files_area = ground (arith, few);
      whole = ground (arith, few);
      aligned = ground (arith, few);
      fs_aligned = ground (arith, few);
      pad_low = ground (arith, few);
      pad_high = ground (arith, few);
      recorded = ground (arith, few);
    }
