-- ===== src/Viso/Generate/Image.antt =====
-- VIsoFile::generate and VIsoFile::read of src/VIsoFile.cpp together: the image of a directory.
use ps3netsrv.Prelude.{
  ℕ, suc, ◌⊎◌, ◌%◌, ◌^◌, ◌≡◌, ◌==◌, Bool, refl, arith, Bool-cases, Option-cases, inl, inr, Option,
  some, List, [], ◌∷◌, length,
}
use ps3netsrv.Viso.{FileEntry, VisoFile}
use ps3netsrv.Viso.Build.{BuiltAll, built_all, failed_all, crashed_all, build_dirs, sizes}
use ps3netsrv.Viso.Mounted.{generated}
use ps3netsrv.Viso.Names.{utf8_to_ucs2}
use ps3netsrv.Viso.Records.{Time}
use ps3netsrv.Viso.Content.{Directory}
use ps3netsrv.Viso.Content.Own.{AllNameable}
use ps3netsrv.Viso.Tables.{LaidOut, build_areas}
use ps3netsrv.Viso.Volume.{Volume, write}
use ps3netsrv.Viso.Walk.{Walked, walked, refused, endless, walk, root_list, file_names, with_files}
use ps3netsrv.Viso.Generate.{
  Host, BuildOut, all_built, not_built, undefined, build_endless, build, made, generate,
}

-- Files change no names.
pub with_files-AllNameable :
    (times : List ℕ → Option Time) (joliet : Bool) (k : ℕ) (ds : List Directory)
    (es : List (List FileEntry))
    → AllNameable times joliet k ds
    → AllNameable times joliet k (with_files ds es)
unfolding with_files
with_files-AllNameable times joliet k [] es ok = ok
with_files-AllNameable times joliet k (d ∷ ds) [] ok = ok
with_files-AllNameable times joliet k (d ∷ ds) (e ∷ es) (first, ok) =
    (first, with_files-AllNameable times joliet (suc k) ds es ok)

-- What has succeeded where build has.
pub record Done (h : Host) (fuel : ℕ) (in_dir : List ℕ) (dirs : List Directory) (a : LaidOut)
    (files : List (List FileEntry)) (sectors : ℕ) : Type 0 where
  pub found : List Directory
  pub named : List (List ℕ × List (List ℕ))
  pub walk_ok : walk h.scan fuel [] (root_list in_dir ∷ []) ≡ walked found
  pub files_ok : build_dirs h.stat 0 named ≡ built_all files sectors
  pub with_all : with_files found files ≡ dirs
  pub areas_ok : build_areas h.times dirs ≡ some a

Walked-cases :
    (w : Walked) → (w ≡ endless) ⊎ ((w ≡ refused) ⊎ ((dirs : List Directory) × (w ≡ walked dirs)))
Walked-cases endless = inl refl
Walked-cases refused = inr (inl refl)
Walked-cases (walked dirs) = inr (inr (dirs, refl))

BuiltAll-cases :
    (b : BuiltAll)
    → (b ≡ failed_all)
      ⊎ ((b ≡ crashed_all)
          ⊎ ((files : List (List FileEntry)) × (sectors : ℕ) × (b ≡ built_all files sectors)))
BuiltAll-cases failed_all = inl refl
BuiltAll-cases crashed_all = inr (inl refl)
BuiltAll-cases (built_all files sectors) = inr (inr (files, sectors, refl))

abbrev IsBuilt : BuildOut → Type 0
IsBuilt b =
    (dirs : List Directory) × (a : LaidOut) × (files : List (List FileEntry)) × (sectors : ℕ) × (b
      ≡ all_built dirs a files sectors)

BuildOut-cases :
    (b : BuildOut) → (b ≡ not_built) ⊎ ((b ≡ undefined) ⊎ ((b ≡ build_endless) ⊎ IsBuilt b))
BuildOut-cases not_built = inl refl
BuildOut-cases undefined = inr (inl refl)
BuildOut-cases build_endless = inr (inr (inl refl))
BuildOut-cases (all_built dirs a files sectors) = inr (inr (inr (dirs, a, files, sectors, refl)))

build-Done :
    (h : Host) (fuel : ℕ) (in_dir : List ℕ) (dirs : List Directory) (a : LaidOut)
    (files : List (List FileEntry)) (sectors : ℕ)
    → build h fuel in_dir ≡ all_built dirs a files sectors
    → Done h fuel in_dir dirs a files sectors
unfolding build
build-Done h fuel in_dir dirs a files sectors e = elim (Bool-cases (length in_dir % 2 ^ 16 == 0)) [
  | inl empty ↦ absurd (ground (arith, rw (build, empty) at e))
  | inr some_path ↦ elim (Walked-cases (walk h.scan fuel [] (root_list in_dir ∷ []))) [
    | inl bad ↦ absurd (ground (arith, rw (build, some_path, bad) at e))
    | inr (inl bad) ↦ absurd (ground (arith, rw (build, some_path, bad) at e))
    | inr (inr (found, walk_ok)) ↦ elim (Option-cases (file_names h.scan found)) [
      | inl bad ↦ absurd (ground (arith, rw (build, some_path, walk_ok, bad) at e))
      | inr (named, names_ok) ↦ elim (BuiltAll-cases (build_dirs h.stat 0 named)) [
        | inl bad ↦ absurd (ground (arith, rw (build, some_path, walk_ok, names_ok, bad) at e))
        | inr (inl bad) ↦
            absurd (ground (arith, rw (build, some_path, walk_ok, names_ok, bad) at e))
        | inr (inr (es, n, files_ok)) ↦
            elim (Option-cases (build_areas h.times (with_files found es))) [
              | inl bad ↦
                  absurd
                    (ground (arith, rw (build, some_path, walk_ok, names_ok, files_ok, bad) at e))
              | inr (b, areas_ok) ↦
                  let all : all_built (with_files found es) b es n
                      ≡ all_built dirs a files sectors =
                    rw (build, some_path, walk_ok, names_ok, files_ok, areas_ok) at e in
                  let e1 : with_files found es ≡ dirs = cc all in
                  let e2 : b ≡ a = cc all in
                  let e3 : es ≡ files = cc all in
                  let e4 : n ≡ sectors = cc all in
                  record {
                    found = found;
                    named = named;
                    walk_ok = walk_ok;
                    files_ok = rw (← e3, ← e4) files_ok;
                    with_all = rw (← e3) e1;
                    areas_ok = rw (← e1, ← e2) areas_ok;
                  }
            ]
      ]
    ]
  ]
]

-- What generate has made an object of.
pub record Made (h : Host) (fuel : ℕ) (in_dir : List ℕ) (dirs : List Directory) (a : LaidOut)
    (sectors : ℕ) (v : VisoFile) : Type 0 where
  pub files : List (List FileEntry)
  pub volume : Volume
  pub done : Done h fuel in_dir dirs a files sectors
  pub object :
      v
      ≡ generated
          (write volume a)
          files
          (sizes a.table_size a.joliet_size a.sectors a.joliet_sectors sectors)
          0

pub generate-Made :
    (h : Host) (fuel : ℕ) (in_dir : List ℕ) (ps3_mode : Bool) (name code : List ℕ)
    (dirs : List Directory) (a : LaidOut) (sectors : ℕ) (v : VisoFile)
    → generate h fuel in_dir ps3_mode name code ≡ made dirs a sectors v
    → Made h fuel in_dir dirs a sectors v
unfolding generate
generate-Made h fuel in_dir ps3_mode name code dirs a sectors v e =
    elim (Option-cases (h.times in_dir)) [
      | inl bad ↦ absurd (ground (arith, rw (generate, bad) at e))
      | inr (time, there) ↦ elim (BuildOut-cases (build h fuel in_dir)) [
        | inl bad ↦ absurd (ground (arith, rw (generate, there, bad) at e))
        | inr (inl bad) ↦ absurd (ground (arith, rw (generate, there, bad) at e))
        | inr (inr (inl bad)) ↦ absurd (ground (arith, rw (generate, there, bad) at e))
        | inr (inr (inr (ds, b, files, n, built))) ↦ elim (Option-cases (utf8_to_ucs2 name 16)) [
          | inl bad ↦ absurd (ground (arith, rw (generate, there, built, bad) at e))
          | inr (joliet, converted) ↦
              let z = sizes b.table_size b.joliet_size b.sectors b.joliet_sectors n in
              let volume : Volume = record {
                ps3_mode = ps3_mode;
                name = name;
                joliet_name = joliet;
                game_code = code;
                random = h.random;
                now = h.now;
                volume_size = z.volume_size;
              } in
              let object = generated (write volume b) files z 0 in
              let all : made ds b n object ≡ made dirs a sectors v =
                rw (generate, there, built, converted) at e in
              let e1 : ds ≡ dirs = cc all in
              let e2 : b ≡ a = cc all in
              let e3 : n ≡ sectors = cc all in
              let e4 : object ≡ v = cc all in
              let start : Made h fuel in_dir ds b n object = record {
                files = files;
                volume = volume;
                done = build-Done h fuel in_dir ds b files n built;
                object = refl;
              } in
              rw (← e1, ← e2, ← e3, ← e4) start
        ]
      ]
    ]
