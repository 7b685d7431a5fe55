-- ===== src/Viso/Generate.antt =====
-- VIsoFile::build and VIsoFile::generate of src/VIsoFile.cpp: from a directory of the host to the object
-- that is read.
pub mod Image
pub mod Reads
use ps3netsrv.Prelude.{
  ℕ, ◌+◌, ◌%◌, ◌^◌, ◌==◌, Bool, true, false, Option, none, some, List, [], ◌∷◌, length,
}
use ps3netsrv.Viso.{FileEntry, VisoFile}
use ps3netsrv.Viso.Build.{Stats, built_all, failed_all, crashed_all, build_dirs, Sizes, sizes}
use ps3netsrv.Viso.Mounted.{generated}
use ps3netsrv.Viso.Names.{utf8_to_ucs2}
use ps3netsrv.Viso.Records.{Time}
use ps3netsrv.Viso.Content.{Directory}
use ps3netsrv.Viso.Tables.{LaidOut, build_areas}
use ps3netsrv.Viso.Volume.{Moment, Volume, write}
use ps3netsrv.Viso.Walk.{Scan, walked, refused, endless, walk, root_list, file_names, with_files}

-- The host: scandir, the size and the time that stat_file gives for a path, get_rand and the clock.
pub record Host : Type 0 where
  pub scan : Scan
  pub stat : Stats
  pub times : List ℕ → Option Time
  pub random : List ℕ
  pub now : Moment

-- What build comes to: the directories with their files, the areas, and filesSizeSectors. `undefined` is
-- a use of a pointer that is null or not set, or a read behind a string.
pub data BuildOut : Type 0 where
  all_built : List Directory → LaidOut → List (List FileEntry) → ℕ → BuildOut
  not_built undefined build_endless : BuildOut

-- build. Where scandir fails in the loop over the files, `files` is not set; a host that does not change
-- in between has failed the walk before.
unfoldable pub build : Host → ℕ → List ℕ → BuildOut
build h fuel in_dir = elim (length in_dir % 2 ^ 16 == 0) [
  | true ↦ not_built
  | false ↦ elim (walk h.scan fuel [] (root_list in_dir ∷ [])) [
    | endless ↦ build_endless
    | refused ↦ not_built
    | walked dirs ↦ elim (file_names h.scan dirs) [
      | none ↦ undefined
      | some named ↦ elim (build_dirs h.stat 0 named) [
        | failed_all ↦ not_built
        | crashed_all ↦ undefined
        | built_all files sectors ↦ elim (build_areas h.times (with_files dirs files)) [
          | none ↦ not_built
          | some a ↦ all_built (with_files dirs files) a files sectors
        ]
      ]
    ]
  ]
]

-- What generate comes to. `made` has the directories, the areas, filesSizeSectors and the object;
-- `unmade` is `return FAILED`, which is -1 and as a bool is true, with no image.
pub data Generated : Type 0 where
  made : List Directory → LaidOut → ℕ → VisoFile → Generated
  unmade not_made lost generate_endless : Generated

unfoldable pub generate : Host → ℕ → List ℕ → Bool → List ℕ → List ℕ → Generated
generate h fuel in_dir ps3_mode volume_name game_code = elim (h.times in_dir) [
  | none ↦ unmade
  | some time ↦ elim (build h fuel in_dir) [
    | not_built ↦ not_made
    | undefined ↦ lost
    | build_endless ↦ generate_endless
    | all_built dirs a files sectors ↦
        let z = sizes a.table_size a.joliet_size a.sectors a.joliet_sectors sectors in
        elim (utf8_to_ucs2 volume_name 16) [
          | none ↦ lost
          | some joliet_name ↦
              let volume : Volume = record {
                ps3_mode = ps3_mode;
                name = volume_name;
                joliet_name = joliet_name;
                game_code = game_code;
                random = h.random;
                now = h.now;
                volume_size = z.volume_size;
              } in
              made dirs a sectors (generated (write volume a) files z 0)
        ]
  ]
]
