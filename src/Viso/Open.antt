-- ===== src/Viso/Open.antt =====
-- VIsoFile::open, close and fstat of src/VIsoFile.cpp.
pub mod Reads
use ps3netsrv.Prelude.{
  ℕ, zero, suc, ◌-◌, Bool, true, false, ◌==◌, if◌then◌else◌, Option, none, some, List, [], ◌∷◌,
  ◌++◌, length, take, drop,
}
use ps3netsrv.Prelude.Int.{pos}
use ps3netsrv.Env.{Stat}
use ps3netsrv.Viso.{VisoFile}
use ps3netsrv.Viso.Content.{Directory}
use ps3netsrv.Viso.Tables.{LaidOut}
use ps3netsrv.Viso.Sfo.{Sfo, sfo_value, sfo_failed, sfo_overrun, get_title_id}
use ps3netsrv.Viso.Generate.{
  Host, Generated, made, unmade, not_made, lost, generate_endless, generate,
}

-- `dn`: what stands behind the last slash, or the whole path.
unfoldable pub last_name : List ℕ → List ℕ
last_name [] = []
last_name (c ∷ path) =
    let rest = last_name path in
    if length rest == length path then (if c == 47 then rest else c ∷ path) else rest

-- What open calls on the host besides: stat_file with the file type, and the bytes of a file.
pub record OpenHost : Type 0 where
  pub host : Host
  pub is_dir : List ℕ → Option Bool
  pub contents : List ℕ → Option (List ℕ)
  pub max_path : ℕ

-- What open comes to. `open_blank` returns SUCCEEDED without an image in memory.
pub data Opened : Type 0 where
  open_ok : List Directory → LaidOut → ℕ → VisoFile → Opened
  open_failed open_blank open_lost open_endless : Opened

abbrev pub after_generate : Generated → Opened
after_generate (made dirs a sectors v) = open_ok dirs a sectors v
after_generate unmade = open_blank
after_generate not_made = open_failed
after_generate lost = open_lost
after_generate generate_endless = open_endless

-- "PS3VOLUME".
abbrev pub ps3_volume : List ℕ
ps3_volume = 80 ∷ 83 ∷ 51 ∷ 86 ∷ 79 ∷ 76 ∷ 85 ∷ 77 ∷ 69 ∷ []

-- open with an object that has no image; `volumeName` has 32 bytes. For an image that is not of a PS3
-- game the game code is not read.
unfoldable pub open_path : OpenHost → ℕ → Bool → List ℕ → Bool → Opened
open_path o fuel ps3_mode path read_only = elim read_only [
  | false ↦ open_failed
  | true ↦ elim (o.is_dir path) [
    | none ↦ open_failed
    | some dir ↦ elim dir [
      | false ↦ open_failed
      | true ↦ elim ps3_mode [
        | true ↦ elim (get_title_id o.contents o.max_path path) [
          | sfo_failed ↦ open_failed
          | sfo_overrun ↦ open_lost
          | sfo_value code ↦ after_generate (generate o.host fuel path true ps3_volume code)
        ]
        | false ↦ after_generate (generate o.host fuel path false (take 31 (last_name path)) [])
      ]
    ]
  ]
]

-- What reset leaves of the object; fsBufSize keeps its value.
abbrev pub reset : VisoFile → VisoFile
reset v = record v {
  v_file_ptr = pos 0;
  fs_buf = none;
  dirs = [];
  total_size = 0;
  pad_area_start = 0;
  pad_area_size = 0;
}

-- VIsoFile::close.
unfoldable pub close_viso : VisoFile → Bool × VisoFile
close_viso v = elim v.fs_buf [ none ↦ (false, v) | some fs ↦ (true, reset v) ]

-- fstat, with the times that stat_file gave for the directory.
unfoldable pub fstat : Stat → VisoFile → Option Stat
fstat st v = elim v.fs_buf [
  | none ↦ none
  | some fs ↦ some (record st { file_size = v.total_size; is_dir = false; is_reg = true })
]
