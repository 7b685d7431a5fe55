-- ===== src/Viso/Sfo.antt =====
-- parse_param_sfo and get_title_id of src/VIsoFile.cpp: the title in the file PARAM.SFO of a PS3 game.
pub mod Lookup
use ps3netsrv.Prelude.{
  ℕ, zero, suc, ◌+◌, ◌-◌, ◌*◌, ◌%◌, ◌^◌, Bool, true, false, ltb, leb, ◌==◌, if◌then◌else◌, Option,
  none, some, List, [], ◌∷◌, ◌++◌, length, get_or, take, drop, replicate,
}
use ps3netsrv.Wire.{load16}
use ps3netsrv.Viso.Build.{same}

-- The C string at the start.
unfoldable pub c_string : List ℕ → List ℕ
c_string [] = []
c_string (b ∷ bs) = let rest = c_string bs in if b == 0 then [] else b ∷ rest

-- The value that was copied, or FAILED; `sfo_overrun` is a read behind `mem`.
pub data Sfo : Type 0 where
  sfo_value : List ℕ → Sfo
  sfo_failed sfo_overrun : Sfo

-- The loop over the keys, in `mem` with 16 zeros behind its `len` bytes. A round puts `str` at least one
-- byte on, so `len` rounds are enough. The tests have the order of the code.
unfoldable pub sfo_loop : ℕ → List ℕ → ℕ → List ℕ → ℕ → ℕ → ℕ → ℕ → Sfo
unfolding c_string
sfo_loop zero mem len field field_len str pos indx = sfo_failed
sfo_loop (suc fuel) mem len field field_len str pos indx =
    let key = c_string (drop str mem) in
    let rest =
      sfo_loop fuel mem len field field_len (str + length key + 1)
        ((pos + load16 mem (28 + indx)) % 2 ^ 32) (indx + 16) in
    if leb len str
    then sfo_failed
    else if get_or mem str 0 == 0
    then sfo_failed
    else if same key field
    then if leb len pos then sfo_failed else sfo_value (take field_len (c_string (drop pos mem)))
    else if leb (length mem) (29 + indx)
    then sfo_overrun
    else rest

-- parse_param_sfo on a file that opens, with the bytes that it has. The field is not empty.
unfoldable pub parse_param_sfo : List ℕ → List ℕ → ℕ → Sfo
parse_param_sfo file field field_len =
    let mem = file ++ replicate 16 0 in
    sfo_loop (length file) mem (length file) field field_len (load16 mem 8) (load16 mem 12) 0

-- "/PS3_GAME/PARAM.SFO".
abbrev pub sfo_name : List ℕ
sfo_name =
    47 ∷ 80 ∷ 83 ∷ 51 ∷ 95 ∷ 71 ∷ 65 ∷ 77 ∷ 69 ∷ 47 ∷ 80 ∷ 65 ∷ 82 ∷ 65 ∷ 77 ∷ 46 ∷ 83 ∷ 70 ∷ 79
    ∷ []

-- "TITLE_ID".
abbrev pub title_id : List ℕ
title_id = 84 ∷ 73 ∷ 84 ∷ 76 ∷ 69 ∷ 95 ∷ 73 ∷ 68 ∷ []

-- get_title_id, where `contents` gives the bytes of a file that open_file opens, and `max_path` is
-- MAX_PATH of the host.
unfoldable pub get_title_id : (List ℕ → Option (List ℕ)) → ℕ → List ℕ → Sfo
get_title_id contents max_path dir = elim (contents (take (max_path - 2) (dir ++ sfo_name))) [
  | none ↦ sfo_failed
  | some file ↦ parse_param_sfo file title_id 10
]
