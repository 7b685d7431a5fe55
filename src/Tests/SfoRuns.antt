-- ===== src/Tests/SfoRuns.antt =====
-- The title in a file PARAM.SFO.
use ps3netsrv.Prelude.{ℕ, ◌≡◌, refl, arith, List, [], ◌∷◌, ◌++◌, replicate}
use ps3netsrv.Viso.Sfo.{sfo_value, sfo_overrun, c_string, sfo_loop, parse_param_sfo, title_id}
use ps3netsrv.Viso.Sfo.Lookup.{Entry, HasEntries, parse_param_sfo-find}

-- A PARAM.SFO with the keys "A" and "TITLE_ID"; the value of the second one is "BL".
abbrev sfo_file : List ℕ
sfo_file =
    0 ∷ 80 ∷ 83 ∷ 70 ∷ 1 ∷ 1 ∷ 0 ∷ 0 ∷ 52 ∷ 0 ∷ 0 ∷ 0 ∷ 64 ∷ 0 ∷ 0 ∷ 0 ∷ 2 ∷ 0 ∷ 0 ∷ 0 ∷ 0 ∷ 0 ∷ 4
    ∷ 2 ∷ 2 ∷ 0 ∷ 0 ∷ 0 ∷ 4 ∷ 0 ∷ 0 ∷ 0 ∷ 0 ∷ 0 ∷ 0 ∷ 0 ∷ 2 ∷ 0 ∷ 4 ∷ 2 ∷ 3 ∷ 0 ∷ 0 ∷ 0 ∷ 4 ∷ 0 ∷ 0
    ∷ 0 ∷ 4 ∷ 0 ∷ 0 ∷ 0 ∷ 65 ∷ 0 ∷ 84 ∷ 73 ∷ 84 ∷ 76 ∷ 69 ∷ 95 ∷ 73 ∷ 68 ∷ 0 ∷ 0 ∷ 120 ∷ 0 ∷ 0 ∷ 0
    ∷ 66 ∷ 76 ∷ 0 ∷ 0 ∷ []

abbrev sfo_mem : List ℕ
sfo_mem = sfo_file ++ replicate 16 0

abbrev sfo_entries : List Entry
sfo_entries =
    record { key = 65 ∷ []; text = 120 ∷ []; room = 4 }
    ∷ record { key = title_id; text = 66 ∷ 76 ∷ []; room = 4 }
    ∷ []

sfo_has : HasEntries sfo_mem 72 52 64 0 sfo_entries
unfolding c_string
sfo_has = (
  record {
    key_at = refl;
    not_empty = omega arith;
    key_inside = omega arith;
    text_at = refl;
    text_inside = omega arith;
    room_at = refl;
    row_inside = omega arith;
  },
  (
    record {
      key_at = refl;
      not_empty = omega arith;
      key_inside = omega arith;
      text_at = refl;
      text_inside = omega arith;
      room_at = refl;
      row_inside = omega arith;
    },
    record {},
  ),
)

parse_param_sfo-find_example : parse_param_sfo sfo_file title_id 10 ≡ sfo_value (66 ∷ 76 ∷ [])
parse_param_sfo-find_example =
    parse_param_sfo-find sfo_file title_id 10 sfo_entries (66 ∷ 76 ∷ []) sfo_has refl

-- Where a file has more keys than its index has rows, a read behind its bytes follows.
sfo_runs_out :
    parse_param_sfo (replicate 8 0 ++ 14 ∷ 0 ∷ 0 ∷ 0 ∷ 0 ∷ 0 ∷ 65 ∷ 0 ∷ 65 ∷ 0 ∷ []) title_id 10
    ≡ sfo_overrun
unfolding parse_param_sfo sfo_loop c_string
sfo_runs_out = refl
