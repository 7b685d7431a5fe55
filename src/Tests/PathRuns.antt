-- ===== src/Tests/PathRuns.antt =====
-- Requests and the paths that they get.
use ps3netsrv.Prelude.{
  ℕ, ◌≡◌, refl, true, false, not, ◌&&◌, if◌then◌else◌, Option, none, some, List, [], ◌∷◌, ◌++◌,
}
use ps3netsrv.Env.{Stat, viso_none, viso_ps3}
use ps3netsrv.Path.{
  normalize_path, starts_with, find_link, merge_lines, merge_dirs, translate_path, is_some,
}
use ps3netsrv.Path.Normal.{Clean}
use ps3netsrv.Path.Security.{components, climbs_first, translate_path-accepts, translate_path-below}
use ps3netsrv.Viso.Build.{same}

abbrev no_stat : List ℕ → Option Stat
no_stat path = none

abbrev no_read : List ℕ → ℕ → Option (List ℕ)
no_read path n = none

-- "/r".
abbrev root : List ℕ
root = 47 ∷ 114 ∷ []

clean : Clean root
clean = record { slashes = refl; no_return = refl; no_slash = refl }

-- "\a/../b".
abbrev climbing : List ℕ
climbing = 92 ∷ 97 ∷ 47 ∷ 46 ∷ 46 ∷ 47 ∷ 98 ∷ []

climbing_refused : translate_path no_stat no_read root false climbing ≡ none
unfolding translate_path
climbing_refused = refl

translate_path-accepts_example : is_some (translate_path no_stat no_read root false climbing) ≡ (
    starts_with (47 ∷ []) (normalize_path climbing false)
    && not (climbs_first (components (normalize_path climbing false))))
translate_path-accepts_example = translate_path-accepts no_stat no_read root false climbing

-- "/***PS3***/a/".
abbrev game : List ℕ
game = 47 ∷ 42 ∷ 42 ∷ 42 ∷ 80 ∷ 83 ∷ 51 ∷ 42 ∷ 42 ∷ 42 ∷ 47 ∷ 97 ∷ 47 ∷ []

translate_path-below_example :
    translate_path no_stat no_read root true game ≡ some (root ++ 47 ∷ 97 ∷ [], viso_ps3)
translate_path-below_example =
    translate_path-below no_stat no_read root true clean (λ q. refl) game refl refl

-- "/..a/../../x".
abbrev hidden : List ℕ
hidden = 47 ∷ 46 ∷ 46 ∷ 97 ∷ 47 ∷ 46 ∷ 46 ∷ 47 ∷ 46 ∷ 46 ∷ 47 ∷ 120 ∷ []

hidden_result : translate_path no_stat no_read root false hidden ≡ some (root ++ hidden, viso_none)
unfolding translate_path merge_dirs find_link
hidden_result = refl

-- A carriage return in front of the slashes stays, so with del_last_slash a second call can change more.
normalize_twice : normalize_path (normalize_path (97 ∷ 13 ∷ 47 ∷ []) true) true ≡ 97 ∷ []
normalize_twice = refl

-- The tree "/r" has "/r/g.INI", whose text is "/d" and two line feeds, and "/x" exists outside of it.
abbrev anything : Stat
anything = record { file_size = 1; is_dir = false; is_reg = true; mtime = 0; ctime = 0; atime = 0 }

abbrev ini_stat : List ℕ → Option Stat
ini_stat path =
    if same path (47 ∷ 114 ∷ 47 ∷ 103 ∷ 46 ∷ 73 ∷ 78 ∷ 73 ∷ [])
    then some anything
    else if same path (47 ∷ 120 ∷ [])
    then some anything
    else none

abbrev ini_read : List ℕ → ℕ → Option (List ℕ)
ini_read path n = some (47 ∷ 100 ∷ 10 ∷ 10 ∷ [])

-- The request "/g/x" gets the path "/x".
blank_line_leaves_root :
    translate_path ini_stat ini_read root false (47 ∷ 103 ∷ 47 ∷ 120 ∷ [])
    ≡ some (47 ∷ 120 ∷ [], viso_none)
unfolding translate_path merge_dirs find_link merge_lines
blank_line_leaves_root = refl
