-- ===== src/Path.antt =====
-- normalize_path and translate_path of src/main.cpp, with MERGE_DIRS. A path is a C string: a list of
-- bytes without its final zero.
-- Longer texts than the code's buffers hold (lnk_file has MAX_LINK_LEN bytes) are outside the model, and
-- so is what lies behind the end of a string.
pub mod Normal
pub mod Security
use ps3netsrv.Prelude.{
  ℕ, zero, suc, ◌+◌, ◌-◌, Bool, true, false, not, ◌&&◌, ◌||◌, ◌==◌, if◌then◌else◌, Option, none,
  some, List, [], ◌∷◌, ◌++◌, map, length, get_or, take, drop,
}
use ps3netsrv.Env.{Stat, Viso, viso_none, viso_ps3, viso_iso}

-- The bytes before the first zero.
abbrev pub c_str : List ℕ → List ℕ
c_str [] = []
c_str (c ∷ cs) = if c == 0 then [] else c ∷ c_str cs

abbrev pub to_slash : ℕ → ℕ
to_slash c = if c == 92 then 47 else c

-- `c` at the end of a string is taken off as long as there is one.
abbrev pub push_end : ℕ → ℕ → List ℕ → List ℕ
push_end c x [] = if x == c then [] else x ∷ []
push_end c x (y ∷ ys) = x ∷ y ∷ ys

abbrev pub strip_end : ℕ → List ℕ → List ℕ
strip_end c [] = []
strip_end c (x ∷ xs) = push_end c x (strip_end c xs)

-- normalize_path: what it leaves of the string.
abbrev pub normalize_path : List ℕ → Bool → List ℕ
normalize_path path del_last_slash =
    let p = strip_end 13 (map to_slash path) in if del_last_slash then strip_end 47 p else p

-- strncmp with the whole of the first string is zero.
abbrev pub starts_with : List ℕ → List ℕ → Bool
starts_with [] s = true
starts_with (c ∷ cs) [] = false
starts_with (c ∷ cs) (d ∷ ds) = c == d && starts_with cs ds

-- strstr: what follows the first place where `what` stands.
abbrev pub find : List ℕ → List ℕ → Option (List ℕ)
find what [] = if starts_with what [] then some [] else none
find what (c ∷ cs) =
    let later = find what cs in
    if starts_with what (c ∷ cs) then some (drop (length what) (c ∷ cs)) else later

-- "/..".
abbrev pub slash_dots : List ℕ
slash_dots = 47 ∷ 46 ∷ 46 ∷ []

-- `*p == 0` or `*p == '/'`, where `p` is a string without zeros.
abbrev pub ends_component : List ℕ → Bool
ends_component [] = true
ends_component (c ∷ cs) = c == 47

abbrev pub is_unsecure : List ℕ → Bool
is_unsecure path = elim (find slash_dots path) [ none ↦ false | some rest ↦ ends_component rest ]

-- "/***PS3***/" and "/***DVD***/".
abbrev pub ps3_prefix : List ℕ
ps3_prefix = 47 ∷ 42 ∷ 42 ∷ 42 ∷ 80 ∷ 83 ∷ 51 ∷ 42 ∷ 42 ∷ 42 ∷ 47 ∷ []

abbrev pub dvd_prefix : List ℕ
dvd_prefix = 47 ∷ 42 ∷ 42 ∷ 42 ∷ 68 ∷ 86 ∷ 68 ∷ 42 ∷ 42 ∷ 42 ∷ 47 ∷ []

-- The prefix that asks for a virtual ISO, and the path without it; `wants` says that `viso` is not null.
abbrev pub take_viso : Bool → List ℕ → Viso × List ℕ
take_viso wants path =
    if wants && starts_with ps3_prefix path
    then (viso_ps3, drop 10 path)
    else if wants && starts_with dvd_prefix path
    then (viso_iso, drop 10 path)
    else (viso_none, path)

-- ".INI".
abbrev pub ini : List ℕ
ini = 46 ∷ 73 ∷ 78 ∷ 73 ∷ []

abbrev pub is_some {ℓ} : {A : Type ℓ} → Option A → Bool
is_some none = false
is_some (some a) = true

abbrev pub is_blank : ℕ → Bool
is_blank c = c == 13 || (c == 10 || (c == 9 || c == 32))

abbrev pub skip_blanks : List ℕ → List ℕ
skip_blanks [] = []
skip_blanks (c ∷ cs) = if is_blank c then skip_blanks cs else c ∷ cs

-- The text up to the next line feed, and what follows it if there is one.
abbrev pub split_line : List ℕ → List ℕ × Option (List ℕ)
split_line [] = ([], none)
split_line (c ∷ cs) =
    let (line, more) = split_line cs in if c == 10 then ([], some cs) else (c ∷ line, more)

-- The path that a line of the INI file makes of the rest of the request.
abbrev pub line_path : List ℕ → List ℕ → List ℕ
line_path line filename =
    let filepath = normalize_path line true ++ filename in
    take (length line) filepath ++ normalize_path (drop (length line) filepath) true

module _ (stat_file : List ℕ → Option Stat) (read_file : List ℕ → ℕ → Option (List ℕ)) where
  -- The loop that looks for `p.INI` for ever shorter `p`, from position `i` down, `n` positions. The
  -- code counts down in a size_t, and with an empty root it would go on below position 0; that is not
  -- modelled, the loop ends there.
  unfoldable pub find_link : List ℕ → ℕ → ℕ → ℕ → Option (List ℕ × List ℕ)
  find_link p p_len i zero = none
  find_link p p_len i (suc n) =
      let rest = find_link p p_len (i - 1) n in
      if (get_or p i 0 == 47 || i == p_len) && is_some (stat_file (take i p ++ ini))
      then some (take i p ++ ini, drop i p)
      else rest

  -- The loop over the lines of the INI file; a round takes at least one byte of the text.
  unfoldable pub merge_lines : ℕ → List ℕ → List ℕ → Option (List ℕ)
  merge_lines fuel [] filename = none
  merge_lines zero (c ∷ cs) filename = none
  merge_lines (suc fuel) (c ∷ cs) filename =
      let (line, more) = split_line (skip_blanks (c ∷ cs)) in
      if is_some (stat_file (line_path line filename))
      then some (line_path line filename)
      else elim more [ none ↦ none | some text ↦ merge_lines fuel text filename ]

  -- What MERGE_DIRS finds for a path that stat_file does not know; the INI file is read up to
  -- MAX_LINK_LEN.
  unfoldable pub merge_dirs : ℕ → List ℕ → ℕ → Option (List ℕ)
  unfolding find_link merge_lines
  merge_dirs root_len p p_len = elim (find_link p p_len p_len (p_len + 1 - root_len)) [
    | none ↦ none
    | some (lnk_file, filename) ↦ elim (read_file lnk_file 2048) [
      | none ↦ none
      | some text ↦ merge_lines (length text) (c_str text) filename
    ]
  ]

  unfoldable pub translate_path : List ℕ → Bool → List ℕ → Option (List ℕ × Viso)
  unfolding merge_dirs
  translate_path root wants_viso received =
      let path = normalize_path received false in
      if not (starts_with (47 ∷ []) path) || is_unsecure path
      then none
      else (let (viso, below) = take_viso wants_viso path in
          let p = normalize_path (root ++ below) true in
          let plain = normalize_path p false in
          if is_some (stat_file p)
          then some (plain, viso)
          else elim (merge_dirs (length root) p (length root + length below)) [
            | none ↦ some (plain, viso)
            | some filepath ↦ some (filepath, viso)
          ])
