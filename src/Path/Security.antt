-- ===== src/Path/Security.antt =====
-- Which requests translate_path of src/main.cpp accepts, and where the paths that it returns lie.
use ps3netsrv.Prelude.{
  ℕ, zero, suc, ◌+◌, ◌-◌, ◌≡◌, refl, sym, ap, ◌∙◌, arith, Bool, true, false, not, ◌&&◌, ◌||◌, ◌==◌,
  if◌then◌else◌, Bool-cases, inl, inr, Option-cases, Option, none, some, List, [], ◌∷◌, ◌++◌,
  length, take, drop,
}
use ps3netsrv.Env.{Stat, Viso}
use ps3netsrv.Path.Normal.{Clean, normalize-append}
use ps3netsrv.Path.{
  normalize_path, starts_with, ends_component, is_unsecure, take_viso, ini, is_some, find_link,
  merge_dirs, translate_path,
}

-- The text up to the next slash, and the components behind each slash.
abbrev pub head_component : List ℕ → List ℕ
head_component [] = []
head_component (c ∷ cs) = if c == 47 then [] else c ∷ head_component cs

abbrev pub components : List ℕ → List (List ℕ)
components [] = []
components (c ∷ cs) = if c == 47 then head_component cs ∷ components cs else components cs

-- "..".
abbrev pub dots : List ℕ
dots = 46 ∷ 46 ∷ []

abbrev pub is_dots : List ℕ → Bool
is_dots [] = false
is_dots (a ∷ []) = false
is_dots (a ∷ b ∷ []) = a == 46 && b == 46
is_dots (a ∷ b ∷ c ∷ cs) = false

-- The first component that starts with ".." is "..".
abbrev pub climbs_first : List (List ℕ) → Bool
climbs_first [] = false
climbs_first (k ∷ ks) = if starts_with dots k then is_dots k else climbs_first ks

starts-head : (cs : List ℕ) → starts_with dots (head_component cs) ≡ starts_with dots cs
starts-head [] = refl
starts-head (a ∷ []) = ground arith
starts-head (a ∷ b ∷ cs) = ground arith

ends-head :
    (cs : List ℕ)
    → starts_with dots cs ≡ true
    → is_dots (head_component cs) ≡ ends_component (drop 2 cs)
ends-head [] h = absurd (ground (arith, h))
ends-head (a ∷ []) h = absurd (ground (arith, h))
ends-head (a ∷ b ∷ []) h = ground (arith, h)
ends-head (a ∷ b ∷ c ∷ cs) h = ground (arith, h)

-- The search for "/.." is a test on the components.
is_unsecure-climbs_first : (path : List ℕ) → is_unsecure path ≡ climbs_first (components path)
is_unsecure-climbs_first [] = refl
is_unsecure-climbs_first (c ∷ cs) =
    let later = is_unsecure-climbs_first cs in
    elim (Bool-cases (starts_with dots cs)) [
      | inl here ↦ ground (arith, later, here, starts-head cs, ends-head cs here)
      | inr not_here ↦ ground (arith, later, not_here, starts-head cs)
    ]

module _ (stat_file : List ℕ → Option Stat) (read_file : List ℕ → ℕ → Option (List ℕ))
    (root : List ℕ) (wants : Bool) where
  -- A request is refused exactly where its path, with slashes for backslashes and without carriage
  -- returns at the end, does not start with a slash, or where the first of its components that
  -- starts with ".." is "..". Every other request gets a path, whatever files there are.
  pub translate_path-accepts :
      (received : List ℕ)
      → let path = normalize_path received false in
        is_some (translate_path stat_file read_file root wants received)
        ≡ (starts_with (47 ∷ []) path && not (climbs_first (components path)))
  unfolding translate_path
  translate_path-accepts received =
      let path = normalize_path received false in
      let (viso, below) = take_viso wants path in
      let p = normalize_path (root ++ below) true in
      let merged = merge_dirs stat_file read_file (length root) p (length root + length below) in
      rw (sym (is_unsecure-climbs_first path))
        (elim (Bool-cases (not (starts_with (47 ∷ []) path) || is_unsecure path)) [
          | inl refused ↦ rw (translate_path, refused) (ground (arith, refused))
          | inr fine ↦ elim (Bool-cases (is_some (stat_file p))) [
            | inl found ↦ rw (translate_path, fine, found) (ground (arith, fine))
            | inr missing ↦ elim (Option-cases merged) [
              | inl none_merged ↦
                  rw (translate_path, fine, missing, none_merged) (ground (arith, fine))
              | inr (filepath, is_merged) ↦
                  rw (translate_path, fine, missing, is_merged) (ground (arith, fine))
            ]
          ]
        ])

  -- No INI file exists: the search for one finds nothing.
  find_link-nothing :
      ((q : List ℕ) → stat_file (q ++ ini) ≡ none)
      → (p : List ℕ) (p_len i n : ℕ) → find_link stat_file read_file p p_len i n ≡ none
  unfolding find_link
  find_link-nothing nowhere p p_len i zero = refl
  find_link-nothing nowhere p p_len i (suc n) =
      rw (nowhere (take i p), find_link-nothing nowhere p p_len (i - 1) n) (ground arith)

  -- Where no INI file exists, the path that an accepted request gets is the root followed by the path
  -- of the request, without the prefix that asks for a virtual ISO and without slashes and carriage
  -- returns at its end.
  pub translate_path-below :
      Clean root
      → ((q : List ℕ) → stat_file (q ++ ini) ≡ none)
      → (received : List ℕ)
      → let path = normalize_path received false in
        let (viso, below) = take_viso wants path in
        starts_with (47 ∷ []) path ≡ true
        → climbs_first (components path) ≡ false
        → translate_path stat_file read_file root wants received
          ≡ some (root ++ normalize_path (normalize_path below true) false, viso)
  unfolding translate_path
  translate_path-below clean nowhere received starts fine =
      let path = normalize_path received false in
      let (viso, below) = take_viso wants path in
      let p = normalize_path (root ++ below) true in
      let secure : is_unsecure path ≡ false = is_unsecure-climbs_first path ∙ fine in
      let plain : normalize_path p false
          ≡ root ++ normalize_path (normalize_path below true) false =
        ap (λ q. normalize_path q false) (normalize-append root below true clean)
        ∙ normalize-append root (normalize_path below true) false clean in
      let unmerged : merge_dirs stat_file read_file (length root) p (length root + length below)
          ≡ none =
        rw
          (
            merge_dirs,
            find_link-nothing nowhere p (length root + length below) (length root + length below)
                (length root + length below + 1 - length root),
          )
          refl in
      let value : (List ℕ × Viso) =
        (root ++ normalize_path (normalize_path below true) false, viso) in
      let end_value : some (normalize_path p false, viso) ≡ some value =
        ap (λ q. some (q, viso)) plain in
      elim (Bool-cases (is_some (stat_file p))) [
        | inl found ↦ rw (translate_path, starts, secure, found) end_value
        | inr missing ↦ rw (translate_path, starts, secure, missing, unmerged) end_value
      ]
