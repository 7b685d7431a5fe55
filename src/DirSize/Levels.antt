-- ===== src/DirSize/Levels.antt =====
-- calculate_directory_size of src/main.cpp ends where directories are nested to a bounded number of levels.
use ps3netsrv.Prelude.{
  ℕ, zero, suc, ◌+◌, ◌%◌, ◌^◌, ◌≤◌, ◌<◌, ◌≡◌, ◌≢◌, refl, arith, true, false, leb, if◌then◌else◌,
  Option, none, some, List, [], ◌∷◌, ◌++◌, Bool-cases, Option-cases, inl, inr,
}
use ps3netsrv.Env.{Os, Stat}
use ps3netsrv.Session.{Session}
use ps3netsrv.Wire.{be16, none64}
use ps3netsrv.Listing.{is_listed_name}
use ps3netsrv.Commands.{PathCmd, recv_path, translate}
use ps3netsrv.DirSize.{add_entries, calculate_directory_size, process_get_dir_size_cmd}

-- The directories that `names` lists below `path` have a smaller level than it.
abbrev pub Below : (List ℕ → Option Stat) → (List ℕ → ℕ) → List ℕ → List (List ℕ) → Type 0
Below stat_file level path [] = Unit {0}
Below stat_file level path (name ∷ names) =
    ((st : Stat)
      → is_listed_name name ≡ true
      → stat_file (path ++ 47 ∷ name) ≡ some st
      → st.is_dir ≡ true
      → level (path ++ 47 ∷ name) < level path)
    × Below stat_file level path names

-- A host on which every directory has a level below `deepest`, and a greater one than the directories in
-- it: its directories are nested to at most `deepest` levels.
pub record Nesting (os : Os) (deepest : ℕ) : Type 0 where
  pub level : Os.World os → List ℕ → ℕ
  pub bounded : (w : Os.World os) (path : List ℕ) → level w path < deepest
  pub below :
      (w : Os.World os) (path : List ℕ) (names : List (List ℕ))
      → Os.opendir os path w ≡ some names
      → Below (λ p. Os.stat_file os p w) (level w) path names

module _ (stat_file : List ℕ → Option Stat) (level : List ℕ → ℕ) (nested : List ℕ → Option ℕ)
    (fuel : ℕ) where
  add_entries-some :
      (opendir : List ℕ → Option (List (List ℕ))) (path : List ℕ) (names : List (List ℕ))
      (result : ℕ)
      → ((p : List ℕ) → level p < fuel → (n : ℕ) × (nested p ≡ some n))
      → level path ≤ fuel
      → Below stat_file level path names
      → (n : ℕ) × (add_entries stat_file opendir nested path names result ≡ some n)
  unfolding add_entries
  add_entries-some opendir path [] result ends deep ok = (result, refl)
  add_entries-some opendir path (name ∷ names) result ends deep (first, ok) =
      elim (Bool-cases (is_listed_name name)) [
        | inr skipped ↦
            rw (skipped, add_entries) (add_entries-some opendir path names result ends deep ok)
        | inl listed ↦ elim (Option-cases (stat_file (path ++ 47 ∷ name))) [
          | inl missing ↦ rw (listed, add_entries, missing) (none64, refl)
          | inr (st, known) ↦ elim (Bool-cases st.is_dir) [
            | inr no_dir ↦
                rw (listed, add_entries, known, no_dir)
                  (add_entries-some opendir path names
                    (if st.is_reg then (result + st.file_size) % 2 ^ 64 else result) ends deep ok)
            | inl is_dir ↦
                let (temp, inner) =
                  ends (path ++ 47 ∷ name) (omega (arith, first st listed known is_dir, deep)) in
                elim (Bool-cases (leb (2 ^ 63) temp)) [
                  | inl negative ↦
                      rw (listed, add_entries, known, is_dir, inner, negative) (temp, refl)
                  | inr positive ↦
                      rw (listed, add_entries, known, is_dir, inner, positive)
                        (add_entries-some opendir path names ((result + temp) % 2 ^ 64) ends deep
                          ok)
                ]
          ]
        ]
      ]

module _ {os : Os} (deepest : ℕ) (n : Nesting os deepest) (w : Os.World os) where
  calculate_directory_size-some :
      (fuel : ℕ) (path : List ℕ)
      → Nesting.level n w path < fuel
      → (size : ℕ) × (calculate_directory_size
            (λ p. Os.stat_file os p w)
            (λ p. Os.opendir os p w)
            fuel
            path
          ≡ some size)
  unfolding calculate_directory_size
  calculate_directory_size-some zero path deep = absurd (omega (arith, deep))
  calculate_directory_size-some (suc fuel) path deep =
      elim (Option-cases (Os.stat_file os path w)) [
        | inl missing ↦ rw (calculate_directory_size, missing) (none64, refl)
        | inr (st, known) ↦ elim (Option-cases (Os.opendir os path w)) [
          | inl unopened ↦ rw (calculate_directory_size, known, unopened) (none64, refl)
          | inr (names, opened) ↦
              rw (calculate_directory_size, known, opened)
                (add_entries-some (λ p. Os.stat_file os p w) (Nesting.level n w)
                  (calculate_directory_size (λ p. Os.stat_file os p w) (λ p. Os.opendir os p w)
                    fuel)
                  fuel (λ p. Os.opendir os p w) path names 0
                  (λ p lt. calculate_directory_size-some fuel p lt) (omega (arith, deep))
                  (Nesting.below n w path names opened))
        ]
      ]

-- On such a host a get_dir_size command has a result.
pub process_get_dir_size_cmd-ne-none :
    {os : Os} (deepest : ℕ)
    → Nesting os deepest
    → (root : List ℕ) (cmd : PathCmd) (s : Session os)
    → process_get_dir_size_cmd root deepest cmd s ≢ none
unfolding process_get_dir_size_cmd
process_get_dir_size_cmd-ne-none {os} deepest nesting root cmd s e =
    let (r, s1) = recv_path (be16 cmd.path_len) s in
    elim (Option-cases r) [
      | inl lost ↦ absurd (ground (arith, rw (process_get_dir_size_cmd, lost) at e))
      | inr (path, got) ↦ elim (Option-cases (translate root false path s1)) [
        | inl refused ↦ absurd (ground (arith, rw (process_get_dir_size_cmd, got, refused) at e))
        | inr ((dirpath, viso), accepted) ↦
            let (size, known) =
              calculate_directory_size-some deepest nesting s1.world deepest dirpath
                (Nesting.bounded nesting s1.world dirpath) in
            absurd (ground (arith, rw (process_get_dir_size_cmd, got, accepted, known) at e))
      ]
    ]
