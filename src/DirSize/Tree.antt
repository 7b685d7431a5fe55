-- ===== src/DirSize/Tree.antt =====
-- What calculate_directory_size of src/main.cpp computes, for a file system that shows a tree.
use Prim.Native.Nat.{max}
use ps3netsrv.Prelude.{
  ℕ, zero, suc, ◌+◌, ◌%◌, ◌^◌, ◌≤◌, ◌<◌, ◌≡◌, refl, ap, ◌∙◌, arith, Bool, true, false, ◌&&◌, leb,
  if◌then◌else◌, Option, none, some, List, [], ◌∷◌, ◌++◌, Bool-cases, inl, inr,
}
use ps3netsrv.Env.{Stat}
use ps3netsrv.Wire.{none64}
use ps3netsrv.Listing.{is_listed_name}
use ps3netsrv.DirSize.{add_entries, calculate_directory_size}

-- A path that stat_file does not know, a directory that cannot be opened, a file with its size, a
-- device or the like, and a directory with what readdir delivers of it.
mutual
  pub data Tree : Type 0 where
    gone closed : Tree
    file : ℕ → Tree
    special : Tree
    dir : Entries → Tree

  pub data Entries : Type 0 where
    end : Entries
    dots : List ℕ → Entries → Entries
    entry : List ℕ → Tree → Entries → Entries

-- The sizes of all files together, whether everything could be read, and the levels of directories.
unfoldable mutual
  pub total : Tree → ℕ
  total gone = 0
  total closed = 0
  total (file n) = n
  total special = 0
  total (dir es) = totals es

  pub totals : Entries → ℕ
  totals end = 0
  totals (dots name es) = totals es
  totals (entry name t es) = total t + totals es

unfoldable mutual
  pub is_whole : Tree → Bool
  is_whole gone = false
  is_whole closed = false
  is_whole (file n) = true
  is_whole special = true
  is_whole (dir es) = are_whole es

  pub are_whole : Entries → Bool
  are_whole end = true
  are_whole (dots name es) = are_whole es
  are_whole (entry name t es) = is_whole t && are_whole es

unfoldable mutual
  pub depth : Tree → ℕ
  depth gone = 1
  depth closed = 1
  depth (file n) = 0
  depth special = 0
  depth (dir es) = suc (depths es)

  pub depths : Entries → ℕ
  depths end = 0
  depths (dots name es) = depths es
  depths (entry name t es) = max (depth t) (depths es)

abbrev pub names : Entries → List (List ℕ)
names end = []
names (dots name es) = name ∷ names es
names (entry name t es) = name ∷ names es

module _ (stat_file : List ℕ → Option Stat) (opendir : List ℕ → Option (List (List ℕ))) where
  -- The file system shows the tree at the path.
  unfoldable mutual
    pub Shows : List ℕ → Tree → Type 0
    Shows path gone = stat_file path ≡ none
    Shows path closed =
        (st : Stat) × (stat_file path ≡ some st) × (st.is_dir ≡ true) × (opendir path ≡ none)
    Shows path (file n) =
        (st : Stat) × (stat_file path ≡ some st)
        × (st.is_dir ≡ false)
        × (st.is_reg ≡ true)
        × (st.file_size ≡ n)
    Shows path special =
        (st : Stat) × (stat_file path ≡ some st) × (st.is_dir ≡ false) × (st.is_reg ≡ false)
    Shows path (dir es) =
        (st : Stat) × (stat_file path ≡ some st)
        × (st.is_dir ≡ true)
        × (opendir path ≡ some (names es))
        × ShowsAll path es

    pub ShowsAll : List ℕ → Entries → Type 0
    ShowsAll path end = Unit
    ShowsAll path (dots name es) = (is_listed_name name ≡ false) × ShowsAll path es
    ShowsAll path (entry name t es) =
        (is_listed_name name ≡ true) × Shows (path ++ 47 ∷ name) t × ShowsAll path es

  -- The bound on the sum is that of int64_t, so that no partial sum wraps.
  entries-total :
      (es : Entries) (fuel : ℕ) (path : List ℕ) (result : ℕ)
      → ShowsAll path es
      → depths es ≤ fuel
      → result + totals es < 2 ^ 63
      → add_entries stat_file opendir
          (calculate_directory_size stat_file opendir fuel)
          path
          (names es)
          result
        ≡ some (if are_whole es then result + totals es else none64)
  unfolding add_entries calculate_directory_size total is_whole depth Shows
  entries-total end fuel path result shown deep small = ground arith
  entries-total (dots name es) fuel path result (skipped, shown) deep small =
      rw (skipped, add_entries) (entries-total es fuel path result shown deep small)
  entries-total (entry name gone es) fuel path result (listed, missing, shown) deep small =
      rw (listed, add_entries, missing) refl
  entries-total (entry name closed es) zero path result (listed, t, shown) deep small =
      absurd (ground (arith, deep))
  entries-total (entry name closed es) (suc fuel) path result
        (listed, (st, known, is_dir, unopened), shown) deep small =
      rw (listed, add_entries, known, is_dir, calculate_directory_size, known, unopened) refl
  entries-total (entry name (file n) es) fuel path result
        (listed, (st, known, no_dir, is_reg, size), shown) deep small =
      let sum : (result + st.file_size) % 2 ^ 64 ≡ result + n = ground (arith, size, small) in
      let regroup : result + n + totals es ≡ result + (n + totals es) = omega arith in
      rw (listed, add_entries, known, no_dir, is_reg, sum, ← regroup)
        (entries-total es fuel path (result + n) shown (ground arith) (omega (arith, small)))
  entries-total (entry name special es) fuel path result
        (listed, (st, known, no_dir, no_reg), shown) deep small =
      let none_more : 0 + totals es ≡ totals es = omega arith in
      rw (listed, add_entries, known, no_dir, no_reg, none_more)
        (entries-total es fuel path result shown (ground arith) (omega (arith, small)))
  entries-total (entry name (dir es2) es) zero path result (listed, t, shown) deep small =
      absurd (ground (arith, deep))
  entries-total (entry name (dir es2) es) (suc fuel) path result
        (listed, (st, known, is_dir, opened, below), shown) deep small =
      let nested =
        entries-total es2 fuel (path ++ 47 ∷ name) 0 below (ground arith) (omega (arith, small)) in
      elim (Bool-cases (are_whole es2)) [
        | inl whole ↦
            let sum : (result + (0 + totals es2)) % 2 ^ 64 ≡ result + totals es2 =
              omega (arith, small) in
            let plus : leb (2 ^ 63) (0 + totals es2) ≡ false = ground (arith, small) in
            let regroup : result + totals es2 + totals es ≡ result + (totals es2 + totals es) =
              omega arith in
            rw
              (
                listed,
                add_entries,
                known,
                is_dir,
                calculate_directory_size,
                known,
                opened,
                nested,
                whole,
                plus,
                sum,
                ← regroup,
              )
              (entries-total es (suc fuel) path (result + totals es2) shown (ground arith)
                (omega (arith, small)))
        | inr broken ↦
            rw
              (
                listed, add_entries, known, is_dir, calculate_directory_size, known, opened, nested,
                broken,
              )
              refl
      ]

  -- For a file system that shows the tree at a path, and fuel for the levels of its directories:
  -- the function gives the sum of the sizes of all files below a directory where everything can be
  -- read, and -1 where any path cannot be read, whatever stands behind it. The sum of the sizes is
  -- below 2 ^ 63.
  pub calculate_directory_size-total :
      (es : Entries) (fuel : ℕ) (path : List ℕ)
      → Shows path (dir es)
      → depths es < fuel
      → totals es < 2 ^ 63
      → calculate_directory_size stat_file opendir fuel path
        ≡ some (if are_whole es then totals es else none64)
  unfolding calculate_directory_size Shows
  calculate_directory_size-total es zero path shown deep small = absurd (omega arith)
  calculate_directory_size-total es (suc fuel) path (st, known, is_dir, opened, below) deep small =
      let from_zero : 0 + totals es ≡ totals es = omega arith in
      rw (known, calculate_directory_size, opened)
        (entries-total es fuel path 0 below (omega (arith, deep)) (omega (arith, small))
          ∙ ap (λ (n : ℕ). some (if are_whole es then n else none64)) from_zero)
