-- ===== src/File/Open.antt =====
-- The part of File::open in src/File.cpp that opens the parts of an image. open_file of include/compat.h is
-- a parameter: a descriptor for a path, `none` where it fails.
pub mod Opens
use ps3netsrv.Prelude.{
  ℕ, zero, suc, ◌⊎◌, ◌+◌, ◌-◌, ◌/◌, ◌%◌, ◌<◌, ◌≤◌, ◌≡◌, refl, sym, ap, ◌∙◌, arith, Bool, true,
  false, ◌&&◌, ◌||◌, ltb, leb, ◌==◌, if◌then◌else◌, Bool-cases, Option-cases, inl, inr, Option,
  none, some, List, [], ◌∷◌, ◌++◌, length, take, drop,
}
use ps3netsrv.Env.{AbstractFile, Stat}
use ps3netsrv.Viso.Build.{same}
use ps3netsrv.File.{Parts}

-- ".iso.0" and ".ISO.0".
abbrev pub iso_0 : List ℕ
iso_0 = 46 ∷ 105 ∷ 115 ∷ 111 ∷ 46 ∷ 48 ∷ []

abbrev pub iso_0_upper : List ℕ
iso_0_upper = 46 ∷ 73 ∷ 83 ∷ 79 ∷ 46 ∷ 48 ∷ []

-- The test of the last six bytes of the path: strstr of six bytes in six bytes.
abbrev pub is_first_part : List ℕ → Bool
is_first_part path =
    let last = drop (length path - 6) path in
    leb 6 (length path) && (same last iso_0 || same last iso_0_upper)

-- "%i", for a number below 100.
abbrev pub decimal : ℕ → List ℕ
decimal i = if ltb i 10 then (48 + i) ∷ [] else (48 + i / 10) ∷ (48 + i % 10) ∷ []

-- `filepath` with the number at its end.
abbrev pub part_path : List ℕ → ℕ → List ℕ
part_path path i = take (length path - 6 + 4) path ++ 46 ∷ decimal i

-- The loop over `i`, with `rounds` left of it; `parts` is is_multipart.
unfoldable pub open_parts :
    {Handle : Type 0}
    → (List ℕ → Option Handle)
    → ℕ
    → ℕ
    → List ℕ
    → (ℕ → Handle)
    → ℕ
    → (ℕ → Handle) × ℕ
open_parts open_file zero i path fp parts = (fp, parts)
open_parts open_file (suc rounds) i path fp parts = elim (open_file (part_path path i)) [
  | none ↦ (fp, parts)
  | some h ↦ open_parts open_file rounds (suc i) path (λ j. if j == i then h else fp j) (suc parts)
]

-- File::open of a path that names the first part, which has been opened as `fd`.
unfoldable pub open_multipart :
    (F : AbstractFile)
    → (List ℕ → Option (AbstractFile.Handle F))
    → List ℕ
    → AbstractFile.Handle F
    → Option (Parts F)
unfolding open_parts
open_multipart F open_file path fd =
    let (st, h) = AbstractFile.fstat F fd in
    elim st [
      | none ↦ none
      | some st' ↦
          let (fp, parts) = open_parts open_file 63 1 path (λ j. h) 1 in
          some (record { fp = fp; is_multipart = parts; part_size = st'.file_size; index = 0 })
    ]
