-- ===== src/Viso/Records/Found.antt =====
-- findDirRecord of src/VIsoFile.cpp finds the first record with an identifier.
use ps3netsrv.Prelude.{
  ℕ, suc, ◌≡◌, refl, ap, arith, true, if◌then◌else◌, Option, none, some, List, [], ◌∷◌, length,
  take, drop,
}
use ps3netsrv.Viso.Build.{same}
use ps3netsrv.Viso.Records.{is_named}
use ps3netsrv.Viso.Records.Pack.{Records}

-- The record that is looked for, in the list of all.
abbrev pub first_named : List ℕ → List (List ℕ) → Option (List ℕ)
first_named name [] = none
first_named name (r ∷ rs) =
    let later = first_named name rs in if is_named name r then some r else later

-- A position in the content where the record stands, or none for no record.
abbrev pub Locates : List ℕ → Option ℕ → Option (List ℕ) → Type 0
Locates bytes none none = Unit {0}
Locates bytes (some p) (some r) = take (length r) (drop p bytes) ≡ r
Locates bytes (some p) none = ⊥
Locates bytes none (some r) = ⊥

same-length : (xs ys : List ℕ) → same xs ys ≡ true → length xs ≡ length ys
same-length [] [] e = refl
same-length [] (y ∷ ys) e = absurd (ground (arith, e))
same-length (x ∷ xs) [] e = absurd (ground (arith, e))
same-length (x ∷ xs) (y ∷ ys) e = ap suc (same-length xs ys (ground (arith, e)))
