-- ===== src/Viso/Walk/Named.antt =====
-- Names in UTF-8 give directories that VIsoFile::build can look up in both name spaces.
use ps3netsrv.Prelude.{
  ℕ, zero, suc, ◌+◌, ◌<◌, ◌≡◌, ◌⊎◌, ◌/◌, ◌^◌, refl, sym, ◌∙◌, arith, Bool, true, false, ◌==◌, ltb,
  Bool-cases, Option-cases, inl, inr, Option, some, List, [], ◌∷◌, ◌++◌, length, take,
  length-append,
}
use ps3netsrv.Viso.Build.{same}
use ps3netsrv.Viso.Names.{strncpy_upper, to_upper}
use ps3netsrv.Viso.Names.Encoded.{
  Characters, encode, follow, encode_all, ucs2_all, utf8_to_ucs2-encode_all,
}
use ps3netsrv.Viso.Records.{Time}
use ps3netsrv.Viso.Content.{Directory}
use ps3netsrv.Viso.Content.Own.{Nameable, AllNameable}
use ps3netsrv.Viso.Walk.{
  Dirent, Scan, select_directories, selected, nodes_below, numbers, Walked, walk, root_list,
}

-- A name of at least one character, in UTF-8.
abbrev pub IsUtf8 : List ℕ → Type 0
IsUtf8 name = (c : ℕ) × (cs : List ℕ) × (name ≡ encode_all (c ∷ cs)) × Characters (c ∷ cs)

abbrev pub AllUtf8 : List (List ℕ) → Type 0
AllUtf8 [] = Unit {0}
AllUtf8 (name ∷ names) = IsUtf8 name × AllUtf8 names

starts_nonzero :
    (c : ℕ) (rest : List ℕ)
    → 0 < c
    → c < 2 ^ 21
    → (b : ℕ) × (bs : List ℕ) × (encode c ++ rest ≡ b ∷ bs) × (0 < b)
starts_nonzero c rest positive small = elim (Bool-cases (ltb c 128)) [
  | inl one ↦ rw one (c, rest, refl, positive)
  | inr more ↦ elim (Bool-cases (ltb c 2048)) [
    | inl two ↦ rw (more, two) (192 + c / 64, follow c ∷ rest, refl, omega arith)
    | inr more2 ↦ elim (Bool-cases (ltb c 65536)) [
      | inl three ↦
          rw (more, more2, three)
            (224 + c / 4096, follow (c / 64) ∷ (follow c ∷ rest), refl, omega arith)
      | inr four ↦
          rw (more, more2, four)
            (
              240 + c / 262144,
              follow (c / 4096) ∷ (follow (c / 64) ∷ (follow c ∷ rest)),
              refl,
              omega arith,
            )
    ]
  ]
]

upper_differs : (b : ℕ) (bs : List ℕ) → 0 < b → same (to_upper b ∷ bs) (0 ∷ []) ≡ false
upper_differs b bs positive =
    let other : (to_upper b == 0) ≡ false = ground (arith, positive) in rw other refl

plain_id :
    (s : List ℕ) (b : ℕ) (bs : List ℕ)
    → s ≡ b ∷ bs
    → 0 < b
    → (0 < length (strncpy_upper s 204)) × (same (strncpy_upper s 204) (0 ∷ []) ≡ false)
unfolding strncpy_upper
plain_id s b bs shape positive =
    rw shape (omega arith, upper_differs b (strncpy_upper bs 203) positive)

module _ (times : List ℕ → Option Time) where
  utf8-Nameable : (joliet : Bool) (d : Directory) → IsUtf8 d.name → Nameable times joliet d
  utf8-Nameable false d (c, cs, name, (positive, small, valid)) =
      let (b, bs, shape, nonzero) = starts_nonzero c (encode_all cs) positive small in
      let (long, other) = plain_id d.name b bs (name ∙ shape) nonzero in
      (strncpy_upper d.name 204, refl, long, other)
  utf8-Nameable true d (c, cs, name, ok) = (
    ucs2_all (take 127 (c ∷ cs)),
    rw name (utf8_to_ucs2-encode_all (c ∷ cs) 127 ok),
    omega arith,
    ground arith,
  )

-- From number `k` on: the first directory is the root, every other one has a name in UTF-8.
abbrev NamedFrom : ℕ → List Directory → Type 0
NamedFrom k [] = Unit {0}
NamedFrom k (d ∷ ds) = (((k ≡ 0) × (d.parent ≡ 0)) ⊎ IsUtf8 d.name) × NamedFrom (suc k) ds

NamedFrom-append :
    (k : ℕ) (ds es : List Directory)
    → NamedFrom k ds
    → NamedFrom (k + length ds) es
    → NamedFrom k (ds ++ es)
NamedFrom-append k [] es named more = let e : k + 0 ≡ k = omega arith in rw e at more
NamedFrom-append k (d ∷ ds) es (first, named) more =
    let e : k + suc (length ds) ≡ suc k + length ds = omega arith in
    (first, NamedFrom-append (suc k) ds es named (rw e at more))

NamedFrom-nodes :
    (k : ℕ) (d : Directory) (n : ℕ) (names : List (List ℕ))
    → AllUtf8 names
    → NamedFrom k (nodes_below d n names)
unfolding nodes_below
NamedFrom-nodes k d n [] ok = record {}
NamedFrom-nodes k d n (name ∷ names) (first, ok) = (inr first, NamedFrom-nodes (suc k) d n names ok)

-- Every name of a directory that scandir finds is in UTF-8.
abbrev pub FindsUtf8 : Scan → Type 0
FindsUtf8 scan =
    (path : List ℕ) (entries : List Dirent)
    → scan path ≡ some entries
    → AllUtf8 (selected select_directories entries)

NamedFrom-AllNameable :
    (times : List ℕ → Option Time) (joliet : Bool) (k : ℕ) (ds : List Directory)
    → NamedFrom k ds
    → AllNameable times joliet k ds
NamedFrom-AllNameable times joliet k [] named = record {}
NamedFrom-AllNameable times joliet k (d ∷ ds) (inl (here, root), named) =
    (inl (root ∙ sym here), NamedFrom-AllNameable times joliet (suc k) ds named)
NamedFrom-AllNameable times joliet k (d ∷ ds) (inr ok, named) =
    (inr (utf8-Nameable times joliet d ok), NamedFrom-AllNameable times joliet (suc k) ds named)

module _ (scan : Scan) (finds : FindsUtf8 scan) where
  walk-NamedFrom :
      (fuel : ℕ) (done todo dirs : List Directory)
      → NamedFrom 0 done
      → NamedFrom (length done) todo
      → walk scan fuel done todo ≡ Walked.walked dirs
      → NamedFrom 0 dirs
  unfolding walk
  walk-NamedFrom fuel done [] dirs named more e = let same : done ≡ dirs = cc e in rw (← same) named
  walk-NamedFrom zero done (d ∷ todo) dirs named more e = absurd (ground (arith, e))
  walk-NamedFrom (suc fuel) done (d ∷ todo) dirs named (first, more) e =
      elim (Option-cases (scan d.path)) [
        | inl bad ↦ absurd (ground (arith, rw (walk, bad) at e))
        | inr (entries, found) ↦
            let names = selected select_directories entries in
            let n = length done in
            let d' = record d { children = numbers (n + suc (length todo)) names } in
            let len : length (done ++ d' ∷ []) ≡ suc n =
              omega (arith, length-append done (d' ∷ [])) in
            let from_zero : 0 + n ≡ n = omega arith in
            walk-NamedFrom fuel (done ++ d' ∷ []) (todo ++ nodes_below d n names) dirs
              (NamedFrom-append 0 done (d' ∷ []) named (rw from_zero (first, record {})))
              (rw len (
                NamedFrom-append (suc n) todo (nodes_below d n names) more
                  (NamedFrom-nodes (suc n + length todo) d n names (finds d.path entries found))))
              (rw (walk, found) at e)
      ]

  -- All names that the walk found can be looked up.
  pub walk-AllNameable :
      (times : List ℕ → Option Time) (joliet : Bool) (fuel : ℕ) (in_dir : List ℕ)
      (dirs : List Directory)
      → walk scan fuel [] (root_list in_dir ∷ []) ≡ Walked.walked dirs
      → AllNameable times joliet 0 dirs
  walk-AllNameable times joliet fuel in_dir dirs e = NamedFrom-AllNameable times joliet 0 dirs (
      walk-NamedFrom fuel [] (root_list in_dir ∷ []) dirs (record {}) (inl (refl, refl), record {})
        e)
