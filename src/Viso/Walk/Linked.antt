-- ===== src/Viso/Walk/Linked.antt =====
-- The links of the list that the walk of VIsoFile::build makes.
use ps3netsrv.Prelude.{
  ℕ, zero, suc, ◌+◌, ◌<◌, ◌≤◌, ◌≡◌, refl, sym, ap, ◌∙◌, arith, true, false, ◌==◌, if◌then◌else◌,
  Bool-cases, Option-cases, inl, inr, List, [], ◌∷◌, ◌++◌, map, length, replicate, append_assoc,
  append-nil, length-append, length-map,
}
use ps3netsrv.Viso.Content.{Directory}
use ps3netsrv.Viso.Walk.{
  Scan, select_directories, selected, nodes_below, numbers, Walked, walk, root_list,
}

-- The numbers, from `k` on, of those that have parent `i`.
abbrev pub with_parent : ℕ → ℕ → List ℕ → List ℕ
with_parent i k [] = []
with_parent i k (p ∷ ps) = let rest = with_parent i (suc k) ps in if p == i then k ∷ rest else rest

-- The directories from number `k` on list as children those that have them as parent.
abbrev pub ChildrenFrom : List ℕ → ℕ → List Directory → Type 0
ChildrenFrom ps k [] = Unit {0}
ChildrenFrom ps k (d ∷ ds) = (d.children ≡ with_parent k 1 ps) × ChildrenFrom ps (suc k) ds

-- Each parent, of the directories from number `k` on, comes before.
abbrev pub EarlierFrom : ℕ → List ℕ → Type 0
EarlierFrom k [] = Unit {0}
EarlierFrom k (p ∷ ps) = (p < k) × EarlierFrom (suc k) ps

abbrev parents : List Directory → List ℕ
parents ds = map (λ d. Directory.parent d) ds

abbrev AllBelow : ℕ → List ℕ → Type 0
AllBelow n [] = Unit {0}
AllBelow n (p ∷ ps) = (p < n) × AllBelow n ps

with_parent-append :
    (i k : ℕ) (ps qs : List ℕ)
    → with_parent i k (ps ++ qs) ≡ with_parent i k ps ++ with_parent i (k + length ps) qs
with_parent-append i k [] qs = let e : k + 0 ≡ k = omega arith in rw e refl
with_parent-append i k (p ∷ ps) qs =
    let e : k + suc (length ps) ≡ suc k + length ps = omega arith in
    let ih = with_parent-append i (suc k) ps qs in
    elim (Bool-cases (p == i)) [
      | inl hit ↦ rw (hit, e) (ap (λ l. k ∷ l) ih)
      | inr miss ↦ rw (miss, e) ih
    ]

with_parent-below : (n k : ℕ) (ps : List ℕ) → AllBelow n ps → with_parent n k ps ≡ []
with_parent-below n k [] low = refl
with_parent-below n k (p ∷ ps) (lt, low) =
    let other : (p == n) ≡ false = ground (arith, lt) in
    rw other (with_parent-below n (suc k) ps low)

with_parent-other :
    (i n k : ℕ) (names : List (List ℕ)) → i < n → with_parent i k (replicate (length names) n) ≡ []
with_parent-other i n k [] lt = refl
with_parent-other i n k (name ∷ names) lt =
    let other : (n == i) ≡ false = ground (arith, lt) in
    rw other (with_parent-other i n (suc k) names lt)

with_parent-own :
    (n k : ℕ) (names : List (List ℕ))
    → with_parent n k (replicate (length names) n) ≡ numbers k names
unfolding numbers
with_parent-own n k [] = refl
with_parent-own n k (name ∷ names) =
    let own : (n == n) ≡ true = ground arith in
    rw own (ap (λ l. k ∷ l) (with_parent-own n (suc k) names))

AllBelow-snoc :
    (n : ℕ) (ps : List ℕ) (k : ℕ) → AllBelow n ps → AllBelow (suc n) (ps ++ replicate k n)
AllBelow-snoc n [] zero low = low
AllBelow-snoc n [] (suc k) low = (omega arith, AllBelow-snoc n [] k low)
AllBelow-snoc n (p ∷ ps) k (lt, low) = (omega (arith, lt), AllBelow-snoc n ps k low)

EarlierFrom-snoc :
    (i : ℕ) (ps : List ℕ) (n k : ℕ)
    → EarlierFrom i ps
    → n < i + length ps
    → EarlierFrom i (ps ++ replicate k n)
EarlierFrom-snoc i [] n zero early lt = early
EarlierFrom-snoc i [] n (suc k) early lt =
    (omega (arith, lt), EarlierFrom-snoc (suc i) [] n k early (omega (arith, lt)))
EarlierFrom-snoc i (p ∷ ps) n k (first, early) lt =
    (first, EarlierFrom-snoc (suc i) ps n k early (omega (arith, lt)))

-- More nodes below directory `n` change nothing for those before it.
children-more :
    (ps : List ℕ) (names : List (List ℕ)) (n k : ℕ) (ds : List Directory)
    → k + length ds ≤ n
    → ChildrenFrom ps k ds
    → ChildrenFrom (ps ++ replicate (length names) n) k ds
children-more ps names n k [] le ok = ok
children-more ps names n k (d ∷ ds) le (first, ok) =
    let one = with_parent-append k 1 ps (replicate (length names) n) in
    let nothing = with_parent-other k n (1 + length ps) names (omega (arith, le)) in
    (
      first
          ∙ sym
              (one ∙ (ap (λ l. with_parent k 1 ps ++ l) nothing ∙ append-nil (with_parent k 1 ps))),
      children-more ps names n (suc k) ds (omega (arith, le)) ok,
    )

children-snoc :
    (ps : List ℕ) (k : ℕ) (ds : List Directory) (d : Directory)
    → ChildrenFrom ps k ds
    → d.children ≡ with_parent (k + length ds) 1 ps
    → ChildrenFrom ps k (ds ++ d ∷ [])
children-snoc ps k [] d ok last = let e : k + 0 ≡ k = omega arith in (rw e at last, ok)
children-snoc ps k (b ∷ ds) d (first, ok) last =
    let e : k + suc (length ds) ≡ suc k + length ds = omega arith in
    (first, children-snoc ps (suc k) ds d ok (rw e at last))

parents-append : (ds es : List Directory) → parents (ds ++ es) ≡ parents ds ++ parents es
parents-append [] es = refl
parents-append (d ∷ ds) es = ap (λ l. d.parent ∷ l) (parents-append ds es)

parents-nodes :
    (d : Directory) (n : ℕ) (names : List (List ℕ))
    → parents (nodes_below d n names) ≡ replicate (length names) n
unfolding nodes_below
parents-nodes d n [] = refl
parents-nodes d n (name ∷ names) = ap (λ l. n ∷ l) (parents-nodes d n names)

-- What holds in every round of the walk.
record Going (ps : List ℕ) (done todo : List Directory) : Type 0 where
  all : parents (done ++ todo) ≡ 0 ∷ ps
  early : EarlierFrom 1 ps
  low : AllBelow (length done) ps
  linked : ChildrenFrom ps 0 done

Going-step :
    (ps : List ℕ) (done todo : List Directory) (d : Directory) (names : List (List ℕ))
    → Going ps done (d ∷ todo)
    → let n = length done in
      Going
        (ps ++ replicate (length names) n)
        (done ++ record d { children = numbers (n + suc (length todo)) names } ∷ [])
        (todo ++ nodes_below d n names)
Going-step ps done todo d names g =
    let n = length done in
    let new = nodes_below d n names in
    let more : List ℕ = replicate (length names) n in
    let d' = record d { children = numbers (n + suc (length todo)) names } in
    let before : parents done ++ d.parent ∷ parents todo ≡ 0 ∷ ps =
      sym (parents-append done (d ∷ todo)) ∙ g.all in
    let count : n + suc (length todo) ≡ 1 + length ps = omega (
      arith,
      ap length g.all,
      length-map (done ++ d ∷ todo) (λ d. Directory.parent d),
      length-append done (d ∷ todo),
    ) in
    let len : length (done ++ d' ∷ []) ≡ suc n = omega (arith, length-append done (d' ∷ [])) in
    let from_zero : 0 + n ≡ n = omega arith in
    record {
      all =
          ap parents (append_assoc done (d' ∷ []) (todo ++ new))
          ∙ (parents-append done (d' ∷ (todo ++ new))
              ∙ (ap (λ l. parents done ++ d.parent ∷ l)
                    (parents-append todo new
                      ∙ ap (λ l. parents todo ++ l) (parents-nodes d n names))
                  ∙ (sym (append_assoc (parents done) (d.parent ∷ parents todo) more)
                      ∙ ap (λ l. l ++ more) before)));
      early = EarlierFrom-snoc 1 ps n (length names) g.early (omega (arith, count));
      low = rw len (AllBelow-snoc n ps (length names) g.low);
      linked =
          children-snoc (ps ++ more) 0 done d'
            (children-more ps names n 0 done (omega arith) g.linked)
            (sym (
              ap (λ i. with_parent i 1 (ps ++ more)) from_zero
              ∙ (with_parent-append n 1 ps more
                  ∙ (ap (λ l. l ++ with_parent n (1 + length ps) more)
                        (with_parent-below n 1 ps g.low)
                      ∙ (with_parent-own n (1 + length ps) names
                          ∙ ap (λ k. numbers k names) (sym count))))));
    }

-- What the walk leaves: the first directory is its own parent, every other one comes behind its
-- parent, and each lists as its children, in order, those that have it as parent.
pub record Linked (dirs : List Directory) : Type 0 where
  pub parents_behind : List ℕ
  pub first : map (λ d. Directory.parent d) dirs ≡ 0 ∷ parents_behind
  pub earlier : EarlierFrom 1 parents_behind
  pub children : ChildrenFrom parents_behind 0 dirs

module _ (scan : Scan) where
  walk-Going :
      (fuel : ℕ) (ps : List ℕ) (done todo dirs : List Directory)
      → Going ps done todo
      → walk scan fuel done todo ≡ Walked.walked dirs
      → Linked dirs
  unfolding walk
  walk-Going fuel ps done [] dirs g e =
      let same : done ≡ dirs = cc e in
      rw (← same) (record {
        parents_behind = ps;
        first = ap parents (sym (append-nil done)) ∙ g.all;
        earlier = g.early;
        children = g.linked;
      })
  walk-Going zero ps done (d ∷ todo) dirs g e = absurd (ground (arith, e))
  walk-Going (suc fuel) ps done (d ∷ todo) dirs g e = elim (Option-cases (scan d.path)) [
    | inl bad ↦ absurd (ground (arith, rw (walk, bad) at e))
    | inr (entries, found) ↦
        let names = selected select_directories entries in
        walk-Going fuel (ps ++ replicate (length names) (length done))
          (done ++ record d { children = numbers (length done + suc (length todo)) names } ∷ [])
          (todo ++ nodes_below d (length done) names) dirs (Going-step ps done todo d names g)
          (rw (walk, found) at e)
  ]

  -- In the list that the walk leaves, the root comes first and is its own parent, every other directory
  -- comes behind its parent, and each has as its children, in the order of the list, those directories
  -- that have it as parent.
  pub walk-Linked :
      (fuel : ℕ) (in_dir : List ℕ) (dirs : List Directory)
      → walk scan fuel [] (root_list in_dir ∷ []) ≡ Walked.walked dirs
      → Linked dirs
  walk-Linked fuel in_dir dirs e =
      walk-Going fuel [] [] (root_list in_dir ∷ []) dirs
        (record { all = refl; early = record {}; low = record {}; linked = record {} }) e
