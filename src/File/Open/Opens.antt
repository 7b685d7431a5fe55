-- ===== src/File/Open/Opens.antt =====
-- The parts that File::open of src/File.cpp has opened.
use ps3netsrv.Prelude.{
  ℕ, zero, suc, ◌+◌, ◌<◌, ◌≤◌, ◌≡◌, refl, sym, ap, ◌∙◌, arith, false, ◌==◌, if◌then◌else◌,
  Bool-cases, Option-cases, inl, inr, Option, none, some, List,
}
use ps3netsrv.Env.{AbstractFile, Stat}
use ps3netsrv.File.{Parts}
use ps3netsrv.File.Open.{part_path, open_parts, open_multipart}

-- What the loop gives from number `i` on.
record Opens {Handle : Type 0} (open_file : List ℕ → Option Handle) (rounds i : ℕ) (path : List ℕ)
    (fp fp' : ℕ → Handle) (parts : ℕ) : Type 0 where
  more : i ≤ parts
  bounded : parts ≤ i + rounds
  kept : (j : ℕ) → j < i → fp' j ≡ fp j
  opened : (j : ℕ) → i ≤ j → j < parts → open_file (part_path path j) ≡ some (fp' j)
  ended : parts < i + rounds → open_file (part_path path parts) ≡ none

module _ {Handle : Type 0} (open_file : List ℕ → Option Handle) where
  Opens-step :
      (rounds i : ℕ) (path : List ℕ) (fp fp' : ℕ → Handle) (parts : ℕ) (h : Handle)
      → open_file (part_path path i) ≡ some h
      → Opens open_file rounds (suc i) path (λ j. if j == i then h else fp j) fp' parts
      → Opens open_file (suc rounds) i path fp fp' parts
  Opens-step rounds i path fp fp' parts h found o = record {
    more = omega (arith, o.more);
    bounded = omega (arith, o.bounded);
    kept = λ j lt.
        let other : (j == i) ≡ false = ground (arith, lt) in
        o.kept j (omega (arith, lt)) ∙ ap (λ b. if b then h else fp j) other;
    opened = λ j le lt. elim (Bool-cases (j == i)) [
      | inl here ↦
          let e : j ≡ i = ground (arith, here) in
          let own : fp' j ≡ h =
            o.kept j (omega (arith, e)) ∙ ap (λ b. if b then h else fp j) here in
          ap (λ k. open_file (part_path path k)) e ∙ (found ∙ ap some (sym own))
      | inr other ↦ o.opened j (ground (arith, le, other)) lt
    ];
    ended = λ lt. o.ended (omega (arith, lt));
  }

  open_parts-Opens :
      (rounds i : ℕ) (path : List ℕ) (fp : ℕ → Handle)
      → let (fp', parts) = open_parts open_file rounds i path fp i in
        Opens open_file rounds i path fp fp' parts
  unfolding open_parts
  open_parts-Opens zero i path fp = record {
    more = omega arith;
    bounded = omega arith;
    kept = λ j lt. refl;
    opened = λ j le lt. absurd (omega (arith, le, lt));
    ended = λ lt. absurd (omega (arith, lt));
  }
  open_parts-Opens (suc rounds) i path fp = elim (Option-cases (open_file (part_path path i))) [
    | inl missing ↦
        rw (open_parts, missing)
          (record {
            more = omega arith;
            bounded = omega arith;
            kept = λ j lt. refl;
            opened = λ j le lt. absurd (omega (arith, le, lt));
            ended = λ lt. missing;
          })
    | inr (h, found) ↦
        let later =
          open_parts open_file rounds (suc i) path (λ j. if j == i then h else fp j) (suc i) in
        rw (open_parts, found)
          (Opens-step rounds i path fp later.0 later.1 h found
            (open_parts-Opens rounds (suc i) path (λ j. if j == i then h else fp j)))
  ]

-- The parts of an image.
pub record IsOpened (F : AbstractFile) (open_file : List ℕ → Option (AbstractFile.Handle F))
    (path : List ℕ) (fd : AbstractFile.Handle F) (p : Parts F) : Type 0 where
  pub some_part : 1 ≤ p.is_multipart
  pub at_most : p.is_multipart ≤ 64
  pub first : p.fp 0 ≡ (AbstractFile.fstat F fd).1
  pub each : (j : ℕ) → 1 ≤ j → j < p.is_multipart → open_file (part_path path j) ≡ some (p.fp j)
  pub last : p.is_multipart < 64 → open_file (part_path path p.is_multipart) ≡ none
  pub at_start : p.index ≡ 0
  pub measured :
      (st : Stat) × ((AbstractFile.fstat F fd).0 ≡ some st) × (p.part_size ≡ st.file_size)

-- Where File::open opens an image in parts: there are at least one and at most 64 of them, the first is
-- the file that was opened, and each other descriptor is that of the path with its number. If there are
-- fewer than 64, the path with the next number cannot be opened. The image stands at its first
-- part, and the size of a part is that of the first file.
pub open_multipart-IsOpened :
    (F : AbstractFile) (open_file : List ℕ → Option (AbstractFile.Handle F)) (path : List ℕ)
    (fd : AbstractFile.Handle F) (p : Parts F)
    → open_multipart F open_file path fd ≡ some p
    → IsOpened F open_file path fd p
unfolding open_multipart
open_multipart-IsOpened F open_file path fd p e = elim (Option-cases (AbstractFile.fstat F fd).0) [
  | inl bad ↦ absurd (ground (arith, rw (open_multipart, bad) at e))
  | inr (st, known) ↦
      let h = (AbstractFile.fstat F fd).1 in
      let result = open_parts open_file 63 1 path (λ j. h) 1 in
      let o = open_parts-Opens open_file 63 1 path (λ j. h) in
      let whole : Parts F = record {
        fp = result.0;
        is_multipart = result.1;
        part_size = st.file_size;
        index = 0;
      } in
      let same_p : whole ≡ p = cc (rw (open_multipart, known) at e) in
      let start : IsOpened F open_file path fd whole = record {
        some_part = o.more;
        at_most = omega (arith, o.bounded);
        first = o.kept 0 (omega arith);
        each = o.opened;
        last = λ lt. o.ended (omega (arith, lt));
        at_start = refl;
        measured = (st, known, refl);
      } in
      rw (← same_p) start
]
