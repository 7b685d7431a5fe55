-- ===== src/Viso/Records/Pack.antt =====
-- The content of a directory that buildContent of src/VIsoFile.cpp has put, and how a loop over its
-- records goes from one to the next.
use ps3netsrv.Prelude.{
  ℕ, zero, suc, ◌+◌, ◌-◌, ◌/◌, ◌%◌, ◌<◌, ◌≤◌, ◌≡◌, ◌⊎◌, refl, sym, ap, ◌∙◌, arith, true, ltb, leb,
  ◌==◌, Bool-cases, inl, inr, none, some, List, [], ◌∷◌, ◌++◌, length, get_or, drop, replicate,
  length-append, length-replicate, append_assoc, drop_first,
}
use ps3netsrv.Viso.{round_up}
use ps3netsrv.Viso.Records.{
  aligned, put_record, put_records, padded, starts_record, next_record, temp_buf_size,
}

-- A record as the loops read it: its first byte is its length, and its identifier lies within it.
pub record IsRecord (r : List ℕ) : Type 0 where
  pub whole : get_or r 0 0 ≡ length r
  pub short : length r ≤ 255
  pub fixed_part : 34 ≤ length r
  pub identifier : 33 + get_or r 32 0 ≤ length r

abbrev pub Records : List (List ℕ) → Type 0
Records [] = Unit {0}
Records (r ∷ rs) = IsRecord r × Records rs

-- The content of a directory from position `pos` on, up to the end of a sector.
unfoldable pub pack : ℕ → List (List ℕ) → List ℕ
pack pos [] = replicate (round_up pos - pos) 0
pack pos (r ∷ rs) =
    let offs = aligned pos (length r) in
    replicate (offs - pos) 0 ++ (r ++ pack (offs + length r) rs)

-- What buildContent puts is that content.
pub put_records-pack :
    (bytes out : List ℕ) (rs : List (List ℕ))
    → put_records bytes rs ≡ some out
    → padded out ≡ bytes ++ pack (length bytes) rs
unfolding put_records put_record pack
put_records-pack bytes out [] e = let same : bytes ≡ out = cc e in rw (← same) refl
put_records-pack bytes out (r ∷ rs) e =
    let offs = aligned (length bytes) (length r) in
    elim (Bool-cases (leb temp_buf_size (offs + length r))) [
      | inl full ↦ absurd (ground (arith, rw (put_records, full) at e))
      | inr room ↦
          let more = bytes ++ (replicate (offs - length bytes) 0 ++ r) in
          let later = put_records-pack more out rs (rw (put_records, room) at e) in
          let behind : length more ≡ offs + length r = ground (
            arith,
            length-append bytes (replicate (offs - length bytes) 0 ++ r),
            length-append (replicate (offs - length bytes) 0) r,
            length-replicate {A = ℕ} (offs - length bytes) 0,
          ) in
          let zeros = replicate {A = ℕ} (offs - length bytes) 0 in
          let rest = pack (offs + length r) rs in
          later
          ∙ (ap (λ n. more ++ pack n rs) behind
              ∙ (append_assoc bytes (zeros ++ r) rest
                  ∙ ap (λ l. bytes ++ l) (append_assoc zeros r rest)))
    ]

-- The gap before a record is none, or the rest of a sector that is not at its start.
gap_cases :
    (pos len : ℕ)
    → len ≤ 255
    → (aligned pos len - pos ≡ 0) ⊎ ((aligned pos len - pos ≡ 2048 - pos % 2048) × (0 < pos % 2048))
gap_cases pos len le = elim (Bool-cases (ltb (pos / 2048) ((pos + len) / 2048))) [
  | inl crosses ↦ rw crosses (inr (ground (arith, crosses, le), ground (arith, crosses, le)))
  | inr fits ↦ rw fits (inl (omega arith))
]

pub aligned-gap : (pos len : ℕ) → pos + (aligned pos len - pos) ≡ aligned pos len
aligned-gap pos len = ground arith

starts_record-append :
    (r tail : List ℕ) → get_or r 0 0 ≡ length r → 0 < length r → starts_record (r ++ tail) ≡ true
starts_record-append [] tail whole positive = absurd (omega (arith, positive))
starts_record-append (n ∷ r) tail whole positive = ground (arith, whole)

next_record-starts : (pos : ℕ) (xs : List ℕ) → starts_record xs ≡ true → next_record pos xs ≡ some 0
next_record-starts pos [] starts = absurd (ground (arith, starts))
next_record-starts pos (n ∷ xs) starts = rw starts refl

-- A loop that stands before the rest of a sector finds the record behind it.
next_record-gap :
    (gap pos : ℕ) (xs : List ℕ)
    → (gap ≡ 0) ⊎ ((gap ≡ 2048 - pos % 2048) × (0 < pos % 2048))
    → starts_record xs ≡ true
    → next_record pos (replicate gap 0 ++ xs) ≡ some gap
next_record-gap zero pos xs cases starts = next_record-starts pos xs starts
next_record-gap (suc g) pos xs (inl none_left) starts = absurd (omega (arith, none_left))
next_record-gap (suc g) pos xs (inr (e, inside)) starts =
    let behind : drop g (replicate g 0 ++ xs) ≡ xs =
      drop_first g (replicate g 0) xs (sym (length-replicate {A = ℕ} g 0)) in
    rw (← e, behind, starts) refl

drop-replicate : (n : ℕ) → drop n (replicate {A = ℕ} n 0) ≡ []
drop-replicate zero = refl
drop-replicate (suc n) = drop-replicate n

next_record-blank :
    (k pos : ℕ) → (k ≡ 0) ⊎ (k ≡ 2048 - pos % 2048) → next_record pos (replicate k 0) ≡ none
next_record-blank zero pos cases = refl
next_record-blank (suc g) pos (inl none_left) = absurd (omega (arith, none_left))
next_record-blank (suc g) pos (inr e) = rw (← e, drop-replicate g) refl

tail_cases : (pos : ℕ) → (round_up pos - pos ≡ 0) ⊎ (round_up pos - pos ≡ 2048 - pos % 2048)
tail_cases pos = elim (Bool-cases (pos % 2048 == 0)) [
  | inl at_start ↦ inl (ground (arith, at_start))
  | inr inside ↦ inr (ground (arith, inside))
]

-- Where a loop goes from position `pos` of the content.
pub next_record-pack :
    (pos : ℕ) (r : List ℕ) (rs : List (List ℕ))
    → IsRecord r
    → next_record pos (pack pos (r ∷ rs)) ≡ some (aligned pos (length r) - pos)
unfolding pack
next_record-pack pos r rs ok =
    let rest = pack (aligned pos (length r) + length r) rs in
    next_record-gap (aligned pos (length r) - pos) pos (r ++ rest)
      (gap_cases pos (length r) ok.short)
      (starts_record-append r rest ok.whole (omega (arith, ok.fixed_part)))

pub next_record-pack_end : (pos : ℕ) → next_record pos (pack pos []) ≡ none
unfolding pack
next_record-pack_end pos = next_record-blank (round_up pos - pos) pos (tail_cases pos)
