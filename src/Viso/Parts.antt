-- ===== src/Viso/Parts.antt =====
-- getFileSizeAndProcessMultipart of src/VIsoFile.cpp on the first of several parts.
use ps3netsrv.Prelude.{
  ℕ, zero, suc, ◌+◌, ◌-◌, ◌≤◌, ◌<◌, ◌≡◌, refl, sym, ap, ◌∙◌, arith, true, false, none, some, List,
  [], ◌∷◌, ◌++◌, length, set, take, drop, ltb,
}
use ps3netsrv.Viso.Build.{Stats, first_part, file_size, add_parts, renumber}

-- ".66010".
abbrev pub misnumbered : List ℕ
misnumbered = 46 ∷ 54 ∷ 54 ∷ 48 ∷ 49 ∷ 48 ∷ []

drop-length : (base tail : List ℕ) → drop (length base) (base ++ tail) ≡ tail
drop-length [] tail = refl
drop-length (b ∷ base) tail =
    rw (sym (drop-step (length base) b (base ++ tail))) (drop-length base tail)
  where
    drop-step : (n b : ℕ) (xs : List ℕ) → drop (suc n) (b ∷ xs) ≡ drop n xs
    drop-step n b xs = refl

set-append :
    (base tail : List ℕ) (i v : ℕ) → set (base ++ tail) (length base + i) v ≡ base ++ set tail i v
set-append [] tail i v =
    let none_before : 0 + i ≡ i = omega arith in ap (λ j. set tail j v) none_before
set-append (b ∷ base) tail i v =
    let one_more : length (b ∷ base) + i ≡ suc (length base + i) = omega arith in
    ap (λ j. set (b ∷ (base ++ tail)) j v) one_more ∙ ap (λ t. b ∷ t) (set-append base tail i v)

take-append : (base tail : List ℕ) (n : ℕ) → n ≤ length base → take n (base ++ tail) ≡ take n base
take-append base tail zero h = refl
take-append [] tail (suc n) h = absurd (omega (arith, h))
take-append (b ∷ base) tail (suc n) h = ap (λ t. b ∷ t) (take-append base tail n (omega (arith, h)))

renumber-first_part :
    (base : List ℕ)
    → 0 < length base
    → renumber (base ++ first_part) (length base + 5) 1 ≡ base ++ misnumbered
renumber-first_part base h =
    let four : length base + 5 - 6 + 4 ≡ length base + 3 = omega (arith, h) in
    let five : length base + 5 - 6 + 5 ≡ length base + 4 = omega (arith, h) in
    rw (four, five, set-append base first_part 3 48) (set-append base (set first_part 3 48) 4 49)

parts-first_part :
    (stat : Stats) (base : List ℕ) (size : ℕ)
    → 0 < length base
    → stat (base ++ misnumbered) ≡ none
    → add_parts stat 99 1 (length base + 5) (base ++ first_part) size ≡ (size, base ++ misnumbered)
unfolding add_parts
parts-first_part stat base size h missing =
    rw (add_parts, renumber-first_part base h, missing)
      (ap (λ path. (size, path)) (renumber-first_part base h))

-- Called as `build` calls it, with a length that is one less than the path's, the function looks for
-- the second part of `base`.66600 under the name `base`.66010: where no file has that name, the size
-- is that of the first part, whatever the sizes of `base`.66601 and so on, and the path is cut one
-- byte before the dot.
pub file_size-first_part :
    (stat : Stats) (base : List ℕ) (size : ℕ)
    → 0 < length base
    → stat (base ++ first_part) ≡ some size
    → stat (base ++ misnumbered) ≡ none
    → file_size stat (base ++ first_part) true (length base + 5)
      ≡ some (size, take (length base - 1) base)
unfolding file_size
file_size-first_part stat base size h found missing =
    let enough : ltb (length base + 5) 6 ≡ false = ground (arith, h) in
    let dot : length base + 5 - 6 + 1 ≡ length base = omega (arith, h) in
    let before : length base + 5 - 6 ≡ length base - 1 = omega (arith, h) in
    let cut : take (length base - 1) (base ++ misnumbered) ≡ take (length base - 1) base =
      take-append base misnumbered (length base - 1) (omega arith) in
    rw
      (
        file_size,
        found,
        enough,
        dot,
        drop-length base first_part,
        parts-first_part stat base size h missing,
        before,
        cut,
      )
      refl
