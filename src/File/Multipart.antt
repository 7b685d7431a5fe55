-- ===== src/File/Multipart.antt =====
-- An image in parts reads like the parts put together: File::seek and File::read of src/File.cpp.
use ps3netsrv.Prelude.{
  ℕ, zero, suc, ◌+◌, ◌-◌, ◌*◌, ◌/◌, ◌%◌, ◌^◌, ◌≤◌, ◌<◌, ◌≡◌, refl, sym, ap, ap₂, ◌∙◌, arith, true,
  false, ltb, leb, ◌==◌, ◌&&◌, if◌then◌else◌, Bool-cases, ◌⊎◌, inl, inr, some, List, [], ◌∷◌, ◌++◌,
  length, length-take, length-drop, take, drop, drop-add, append-nil,
}
use native.Mathlib.Nat.{suc-mul, zero-mul, mul_comm, mod-le, mod-lt, div-add-mod}
use ps3netsrv.Env.{AbstractFile, RegularFile}
use ps3netsrv.File.{Parts, stored, put_part, read_next, read, seek}

take-append : (n : ℕ) (xs ys : List ℕ) → take n (xs ++ ys) ≡ take n xs ++ take (n - length xs) ys
take-append zero xs ys =
    let none_left : 0 - length xs ≡ 0 = omega arith in sym (ap (λ k. take k ys) none_left)
take-append (suc n) [] ys = let all : suc n ≡ suc n - 0 = omega arith in ap (λ k. take k ys) all
take-append (suc n) (x ∷ xs) ys =
    let less : n - length xs ≡ suc n - length (x ∷ xs) = omega arith in
    ap (λ t. x ∷ t) (take-append n xs ys ∙ ap (λ k. take n xs ++ take k ys) less)

drop-append : (n : ℕ) (xs ys : List ℕ) → drop n (xs ++ ys) ≡ drop n xs ++ drop (n - length xs) ys
drop-append zero xs ys =
    let none_left : 0 - length xs ≡ 0 = omega arith in sym (ap (λ k. xs ++ drop k ys) none_left)
drop-append (suc n) [] ys = let all : suc n ≡ suc n - 0 = omega arith in ap (λ k. drop k ys) all
drop-append (suc n) (x ∷ xs) ys =
    let less : n - length xs ≡ suc n - length (x ∷ xs) = omega arith in
    drop-append n xs ys ∙ ap (λ k. drop n xs ++ drop k ys) less

take-nil : (n : ℕ) → take {A = ℕ} n [] ≡ []
take-nil zero = refl
take-nil (suc n) = refl

-- A window that starts in `c` and ends in the list behind it at most.
take-drop-over :
    (n r : ℕ) (c next rest : List ℕ)
    → r ≤ length c
    → (n - (length c - r) ≤ length next) ⊎ (rest ≡ [])
    → take n (drop r (c ++ (next ++ rest)))
      ≡ take n (drop r c) ++ take (n - length (take n (drop r c))) next
take-drop-over n r c next rest inside fits =
    let none_before : r - length c ≡ 0 = omega arith in
    let k = n - length (drop r c) in
    let count : k ≡ n - length (take n (drop r c)) =
      omega (arith, length-take n (drop r c), length-drop r c) in
    let over : take (k - length next) rest ≡ [] = elim fits [
      | inl short ↦
          let nothing : k - length next ≡ 0 = omega (arith, short, length-drop r c) in
          rw nothing refl
      | inr empty ↦ rw empty (take-nil (k - length next))
    ] in
    ap (take n) (drop-append r c (next ++ rest) ∙ rw none_before refl)
    ∙ take-append n (drop r c) (next ++ rest)
    ∙ ap (λ t. take n (drop r c) ++ t)
        (take-append k next rest ∙ rw over (append-nil (take k next)))
    ∙ ap (λ j. take n (drop r c) ++ take j next) count

drop-all : (xs ys : List ℕ) → drop (length xs) (xs ++ ys) ≡ ys
drop-all [] ys = refl
drop-all (x ∷ xs) ys = drop-all xs ys

-- The contents of `n` parts from `i` on, one behind the other.
module _ {F : AbstractFile} (f : RegularFile F) where
  abbrev pub joined : (ℕ → AbstractFile.Handle F) → ℕ → ℕ → List ℕ
  joined fp i zero = []
  joined fp i (suc n) = RegularFile.content f (fp i) ++ joined fp (suc i) n

  -- Every part but the last has the size of the first.
  pub record Even (p : Parts F) : Type 0 where
    pub sized :
        (i : ℕ) → i + 1 < p.is_multipart → length (RegularFile.content f (p.fp i)) ≡ p.part_size
    pub some_size : 0 < p.part_size

  drop-joined :
      (fp : ℕ → AbstractFile.Handle F) (size : ℕ) (k i m : ℕ)
      → ((j : ℕ) → j < k → length (RegularFile.content f (fp (i + j))) ≡ size)
      → drop (k * size) (joined fp i (k + m)) ≡ joined fp (i + k) m
  drop-joined fp size zero i m sized =
      let none_before : 0 * size ≡ 0 = zero-mul size in
      let all : 0 + m ≡ m = omega arith in
      let here : i + 0 ≡ i = omega arith in rw (none_before, all, here) refl
  drop-joined fp size (suc k) i m sized =
      let c = RegularFile.content f (fp i) in
      let len : length c ≡ size =
        ap (λ j. length (RegularFile.content f (fp j))) (omega arith) ∙ sized 0 (omega arith) in
      let split : suc k * size ≡ length c + k * size = suc-mul k size ∙ omega (arith, len) in
      let behind : drop (length c) (c ++ joined fp (suc i) (k + m)) ≡ joined fp (suc i) (k + m) =
        drop-all c (joined fp (suc i) (k + m)) in
      let next : suc i + k ≡ i + suc k = omega arith in
      let more : suc k + m ≡ suc (k + m) = omega arith in
      rw
        (
          more,
          split,
          drop-add (length c) (k * size) (c ++ joined fp (suc i) (k + m)),
          behind,
          ← next,
        )
        (drop-joined fp size k (suc i) m (λ j h.
          ap (λ x. length (RegularFile.content f (fp x))) (omega arith)
          ∙ sized (suc j) (omega (arith, h))))

  module _ (p : Parts F) (even : Even p) (offset n : ℕ)
      (here : offset / p.part_size < p.is_multipart) (small : offset < 2 ^ 63) where
    abbrev q : ℕ
    q = offset / p.part_size

    abbrev r : ℕ
    r = offset % p.part_size

    abbrev part : ℕ → List ℕ
    part i = RegularFile.content f (p.fp i)

    abbrev h0 : AbstractFile.Handle F
    h0 = (AbstractFile.seek F (p.fp q) r).1

    abbrev sought : Parts F
    sought = record (put_part q h0 p) { index = q }

    r-lt : r < 2 ^ 63
    r-lt = omega (arith, mod-le offset p.part_size, small)

    seek-inside : seek p offset ≡ (true, sought)
    unfolding seek
    seek-inside =
        let inside : leb p.is_multipart q ≡ false = ground (arith, here) in
        rw (seek, inside, RegularFile.seek_ok f (p.fp q) r r-lt) refl

    abbrev got : List ℕ
    got = take n (drop r (part q))

    first_read : (AbstractFile.read F h0 n).0 ≡ some got
    first_read =
        RegularFile.read-eq-take f h0 n
        ∙ ap₂ (λ pos bytes. some (take n (drop pos bytes)))
            (RegularFile.position-seek f (p.fp q) r r-lt) (RegularFile.content-seek f (p.fp q) r)

    next_read :
        (k : ℕ)
        → (AbstractFile.read F (AbstractFile.seek F (p.fp (q + 1)) 0).1 k).0
          ≡ some (take k (part (q + 1)))
    next_read k =
        RegularFile.read-eq-take f (AbstractFile.seek F (p.fp (q + 1)) 0).1 k
        ∙ ap₂ (λ pos bytes. some (take k (drop pos bytes)))
            (RegularFile.position-seek f (p.fp (q + 1)) 0 (omega arith))
            (RegularFile.content-seek f (p.fp (q + 1)) 0)

    read-sought :
        (read sought n).0
        ≡ stored (
            if ltb (length got) n && ltb (q + 1) p.is_multipart
            then got ++ take (n - length got) (part (q + 1))
            else got)
    unfolding read read_next
    read-sought =
        let self : (q == q) ≡ true = ground arith in
        let other : (q + 1 == q) ≡ false = ground arith in
        elim (Bool-cases (ltb (length got) n && ltb (q + 1) p.is_multipart)) [
          | inl over ↦
              rw (read, self, first_read, over, read_next, other, next_read (n - length got)) refl
          | inr within ↦ rw (read, self, first_read, within) refl
        ]

    abbrev whole : List ℕ
    whole = joined p.fp 0 p.is_multipart

    -- Behind the parts before it, the image goes on with the part that the offset lies in.
    whole-drop : drop offset whole ≡ drop r (joined p.fp q (p.is_multipart - q))
    whole-drop =
        let split : q * p.part_size + r ≡ offset =
          ap (λ t. t + r) (mul_comm q p.part_size) ∙ div-add-mod offset p.part_size in
        let count : q + (p.is_multipart - q) ≡ p.is_multipart = omega (arith, here) in
        let start : 0 + q ≡ q = omega arith in
        let before = drop-joined p.fp p.part_size q 0 (p.is_multipart - q) (λ j h.
          ap (λ x. length (part x)) (omega arith) ∙ Even.sized even j (omega (arith, h, here))) in
        let skipped : drop (q * p.part_size) whole ≡ joined p.fp q (p.is_multipart - q) =
          ap (λ m. drop (q * p.part_size) (joined p.fp 0 m)) (sym count)
          ∙ before
          ∙ ap (λ i. joined p.fp i (p.is_multipart - q)) start in
        ap (λ k. drop k whole) (sym split)
        ∙ drop-add (q * p.part_size) r whole
        ∙ ap (drop r) skipped

    last_part : q + 1 ≡ p.is_multipart → take n (drop offset whole) ≡ got
    last_part last =
        let one : p.is_multipart - q ≡ 1 = omega (arith, last) in
        ap (take n) whole-drop ∙ rw (one, append-nil (part q)) refl

    inner_part :
        n ≤ p.part_size
        → q + 1 < p.is_multipart
        → take n (drop offset whole) ≡ got ++ take (n - length got) (part (q + 1))
    inner_part fits more =
        let rest_count = p.is_multipart - q - 2 in
        let two : p.is_multipart - q ≡ suc (suc rest_count) = omega (arith, more) in
        let next : suc q ≡ q + 1 = omega arith in
        let r_inside : r < p.part_size = mod-lt offset (Even.some_size even) in
        let full = Even.sized even q more in
        let rest = joined p.fp (suc (suc q)) rest_count in
        let room : (n - (length (part q) - r) ≤ length (part (q + 1))) ⊎ (rest ≡ []) =
          elim (Bool-cases (rest_count == 0)) [
            | inl none_left ↦
                let zero_left : rest_count ≡ 0 = ground (arith, none_left) in
                inr (rw zero_left refl)
            | inr some_left ↦
                let next_full = Even.sized even (q + 1) (ground (arith, some_left, more)) in
                inl (omega (arith, next_full, fits))
          ] in
        ap (take n) (
          whole-drop
          ∙ ap (λ m. drop r (joined p.fp q m)) two
          ∙ ap (λ i. drop r (part q ++ (part i ++ rest))) next)
        ∙ take-drop-over n r (part q) (part (q + 1)) rest (omega (arith, full, r_inside)) room

    -- For an image in parts of which every part but the last has the size of the first: after a seek to
    -- an offset in one of the parts, which succeeds, a read of at most the size of a part stores what
    -- the same read stores of the parts put together in one file.
    pub read-joined :
        n ≤ p.part_size
        → ((seek p offset).0 ≡ true)
          × ((read (seek p offset).1 n).0
              ≡ stored (take n (drop offset (joined p.fp 0 p.is_multipart))))
    read-joined fits = (
      ap (λ x. x.0) seek-inside,
      ap (λ x. (read x.1 n).0) seek-inside ∙ elim (Bool-cases (ltb (q + 1) p.is_multipart)) [
        | inl more ↦
            let inner = inner_part fits (ground (arith, more)) in
            elim (Bool-cases (ltb (length got) n)) [
              | inl short ↦ read-sought ∙ rw (short, more) (ap stored (sym inner))
              | inr enough ↦
                  let nothing : n - length got ≡ 0 = ground (arith, enough) in
                  read-sought ∙ rw enough (ap stored (sym (inner ∙ rw nothing (append-nil got))))
            ]
        | inr last ↦
            let single = last_part (ground (arith, last, here)) in
            elim (Bool-cases (ltb (length got) n)) [
              | inl short ↦ read-sought ∙ rw (short, last) (ap stored (sym single))
              | inr enough ↦ read-sought ∙ rw enough (ap stored (sym single))
            ]
      ],
    )
