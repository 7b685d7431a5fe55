-- ===== src/Viso/Volume/Fixed.antt =====
-- fixLba of src/VIsoFile.cpp moves the block of every directory and keeps the sizes.
use ps3netsrv.Prelude.{
  ℕ, zero, suc, ◌+◌, ◌/◌, ◌%◌, ◌^◌, ◌<◌, ◌≤◌, ◌≡◌, refl, sym, ap, ◌∙◌, arith, Option-cases, inl,
  inr, List, [], ◌∷◌, ◌++◌, length, get_or, take, drop, length-append, length-take, length-drop,
}
use ps3netsrv.Wire.{be32, load32}
use ps3netsrv.Wire.ByteOrder.{be32-be32, be32-lt}
use ps3netsrv.Viso.Records.{next_record, moved_bytes, move_record, fix_dir_lba}
use ps3netsrv.Viso.Records.Packed.{move_record-eq}
use ps3netsrv.Viso.Tables.Entries.{load32-store32}
use ps3netsrv.Viso.Content.Located.{get_or_in, get_or-take_append, Front, Placed, sectors_of}
use ps3netsrv.Viso.Tables.{fix_contents}

get_or-drop : (n : ℕ) (xs : List ℕ) (i : ℕ) → get_or (drop n xs) i 0 ≡ get_or xs (n + i) 0
get_or-drop zero xs i = let e : 0 + i ≡ i = omega arith in rw e refl
get_or-drop (suc n) [] i = refl
get_or-drop (suc n) (x ∷ xs) i =
    let e : suc n + i ≡ suc (n + i) = omega arith in rw e (get_or-drop n xs i)

module _ (dir_lba files_lba : ℕ) where
  length-move : (r : List ℕ) → length (move_record dir_lba files_lba r) ≡ length r
  length-move r = ground (
    arith,
    length-take (length r) (moved_bytes dir_lba files_lba r),
    length-append (take 2 r),
    length-take 2 r,
    length-drop 10 r,
  )

  -- fixDirLba changes no size.
  pub length-fix_dir_lba :
      (fuel pos : ℕ) (rest : List ℕ)
      → length (fix_dir_lba fuel dir_lba files_lba pos rest) ≡ length rest
  unfolding fix_dir_lba
  length-fix_dir_lba zero pos rest = refl
  length-fix_dir_lba (suc fuel) pos rest = elim (Option-cases (next_record pos rest)) [
    | inl last ↦ rw (fix_dir_lba, last) refl
    | inr (gap, next) ↦
        let r = move_record dir_lba files_lba (drop gap rest) in
        let n = get_or r 0 0 in
        let later = fix_dir_lba fuel dir_lba files_lba (pos + gap + n) (drop n r) in
        rw (fix_dir_lba, next)
          (ground (
            arith,
            length-append (take gap rest) (take n r ++ later),
            length-append (take n r) later,
            length-take gap rest,
            length-take n r,
            length-drop n r,
            length-drop gap rest,
            length-move (drop gap rest),
            length-fix_dir_lba fuel (pos + gap + n) (drop n r),
          ))
  ]

  fix_40 :
      (fuel : ℕ) (c r : List ℕ)
      → move_record dir_lba files_lba (40 ∷ c) ≡ r
      → get_or r 0 0 ≡ 40
      → fix_dir_lba (suc fuel) dir_lba files_lba 0 (40 ∷ c)
        ≡ take 40 r ++ fix_dir_lba fuel dir_lba files_lba 40 (drop 40 r)
  unfolding fix_dir_lba
  fix_40 fuel c r moved head =
      ap
        (λ l.
          take (get_or l 0 0) l
          ++ fix_dir_lba fuel dir_lba files_lba (get_or l 0 0) (drop (get_or l 0 0) l))
        moved
      ∙ ap (λ n. take n r ++ fix_dir_lba fuel dir_lba files_lba n (drop n r)) head

  -- One round of fixDirLba at the start of a content.
  fix_first :
      (fuel h : ℕ) (c r : List ℕ)
      → h ≡ 40
      → move_record dir_lba files_lba (h ∷ c) ≡ r
      → get_or r 0 0 ≡ 40
      → fix_dir_lba (suc fuel) dir_lba files_lba 0 (h ∷ c)
        ≡ take 40 r ++ fix_dir_lba fuel dir_lba files_lba 40 (drop 40 r)
  fix_first fuel h c r first moved head =
      ap (λ n. fix_dir_lba (suc fuel) dir_lba files_lba 0 (n ∷ c)) first
      ∙ fix_40 fuel c r (ap (λ n. move_record dir_lba files_lba (n ∷ c)) (sym first) ∙ moved) head

  -- The first record of a content is moved as that of a directory.
  pub fix_dir_lba-Front :
      (s fuel : ℕ) (c : List ℕ)
      → Front s c
      → s + dir_lba < 2 ^ 32
      → Front (s + dir_lba) (fix_dir_lba (suc fuel) dir_lba files_lba 0 c)
  fix_dir_lba-Front s fuel [] f fits = absurd (omega (arith, f.first))
  fix_dir_lba-Front s fuel (a ∷ []) f fits =
      absurd (omega (arith, get_or_in (a ∷ []) 32 (omega (arith, f.id_len))))
  fix_dir_lba-Front s fuel (a ∷ (b ∷ c)) f fits =
      let whole = a ∷ (b ∷ c) in
      let long = get_or_in whole 32 (omega (arith, f.id_len)) in
      let long2 : 34 ≤ length whole = omega (arith, long, f.sectors) in
      let r = moved_bytes dir_lba files_lba whole in
      let later = fix_dir_lba fuel dir_lba files_lba 40 (drop 40 r) in
      let shape =
        fix_first fuel a (b ∷ c) r f.first (move_record-eq dir_lba files_lba whole long2) f.first in
      let result = take 40 r ++ later in
      let len : length r ≡ length whole =
        ap length (sym (move_record-eq dir_lba files_lba whole long2)) ∙ length-move whole in
      let keeps = λ (i : ℕ) (lt : i < 40).
        get_or-take_append 40 r later i lt (omega (arith, len, long, f.sectors)) in
      let low : load32 whole 2 ≡ s =
        ap (λ l. load32 l 0) f.lsb ∙ load32-store32 s (omega (arith, fits)) in
      let high : load32 whole 6 ≡ be32 s =
        ap (λ l. load32 l 0) f.msb ∙ load32-store32 (be32 s) (be32-lt s) in
      let small : (s + dir_lba) % 2 ^ 32 ≡ s + dir_lba = omega (arith, fits) in
      let back = be32-be32 s (omega (arith, fits)) in
      let same_len : length result ≡ length whole =
        ap length (sym shape) ∙ length-fix_dir_lba (suc fuel) 0 whole in
      rw shape (record {
        lsb =
            rw
              (
                keeps 2 (omega arith),
                keeps 3 (omega arith),
                keeps 4 (omega arith),
                keeps 5 (omega arith),
                f.flags,
                low,
                small,
              )
              refl;
        msb =
            rw
              (
                keeps 6 (omega arith),
                keeps 7 (omega arith),
                keeps 8 (omega arith),
                keeps 9 (omega arith),
                f.flags,
                high,
                back,
                small,
              )
              refl;
        first = keeps 0 (omega arith) ∙ f.first;
        id_len = keeps 32 (omega arith) ∙ (get_or-drop 8 c 22 ∙ f.id_len);
        id = keeps 33 (omega arith) ∙ (get_or-drop 8 c 23 ∙ f.id);
        flags = keeps 25 (omega arith) ∙ (get_or-drop 8 c 15 ∙ f.flags);
        sectors = omega (arith, same_len, f.sectors);
        small = omega (arith, same_len, f.small);
      })

  fixed_Front :
      (s : ℕ) (c : List ℕ)
      → Front s c
      → s + dir_lba < 2 ^ 32
      → Front (s + dir_lba) (fix_dir_lba (length c) dir_lba files_lba 0 c)
  fixed_Front s [] f fits = absurd (omega (arith, f.first))
  fixed_Front s (h ∷ c) f fits = fix_dir_lba-Front s (length c) (h ∷ c) f fits

  -- Every content stands where its first record says, counted from the start of the image.
  pub fix_contents-Placed :
      (s : ℕ) (cs : List (List ℕ))
      → Placed s cs
      → s + sectors_of cs + dir_lba < 2 ^ 32
      → Placed (s + dir_lba) (fix_contents dir_lba files_lba cs)
  fix_contents-Placed s [] placed fits = placed
  fix_contents-Placed s (c ∷ cs) (f, placed) fits =
      let c' = fix_dir_lba (length c) dir_lba files_lba 0 c in
      let len = length-fix_dir_lba (length c) 0 c in
      let e : s + length c / 2048 + dir_lba ≡ s + dir_lba + length c' / 2048 = omega (arith, len) in
      (
        fixed_Front s c f (omega (arith, fits)),
        rw (← e) (fix_contents-Placed (s + length c / 2048) cs placed (omega (arith, fits))),
      )
