-- ===== src/Viso/Volume/Standing.antt =====
-- build and write of src/VIsoFile.cpp together: where the directories stand in the image.
use ps3netsrv.Prelude.{
  ℕ, ◌+◌, ◌*◌, ◌/◌, ◌%◌, ◌^◌, ◌<◌, ◌≤◌, ◌≡◌, refl, sym, ap, ◌∙◌, arith, true, false, Option-cases,
  inl, inr, Option, some, List, [], ◌∷◌, ◌++◌, length, take, drop, length-append, append_assoc,
  flatten, drop_first, take_first,
}
use ps3netsrv.Viso.{bytes_to_sectors}
use ps3netsrv.Viso.Records.{Time}
use ps3netsrv.Viso.Content.{Directory, build_contents}
use ps3netsrv.Viso.Content.Located.{Front, Placed, sectors_of}
use ps3netsrv.Viso.Content.Blocks.{build_contents-Placed}
use ps3netsrv.Viso.Content.Own.{AllNameable}
use ps3netsrv.Viso.Tables.{LaidOut, both_tables, iso_lba, fix_lba, fix_contents, build_areas}
use ps3netsrv.Viso.Volume.{Volume, write}
use ps3netsrv.Viso.Volume.Placement.{front_parts, length-front, write-parts}
use ps3netsrv.Viso.Volume.Fixed.{length-fix_dir_lba, fix_contents-Placed}

-- Every content stands in the image at the block that its first record names.
abbrev pub Standing : List ℕ → List (List ℕ) → Type 0
Standing image [] = Unit {0}
Standing image (c ∷ cs) =
    ((block : ℕ) × Front block c × (take (length c) (drop (2048 * block) image) ≡ c))
    × Standing image cs

flat_length :
    (s : ℕ) (cs : List (List ℕ)) → Placed s cs → length (flatten cs) ≡ 2048 * sectors_of cs
unfolding flatten
flat_length s [] placed = refl
flat_length s (c ∷ cs) (f, placed) =
    omega
      (arith, length-append c (flatten cs), flat_length (s + length c / 2048) cs placed, f.sectors)

-- Contents that are joined behind `pre` stand at the blocks that they name.
Placed-Standing :
    (image pre post : List ℕ) (s : ℕ) (cs : List (List ℕ))
    → Placed s cs
    → length pre ≡ 2048 * s
    → image ≡ pre ++ (flatten cs ++ post)
    → Standing image cs
unfolding flatten
Placed-Standing image pre post s [] placed behind whole = record {}
Placed-Standing image pre post s (c ∷ cs) (f, placed) behind whole =
    let rest = flatten cs ++ post in
    let here : image ≡ pre ++ (c ++ rest) =
      whole ∙ ap (λ l. pre ++ l) (append_assoc c (flatten cs) post) in
    let at : drop (2048 * s) image ≡ c ++ rest =
      ap (λ l. drop (2048 * s) l) here ∙ drop_first (2048 * s) pre (c ++ rest) (sym behind) in
    (
      (s, f, ap (λ l. take (length c) l) at ∙ take_first (length c) c rest refl),
      Placed-Standing image (pre ++ c) post (s + length c / 2048) cs placed
          (omega (arith, length-append pre c, behind, f.sectors))
          (here ∙ sym (append_assoc pre c rest)),
    )

sectors_of-fix_contents :
    (dir_lba files_lba : ℕ) (cs : List (List ℕ))
    → sectors_of (fix_contents dir_lba files_lba cs) ≡ sectors_of cs
sectors_of-fix_contents dir_lba files_lba [] = refl
sectors_of-fix_contents dir_lba files_lba (c ∷ cs) = omega (
  arith,
  length-fix_dir_lba dir_lba files_lba (length c) 0 c,
  sectors_of-fix_contents dir_lba files_lba cs,
)

-- What build has in hand before fixLba.
record Before (times : List ℕ → Option Time) (dirs : List Directory) (a : LaidOut) : Type 0 where
  built : build_contents times false dirs dirs [] 0 ≡ some (a.contents, a.sectors)
  built_joliet :
      build_contents times true dirs dirs [] 0 ≡ some (a.joliet_contents, a.joliet_sectors)

build_areas-Before :
    (times : List ℕ → Option Time) (dirs : List Directory) (fixed : LaidOut)
    → build_areas times dirs ≡ some fixed
    → (a : LaidOut) × (fix_lba a ≡ fixed) × Before times dirs a
unfolding build_areas
build_areas-Before times dirs fixed e =
    elim (Option-cases (build_contents times false dirs dirs [] 0)) [
      | inl bad ↦ absurd (ground (arith, rw (build_areas, bad) at e))
      | inr ((contents, sectors), b1) ↦
          elim (Option-cases (build_contents times true dirs dirs [] 0)) [
            | inl bad ↦ absurd (ground (arith, rw (build_areas, b1, bad) at e))
            | inr ((joliet_contents, joliet_sectors), b2) ↦
                elim (Option-cases (both_tables false contents dirs)) [
                  | inl bad ↦ absurd (ground (arith, rw (build_areas, b1, b2, bad) at e))
                  | inr ((l, m), b3) ↦ elim (Option-cases (both_tables true joliet_contents dirs)) [
                    | inl bad ↦ absurd (ground (arith, rw (build_areas, b1, b2, b3, bad) at e))
                    | inr ((joliet_l, joliet_m), b4) ↦ (
                      record {
                        table_l = l;
                        table_m = m;
                        joliet_l = joliet_l;
                        joliet_m = joliet_m;
                        contents = contents;
                        joliet_contents = joliet_contents;
                        table_size = length m;
                        joliet_size = length joliet_m;
                        sectors = sectors;
                        joliet_sectors = joliet_sectors;
                      },
                      cc (rw (build_areas, b1, b2, b3, b4) at e),
                      record { built = b1; built_joliet = b2 },
                    )
                  ]
                ]
          ]
    ]

-- fsBufSize, in sectors.
abbrev pub fs_buf_sectors : LaidOut → ℕ
fs_buf_sectors a =
    20
    + bytes_to_sectors a.table_size * 2
    + bytes_to_sectors a.joliet_size * 2
    + a.sectors
    + a.joliet_sectors

standing :
    (times : List ℕ → Option Time) (dirs : List Directory) (v : Volume) (a : LaidOut)
    → Before times dirs a
    → AllNameable times false 0 dirs
    → AllNameable times true 0 dirs
    → length dirs ≤ 2 ^ 20
    → fs_buf_sectors a < 2 ^ 32
    → Standing (write v (fix_lba a)) (LaidOut.contents (fix_lba a))
      × Standing (write v (fix_lba a)) (LaidOut.joliet_contents (fix_lba a))
      × (length (write v (fix_lba a)) ≡ 2048 * fs_buf_sectors (fix_lba a))
unfolding fix_lba
standing times dirs v a before named named_joliet few fits =
    let image = write v (fix_lba a) in
    let pre = flatten (front_parts v (fix_lba a)) in
    let iso = iso_lba a in
    let jol = (iso + a.sectors) % 2 ^ 32 in
    let files = (jol + a.joliet_sectors) % 2 ^ 32 in
    let cs = fix_contents iso files a.contents in
    let js = fix_contents jol files a.joliet_contents in
    let (p0, n0) =
      build_contents-Placed times false dirs a.contents a.sectors named few before.built in
    let (p1, n1) =
      build_contents-Placed times true dirs a.joliet_contents a.joliet_sectors named_joliet few
        before.built_joliet in
    let placed = fix_contents-Placed iso files 0 a.contents p0 (omega (arith, n0, fits)) in
    let placed_joliet =
      fix_contents-Placed jol files 0 a.joliet_contents p1 (omega (arith, n1, fits)) in
    let front = length-front v (fix_lba a) in
    let flat = flat_length (0 + iso) cs placed in
    let flat_joliet = flat_length (0 + jol) js placed_joliet in
    let count = sectors_of-fix_contents iso files a.contents in
    let count_joliet = sectors_of-fix_contents jol files a.joliet_contents in
    let parts = write-parts v (fix_lba a) in
    (
      Placed-Standing image pre (flatten js ++ []) (0 + iso) cs placed (omega (arith, front, fits))
          parts,
      Placed-Standing image (pre ++ flatten cs) [] (0 + jol) js placed_joliet
          (omega (arith, length-append pre (flatten cs), front, flat, count, n0, fits))
          (parts ∙ sym (append_assoc pre (flatten cs) (flatten js ++ []))),
      ap length parts
          ∙ omega (
            arith,
            length-append pre (flatten cs ++ (flatten js ++ [])),
            length-append (flatten cs) (flatten js ++ []),
            length-append (flatten js) [],
            front,
            flat,
            flat_joliet,
            count,
            count_joliet,
            n0,
            n1,
          ),
    )

-- Where build succeeds for at most 2 ^ 20 directories, of which each below the root has a name with an
-- identifier that is not empty and not a zero byte, and the area of the file system has fewer than
-- 2 ^ 32 sectors: in what write puts, the content of each directory stands, in both name spaces, at the
-- block that its own first record names in both byte orders, and the number of bytes is fsBufSize.
pub write-Standing :
    (times : List ℕ → Option Time) (dirs : List Directory) (v : Volume) (a : LaidOut)
    → AllNameable times false 0 dirs
    → AllNameable times true 0 dirs
    → length dirs ≤ 2 ^ 20
    → build_areas times dirs ≡ some a
    → fs_buf_sectors a < 2 ^ 32
    → Standing (write v a) a.contents
      × Standing (write v a) a.joliet_contents
      × (length (write v a) ≡ 2048 * fs_buf_sectors a)
unfolding fix_lba
write-Standing times dirs v a named named_joliet few e fits =
    let (b, fixed, before) = build_areas-Before times dirs a e in
    rw (← fixed) (standing times dirs v b before named named_joliet few (rw (← fixed) at fits))
