-- ===== src/Commands/Detected.antt =====
-- The search of process_open_cmd of src/main.cpp for the sector size of a CD image, from what stands in the image.
use ps3netsrv.Prelude.{
  ℕ, ◌+◌, ◌*◌, ◌≤◌, ◌<◌, ◌≡◌, refl, ap, ◌∙◌, ◌⊎◌, arith, Bool, true, false, ◌&&◌, ◌||◌, leb,
  Bool-cases, inl, inr, Option-cases, Option, none, some, List, [], ◌∷◌, ◌++◌, length, take, drop,
  length-take, length-drop, drop-append_le,
}
use ps3netsrv.Env.{AbstractFile, RegularFile}
use ps3netsrv.Session.{Client, filled}
use ps3netsrv.Path.{is_some}
use ps3netsrv.Commands.{equal, playstation, cd001, sec_size, buf_of, probe, detect}

-- "PLAY" stands 8 bytes behind the data of sector 16, for sectors of `size` bytes.
abbrev pub has_play : List ℕ → ℕ → Bool
has_play bytes size =
    equal (take 4 (drop 8 (take 12 (drop (size * 16 + 24) bytes)))) (80 ∷ 76 ∷ 65 ∷ 89 ∷ [])

-- What the second test finds: 1 and "CD00" stand 12 bytes behind the data of sector 16, and "1" 5
-- bytes behind it.
abbrev pub has_cd : List ℕ → ℕ → Bool
has_cd bytes size =
    equal (take 5 (drop (size * 16 + 36) bytes)) (1 ∷ 67 ∷ 68 ∷ 48 ∷ 48 ∷ [])
    && equal (take 1 (drop 5 (take 12 (drop (size * 16 + 24) bytes)))) (49 ∷ [])

-- `size` is one of `sizes` that the image has a mark for, and no earlier one has that of a CD; or it is
-- 2352, and none of them has that of a CD.
abbrev pub Chosen : List ℕ → List ℕ → ℕ → Type 0
Chosen [] bytes size = size ≡ 2352
Chosen (n ∷ sizes) bytes size =
    ((size ≡ n) × ((has_play bytes n || has_cd bytes n) ≡ true))
    ⊎ ((has_cd bytes n ≡ false) × Chosen sizes bytes size)

abbrev pub in_range : ℕ → Bool
in_range n = leb 2097152 n && leb n 889192448

-- The sector size for an image with these bytes: one chosen from sec_size where it has 2 MB to 848 MB,
-- and else 2352.
pub record SectorSize (bytes : List ℕ) (size : ℕ) : Type 0 where
  pub searched : in_range (length bytes) ≡ true → Chosen sec_size bytes size
  pub fixed : in_range (length bytes) ≡ false → size ≡ 2352

abbrev Small : List ℕ → Type 0
Small [] = Unit {0}
Small (n ∷ ns) = (n ≤ 2448) × Small ns

sizes-Small : Small sec_size
sizes-Small = (
  omega arith,
  (
    omega arith,
    (omega arith, (omega arith, (omega arith, (omega arith, (omega arith, record {}))))),
  ),
)

Chosen-le : (sizes bytes : List ℕ) (size : ℕ) → Small sizes → Chosen sizes bytes size → size ≤ 2448
Chosen-le [] bytes size small e = omega (arith, e)
Chosen-le (n ∷ sizes) bytes size (here, small) (inl (e, mark)) = omega (arith, e, here)
Chosen-le (n ∷ sizes) bytes size (here, small) (inr (miss, later)) =
    Chosen-le sizes bytes size small later

pub SectorSize-le : (bytes : List ℕ) (size : ℕ) → SectorSize bytes size → size ≤ 2448
SectorSize-le bytes size s = elim (Bool-cases (in_range (length bytes))) [
  | inl inside ↦ Chosen-le sec_size bytes size sizes-Small (s.searched inside)
  | inr outside ↦ omega (arith, s.fixed outside)
]

-- Lists of a known length.
four_of : (xs : List ℕ) → length xs ≡ 4 → (a b c d : ℕ) × (xs ≡ a ∷ b ∷ c ∷ d ∷ [])
four_of (a ∷ b ∷ c ∷ d ∷ []) l = (a, b, c, d, refl)
four_of [] l = absurd (omega (arith, l))
four_of (a ∷ []) l = absurd (omega (arith, l))
four_of (a ∷ b ∷ []) l = absurd (omega (arith, l))
four_of (a ∷ b ∷ c ∷ []) l = absurd (omega (arith, l))
four_of (a ∷ b ∷ c ∷ d ∷ e ∷ xs) l = absurd (omega (arith, l))

five_of : (xs : List ℕ) → length xs ≡ 5 → (a b c d e : ℕ) × (xs ≡ a ∷ b ∷ c ∷ d ∷ e ∷ [])
five_of [] l = absurd (omega (arith, l))
five_of (a ∷ xs) l =
    let (b, c, d, e, same) = four_of xs (omega (arith, l)) in (a, b, c, d, e, ap (λ t. a ∷ t) same)

some_of : (xs : List ℕ) → 0 < length xs → (a : ℕ) × (rest : List ℕ) × (xs ≡ a ∷ rest)
some_of [] l = absurd (omega (arith, l))
some_of (a ∷ xs) l = (a, xs, refl)

play_bytes :
    (a b c d : ℕ) (rest : List ℕ)
    → equal (a ∷ b ∷ c ∷ d ∷ rest) playstation ≡ true
    → equal (a ∷ b ∷ c ∷ d ∷ []) (80 ∷ 76 ∷ 65 ∷ 89 ∷ []) ≡ true
play_bytes a b c d rest e = ground (arith, e)

cd_bytes :
    (a b c d e f : ℕ)
    → (equal (b ∷ c ∷ d ∷ e ∷ f ∷ []) cd001 && equal (a ∷ []) (1 ∷ []))
      ≡ (equal (a ∷ b ∷ c ∷ d ∷ e ∷ []) (1 ∷ 67 ∷ 68 ∷ 48 ∷ 48 ∷ []) && equal (f ∷ []) (49 ∷ []))
cd_bytes a b c d e f = ground arith

-- The buffer behind the first read: the bytes of the image, then what was there.
module _ (twelve b : List ℕ) (long : length twelve ≡ 12) where
  play_mark :
      equal (take 12 (drop 8 (twelve ++ drop 12 b))) playstation ≡ true
      → equal (take 4 (drop 8 twelve)) (80 ∷ 76 ∷ 65 ∷ 89 ∷ []) ≡ true
  play_mark e =
      let (p, q, r, s, same) =
        four_of (drop 8 twelve) (omega (arith, length-drop 8 twelve, long)) in
      rw same (
        play_bytes p q r s (take 8 (drop 12 b))
          (rw (drop-append_le 8 twelve (drop 12 b) (omega (arith, long)), same) at e))

  -- And behind the second.
  cd_mark :
      (five : List ℕ)
      → length five ≡ 5
      → (equal (take 5 (drop 1 (five ++ drop 5 (twelve ++ drop 12 b)))) cd001
          && equal (take 1 (five ++ drop 5 (twelve ++ drop 12 b))) (1 ∷ []))
        ≡ (equal five (1 ∷ 67 ∷ 68 ∷ 48 ∷ 48 ∷ []) && equal (take 1 (drop 5 twelve)) (49 ∷ []))
  cd_mark five short =
      let (p, q, r, s, u, all) = five_of five short in
      let (v, rest, same) = some_of (drop 5 twelve) (omega (arith, length-drop 5 twelve, long)) in
      rw (drop-append_le 5 twelve (drop 12 b) (omega (arith, long)), same, all)
        (cd_bytes p q r s u v)

module _ {F : AbstractFile} (f : RegularFile F) where
  pub filled-buf : (r : Option (List ℕ)) (c : Client F) → is_some (filled r c).buf ≡ is_some c.buf
  filled-buf none c = refl
  filled-buf (some got) c = elim (Option-cases c.buf) [
    | inl missing ↦ rw missing refl
    | inr (b, there) ↦ rw there refl
  ]

  filled-rest :
      (r : Option (List ℕ)) (c : Client F)
      → ((filled r c).ro_file_size ≡ c.ro_file_size)
        × ((filled r c).cd_sector_size ≡ c.cd_sector_size)
  filled-rest none c = (refl, refl)
  filled-rest (some got) c = (refl, refl)

  -- The image, its size and its sector size are the same, and there is a buffer if there was one.
  pub record Kept (h h' : AbstractFile.Handle F) (c c' : Client F) : Type 0 where
    pub content : RegularFile.content f h' ≡ RegularFile.content f h
    pub size : c'.ro_file_size ≡ c.ro_file_size
    pub sector : c'.cd_sector_size ≡ c.cd_sector_size
    pub buffer : is_some c'.buf ≡ is_some c.buf

  probe-Kept :
      (n : ℕ) (h : AbstractFile.Handle F) (c : Client F) → Kept h (probe n h c).1 c (probe n h c).2
  unfolding probe
  probe-Kept n h c =
      let (_, h1) = AbstractFile.seek F h (n * 16 + 24) in
      let (r1, h2) = AbstractFile.read F h1 12 in
      let (r2, h3) = AbstractFile.read F h2 5 in
      let c1 = filled r1 c in
      let once = RegularFile.content-read f h1 12 ∙ RegularFile.content-seek f h (n * 16 + 24) in
      let (size1, sector1) = filled-rest r1 c in
      let (size2, sector2) = filled-rest r2 c1 in
      elim (Bool-cases (equal (take 12 (drop 8 (buf_of c1))) playstation)) [
        | inl hit ↦
            rw (probe, hit)
              (record { content = once; size = size1; sector = sector1; buffer = filled-buf r1 c })
        | inr miss ↦
            rw (probe, miss)
              (record {
                content = RegularFile.content-read f h2 5 ∙ once;
                size = size2 ∙ size1;
                sector = sector2 ∙ sector1;
                buffer = filled-buf r2 c1 ∙ filled-buf r1 c;
              })
      ]

  -- One round, on an image that the two reads lie in.
  module _ (n : ℕ) (h : AbstractFile.Handle F) (c : Client F) (b : List ℕ) where
    abbrev bytes : List ℕ
    bytes = RegularFile.content f h

    abbrev twelve : List ℕ
    twelve = take 12 (drop (n * 16 + 24) bytes)

    abbrev five : List ℕ
    five = take 5 (drop (n * 16 + 36) bytes)

    abbrev moved : AbstractFile.Handle F
    moved = (AbstractFile.seek F h (n * 16 + 24)).1

    first_read : n ≤ 2448 → (AbstractFile.read F moved 12).0 ≡ some twelve
    first_read small =
        RegularFile.read-eq-take f moved 12
        ∙ rw (
          RegularFile.content-seek f h (n * 16 + 24),
          RegularFile.position-seek f h (n * 16 + 24) (omega (arith, small)),
        )

    second_read :
        n ≤ 2448
        → length twelve ≡ 12
        → (AbstractFile.read F (AbstractFile.read F moved 12).1 5).0 ≡ some five
    second_read small long =
        let at : n * 16 + 24 + 12 ≡ n * 16 + 36 = omega arith in
        RegularFile.read-eq-take f (AbstractFile.read F moved 12).1 5
        ∙ rw (
          RegularFile.content-read f moved 12,
          RegularFile.position-read f moved 12,
          RegularFile.content-seek f h (n * 16 + 24),
          RegularFile.position-seek f h (n * 16 + 24) (omega (arith, small)),
          long,
          at,
        )

    probe-marks :
        n ≤ 2448
        → n * 16 + 41 ≤ length bytes
        → c.buf ≡ some b
        → (((probe n h c).0 ≡ true) × ((has_play bytes n || has_cd bytes n) ≡ true))
          ⊎ (((probe n h c).0 ≡ false) × (has_cd bytes n ≡ false))
    unfolding probe
    probe-marks small inside buf =
        let long : length twelve ≡ 12 = omega (
          arith,
          length-take 12 (drop (n * 16 + 24) bytes),
          length-drop (n * 16 + 24) bytes,
          inside,
        ) in
        let short : length five ≡ 5 = omega (
          arith,
          length-take 5 (drop (n * 16 + 36) bytes),
          length-drop (n * 16 + 36) bytes,
          inside,
        ) in
        let found = cd_mark twelve b long five short in
        elim (Bool-cases (equal (take 12 (drop 8 (twelve ++ drop 12 b))) playstation)) [
          | inl hit ↦
              rw (probe, first_read small, buf, long, hit)
                (inl (refl, rw (play_mark twelve b long hit) refl))
          | inr miss ↦ elim (Bool-cases (has_cd bytes n)) [
            | inl mark ↦
                rw
                  (
                    probe,
                    first_read small,
                    second_read small long,
                    buf,
                    long,
                    short,
                    miss,
                    found,
                    mark,
                  )
                  (inl (refl, ground (arith, mark)))
            | inr none_there ↦
                rw
                  (
                    probe,
                    first_read small,
                    second_read small long,
                    buf,
                    long,
                    short,
                    miss,
                    found,
                    none_there,
                  )
                  (inr (refl, ground (arith, none_there)))
          ]
        ]

  -- The search for the sector size changes neither the file nor its recorded size, and keeps the buffer.
  pub record Searched (h h' : AbstractFile.Handle F) (c c' : Client F) (sizes : List ℕ)
      : Type 0 where
    pub same_content : RegularFile.content f h' ≡ RegularFile.content f h
    pub same_size : c'.ro_file_size ≡ c.ro_file_size
    pub same_buffer : is_some c'.buf ≡ is_some c.buf
    pub chosen : Chosen sizes (RegularFile.content f h) c'.cd_sector_size

  -- From a client that has the sector size 2352 the search comes to one that the image has a mark for,
  -- or leaves it.
  pub detect-Searched :
      (sizes : List ℕ) (h : AbstractFile.Handle F) (c : Client F)
      → Small sizes
      → 39209 ≤ length (RegularFile.content f h)
      → is_some c.buf ≡ true
      → c.cd_sector_size ≡ 2352
      → Searched h (detect sizes h c).0 c (detect sizes h c).1 sizes
  unfolding detect
  detect-Searched [] h c small long buffer start = record {
    same_content = refl;
    same_size = refl;
    same_buffer = refl;
    chosen = start;
  }
  detect-Searched (n ∷ sizes) h c (here, small) long buffer start = elim (Option-cases c.buf) [
    | inl missing ↦ absurd (ground (arith, missing, buffer))
    | inr (b, there) ↦
        let (found, h1, c1) = probe n h c in
        let k = probe-Kept n h c in
        elim (probe-marks n h c b here (omega (arith, here, long)) there) [
          | inl (hit, mark) ↦ rw hit (record {
            same_content = k.content;
            same_size = k.size;
            same_buffer = k.buffer;
            chosen = inl (refl, mark);
          })
          | inr (miss, no_cd) ↦
              let rest =
                detect-Searched sizes h1 c1 small (rw k.content long) (k.buffer ∙ buffer)
                  (k.sector ∙ start) in
              rw miss (record {
                same_content = rest.same_content ∙ k.content;
                same_size = rest.same_size ∙ k.size;
                same_buffer = rest.same_buffer ∙ k.buffer;
                chosen = inr (no_cd, rw k.content at rest.chosen);
              })
        ]
  ]

  -- For an image in the range, all of sec_size.
  pub search-SectorSize :
      (h : AbstractFile.Handle F) (c : Client F)
      → in_range (length (RegularFile.content f h)) ≡ true
      → is_some c.buf ≡ true
      → c.cd_sector_size ≡ 2352
      → Searched h (detect sec_size h c).0 c (detect sec_size h c).1 sec_size
  search-SectorSize h c inside buffer start =
      detect-Searched sec_size h c sizes-Small (ground (arith, inside)) buffer start
