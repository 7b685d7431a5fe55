-- ===== src/Viso/Content/Located.antt =====
-- The blocks that buildContent of src/VIsoFile.cpp gives the directories.
use ps3netsrv.Prelude.{
  ℕ, zero, suc, ◌+◌, ◌*◌, ◌/◌, ◌%◌, ◌<◌, ◌≤◌, ◌≡◌, refl, ap, ◌∙◌, arith, true, Bool-cases,
  Option-cases, inl, inr, some, List, [], ◌∷◌, ◌++◌, length, get_or, set, take, drop, length-append,
  length-take, length-drop, get_or-append,
}
use ps3netsrv.Wire.{be32, store32}
use ps3netsrv.Viso.Records.{next_record, is_named, find_dir_record, temp_buf_size}
use ps3netsrv.Viso.Content.{put_extent}

pub get_or_in : (xs : List ℕ) (i : ℕ) → 0 < get_or xs i 0 → i < length xs
get_or_in [] i positive = absurd (omega (arith, positive))
get_or_in (x ∷ xs) zero positive = omega arith
get_or_in (x ∷ xs) (suc i) positive = omega (arith, get_or_in xs i positive)

named_long : (name r : List ℕ) → 0 < length name → is_named name r ≡ true → 33 ≤ length r
named_long name r long hit = get_or_in r 32 (ground (arith, hit, long))

-- findDirRecord gives no position before the one that it starts from, and one that leaves room for the
-- fixed part of a record.
pub find-bounds :
    (fuel : ℕ) (name : List ℕ) (pos : ℕ) (rest : List ℕ) (p : ℕ)
    → 0 < length name
    → find_dir_record fuel name pos rest ≡ some p
    → (pos ≤ p) × (p + 33 ≤ pos + length rest)
unfolding find_dir_record
find-bounds zero name pos rest p long e = absurd (ground (arith, e))
find-bounds (suc fuel) name pos rest p long e = elim (Option-cases (next_record pos rest)) [
  | inl last ↦ absurd (ground (arith, rw (find_dir_record, last) at e))
  | inr (gap, next) ↦
      let r = drop gap rest in
      let n = get_or r 0 0 in
      elim (Bool-cases (is_named name r)) [
        | inl hit ↦
            let same_p : pos + gap ≡ p = cc (rw (find_dir_record, next, hit) at e) in
            let room = named_long name r long hit in
            ground (arith, same_p, room, length-drop gap rest)
        | inr miss ↦
            let (le, fits) =
              find-bounds fuel name (pos + gap + n) (drop n r) p long
                (rw (find_dir_record, next, miss) at e) in
            ground (arith, le, fits, length-drop n r, length-drop gap rest)
      ]
]

-- A content that starts with its own record, of which the block is `s`.
pub record Front (s : ℕ) (c : List ℕ) : Type 0 where
  pub lsb : get_or c 2 0 ∷ get_or c 3 0 ∷ get_or c 4 0 ∷ get_or c 5 0 ∷ [] ≡ store32 s
  pub msb : get_or c 6 0 ∷ get_or c 7 0 ∷ get_or c 8 0 ∷ get_or c 9 0 ∷ [] ≡ store32 (be32 s)
  pub first : get_or c 0 0 ≡ 40
  pub id_len : get_or c 32 0 ≡ 1
  pub id : get_or c 33 0 ≡ 0
  pub flags : get_or c 25 0 ≡ 2
  pub sectors : length c % 2048 ≡ 0
  pub small : length c ≤ temp_buf_size

get_or-take : (n : ℕ) (xs : List ℕ) (i : ℕ) → i < n → get_or (take n xs) i 0 ≡ get_or xs i 0
get_or-take zero xs i lt = absurd (omega (arith, lt))
get_or-take (suc n) [] i lt = refl
get_or-take (suc n) (x ∷ xs) zero lt = refl
get_or-take (suc n) (x ∷ xs) (suc i) lt = get_or-take n xs i (omega (arith, lt))

pub get_or-take_append :
    (n : ℕ) (xs ys : List ℕ) (i : ℕ)
    → i < n
    → n ≤ length xs
    → get_or (take n xs ++ ys) i 0 ≡ get_or xs i 0
get_or-take_append n xs ys i lt le =
    get_or-append (take n xs) ys i 0 (ground (arith, length-take n xs, lt, le))
    ∙ get_or-take n xs i lt

-- A content of the same length that agrees on its first 10 bytes and on the identifier.
pub record Alike (c c' : List ℕ) : Type 0 where
  pub same_len : length c' ≡ length c
  pub at : (i : ℕ) → i < 10 → get_or c' i 0 ≡ get_or c i 0
  pub at_len : get_or c' 32 0 ≡ get_or c 32 0
  pub at_id : get_or c' 33 0 ≡ get_or c 33 0
  pub at_flags : get_or c' 25 0 ≡ get_or c 25 0

pub Front-Alike : (s : ℕ) (c c' : List ℕ) → Alike c c' → Front s c → Front s c'
Front-Alike s c c' a f =
    let b2 = a.at 2 (omega arith) in
    let b3 = a.at 3 (omega arith) in
    let b4 = a.at 4 (omega arith) in
    let b5 = a.at 5 (omega arith) in
    let b6 = a.at 6 (omega arith) in
    let b7 = a.at 7 (omega arith) in
    let b8 = a.at 8 (omega arith) in
    let b9 = a.at 9 (omega arith) in
    record {
      lsb = rw (b2, b3, b4, b5) f.lsb;
      msb = rw (b6, b7, b8, b9) f.msb;
      first = a.at 0 (omega arith) ∙ f.first;
      id_len = a.at_len ∙ f.id_len;
      id = a.at_id ∙ f.id;
      flags = a.at_flags ∙ f.flags;
      sectors = omega (arith, a.same_len, f.sectors);
      small = omega (arith, a.same_len, f.small);
    }

pub put_extent-Alike :
    (p : ℕ) (extent c : List ℕ)
    → 40 ≤ p
    → p + 18 ≤ length c
    → length extent ≡ 16
    → Alike c (put_extent p extent c)
put_extent-Alike p extent c le fits whole = record {
  same_len = ground (
    arith,
    length-append (take (p + 2) c) (extent ++ drop (p + 18) c),
    length-append extent (drop (p + 18) c),
    length-take (p + 2) c,
    length-drop (p + 18) c,
  );
  at = λ i lt.
      get_or-take_append (p + 2) c (extent ++ drop (p + 18) c) i (omega (arith, lt, le))
        (omega (arith, fits));
  at_len =
      get_or-take_append (p + 2) c (extent ++ drop (p + 18) c) 32 (omega (arith, le))
        (omega (arith, fits));
  at_id =
      get_or-take_append (p + 2) c (extent ++ drop (p + 18) c) 33 (omega (arith, le))
        (omega (arith, fits));
  at_flags =
      get_or-take_append (p + 2) c (extent ++ drop (p + 18) c) 25 (omega (arith, le))
        (omega (arith, fits));
}

-- The contents, each at its block, from block `s` on.
abbrev pub Placed : ℕ → List (List ℕ) → Type 0
Placed s [] = Unit {0}
Placed s (c ∷ cs) = Front s c × Placed (s + length c / 2048) cs

abbrev pub sectors_of : List (List ℕ) → ℕ
sectors_of [] = 0
sectors_of (c ∷ cs) = length c / 2048 + sectors_of cs

pub sectors_of-set :
    (cs : List (List ℕ)) (i : ℕ) (c : List ℕ)
    → Alike (get_or cs i []) c
    → sectors_of (set cs i c) ≡ sectors_of cs
sectors_of-set [] i c a = refl
sectors_of-set (b ∷ cs) zero c a = ap (λ n. n / 2048 + sectors_of cs) a.same_len
sectors_of-set (b ∷ cs) (suc i) c a = ap (λ n. length b / 2048 + n) (sectors_of-set cs i c a)

pub Placed-set :
    (s : ℕ) (cs : List (List ℕ)) (i : ℕ) (c : List ℕ)
    → Alike (get_or cs i []) c
    → Placed s cs
    → Placed s (set cs i c)
Placed-set s [] i c a placed = placed
Placed-set s (b ∷ cs) zero c a (f, placed) = (Front-Alike s b c a f, rw a.same_len placed)
Placed-set s (b ∷ cs) (suc i) c a (f, placed) =
    (f, Placed-set (s + length b / 2048) cs i c a placed)

pub Placed-snoc :
    (s : ℕ) (cs : List (List ℕ)) (c : List ℕ)
    → Placed s cs
    → Front (s + sectors_of cs) c
    → Placed s (cs ++ c ∷ [])
Placed-snoc s [] c placed f =
    let none_yet : s + 0 ≡ s = omega arith in (rw none_yet at f, record {})
Placed-snoc s (b ∷ cs) c (g, placed) f =
    let behind : s + (length b / 2048 + sectors_of cs) ≡ s + length b / 2048 + sectors_of cs =
      omega arith in
    (g, Placed-snoc (s + length b / 2048) cs c placed (rw behind at f))

pub sectors_of-snoc :
    (cs : List (List ℕ)) (c : List ℕ) → sectors_of (cs ++ c ∷ []) ≡ sectors_of cs + length c / 2048
sectors_of-snoc [] c = omega arith
sectors_of-snoc (b ∷ cs) c = omega (arith, sectors_of-snoc cs c)

pub sectors_of-le : (s : ℕ) (cs : List (List ℕ)) → Placed s cs → sectors_of cs ≤ 2048 * length cs
sectors_of-le s [] placed = omega arith
sectors_of-le s (c ∷ cs) (f, placed) =
    omega (arith, f.small, sectors_of-le (s + length c / 2048) cs placed)
