-- ===== src/Viso/Content/Own.antt =====
-- What buildContent of src/VIsoFile.cpp makes of one directory: its own record, and where it meets the
-- record of a directory in its parent.
use ps3netsrv.Prelude.{
  ℕ, zero, suc, ◌+◌, ◌-◌, ◌/◌, ◌%◌, ◌^◌, ◌<◌, ◌≤◌, ◌≡◌, ◌⊎◌, refl, sym, arith, Bool, true, false,
  not, ltb, ◌==◌, if◌then◌else◌, Option-cases, inl, inr, Option, some, List, [], ◌∷◌, ◌++◌, length,
  get_or, set, drop, replicate, length-append, length-take, length-drop, length-replicate,
}
use ps3netsrv.Viso.{round_up}
use ps3netsrv.Viso.Build.{same}
use ps3netsrv.Viso.Records.{
  Time, iso_directory, dir_record, put_records, padded, is_named, find_dir_record, temp_buf_size,
}
use ps3netsrv.Viso.Records.Pack.{pack, put_records-pack}
use ps3netsrv.Viso.Content.{
  Directory, no_directory, searched_id, file_records, child_records, dot_records, extent_of,
  put_extent, put_size, directory_bytes, put_in_parent,
}
use ps3netsrv.Viso.Content.Located.{get_or_in, find-bounds, Front, Alike, put_extent-Alike, Placed}

-- The padded content ends with its sector.
pub padded-sectors : (bytes : List ℕ) → length (padded bytes) % 2048 ≡ 0
padded-sectors bytes = ground (
  arith,
  length-append bytes (replicate (round_up (length bytes) - length bytes) 0),
  length-replicate {A = ℕ} (round_up (length bytes) - length bytes) 0,
)

pub false→le : (a b : ℕ) → ltb a b ≡ false → b ≤ a
false→le a b e = ground (arith, e)

drop-get_or : (i : ℕ) (xs : List ℕ) → i < length xs → drop i xs ≡ get_or xs i 0 ∷ drop (suc i) xs
drop-get_or i [] lt = absurd (omega (arith, lt))
drop-get_or zero (x ∷ xs) lt = refl
drop-get_or (suc i) (x ∷ xs) lt = drop-get_or i xs (omega (arith, lt))

abbrev own_record : ℕ → Time → List ℕ
own_record sectors time = dir_record 40 sectors 0 time iso_directory (0 ∷ [])

-- A content begins with its own record.
put_size-Front :
    (sectors : ℕ) (time : Time) (tail : List ℕ)
    → let content = own_record sectors time ++ tail in
      sectors < 2 ^ 32
      → length content % 2048 ≡ 0
      → length (put_size content) ≤ temp_buf_size
      → Front sectors (put_size content)
put_size-Front sectors time tail fits whole le = record {
  lsb = refl;
  msb = refl;
  first = refl;
  id_len = refl;
  id = refl;
  flags = refl;
  sectors = whole;
  small = le;
}

pub put_size-Front_of :
    (sectors : ℕ) (time : Time) (tail content : List ℕ)
    → content ≡ own_record sectors time ++ tail
    → sectors < 2 ^ 32
    → length content % 2048 ≡ 0
    → length (put_size content) ≤ temp_buf_size
    → Front sectors (put_size content)
put_size-Front_of sectors time tail content e fits whole le =
    rw e (put_size-Front sectors time tail fits (rw e at whole) (rw e at le))

module _ (times : List ℕ → Option Time) (joliet : Bool) where
  -- What directory_bytes gives begins with the record of the directory itself.
  pub directory_bytes-own :
      (dirs : List Directory) (contents : List (List ℕ)) (sectors : ℕ) (d : Directory)
      (is_root : Bool) (bytes : List ℕ)
      → directory_bytes times joliet dirs contents sectors d is_root ≡ some bytes
      → (time : Time) × (tail : List ℕ) × (padded bytes ≡ own_record sectors time ++ tail)
  unfolding directory_bytes pack
  directory_bytes-own dirs contents sectors d is_root bytes e =
      let parent = get_or dirs d.parent no_directory in
      let parent_extent =
        if is_root then replicate 16 0 else extent_of (get_or contents d.parent []) in
      elim (Option-cases (times d.path)) [
        | inl lost ↦ absurd (ground (arith, rw (directory_bytes, lost) at e))
        | inr (time, at) ↦ elim (Option-cases (times parent.path)) [
          | inl lost ↦ absurd (ground (arith, rw (directory_bytes, at, lost) at e))
          | inr (parent_time, above) ↦ elim (Option-cases (file_records times joliet d d.files)) [
            | inl lost ↦ absurd (ground (arith, rw (directory_bytes, at, above, lost) at e))
            | inr (files, listed) ↦
                elim (Option-cases (child_records times joliet dirs d.children)) [
                  | inl lost ↦
                      absurd (ground (arith, rw (directory_bytes, at, above, listed, lost) at e))
                  | inr (children, below) ↦
                      let dots = dot_records sectors time parent_extent parent_time in
                      let rest = dots ++ (files ++ children) in
                      let put : put_records [] rest ≡ some bytes =
                        rw (directory_bytes, at, above, listed, below) at e in
                      (time, pack 40 (drop 1 rest), put_records-pack [] bytes rest put)
                ]
          ]
        ]
      ]

  -- A name that findDirRecord can look for: its identifier is not empty and not that of ".".
  abbrev pub Nameable : Directory → Type 0
  Nameable d =
      (id : List ℕ) × (searched_id joliet d.name ≡ some id)
      × (0 < length id)
      × (same id (0 ∷ []) ≡ false)

  -- All directories behind number `k` but the root.
  abbrev pub AllNameable : ℕ → List Directory → Type 0
  AllNameable k [] = Unit {0}
  AllNameable k (d ∷ ds) = ((d.parent ≡ k) ⊎ Nameable d) × AllNameable (suc k) ds

  not_own : (s : ℕ) (c id : List ℕ) → Front s c → same id (0 ∷ []) ≡ false → is_named id c ≡ false
  not_own s c [] f other = ground (arith, f.id_len)
  not_own s c (x ∷ []) f other =
      let long : 33 < length c =
        ground (arith, get_or_in c 32 (omega (arith, f.id_len)), f.sectors) in
      rw (drop-get_or 33 c long, f.id, f.id_len) (ground (arith, other))
  not_own s c (x ∷ (y ∷ id)) f other = rw f.id_len (ground arith)

  found-bounds :
      (s fuel : ℕ) (c id : List ℕ) (p : ℕ)
      → Front s c
      → 0 < length id
      → same id (0 ∷ []) ≡ false
      → find_dir_record fuel id 0 c ≡ some p
      → (40 ≤ p) × (p + 33 ≤ length c)
  unfolding find_dir_record
  found-bounds s zero c id p f long other e = absurd (ground (arith, e))
  found-bounds s (suc fuel) [] id p f long other e = absurd (omega (arith, f.first))
  found-bounds s (suc fuel) (h ∷ c) id p f long other e =
      let starts : not (h == 0) ≡ true = ground (arith, f.first) in
      let miss = not_own s (h ∷ c) id f other in
      let (le, fits) =
        find-bounds fuel id (0 + 0 + h) (drop h (h ∷ c)) p long
          (rw (find_dir_record, starts, miss) at e) in
      ground (arith, le, fits, length-drop h (h ∷ c), f.first)

  Placed-get :
      (s : ℕ) (cs : List (List ℕ)) (i : ℕ)
      → Placed s cs
      → (get_or cs i [] ≡ []) ⊎ ((s' : ℕ) × Front s' (get_or cs i []))
  Placed-get s [] i placed = inl refl
  Placed-get s (c ∷ cs) zero (f, placed) = inr (s, f)
  Placed-get s (c ∷ cs) (suc i) (f, placed) = Placed-get (s + length c / 2048) cs i placed

  pub extent_of_len : (s : ℕ) (c : List ℕ) → Front s c → length (extent_of c) ≡ 16
  extent_of_len s c f =
      let long = get_or_in c 32 (omega (arith, f.id_len)) in
      ground (arith, length-take 16 (drop 2 c), length-drop 2 c, long)

  -- The record of the directory in its parent lies behind the parent's own records.
  pub put_in_parent-Alike :
      (d : Directory) (s : ℕ) (content : List ℕ) (contents patched : List (List ℕ))
      → Nameable d
      → Front s content
      → Placed 0 contents
      → put_in_parent times joliet d content contents ≡ some patched
      → (c : List ℕ) × (patched ≡ set contents d.parent c) × Alike (get_or contents d.parent []) c
  unfolding put_in_parent find_dir_record
  put_in_parent-Alike d s content contents patched (id, named, long, other) own placed e =
      let parent = get_or contents d.parent [] in
      elim (Option-cases (find_dir_record (length parent) id 0 parent)) [
        | inl missing ↦ absurd (ground (arith, rw (put_in_parent, named, missing) at e))
        | inr (p, found) ↦
            let c = put_extent p (extent_of content) parent in
            let same_all : set contents d.parent c ≡ patched =
              cc (rw (put_in_parent, named, found) at e) in
            elim (Placed-get 0 contents d.parent placed) [
              | inl none_there ↦ absurd (ground (arith, rw none_there at found))
              | inr (s', f) ↦
                  let (le, fits) = found-bounds s' (length parent) parent id p f long other found in
                  (
                    c,
                    sym same_all,
                    put_extent-Alike p (extent_of content) parent le (omega (arith, fits))
                        (extent_of_len s content own),
                  )
            ]
      ]
