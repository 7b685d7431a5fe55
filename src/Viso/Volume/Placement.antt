-- ===== src/Viso/Volume/Placement.antt =====
-- Where the pieces of the file system of a virtual ISO stand.
use ps3netsrv.Prelude.{
  ℕ, suc, ◌+◌, ◌-◌, ◌*◌, ◌≡◌, refl, sym, ap, ◌∙◌, arith, Bool-cases, inl, inr, List, [], ◌∷◌, ◌++◌,
  length, take, drop, replicate, length-append, length-take, length-replicate, append_assoc,
  flatten,
}
use ps3netsrv.Viso.{bytes_to_sectors}
use ps3netsrv.Viso.Names.{strncpy_upper}
use ps3netsrv.Viso.Tables.{LaidOut}
use ps3netsrv.Viso.Volume.{
  standard_id, Moment, Volume, field_of, root_record, volume_times, descriptor, disc_info,
  system_area, primary, joliet, table_area, write,
}

length-field_of : (n c : ℕ) (text : List ℕ) → length (field_of n c text) ≡ n
unfolding field_of
length-field_of n c text = ground (
  arith,
  length-append (take n text) (replicate (n - length (take n text)) c),
  length-take n text,
  length-replicate {A = ℕ} (n - length (take n text)) c,
)

length-cons :
    (xs : List ℕ) (xss : List (List ℕ))
    → length (flatten (xs ∷ xss)) ≡ length xs + length (flatten xss)
unfolding flatten
length-cons xs xss = length-append xs (flatten xss)

length-empty : length (flatten {A = ℕ} []) ≡ 0
unfolding flatten
length-empty = refl

length-volume_times : (now : Moment) → length (volume_times now) ≡ 68
unfolding volume_times
length-volume_times now = refl

length-root_record : (c : List ℕ) → length (root_record c) ≡ 34
unfolding root_record
length-root_record c = ap suc (length-field_of 33 0 (drop 1 c))

length-descriptor :
    (kind blank : ℕ) (identifier escapes : List ℕ) (size table l m : ℕ) (root : List ℕ)
    (now : Moment)
    → length identifier ≡ 32
    → length (descriptor kind blank identifier escapes size table l m root now) ≡ 2048
unfolding descriptor
length-descriptor kind blank identifier escapes size table l m root now long = simp (
  length-cons, length-empty, length-replicate, length-field_of, length-volume_times,
  length-root_record, long,
)

length-disc_info : (v : Volume) → length (disc_info v) ≡ 512
unfolding disc_info
length-disc_info v = simp (length-append, length-field_of, length-replicate) refl

length-system_area : (v : Volume) → length (system_area v) ≡ 32768
unfolding system_area
length-system_area v = elim (Bool-cases v.ps3_mode) [
  | inl ps3 ↦ rw (system_area, ps3, length-append, length-field_of, length-field_of) (omega arith)
  | inr plain ↦ rw (system_area, plain, length-replicate) refl
]

length-table_area :
    (size : ℕ) (table : List ℕ) → length (table_area size table) ≡ bytes_to_sectors size * 2048
unfolding table_area
length-table_area size table = length-field_of (bytes_to_sectors size * 2048) 0 (take size table)

length-primary : (v : Volume) (a : LaidOut) → length (primary v a) ≡ 2048
unfolding primary
length-primary v a =
    length-descriptor 1 32 (field_of 32 32 (strncpy_upper v.name 32)) _ _ _ _ _ _ _
      (length-field_of 32 32 (strncpy_upper v.name 32))

length-joliet : (v : Volume) (a : LaidOut) → length (joliet v a) ≡ 2048
unfolding joliet
length-joliet v a =
    length-descriptor 2 0 (field_of 32 0 v.joliet_name) _ _ _ _ _ _ _
      (length-field_of 32 0 v.joliet_name)

flatten-append : (xss yss : List (List ℕ)) → flatten (xss ++ yss) ≡ flatten xss ++ flatten yss
unfolding flatten
flatten-append [] yss = refl
flatten-append (xs ∷ xss) yss =
    ap (λ l. xs ++ l) (flatten-append xss yss) ∙ sym (append_assoc xs (flatten xss) (flatten yss))

-- What stands in front of the directories.
abbrev pub front_parts : Volume → LaidOut → List (List ℕ)
front_parts v a =
    system_area v
    ∷ primary v a
    ∷ joliet v a
    ∷ field_of 2048 0 (255 ∷ standard_id)
    ∷ replicate 2048 0
    ∷ table_area a.table_size a.table_l
    ∷ table_area a.table_size a.table_m
    ∷ table_area a.joliet_size a.joliet_l
    ∷ table_area a.joliet_size a.joliet_m
    ∷ []

pub length-front :
    (v : Volume) (a : LaidOut)
    → length (flatten (front_parts v a))
      ≡ 2048 * (20 + bytes_to_sectors a.table_size * 2 + bytes_to_sectors a.joliet_size * 2)
length-front v a =
    rw
      (
        length-cons,
        length-cons,
        length-cons,
        length-cons,
        length-cons,
        length-cons,
        length-cons,
        length-cons,
        length-cons,
        length-empty,
        length-system_area,
        length-primary,
        length-joliet,
        length-field_of,
        length-replicate {A = ℕ} 2048 0,
        length-table_area,
        length-table_area,
        length-table_area,
        length-table_area,
      )
      (omega arith)

pub write-parts :
    (v : Volume) (a : LaidOut)
    → write v a
      ≡ flatten (front_parts v a) ++ (flatten a.contents ++ (flatten a.joliet_contents ++ []))
unfolding write flatten
write-parts v a =
    flatten-append (front_parts v a) (flatten a.contents ∷ flatten a.joliet_contents ∷ [])
