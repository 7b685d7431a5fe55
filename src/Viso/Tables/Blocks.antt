-- ===== src/Viso/Tables/Blocks.antt =====
-- The path tables of a virtual ISO give every directory the block of its content.
use ps3netsrv.Prelude.{
  ℕ, zero, suc, ◌+◌, ◌*◌, ◌/◌, ◌<◌, ◌≤◌, ◌≡◌, refl, sym, ap, ◌∙◌, arith, Bool, true, false, ltb,
  ◌==◌, if◌then◌else◌, Bool-cases, Option-cases, inl, inr, some, List, [], ◌∷◌, ◌++◌, map, length,
  get_or, take, drop, length-map, append_assoc, append-nil,
}
use ps3netsrv.Wire.{be16, byte_of}
use ps3netsrv.Viso.Records.{temp_buf_size}
use ps3netsrv.Viso.Content.{Directory}
use ps3netsrv.Viso.Content.Located.{get_or_in, Front, Placed, sectors_of}
use ps3netsrv.Viso.Tables.{
  table_entry, entry_id, parent_number, build_path_table, fix_path_table_lba,
}
use ps3netsrv.Viso.Tables.Entries.{
  Line, line_bytes, table_bytes, move_line, Small, fix_path_table_lba-lines,
}

four_bytes :
    (i : ℕ) (c : List ℕ)
    → i + 3 < length c
    → take 4 (drop i c)
      ≡ get_or c i 0 ∷ get_or c (i + 1) 0 ∷ get_or c (i + 2) 0 ∷ get_or c (i + 3) 0 ∷ []
four_bytes i [] lt = absurd (omega (arith, lt))
four_bytes zero (x ∷ []) lt = absurd (omega (arith, lt))
four_bytes zero (x ∷ (y ∷ [])) lt = absurd (omega (arith, lt))
four_bytes zero (x ∷ (y ∷ (z ∷ []))) lt = absurd (omega (arith, lt))
four_bytes zero (x ∷ (y ∷ (z ∷ (w ∷ c)))) lt = refl
four_bytes (suc i) (x ∷ c) lt =
    let s1 : suc i + 1 ≡ suc (i + 1) = omega arith in
    let s2 : suc i + 2 ≡ suc (i + 2) = omega arith in
    let s3 : suc i + 3 ≡ suc (i + 3) = omega arith in
    rw (s1, s2, s3) (four_bytes i c (omega (arith, lt)))

-- The block of directory `i`.
abbrev pub block_of : List (List ℕ) → ℕ → ℕ
block_of contents i = sectors_of (take i contents)

abbrev pub blocks_from : List (List ℕ) → ℕ → List Directory → List ℕ
blocks_from contents i [] = []
blocks_from contents i (d ∷ ds) = block_of contents i ∷ blocks_from contents (suc i) ds

Placed-Front :
    (s : ℕ) (cs : List (List ℕ)) (i : ℕ)
    → Placed s cs
    → i < length cs
    → Front (s + block_of cs i) (get_or cs i [])
Placed-Front s [] i placed lt = absurd (omega (arith, lt))
Placed-Front s (c ∷ cs) zero (f, placed) lt = let here : s + 0 ≡ s = omega arith in rw here f
Placed-Front s (c ∷ cs) (suc i) (f, placed) lt =
    let behind : s + (length c / 2048 + block_of cs i) ≡ s + length c / 2048 + block_of cs i =
      omega arith in
    rw behind (Placed-Front (s + length c / 2048) cs i placed (omega (arith, lt)))

block_of-le : (s : ℕ) (cs : List (List ℕ)) (i : ℕ) → Placed s cs → block_of cs i ≤ 2048 * length cs
block_of-le s [] zero placed = omega arith
block_of-le s [] (suc i) placed = omega arith
block_of-le s (c ∷ cs) zero placed = omega arith
block_of-le s (c ∷ cs) (suc i) (f, placed) =
    omega (arith, f.small, block_of-le (s + length c / 2048) cs i placed)

-- The line of an entry.
abbrev line_of : Bool → ℕ → ℕ → List ℕ → Line
line_of msb block parent id = record {
  block = block;
  parent_lo = byte_of (if msb then be16 parent else parent) 0;
  parent_hi = byte_of (if msb then be16 parent else parent) 8;
  id = id;
}

table_entry-line :
    (msb : Bool) (s : ℕ) (c : List ℕ) (parent : ℕ) (id : List ℕ)
    → Front s c
    → table_entry msb c parent id ≡ line_bytes msb (line_of msb s parent id)
table_entry-line true s c parent id f =
    let long = get_or_in c 32 (omega (arith, f.id_len)) in
    let bytes = four_bytes 6 c (omega (arith, long)) ∙ f.msb in rw bytes refl
table_entry-line false s c parent id f =
    let long = get_or_in c 32 (omega (arith, f.id_len)) in
    let bytes = four_bytes 2 c (omega (arith, long)) ∙ f.lsb in rw bytes refl

length-blocks :
    (contents : List (List ℕ)) (i : ℕ) (ds : List Directory)
    → length (blocks_from contents i ds) ≡ length ds
length-blocks contents i [] = refl
length-blocks contents i (d ∷ ds) = ap suc (length-blocks contents (suc i) ds)

-- The lines of a table that was built from directory `i` on.
record Lines (msb : Bool) (contents : List (List ℕ)) (i : ℕ) (ds : List Directory)
    (table out : List ℕ) (ls : List Line) : Type 0 where
  bytes : out ≡ table ++ table_bytes msb ls
  blocks : map (λ l. Line.block l) ls ≡ blocks_from contents i ds
  small : Small ls

build_path_table-Lines :
    (msb joliet : Bool) (contents : List (List ℕ)) (i : ℕ) (ds : List Directory)
    (table out : List ℕ)
    → Placed 0 contents
    → i + length ds ≡ length contents
    → length contents ≤ 65536
    → build_path_table msb joliet contents i ds table ≡ some out
    → (ls : List Line) × Lines msb contents i ds table out ls
unfolding build_path_table Small
build_path_table-Lines msb joliet contents i [] table out placed count few e =
    let all : table ≡ out = cc e in
    ([], record { bytes = sym all ∙ sym (append-nil table); blocks = refl; small = record {} })
build_path_table-Lines msb joliet contents i (d ∷ ds) table out placed count few e =
    let more : (i == 65536) ≡ false = ground (arith, count, few) in
    elim (Bool-cases (ltb temp_buf_size (length table + 8 + 254))) [
      | inl full ↦ absurd (ground (arith, rw (build_path_table, more, full) at e))
      | inr room ↦ elim (Option-cases (entry_id joliet i d)) [
        | inl bad ↦ absurd (ground (arith, rw (build_path_table, more, room, bad) at e))
        | inr (id, named) ↦
            let c = get_or contents i [] in
            let parent = parent_number i d in
            let line = line_of msb (block_of contents i) parent id in
            let f = Placed-Front 0 contents i placed (omega (arith, count)) in
            let from_zero : 0 + block_of contents i ≡ block_of contents i = omega arith in
            let entry =
              table_entry-line msb (block_of contents i) c parent id (rw from_zero at f) in
            let (ls, lines) =
              build_path_table-Lines msb joliet contents (suc i) ds
                (table ++ table_entry msb c parent id) out placed (omega (arith, count)) few
                (rw (build_path_table, more, room, named) at e) in
            (
              line ∷ ls,
              record {
                bytes =
                    lines.bytes
                    ∙ (append_assoc table (table_entry msb c parent id) (table_bytes msb ls)
                        ∙ ap (λ x. table ++ (x ++ table_bytes msb ls)) entry);
                blocks = ap (λ l. block_of contents i ∷ l) lines.blocks;
                small = (omega (arith, block_of-le 0 contents i placed, few), lines.small);
              },
            )
      ]
    ]

-- For the contents of at most 65536 directories, each with its block in its first record: a path table,
-- in either byte order and name space, has one entry for each directory, of which the location is its
-- block; and fixPathTableLba adds the first block of the area to the location of each, modulo 2 ^ 32,
-- and changes nothing else.
pub build_path_table-blocks :
    (msb joliet : Bool) (contents : List (List ℕ)) (dirs : List Directory) (table : List ℕ)
    (fuel dir_lba : ℕ)
    → Placed 0 contents
    → length dirs ≡ length contents
    → length contents ≤ 65536
    → length dirs ≤ fuel
    → build_path_table msb joliet contents 0 dirs [] ≡ some table
    → (ls : List Line) × (table ≡ table_bytes msb ls)
      × (map (λ l. Line.block l) ls ≡ blocks_from contents 0 dirs)
      × (fix_path_table_lba fuel msb dir_lba table ≡ table_bytes msb (map (move_line dir_lba) ls))
build_path_table-blocks msb joliet contents dirs table fuel dir_lba placed count few enough e =
    let from_zero : 0 + length dirs ≡ length contents = omega (arith, count) in
    let (ls, lines) =
      build_path_table-Lines msb joliet contents 0 dirs [] table placed from_zero few e in
    let enough_lines : length ls ≤ fuel = omega (
      arith,
      length-map ls (λ l. Line.block l),
      ap length lines.blocks,
      length-blocks contents 0 dirs,
      enough,
    ) in
    (
      ls,
      lines.bytes,
      lines.blocks,
      ap (λ x. fix_path_table_lba fuel msb dir_lba x) lines.bytes
          ∙ fix_path_table_lba-lines fuel msb dir_lba ls lines.small enough_lines,
    )
