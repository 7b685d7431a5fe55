-- ===== src/Viso/Tables/Entries.antt =====
-- fixPathTableLba of src/VIsoFile.cpp moves every entry of a path table.
use ps3netsrv.Prelude.{
  ℕ, zero, suc, ◌+◌, ◌%◌, ◌^◌, ◌<◌, ◌≤◌, ◌≡◌, refl, ap, ◌∙◌, arith, Bool, true, false,
  if◌then◌else◌, List, [], ◌∷◌, ◌++◌, map, length, take, drop, length-append, take_first,
  drop_first,
}
use ps3netsrv.Wire.{be32, load32, store32}
use ps3netsrv.Wire.ByteOrder.{be32-be32, be32-lt}
use ps3netsrv.Viso.Tables.{blank_byte, move_entry, entry_len, fix_path_table_lba}

abbrev pub location : Bool → ℕ → ℕ
location msb x = if msb then be32 x else x

-- A table with the locations `ls`, parent bytes and identifiers.
pub record Line : Type 0 where
  pub block : ℕ
  pub parent_lo : ℕ
  pub parent_hi : ℕ
  pub id : List ℕ

abbrev pub line_bytes : Bool → Line → List ℕ
line_bytes msb l =
    length l.id
    ∷ 0
    ∷ (store32 (location msb l.block)
        ++ l.parent_lo ∷ l.parent_hi ∷ (l.id ++ blank_byte (length l.id)))

abbrev pub table_bytes : Bool → List Line → List ℕ
table_bytes msb [] = []
table_bytes msb (l ∷ ls) = line_bytes msb l ++ table_bytes msb ls

abbrev pub move_line : ℕ → Line → Line
move_line lba l = record l { block = (l.block + lba) % 2 ^ 32 }

pub load32-store32 : (x : ℕ) → x < 2 ^ 32 → load32 (store32 x) 0 ≡ x
load32-store32 x small = omega (arith, small)

length-line : (msb : Bool) (l : Line) → entry_len (line_bytes msb l) ≡ length (line_bytes msb l)
length-line msb l = ground (arith, length-append l.id (blank_byte (length l.id)))

-- What fixPathTableLba does to the location of a line.
move_line-bytes :
    (msb : Bool) (lba : ℕ) (l : Line) (rest : List ℕ)
    → l.block < 2 ^ 32
    → move_entry msb lba (line_bytes msb l ++ rest) ≡ line_bytes msb (move_line lba l) ++ rest
move_line-bytes true lba l rest small =
    let stored : load32 (store32 (be32 l.block)) 0 ≡ be32 l.block =
      load32-store32 (be32 l.block) (be32-lt l.block) in
    let back = be32-be32 l.block small in rw (stored, back) refl
move_line-bytes false lba l rest small = let stored = load32-store32 l.block small in rw stored refl

unfoldable pub Small : List Line → Type 0
Small [] = Unit {0}
Small (l ∷ ls) = (l.block < 2 ^ 32) × Small ls

pub fix_path_table_lba-lines :
    (fuel : ℕ) (msb : Bool) (lba : ℕ) (ls : List Line)
    → Small ls
    → length ls ≤ fuel
    → fix_path_table_lba fuel msb lba (table_bytes msb ls)
      ≡ table_bytes msb (map (move_line lba) ls)
unfolding fix_path_table_lba Small
fix_path_table_lba-lines zero msb lba [] small enough = refl
fix_path_table_lba-lines (suc fuel) msb lba [] small enough = refl
fix_path_table_lba-lines zero msb lba (l ∷ ls) small enough = absurd (omega (arith, enough))
fix_path_table_lba-lines (suc fuel) msb lba (l ∷ ls) (first, small) enough =
    let rest = table_bytes msb ls in
    let moved = move_line-bytes msb lba l rest first in
    let n = entry_len (line_bytes msb l ++ rest) in
    let len : n ≡ length (line_bytes msb (move_line lba l)) = length-line msb (move_line lba l) in
    let front = take_first n (line_bytes msb (move_line lba l)) rest len in
    let behind = drop_first n (line_bytes msb (move_line lba l)) rest len in
    let ih = fix_path_table_lba-lines fuel msb lba ls small (omega (arith, enough)) in
    let line = line_bytes msb (move_line lba l) in
    ap (λ x. take n x ++ fix_path_table_lba fuel msb lba (drop n x)) moved
    ∙ (ap (λ x. x ++ fix_path_table_lba fuel msb lba (drop n (line ++ rest))) front
        ∙ (ap (λ x. line ++ fix_path_table_lba fuel msb lba x) behind ∙ ap (λ x. line ++ x) ih))
