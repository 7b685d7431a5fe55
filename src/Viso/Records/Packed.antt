-- ===== src/Viso/Records/Packed.antt =====
-- The loops of findDirRecord and fixDirLba of src/VIsoFile.cpp meet exactly the records that
-- buildContent has put.
use ps3netsrv.Prelude.{
  ℕ, ◌≤◌, ◌≡◌, sym, ap, ◌∙◌, arith, List, [], length, take, length-append, length-take, length-drop,
  append-nil, take_first,
}
use ps3netsrv.Viso.Records.{moved_bytes, move_record}
use ps3netsrv.Viso.Records.Pack.{Records}

take_whole : (n : ℕ) (xs : List ℕ) → n ≡ length xs → take n xs ≡ xs
take_whole n xs e = ap (λ l. take n l) (sym (append-nil xs)) ∙ take_first n xs [] e

module _ (dir_lba files_lba : ℕ) where
  length-moved_bytes :
      (r : List ℕ) → 34 ≤ length r → length (moved_bytes dir_lba files_lba r) ≡ length r
  length-moved_bytes r long =
      ground (arith, length-append (take 2 r), length-take 2 r, length-drop 10 r)

  -- A whole record has room for its first blocks.
  pub move_record-eq :
      (r : List ℕ)
      → 34 ≤ length r
      → move_record dir_lba files_lba r ≡ moved_bytes dir_lba files_lba r
  move_record-eq r long =
      take_whole (length r) (moved_bytes dir_lba files_lba r) (sym (length-moved_bytes r long))
