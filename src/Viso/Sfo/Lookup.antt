-- ===== src/Viso/Sfo/Lookup.antt =====
-- parse_param_sfo of src/VIsoFile.cpp finds the value of a key in a file of the format.
use ps3netsrv.Prelude.{
  ℕ, zero, suc, ◌+◌, ◌%◌, ◌^◌, ◌<◌, ◌≤◌, ◌≡◌, refl, ap, arith, false, leb, ◌==◌, if◌then◌else◌,
  Bool-cases, inl, inr, Option, none, some, List, [], ◌∷◌, ◌++◌, length, get_or, take, drop,
  replicate,
}
use ps3netsrv.Wire.{load16}
use ps3netsrv.Viso.Build.{same}
use ps3netsrv.Viso.Sfo.{c_string, sfo_value, sfo_loop, parse_param_sfo}

-- A key, the text of its value, and the bytes that are set aside for the value.
pub record Entry : Type 0 where
  pub key : List ℕ
  pub text : List ℕ
  pub room : ℕ

-- The file has the entry: its key at `str`, its text at `pos`, and its row of the index at `indx`.
pub record HasEntry (mem : List ℕ) (len str pos indx : ℕ) (e : Entry) : Type 0 where
  pub key_at : c_string (drop str mem) ≡ e.key
  pub not_empty : 0 < length e.key
  pub key_inside : str < len
  pub text_at : c_string (drop pos mem) ≡ e.text
  pub text_inside : pos < len
  pub room_at : load16 mem (28 + indx) ≡ e.room
  pub row_inside : 29 + indx < length mem

-- The keys stand one behind the other, each with its zero, the rows of the index every 16 bytes, and
-- the values at the distances that the index names.
abbrev pub HasEntries : List ℕ → ℕ → ℕ → ℕ → ℕ → List Entry → Type 0
HasEntries mem len str pos indx [] = Unit {0}
HasEntries mem len str pos indx (e ∷ es) =
    HasEntry mem len str pos indx e
    × HasEntries mem len (str + length e.key + 1) ((pos + e.room) % 2 ^ 32) (indx + 16) es

-- The text of the first entry with the key.
abbrev pub find_text : List ℕ → List Entry → Option (List ℕ)
find_text field [] = none
find_text field (e ∷ es) = if same e.key field then some e.text else find_text field es

starts_key :
    (s : ℕ) (mem key : List ℕ)
    → c_string (drop s mem) ≡ key
    → 0 < length key
    → (get_or mem s 0 == 0) ≡ false
unfolding c_string
starts_key zero [] key e long = absurd (omega (arith, ap length e, long))
starts_key (suc s) [] key e long = absurd (omega (arith, ap length e, long))
starts_key zero (b ∷ mem) key e long = elim (Bool-cases (b == 0)) [
  | inl ends ↦
      let none_left : [] ≡ key = rw ends at e in absurd (omega (arith, ap length none_left, long))
  | inr other ↦ other
]
starts_key (suc s) (b ∷ mem) key e long = starts_key s mem key e long

find-loop :
    (fuel : ℕ) (mem : List ℕ) (len : ℕ) (field : List ℕ) (field_len str pos indx : ℕ)
    (es : List Entry) (text : List ℕ)
    → HasEntries mem len str pos indx es
    → len ≤ str + fuel
    → find_text field es ≡ some text
    → sfo_loop fuel mem len field field_len str pos indx ≡ sfo_value (take field_len text)
unfolding sfo_loop
find-loop fuel mem len field field_len str pos indx [] text has enough found =
    absurd (ground (arith, found))
find-loop zero mem len field field_len str pos indx (e ∷ es) text (here, has) enough found =
    absurd (omega (arith, enough, here.key_inside))
find-loop (suc fuel) mem len field field_len str pos indx (e ∷ es) text (here, has) enough found =
    let inside : leb len str ≡ false = ground (arith, here.key_inside) in
    let starts = starts_key str mem e.key here.key_at here.not_empty in
    elim (Bool-cases (same e.key field)) [
      | inl hit ↦
          let same_text : e.text ≡ text = cc (rw hit at found) in
          let value : leb len pos ≡ false = ground (arith, here.text_inside) in
          rw (sfo_loop, inside, starts, here.key_at, hit, value, here.text_at, same_text) refl
      | inr miss ↦
          let row : leb (length mem) (29 + indx) ≡ false = ground (arith, here.row_inside) in
          rw (sfo_loop, inside, starts, here.key_at, miss, row, here.room_at)
            (find-loop fuel mem len field field_len (str + length e.key + 1)
              ((pos + e.room) % 2 ^ 32) (indx + 16) es text has (omega (arith, enough))
              (rw miss at found))
    ]

-- For a file that has entries from its first key and first value on, as its header names them: for a
-- key that one of them has, parse_param_sfo copies the text of the first such entry, up to `field_len`
-- bytes, and reads nothing behind the file on the way.
pub parse_param_sfo-find :
    (file field : List ℕ) (field_len : ℕ) (es : List Entry) (text : List ℕ)
    → let mem = file ++ replicate 16 0 in
      HasEntries mem (length file) (load16 mem 8) (load16 mem 12) 0 es
      → find_text field es ≡ some text
      → parse_param_sfo file field field_len ≡ sfo_value (take field_len text)
unfolding parse_param_sfo
parse_param_sfo-find file field field_len es text has found =
    let mem = file ++ replicate 16 0 in
    find-loop (length file) mem (length file) field field_len (load16 mem 8) (load16 mem 12) 0 es
      text has (omega arith) found
