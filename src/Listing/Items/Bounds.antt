-- ===== src/Listing/Items/Bounds.antt =====
-- Which calls of process_read_dir of src/main.cpp stay in the array of entries.
use ps3netsrv.Prelude.{
  ℕ, ◌+◌, ◌≤◌, ◌<◌, ◌≡◌, refl, arith, true, false, ◌&&◌, ◌||◌, leb, Bool-cases, Option-cases, inl,
  inr, Option, List, [], ◌∷◌, ◌++◌, length, length-append,
}
use ps3netsrv.Env.{Stat}
use ps3netsrv.Path.{normalize_path}
use ps3netsrv.Listing.{is_parent_dir}
use ps3netsrv.Listing.Items.{
  Item, Filled, filled, known_stat, item_of, fill, with_slash, read_level, process_read_dir,
}

-- The array holds what has been filled in.
abbrev pub Fits : ℕ → Filled → Type 0
Fits max_items out = (items : List Item) × (out ≡ filled items) × (length items ≤ max_items)

module _ (stat_file : List ℕ → Option Stat) (max_items path_len dirpath_len : ℕ) where
  fill-Fits :
      (nested : List ℕ → List Item → Filled) (path : List ℕ) (names : List (List ℕ))
      (items : List Item)
      → length items < max_items
      → Fits max_items (fill stat_file max_items path_len dirpath_len 0 nested path names items)
  unfolding fill
  fill-Fits nested path [] items room = (items, refl, omega (arith, room))
  fill-Fits nested path (name ∷ names) items room =
      let st = known_stat (stat_file (path ++ name)) in
      let item = item_of st name in
      let longer = length-append items (item ∷ []) in
      let kept : (st.is_dir && false) ≡ false = ground arith in
      let free : leb max_items (length items) ≡ false = ground (arith, room) in
      elim (Bool-cases (is_parent_dir name || leb path_len (length (path ++ name)))) [
        | inl skipped ↦ rw (fill, skipped) (fill-Fits nested path names items room)
        | inr listed ↦ elim (Bool-cases (leb max_items (length items + 1))) [
          | inl last ↦
              rw (fill, listed, kept, free, last)
                (items ++ item ∷ [], refl, omega (arith, longer, room))
          | inr more ↦
              let room_left : length (items ++ item ∷ []) < max_items =
                ground (arith, more, longer) in
              rw (fill, listed, kept, free, more)
                (fill-Fits nested path names (items ++ item ∷ []) room_left)
        ]
      ]

  module _ (opendir : List ℕ → Option (List (List ℕ))) where
    -- Without `subdirs`, and with room for one entry at least, a call stays in the array and leaves at
    -- most `max_items` entries in it, however many names the directory has.
    pub process_read_dir-Fits :
        (dir_path : List ℕ) (items : List Item)
        → length items < max_items
        → Fits max_items
            (process_read_dir stat_file max_items path_len dirpath_len opendir 0 dir_path items)
    unfolding process_read_dir read_level
    process_read_dir-Fits dir_path items room =
        let path = normalize_path dir_path true in
        let nested =
          read_level stat_file max_items path_len dirpath_len opendir 2
            (λ path more. filled more) in
        elim (Bool-cases (leb path_len (length dir_path))) [
          | inl long ↦ rw (read_level, long) (items, refl, omega (arith, room))
          | inr short ↦ elim (Option-cases (opendir path)) [
            | inl missing ↦ rw (read_level, short, missing) (items, refl, omega (arith, room))
            | inr (names, there) ↦
                rw (read_level, short, there)
                  (fill-Fits nested (with_slash stat_file max_items path_len dirpath_len path) names
                    items room)
          ]
        ]
