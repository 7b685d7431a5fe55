-- ===== src/Listing/Whole/Replies.antt =====
-- What process_read_dir_cmd of src/main.cpp sends.
use ps3netsrv.Prelude.{
  ℕ, zero, suc, ◌+◌, ◌-◌, ◌*◌, ◌≤◌, ◌<◌, ◌≡◌, ◌≢◌, refl, ap, arith, append_assoc, true, ◌&&◌, ◌||◌,
  ltb, leb, not, ◌==◌, if◌then◌else◌, Option, none, some, List, [], ◌∷◌, ◌++◌, length, drop, ◌⊎◌,
  replicate, length-append, length-replicate, length-take, Option-cases, Bool-cases, inl, inr,
}
use ps3netsrv.Env.{Os, Stat}
use ps3netsrv.Session.{Client, succeeded, Session, send_all}
use ps3netsrv.Wire.{be64, store64}
use ps3netsrv.Path.{is_some, skip_blanks, split_line, c_str, normalize_path, starts_with}
use ps3netsrv.Listing.{is_parent_dir}
use ps3netsrv.Listing.Items.{
  Item, Filled, filled, overrun, known_stat, item_of, fill, with_slash, read_level,
  process_read_dir,
}
use ps3netsrv.Listing.Whole.{
  item_bytes, items_bytes, ini_lines, merge_entries, collect, find_ini, send_items, dir_read,
  max_entries, process_read_dir_cmd,
}

skip_blanks-le : (text : List ℕ) → length (skip_blanks text) ≤ length text
skip_blanks-le [] = omega arith
skip_blanks-le (c ∷ cs) = ground (arith, skip_blanks-le cs)

split_line-lt : (text rest : List ℕ) → (split_line text).1 ≡ some rest → length rest < length text
split_line-lt [] rest e = absurd (ground (arith, e))
split_line-lt (c ∷ cs) rest e = ground (arith, e, split_line-lt cs rest)

-- The length of the text is fuel enough.
pub ini_lines-ne-none : (fuel : ℕ) (text : List ℕ) → length text ≤ fuel → ini_lines fuel text ≢ none
unfolding ini_lines
ini_lines-ne-none fuel [] le = ground arith
ini_lines-ne-none zero (c ∷ cs) le = absurd (omega (arith, le))
ini_lines-ne-none (suc fuel) (c ∷ cs) le =
    let shorter = skip_blanks-le (c ∷ cs) in
    elim (Option-cases (split_line (skip_blanks (c ∷ cs))).1) [
      | inl last ↦ rw (ini_lines, last) (λ e. cc)
      | inr (text, more) ↦
          let less = split_line-lt (skip_blanks (c ∷ cs)) text more in
          elim (Option-cases (ini_lines fuel text)) [
            | inl stuck ↦
                absurd (ini_lines-ne-none fuel text (omega (arith, less, shorter, le)) stuck)
            | inr (lines, e) ↦ rw (ini_lines, more, e) (λ e. cc)
          ]
    ]

-- Every name fits the field of 512 bytes with a zero behind it.
abbrev pub Named : List Item → Type 0
Named [] = Unit {0}
Named (i ∷ items) = (length i.name ≤ 511) × Named items

abbrev pub NamedIn : Filled → Type 0
NamedIn (filled items) = Named items
NamedIn overrun = Unit {0}

Named-snoc :
    (items : List Item) (i : Item) → Named items → length i.name ≤ 511 → Named (items ++ i ∷ [])
Named-snoc [] i named le = (le, record {})
Named-snoc (j ∷ items) i (first, named) le = (first, Named-snoc items i named le)

item_of-Named : (st : Stat) (name : List ℕ) → length (item_of st name).name ≤ 511
item_of-Named st name = omega (arith, length-take 511 name)

length-item_bytes : (i : Item) → length i.name ≤ 511 → length (item_bytes i) ≡ 529
length-item_bytes i le = ground (
  arith,
  length-append i.name (replicate (512 - length i.name) 0),
  length-replicate {A = ℕ} (512 - length i.name) 0,
)

length-items_bytes :
    (items : List Item) → Named items → length (items_bytes items) ≡ 529 * length items
length-items_bytes [] named = refl
length-items_bytes (i ∷ items) (first, named) = omega (
  arith,
  length-append (item_bytes i) (items_bytes items),
  length-item_bytes i first,
  length-items_bytes items named,
)

pub Filled-cases : (r : Filled) → (r ≡ overrun) ⊎ ((items : List Item) × (r ≡ filled items))
Filled-cases (filled items) = inr (items, refl)
Filled-cases overrun = inl refl

module _ (stat_file : List ℕ → Option Stat) (max_items path_len dirpath_len : ℕ) where
  -- A call for a subdirectory keeps the names in bounds.
  abbrev KeepsNames : (List ℕ → List Item → Filled) → Type 0
  KeepsNames nested =
      (path : List ℕ) (items : List Item) → Named items → NamedIn (nested path items)

  fill-NamedIn :
      (subdirs : ℕ) (nested : List ℕ → List Item → Filled) (path : List ℕ) (names : List (List ℕ))
      (items : List Item)
      → KeepsNames nested
      → Named items
      → NamedIn (fill stat_file max_items path_len dirpath_len subdirs nested path names items)
  unfolding fill
  fill-NamedIn subdirs nested path [] items keeps named = named
  fill-NamedIn subdirs nested path (name ∷ names) items keeps named =
      let st = known_stat (stat_file (path ++ name)) in
      let shown = if subdirs == 0 then name else drop dirpath_len (path ++ name) in
      let longer = Named-snoc items (item_of st shown) named (item_of-Named st shown) in
      elim (Bool-cases (is_parent_dir name || leb path_len (length (path ++ name)))) [
        | inl skipped ↦
            rw (fill, skipped) (fill-NamedIn subdirs nested path names items keeps named)
        | inr listed ↦ elim (Bool-cases (st.is_dir && not (subdirs == 0))) [
          | inl below ↦
              let call = if ltb subdirs 2 then nested (path ++ name) items else filled items in
              let kept : NamedIn call = elim (Bool-cases (ltb subdirs 2)) [
                | inl enters ↦ rw enters (keeps (path ++ name) items named)
                | inr stays ↦ rw stays named
              ] in
              elim (Filled-cases call) [
                | inl over ↦ rw (fill, listed, below, over) (record {})
                | inr (more, e) ↦
                    rw (fill, listed, below, e)
                      (fill-NamedIn subdirs nested path names more keeps (rw e at kept))
              ]
          | inr here ↦ elim (Bool-cases (leb max_items (length items))) [
            | inl full ↦ rw (fill, listed, here, full) (record {})
            | inr room ↦ elim (Bool-cases (leb max_items (length items + 1))) [
              | inl last ↦ rw (fill, listed, here, room, last) longer
              | inr more ↦
                  rw (fill, listed, here, room, more)
                    (fill-NamedIn subdirs nested path names (items ++ item_of st shown ∷ []) keeps
                      longer)
            ]
          ]
        ]
      ]

  module _ (opendir : List ℕ → Option (List (List ℕ))) where
    read_level-NamedIn :
        (subdirs : ℕ) (nested : List ℕ → List Item → Filled)
        → KeepsNames nested
        → KeepsNames (read_level stat_file max_items path_len dirpath_len opendir subdirs nested)
    unfolding read_level
    read_level-NamedIn subdirs nested keeps dir_path items named =
        let path = normalize_path dir_path true in
        elim (Bool-cases (leb path_len (length dir_path))) [
          | inl long ↦ rw (read_level, long) named
          | inr short ↦ elim (Option-cases (opendir path)) [
            | inl missing ↦ rw (read_level, short, missing) named
            | inr (names, there) ↦
                rw (read_level, short, there)
                  (fill-NamedIn subdirs nested
                    (with_slash stat_file max_items path_len dirpath_len path) names items keeps
                    named)
          ]
        ]

    process_read_dir-NamedIn :
        (subdirs : ℕ)
        → KeepsNames (process_read_dir stat_file max_items path_len dirpath_len opendir subdirs)
    unfolding process_read_dir
    process_read_dir-NamedIn subdirs =
        read_level-NamedIn subdirs
          (read_level stat_file max_items path_len dirpath_len opendir 2 (λ path more. filled more))
          (read_level-NamedIn 2 (λ path more. filled more) (λ path items named. named))

module _ (stat_file : List ℕ → Option Stat) (opendir : List ℕ → Option (List (List ℕ)))
    (root : List ℕ) where
  merge_entries-NamedIn :
      (path_len subdirs : ℕ) (lines : List (List ℕ)) (items : List Item)
      → Named items
      → NamedIn (merge_entries stat_file opendir root path_len subdirs lines items)
  unfolding merge_entries
  merge_entries-NamedIn path_len subdirs [] items named = named
  merge_entries-NamedIn path_len subdirs (dir_path ∷ lines) items named =
      let below = if starts_with root dir_path then length root else 0 in
      let call =
        process_read_dir stat_file max_entries path_len below opendir subdirs dir_path items in
      let kept : NamedIn call =
        process_read_dir-NamedIn stat_file max_entries path_len below opendir subdirs dir_path items
          named in
      elim (Bool-cases (is_some (stat_file dir_path))) [
        | inr unknown ↦
            rw (merge_entries, unknown) (merge_entries-NamedIn path_len subdirs lines items named)
        | inl known ↦ elim (Filled-cases call) [
          | inl over ↦ rw (merge_entries, known, over) (record {})
          | inr (more, e) ↦
              rw (merge_entries, known, e)
                (merge_entries-NamedIn path_len subdirs lines more (rw e at kept))
        ]
      ]

module _ {os : Os} (root dirpath : List ℕ) (s : Session os) where
  collect-NamedIn : NamedIn (collect root dirpath s)
  unfolding collect
  collect-NamedIn =
      let stat_file = λ (p : List ℕ). Os.stat_file os p s.world in
      let opendir = λ (p : List ℕ). Os.opendir os p s.world in
      let path_len = 510 + length dirpath + 255 + 2 in
      let slen = length dirpath - 1 in
      let ini_file = find_ini stat_file dirpath slen slen (slen + 1 - length root) dirpath in
      let call =
        process_read_dir stat_file max_entries path_len (length dirpath) opendir s.client.subdirs
          dirpath [] in
      let kept : NamedIn call =
        process_read_dir-NamedIn stat_file max_entries path_len (length dirpath) opendir
          s.client.subdirs dirpath [] (record {}) in
      elim (Filled-cases call) [
        | inl over ↦ rw (collect, over) (record {})
        | inr (items, e) ↦ elim (Option-cases (Os.read_file os ini_file 2048 s.world)) [
          | inl missing ↦ rw (collect, e, missing) (rw e at kept)
          | inr (text, there) ↦ elim (Option-cases (ini_lines (length text) (c_str text))) [
            | inl stuck ↦ rw (collect, e, there, stuck) (rw e at kept)
            | inr (lines, found) ↦
                rw (collect, e, there, found)
                  (merge_entries-NamedIn stat_file opendir root path_len s.client.subdirs lines
                    items (rw e at kept))
          ]
        ]
      ]

-- The messages that announce the items and deliver them.
abbrev pub messages : List Item → List (List ℕ)
messages items =
    store64 (be64 (length items)) ∷ (if ltb 0 (length items) then items_bytes items ∷ [] else [])

send_items-messages :
    {os : Os} (items : List Item) (s s' : Session os)
    → send_items items s ≡ (succeeded, s')
    → (s'.sent ≡ s.sent ++ messages items) × (s'.client ≡ s.client)
unfolding send_items send_all
send_items-messages items s s' e =
    let count = store64 (be64 (length items)) in
    let (sent, s1) = send_all count s in
    let (sent_items, s2) = send_all (items_bytes items) s1 in
    elim (Bool-cases sent) [
      | inr lost ↦ absurd (ground (arith, rw (send_items, lost) at e))
      | inl first ↦ elim (Bool-cases (ltb 0 (length items))) [
        | inl some_items ↦ elim (Bool-cases sent_items) [
          | inl all ↦
              let same : s2 ≡ s' = cc (rw (send_items, first, some_items, all) at e) in
              rw (some_items, ← same)
                (append_assoc s.sent (count ∷ []) (items_bytes items ∷ []), refl)
          | inr part ↦ absurd (ground (arith, rw (send_items, first, some_items, part) at e))
        ]
        | inr empty ↦
            let same : s1 ≡ s' = cc (rw (send_items, first, empty) at e) in
            rw (empty, ← same) (refl, refl)
      ]
    ]

-- Where a read_dir command for an open directory succeeds, the directory is closed and the peer has
-- got the number of the entries that the array holds, and behind it, if it is not 0, one message of
-- exactly 529 bytes for each of them.
pub process_read_dir_cmd-messages :
    {os : Os} (root dirpath : List ℕ) (names : List (List ℕ)) (s s' : Session os)
    → s.client.dir ≡ some names
    → s.client.dirpath ≡ some dirpath
    → process_read_dir_cmd root s ≡ some (succeeded, s')
    → (items : List Item) × (collect root dirpath s ≡ filled items)
      × (s'.sent ≡ s.sent ++ messages items)
      × (length (items_bytes items) ≡ 529 * length items)
      × (s'.client.dir ≡ none)
unfolding process_read_dir_cmd
process_read_dir_cmd-messages root dirpath names s s' is_open at_path e =
    let kept = collect-NamedIn root dirpath s in
    elim (Filled-cases (collect root dirpath s)) [
      | inl over ↦ absurd (ground (arith, rw (process_read_dir_cmd, is_open, at_path, over) at e))
      | inr (items, found) ↦
          let result : send_items items (dir_read root dirpath s) ≡ (succeeded, s') =
            cc (rw (process_read_dir_cmd, is_open, at_path, found) at e) in
          let (sent, client) = send_items-messages items (dir_read root dirpath s) s' result in
          (
            items,
            found,
            sent,
            length-items_bytes items (rw found at kept),
            ap (λ c. Client.dir c) client,
          )
    ]
