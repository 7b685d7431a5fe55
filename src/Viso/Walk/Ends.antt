-- ===== src/Viso/Walk/Ends.antt =====
-- The walk of VIsoFile::build ends in a file system with finitely many directories.
use ps3netsrv.Prelude.{
  ℕ, zero, suc, ◌+◌, ◌≤◌, ◌≡◌, ◌≢◌, sym, arith, none, some, List, [], ◌∷◌, ◌++◌, length,
}
use ps3netsrv.Viso.Build.{create_path}
use ps3netsrv.Viso.Content.{Directory}
use ps3netsrv.Viso.Walk.{
  Dirent, Scan, select_directories, selected, nodes_below, numbers, Walked, walk, root_list,
}

-- The directories below a directory; `unread` is one that scandir fails on.
mutual
  pub data Tree : Type 0 where
    unread : Tree
    below : Trees → Tree

  pub data Trees : Type 0 where
    no_more : Trees
    tree_and : Tree → Trees → Trees

unfoldable mutual
  pub directories : Tree → ℕ
  directories unread = 1
  directories (below ts) = suc (directories_all ts)

  pub directories_all : Trees → ℕ
  directories_all no_more = 0
  directories_all (tree_and t ts) = directories t + directories_all ts

-- The file system shows the tree at the path.
unfoldable mutual
  pub Shows : Scan → List ℕ → Tree → Type 0
  Shows scan path unread = scan path ≡ none
  Shows scan path (below ts) =
      (entries : List Dirent) × (scan path ≡ some entries)
      × ShowsAll scan path (selected select_directories entries) ts

  pub ShowsAll : Scan → List ℕ → List (List ℕ) → Trees → Type 0
  ShowsAll scan path [] no_more = Unit {0}
  ShowsAll scan path [] (tree_and t ts) = ⊥
  ShowsAll scan path (name ∷ names) no_more = ⊥
  ShowsAll scan path (name ∷ names) (tree_and t ts) =
      Shows scan (create_path path name) t × ShowsAll scan path names ts

abbrev join : Trees → Trees → Trees
join no_more us = us
join (tree_and t ts) us = tree_and t (join ts us)

directories-join :
    (ts us : Trees) → directories_all (join ts us) ≡ directories_all ts + directories_all us
unfolding directories_all
directories-join no_more us = sym (omega arith)
directories-join (tree_and t ts) us = omega (arith, directories-join ts us)

-- Every directory of a list shows its tree.
abbrev ListShows : Scan → List Directory → Trees → Type 0
ListShows scan [] no_more = Unit {0}
ListShows scan [] (tree_and t ts) = ⊥
ListShows scan (d ∷ ds) no_more = ⊥
ListShows scan (d ∷ ds) (tree_and t ts) = Shows scan d.path t × ListShows scan ds ts

module _ (scan : Scan) where
  shows-append :
      (ds es : List Directory) (ts us : Trees)
      → ListShows scan ds ts
      → ListShows scan es us
      → ListShows scan (ds ++ es) (join ts us)
  shows-append [] es no_more us shown more = more
  shows-append [] es (tree_and t ts) us shown more = absurd shown
  shows-append (d ∷ ds) es no_more us shown more = absurd shown
  shows-append (d ∷ ds) es (tree_and t ts) us (first, shown) more =
      (first, shows-append ds es ts us shown more)

  shows-nodes :
      (d : Directory) (i : ℕ) (names : List (List ℕ)) (ts : Trees)
      → ShowsAll scan d.path names ts
      → ListShows scan (nodes_below d i names) ts
  unfolding nodes_below ShowsAll
  shows-nodes d i [] no_more shown = shown
  shows-nodes d i [] (tree_and t ts) shown = absurd shown
  shows-nodes d i (name ∷ names) no_more shown = absurd shown
  shows-nodes d i (name ∷ names) (tree_and t ts) (first, shown) =
      (first, shows-nodes d i names ts shown)

  walk-ends :
      (fuel : ℕ) (done todo : List Directory) (ts : Trees)
      → ListShows scan todo ts
      → directories_all ts ≤ fuel
      → walk scan fuel done todo ≢ Walked.endless
  unfolding walk Shows directories_all directories
  walk-ends fuel done [] ts shown enough = ground arith
  walk-ends fuel done (d ∷ todo) no_more shown enough = absurd shown
  walk-ends zero done (d ∷ todo) (tree_and unread ts) shown enough = absurd (omega (arith, enough))
  walk-ends zero done (d ∷ todo) (tree_and (below us) ts) shown enough =
      absurd (omega (arith, enough))
  walk-ends (suc fuel) done (d ∷ todo) (tree_and unread ts) (gone, shown) enough =
      rw (walk, gone) (ground arith)
  walk-ends (suc fuel) done (d ∷ todo) (tree_and (below us) ts) ((entries, found, inside), shown)
        enough =
      let names = selected select_directories entries in
      let later =
        walk-ends fuel
          (done ++ record d { children = numbers (length done + suc (length todo)) names } ∷ [])
          (todo ++ nodes_below d (length done) names) (join ts us)
          (shows-append todo (nodes_below d (length done) names) ts us shown
            (shows-nodes d (length done) names us inside))
          (omega (arith, enough, directories-join ts us)) in
      rw (walk, found) later

-- In a file system that shows a tree of directories at the path, the number of them is fuel enough: the
-- walk comes to the whole list, or to a directory that scandir fails on.
pub walk-ne-endless :
    (scan : Scan) (in_dir : List ℕ) (t : Tree) (fuel : ℕ)
    → Shows scan in_dir t
    → directories t ≤ fuel
    → walk scan fuel [] (root_list in_dir ∷ []) ≢ Walked.endless
unfolding directories_all
walk-ne-endless scan in_dir t fuel shown enough =
    walk-ends scan fuel [] (root_list in_dir ∷ []) (tree_and t no_more) (shown, record {})
      (omega (arith, enough))
