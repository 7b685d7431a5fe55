-- ===== src/Viso/Image.antt =====
-- The image that a virtual ISO stands for, and the read loop over all its files.
use ps3netsrv.Prelude.{
  ℕ, ◌+◌, ◌*◌, ◌≤◌, ◌<◌, ◌≡◌, inl, inr, refl, arith, true, false, List, [], ◌∷◌,
}
use ps3netsrv.Viso.{
  FileEntry, Progress, round_up, sector_size, Disk, read_entry, read_entries, read_dirs,
}
use ps3netsrv.Viso.Pieces.{Reads, Passed, Holds, entry-Passed}

-- The offset behind the files of a directory, and behind those of all directories.
abbrev pub entries_end : ℕ → List FileEntry → ℕ
entries_end at [] = at
entries_end at (f ∷ fs) = entries_end (at + round_up f.size) fs

abbrev pub dirs_end : ℕ → List (List FileEntry) → ℕ
dirs_end at [] = at
dirs_end at (d ∷ ds) = dirs_end (entries_end at d) ds

module _ (disk : Disk) (img : List ℕ) (fs_buf_size : ℕ) where
  -- The files lie one behind the other from `at` on.
  abbrev pub EntriesHold : ℕ → List FileEntry → Type 0
  EntriesHold at [] = Unit {0}
  EntriesHold at (f ∷ fs) =
      Holds disk img fs_buf_size f
      × (fs_buf_size + f.rlba * sector_size ≡ at)
      × EntriesHold (at + round_up f.size) fs

  abbrev pub DirsHold : ℕ → List (List FileEntry) → Type 0
  DirsHold at [] = Unit {0}
  DirsHold at (d ∷ ds) = EntriesHold at d × DirsHold (entries_end at d) ds

  module _ (start n : ℕ) where
    entry-go :
        (f : FileEntry) (fs : List FileEntry) (p : Progress)
        → (read_entry disk fs_buf_size f p).stopped ≡ false
        → read_entries disk fs_buf_size (f ∷ fs) p
          ≡ read_entries disk fs_buf_size fs (read_entry disk fs_buf_size f p)
    unfolding read_entries
    entry-go f fs p going = rw going refl

    entry-stop :
        (f : FileEntry) (fs : List FileEntry) (p : Progress)
        → (read_entry disk fs_buf_size f p).stopped ≡ true
        → read_entries disk fs_buf_size (f ∷ fs) p ≡ read_entry disk fs_buf_size f p
    unfolding read_entries
    entry-stop f fs p stopped = rw stopped refl

    pub entries-Passed :
        (fs : List FileEntry) (at : ℕ) (p : Progress)
        → EntriesHold at fs
        → Reads img start n p
        → p.stopped ≡ false
        → at ≤ p.ptr
        → 0 < p.remaining
        → let q = read_entries disk fs_buf_size fs p in
          Reads img start n q × Passed (entries_end at fs) q
    unfolding read_entries
    entries-Passed [] at p holds r going lo wanted = (r, inr (going, lo, wanted))
    entries-Passed (f ∷ fs) at p (h, here, more) r going lo wanted =
        let (reads, past) =
          entry-Passed disk img start n fs_buf_size f h p r going (omega (arith, here, lo))
            wanted in
        elim past [
          | inl (stopped, done) ↦ rw (entry-stop f fs p stopped) (reads, inl (stopped, done))
          | inr (on, beyond, still) ↦ rw (entry-go f fs p on) (
              entries-Passed fs (at + round_up f.size) (read_entry disk fs_buf_size f p) more reads
                on (omega (arith, here, beyond)) still)
        ]

    dir-go :
        (d : List FileEntry) (ds : List (List FileEntry)) (p : Progress)
        → (read_entries disk fs_buf_size d p).stopped ≡ false
        → read_dirs disk fs_buf_size (d ∷ ds) p
          ≡ read_dirs disk fs_buf_size ds (read_entries disk fs_buf_size d p)
    unfolding read_dirs
    dir-go d ds p going = rw going refl

    dir-stop :
        (d : List FileEntry) (ds : List (List FileEntry)) (p : Progress)
        → (read_entries disk fs_buf_size d p).stopped ≡ true
        → read_dirs disk fs_buf_size (d ∷ ds) p ≡ read_entries disk fs_buf_size d p
    unfolding read_dirs
    dir-stop d ds p stopped = rw stopped refl

    pub dirs-Passed :
        (ds : List (List FileEntry)) (at : ℕ) (p : Progress)
        → DirsHold at ds
        → Reads img start n p
        → p.stopped ≡ false
        → at ≤ p.ptr
        → 0 < p.remaining
        → let q = read_dirs disk fs_buf_size ds p in Reads img start n q × Passed (dirs_end at ds) q
    unfolding read_dirs
    dirs-Passed [] at p holds r going lo wanted = (r, inr (going, lo, wanted))
    dirs-Passed (d ∷ ds) at p (h, more) r going lo wanted =
        let (reads, past) = entries-Passed d at p h r going lo wanted in
        elim past [
          | inl (stopped, done) ↦ rw (dir-stop d ds p stopped) (reads, inl (stopped, done))
          | inr (on, beyond, still) ↦ rw (dir-go d ds p on) (
              dirs-Passed ds (entries_end at d) (read_entries disk fs_buf_size d p) more reads on
                beyond still)
        ]
