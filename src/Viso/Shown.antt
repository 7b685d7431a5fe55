-- ===== src/Viso/Shown.antt =====
-- The image that VIsoFile::build and VIsoFile::generate of src/VIsoFile.cpp lay out, written as one
-- list of bytes, and a read of it.
use ps3netsrv.Prelude.{
  ℕ, ◌+◌, ◌-◌, ◌*◌, ◌≤◌, ◌≡◌, refl, sym, ap, ◌∙◌, arith, false, some, List, [], ◌∷◌, ◌++◌, length,
  length-replicate, length-append, append_assoc, replicate,
}
use ps3netsrv.Prelude.Window.{window, window-middle, window-right, window-left, window-zeros}
use ps3netsrv.Viso.{FileEntry, Disk, round_up, sector_size}
use ps3netsrv.Viso.Pieces.{Holds}
use ps3netsrv.Viso.Image.{EntriesHold, DirsHold, entries_end, dirs_end}
use ps3netsrv.Viso.Build.{Stats}
use ps3netsrv.Viso.Layout.{Placed, Laid, LaidAll, sectors_of, total_sectors}

-- The files on disk, by path: what stat_file says of their sizes and what reading them gives.
pub record Store (stat : Stats) (disk : Disk) (content : List ℕ → List ℕ) : Type 0 where
  pub has_size : (path : List ℕ) (size : ℕ) → stat path ≡ some size → length (content path) ≡ size
  pub readable :
      (path : List ℕ) (i k size : ℕ)
      → stat path ≡ some size
      → i + k ≤ size
      → disk path i k ≡ some (window (content path) i k)

-- A file in the image: its bytes, and zeros up to the next sector.
abbrev pub file_image : (List ℕ → List ℕ) → FileEntry → List ℕ
file_image content e = content e.path ++ replicate (round_up e.size - e.size) 0

abbrev pub dir_image : (List ℕ → List ℕ) → List FileEntry → List ℕ
dir_image content [] = []
dir_image content (e ∷ es) = file_image content e ++ dir_image content es

abbrev pub dirs_image : (List ℕ → List ℕ) → List (List FileEntry) → List ℕ
dirs_image content [] = []
dirs_image content (d ∷ ds) = dir_image content d ++ dirs_image content ds

-- No file is the first of several parts.
abbrev pub Singles : List FileEntry → Type 0
Singles [] = Unit {0}
Singles (e ∷ es) = (e.multipart ≡ false) × Singles es

abbrev pub AllSingles : List (List FileEntry) → Type 0
AllSingles [] = Unit {0}
AllSingles (d ∷ ds) = Singles d × AllSingles ds

module _ (stat : Stats) (disk : Disk) (content : List ℕ → List ℕ)
    (store : Store stat disk content) where
  file-length :
      (at : ℕ) (e : FileEntry)
      → Placed stat at e
      → e.multipart ≡ false
      → length (content e.path) ≡ e.size
  file-length at e placed single = store.has_size e.path e.size (placed.sized single)

  file_image-length :
      (at : ℕ) (e : FileEntry)
      → Placed stat at e
      → e.multipart ≡ false
      → length (file_image content e) ≡ sectors_of e * sector_size
  file_image-length at e placed single =
      let zeros : List ℕ = replicate (round_up e.size - e.size) 0 in
      let len : length zeros ≡ round_up e.size - e.size =
        length-replicate (round_up e.size - e.size) 0 in
      length-append (content e.path) zeros ∙ omega (arith, len, file-length at e placed single)

  -- A file that lies behind `pre` is held by the image.
  module _ (img pre post : List ℕ) (fs_sectors at : ℕ) (e : FileEntry) (placed : Placed stat at e)
      (single : e.multipart ≡ false) where
    abbrev f_start : ℕ
    f_start = fs_sectors * sector_size + e.rlba * sector_size

    module _ (parts : img ≡ pre ++ (file_image content e ++ post))
        (behind : length pre ≡ fs_sectors * sector_size + at * sector_size) where
      inside :
          (i k : ℕ)
          → i + k ≤ length (file_image content e)
          → window img (f_start + i) k ≡ window (file_image content e) i k
      inside i k h =
          let there : f_start + i ≡ length pre + i = omega (arith, behind, placed.starts) in
          rw (there, parts) (window-middle pre (file_image content e) post i k h)

      long : f_start + round_up e.size ≤ length img
      long =
          let rest = file_image content e ++ post in
          let whole = ap length parts ∙ length-append pre rest in
          let right = length-append (file_image content e) post in
          omega (arith, whole, right, behind, placed.starts, file_image-length at e placed single)

      file-Holds : Holds disk img (fs_sectors * sector_size) e
      file-Holds =
          let zeros : List ℕ = replicate (round_up e.size - e.size) 0 in
          let own = file-length at e placed single in
          let all = file_image-length at e placed single in
          record {
            single = single;
            fits = long;
            aligned = omega arith;
            body = λ i k h.
                store.readable e.path i k e.size (placed.sized single) h
                ∙ ap some (
                    sym (
                      inside i k (omega (arith, all, h))
                      ∙ window-left (content e.path) zeros i k (omega (arith, own, h))));
            fill = λ i k h.
                let there : f_start + e.size + i ≡ f_start + (e.size + i) = omega arith in
                let from : e.size + i ≡ length (content e.path) + i = omega (arith, own) in
                rw there (
                  inside (e.size + i) k (omega (arith, all, h))
                  ∙ ap (λ j. window (file_image content e) j k) from
                  ∙ window-right (content e.path) zeros i k
                  ∙ window-zeros (round_up e.size - e.size) i k h);
          }

  module _ (img : List ℕ) (fs_sectors : ℕ) where
    abbrev after : ℕ → ℕ
    after at = fs_sectors * sector_size + at * sector_size

    entries-Hold :
        (es : List FileEntry) (at end : ℕ) (pre post : List ℕ)
        → Laid stat at es end
        → Singles es
        → img ≡ pre ++ (dir_image content es ++ post)
        → length pre ≡ after at
        → EntriesHold disk img (fs_sectors * sector_size) (after at) es
    entries-Hold [] at end pre post laid singles parts behind = record {}
    entries-Hold (e ∷ es) at end pre post (placed, laid) (single, singles) parts behind =
        let own = file_image content e in
        let rest = dir_image content es ++ post in
        let split : img ≡ pre ++ (own ++ rest) =
          parts ∙ ap (λ t. pre ++ t) (append_assoc own (dir_image content es) post) in
        let further : length (pre ++ own) ≡ after (at + sectors_of e) =
          length-append pre own ∙ omega (arith, behind, file_image-length at e placed single) in
        let more =
          entries-Hold es (at + sectors_of e) end (pre ++ own) post laid singles
            (split ∙ sym (append_assoc pre own rest)) further in
        let next : after (at + sectors_of e) ≡ after at + round_up e.size = omega arith in
        (
          file-Holds img pre rest fs_sectors at e placed single split behind,
          omega (arith, placed.starts),
          rw next at more,
        )

    entries_end-after :
        (es : List FileEntry) (at : ℕ) → entries_end (after at) es ≡ after (at + total_sectors es)
    entries_end-after [] at = omega arith
    entries_end-after (e ∷ es) at =
        let next : after at + round_up e.size ≡ after (at + sectors_of e) = omega arith in
        let sum : at + sectors_of e + total_sectors es ≡ at + (sectors_of e + total_sectors es) =
          omega arith in
        ap (λ t. entries_end t es) next ∙ entries_end-after es (at + sectors_of e) ∙ ap after sum

    dir_image-length :
        (es : List FileEntry) (at end : ℕ)
        → Laid stat at es end
        → Singles es
        → length (dir_image content es) ≡ total_sectors es * sector_size
    dir_image-length [] at end laid singles = refl
    dir_image-length (e ∷ es) at end (placed, laid) (single, singles) =
        length-append (file_image content e) (dir_image content es)
        ∙ omega (
          arith,
          file_image-length at e placed single,
          dir_image-length es (at + sectors_of e) end laid singles,
        )

    pub dirs-Hold :
        (ds : List (List FileEntry)) (at end : ℕ) (pre post : List ℕ)
        → LaidAll stat at ds end
        → AllSingles ds
        → img ≡ pre ++ (dirs_image content ds ++ post)
        → length pre ≡ after at
        → DirsHold disk img (fs_sectors * sector_size) (after at) ds
    dirs-Hold [] at end pre post laid singles parts behind = record {}
    dirs-Hold (d ∷ ds) at end pre post (here, laid) (single, singles) parts behind =
        let own = dir_image content d in
        let rest = dirs_image content ds ++ post in
        let mid = at + total_sectors d in
        let split : img ≡ pre ++ (own ++ rest) =
          parts ∙ ap (λ t. pre ++ t) (append_assoc own (dirs_image content ds) post) in
        let further : length (pre ++ own) ≡ after mid =
          length-append pre own ∙ omega (arith, behind, dir_image-length d at mid here single) in
        let more =
          dirs-Hold ds mid end (pre ++ own) post laid singles
            (split ∙ sym (append_assoc pre own rest)) further in
        (entries-Hold d at mid pre rest here single split behind, rw (entries_end-after d at) more)

    pub dirs_end-after :
        (ds : List (List FileEntry)) (at end : ℕ)
        → LaidAll stat at ds end
        → dirs_end (after at) ds ≡ after end
    dirs_end-after [] at end laid = ap after laid
    dirs_end-after (d ∷ ds) at end (here, laid) =
        ap (λ t. dirs_end t ds) (entries_end-after d at)
        ∙ dirs_end-after ds (at + total_sectors d) end laid

    pub dirs_image-length :
        (ds : List (List FileEntry)) (at end : ℕ)
        → LaidAll stat at ds end
        → AllSingles ds
        → length (dirs_image content ds) + at * sector_size ≡ end * sector_size
    dirs_image-length [] at end laid singles = omega (arith, laid)
    dirs_image-length (d ∷ ds) at end (here, laid) (single, singles) =
        let mid = at + total_sectors d in
        let both = length-append (dir_image content d) (dirs_image content ds) in
        omega (
          arith,
          both,
          dir_image-length d at mid here single,
          dirs_image-length ds mid end laid singles,
        )
