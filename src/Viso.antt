-- ===== src/Viso.antt =====
-- VIsoFile of src/VIsoFile.cpp as a file that is read: the layout of the virtual image, and read,
-- seek and fstat over it. off64_t values are numbers where the code keeps them in range.
pub mod Build
pub mod Names
pub mod Content
pub mod Layout
pub mod Mounted
pub mod Parts
pub mod Shown
pub mod Tables
pub mod Volume
pub mod Walk
pub mod Sfo
pub mod Open
pub mod Generate
pub mod Image
pub mod Pieces
pub mod ReadLaws
pub mod Records
use ps3netsrv.Prelude.{
  ℕ, zero, suc, ◌+◌, ◌-◌, ◌*◌, ◌/◌, ◌%◌, ◌^◌, min, Bool, true, false, not, ◌&&◌, ◌||◌, ltb, leb,
  ◌==◌, if◌then◌else◌, Option, none, some, List, [], ◌∷◌, ◌++◌, length, take, drop, replicate,
}
use ps3netsrv.Prelude.Int.{ℤ, pos, negsuc, ◌+ℤ◌}

-- SECTOR_SIZE.
abbrev pub sector_size : ℕ
sector_size = 2048

-- `(x + SECTOR_MASK) & ~SECTOR_MASK`.
abbrev pub round_up : ℕ → ℕ
round_up x = (x + 2047) / 2048 * 2048

-- bytesToSectors, with its uint32_t result.
unfoldable pub bytes_to_sectors : ℕ → ℕ
bytes_to_sectors size = round_up size / sector_size % 2 ^ 32

-- A FileList node without its link; a list of them is a directory.
pub record FileEntry : Type 0 where
  pub path : List ℕ
  pub rlba : ℕ
  pub size : ℕ
  pub multipart : Bool

-- The fields that read, seek and fstat use. `dirs` has the file list of every directory in the order
-- of the flat directory list.
pub record VisoFile : Type 0 where
  pub v_file_ptr : ℤ
  pub fs_buf : Option (List ℕ)
  pub fs_buf_size : ℕ
  pub dirs : List (List FileEntry)
  pub total_size : ℕ
  pub pad_area_start : ℕ
  pub pad_area_size : ℕ

-- How far a read has come: the pointer, the bytes still wanted, those delivered, and whether a
-- `return r` was met.
pub record Progress : Type 0 where
  pub ptr : ℕ
  pub remaining : ℕ
  pub out : List ℕ
  pub stopped : Bool

-- `to_read` bytes are delivered.
abbrev pub deliver : List ℕ → Progress → Progress
deliver bytes p = record p {
  ptr = p.ptr + length bytes;
  remaining = p.remaining - length bytes;
  out = p.out ++ bytes;
}

abbrev pub stop : Progress → Progress
stop p = record p { stopped = true }

-- open_file, seek_file, read_file and close_file on one file: `none` where it cannot be opened or
-- read, else the bytes that the read stored.
abbrev pub Disk : Type 0
Disk = List ℕ → ℕ → ℕ → Option (List ℕ)

-- The zeros that fill the last sector of a file.
pub read_fill : ℕ → ℕ → Progress → Progress
read_fill f_end f_end_sector p =
    if not p.stopped && (ltb 0 p.remaining && not (f_end == f_end_sector))
    then deliver (replicate (min (f_end_sector - f_end - (p.ptr - f_end)) p.remaining) 0) p
    else p

-- The file system area, which is in memory.
pub read_fs : VisoFile → List ℕ → Progress → Progress
read_fs v fs p =
    if ltb p.ptr v.fs_buf_size
    then deliver (take (min (v.fs_buf_size - p.ptr) p.remaining) (drop p.ptr fs)) p
    else p

-- The zeros at the end of the image.
pub read_pad : VisoFile → Progress → Progress
read_pad v p =
    if leb v.pad_area_start p.ptr && ltb p.ptr v.total_size
    then (let read_size = v.pad_area_size - (p.ptr - v.pad_area_start) in
        if ltb 0 read_size then deliver (replicate (min read_size p.remaining) 0) p else stop p)
    else p

module _ (disk : Disk) where
  -- The bytes of the file itself.
  pub read_body : ℕ → FileEntry → Progress → Progress
  read_body f_start f p =
      let to_read = min (f.size - (p.ptr - f_start)) p.remaining in
      elim (disk f.path (p.ptr - f_start) to_read) [
        | none ↦ stop p
        | some got ↦ if length got == to_read then deliver got p else stop p
      ]

  -- One round of the loop over the files.
  pub read_entry : ℕ → FileEntry → Progress → Progress
  unfolding read_body read_fill
  read_entry fs_buf_size f p =
      let f_start = fs_buf_size + f.rlba * sector_size in
      let f_end = f_start + f.size in
      let f_end_sector = round_up f_end in
      if leb f_start p.ptr && ltb p.ptr f_end_sector
      then if f.multipart
        then stop p
        else (let q =
              read_fill f_end f_end_sector (if ltb p.ptr f_end then read_body f_start f p else p) in
            if q.remaining == 0 then stop q else q)
      else p

  pub read_entries : ℕ → List FileEntry → Progress → Progress
  read_entries fs_buf_size [] p = p
  read_entries fs_buf_size (f ∷ fs) p =
      let q = read_entry fs_buf_size f p in
      let rest = read_entries fs_buf_size fs q in if q.stopped then q else rest

  pub read_dirs : ℕ → List (List FileEntry) → Progress → Progress
  read_dirs fs_buf_size [] p = p
  read_dirs fs_buf_size (d ∷ ds) p =
      let q = read_entries fs_buf_size d p in
      let rest = read_dirs fs_buf_size ds q in if q.stopped then q else rest

  pub read_at : VisoFile → List ℕ → Progress → Progress
  unfolding read_fs read_pad
  read_at v fs p =
      let p1 = read_fs v fs p in
      if p1.remaining == 0 || leb v.total_size p1.ptr
      then p1
      else (let p2 =
            if ltb p1.ptr v.pad_area_start then read_dirs v.fs_buf_size v.dirs p1 else p1 in
          if p2.stopped then p2 else read_pad v p2)

  -- VIsoFile::read; `none` is a negative result.
  pub read : VisoFile → ℕ → Option (List ℕ) × VisoFile
  unfolding read_at
  read v nbyte = elim v.fs_buf [
    | none ↦ (none, v)
    | some fs ↦ elim v.v_file_ptr [
      | pos ptr ↦
          if leb v.total_size ptr || nbyte == 0
          then (some [], v)
          else (let q =
                read_at v fs (record { ptr = ptr; remaining = nbyte; out = []; stopped = false }) in
              (some q.out, record v { v_file_ptr = pos q.ptr }))
      | negsuc k ↦ (if nbyte == 0 then some [] else none, v)
    ]
  ]

pub data Whence : Type 0 where
  seek_set seek_cur seek_end : Whence

-- VIsoFile::seek.
pub seek_to : VisoFile → ℤ → Whence → ℤ
unfolding ◌+ℤ◌
seek_to v offset seek_set = offset
seek_to v offset seek_cur = v.v_file_ptr +ℤ offset
seek_to v offset seek_end = pos v.total_size +ℤ offset

unfoldable pub seek : VisoFile → ℤ → Whence → ℤ × VisoFile
unfolding seek_to
seek v offset whence = elim v.fs_buf [
  | none ↦ (negsuc 0, v)
  | some fs ↦ (seek_to v offset whence, record v { v_file_ptr = seek_to v offset whence })
]
