-- ===== src/Tests/Memory.antt =====
-- A file in memory and a peer that takes everything: they meet what Env.antt asks for.
use ps3netsrv.Prelude.{
  ℕ, ◌+◌, ◌^◌, ◌<◌, ◌≡◌, refl, true, false, ltb, arith, none, some, List, length, take, drop, [],
  ◌∷◌,
}
use ps3netsrv.Env.{AbstractFile, RegularFile, Os, Stat}

pub record MemFile : Type 0 where
  pub bytes : List ℕ
  pub at : ℕ

abbrev pub regular : ℕ → Stat
regular n = record { file_size = n; is_dir = false; is_reg = true; mtime = 1; ctime = 2; atime = 3 }

abbrev pub mem_file : AbstractFile
mem_file = record {
  Handle = MemFile;
  read = λ h n.
      let got = take n (drop h.at h.bytes) in
      (some got, record { bytes = h.bytes; at = h.at + length got });
  write = λ h b. (none, h);
  seek = λ h n. (ltb n (2 ^ 63), record { bytes = h.bytes; at = n });
  fstat = λ h. (some (regular (length h.bytes)), h);
  supports_bulk_read = λ h. true;
}

pub seek_below : (n : ℕ) → n < 2 ^ 63 → ltb n (2 ^ 63) ≡ true
seek_below n h = ground arith

abbrev pub mem_regular : RegularFile mem_file
mem_regular = record {
  content = λ h. h.bytes;
  position = λ h. h.at;
  read-eq-take = λ h n. refl;
  position-read = λ h n. refl;
  content-read = λ h n. refl;
  seek_ok = λ h n small. seek_below n small;
  position-seek = λ h n small. refl;
  content-seek = λ h n. refl;
}

abbrev pub mem_os : Os
mem_os = record {
  file = mem_file;
  World = Unit {0};
  recv = λ n w. (none, w);
  send = λ b w. (some (length b), w);
  stat_file = λ p w. none;
  read_file = λ p n w. none;
  open_read = λ v p w. (none, w);
  open_create = λ p w. (none, w);
  unlink = λ p w. (0, w);
  mkdir = λ p w. (0, w);
  rmdir = λ p w. (0, w);
  opendir = λ p w. none;
}

-- The bytes that arrive are the world; "/r/g" is a file of three bytes.
abbrev pub net_os : Os
net_os = record {
  file = mem_file;
  World = List ℕ;
  recv = λ n w. (some (take n w), drop n w);
  send = λ b w. (some (length b), w);
  stat_file = λ p w. none;
  read_file = λ p n w. none;
  open_read = λ v p w. (some (record { bytes = 7 ∷ 8 ∷ 9 ∷ []; at = 0 }), w);
  open_create = λ p w. (none, w);
  unlink = λ p w. (0, w);
  mkdir = λ p w. (length p, w);
  rmdir = λ p w. (0, w);
  opendir = λ p w. none;
}

-- The same with files of three bytes everywhere.
abbrev pub full_os : Os
full_os = record net_os { stat_file = λ p w. some (regular 3) }
