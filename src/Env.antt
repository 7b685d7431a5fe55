-- ===== src/Env.antt =====
-- What the server calls and does not implement: the peer's socket (recv and send in src/main.cpp),
-- the objects behind AbstractFile (include/AbstractFile.h), and the calls on the file system that
-- include/compat.h declares. All of it is a parameter of the handlers.
use ps3netsrv.Prelude.{ℕ, ◌+◌, ◌^◌, ◌<◌, ◌≡◌, true, Bool, Option, some, List, length, take, drop}

-- file_stat_t of include/compat.h: the fields that the handlers read.
pub record Stat : Type 0 where
  pub file_size : ℕ
  pub is_dir : Bool
  pub is_reg : Bool
  pub mtime : ℕ
  pub ctime : ℕ
  pub atime : ℕ

-- The virtual methods of AbstractFile. A read returns the bytes that it stored, and `none` for a
-- negative result; a seek says whether its result was not negative.
pub record AbstractFile : Type 1 where
  pub Handle : Type 0
  pub read : Handle → ℕ → Option (List ℕ) × Handle
  pub write : Handle → List ℕ → Option ℕ × Handle
  pub seek : Handle → ℕ → Bool × Handle
  pub fstat : Handle → Option Stat × Handle
  pub supports_bulk_read : Handle → Bool

-- What POSIX promises of a readable file whose bytes do not change while it is read: a read
-- delivers what there is from the position on, up to the count, and moves the position.
pub record RegularFile (F : AbstractFile) : Type 0 where
  pub content : AbstractFile.Handle F → List ℕ
  pub position : AbstractFile.Handle F → ℕ
  pub read-eq-take :
      (h : AbstractFile.Handle F) (n : ℕ)
      → (AbstractFile.read F h n).0 ≡ some (take n (drop (position h) (content h)))
  pub position-read :
      (h : AbstractFile.Handle F) (n : ℕ)
      → position (AbstractFile.read F h n).1
        ≡ position h + length (take n (drop (position h) (content h)))
  pub content-read :
      (h : AbstractFile.Handle F) (n : ℕ) → content (AbstractFile.read F h n).1 ≡ content h
  pub seek_ok :
      (h : AbstractFile.Handle F) (n : ℕ) → n < 2 ^ 63 → (AbstractFile.seek F h n).0 ≡ true
  pub position-seek :
      (h : AbstractFile.Handle F) (n : ℕ) → n < 2 ^ 63 → position (AbstractFile.seek F h n).1 ≡ n
  pub content-seek :
      (h : AbstractFile.Handle F) (n : ℕ) → content (AbstractFile.seek F h n).1 ≡ content h

-- VISO_NONE, VISO_PS3, VISO_ISO of src/main.cpp: which class opens a path.
pub data Viso : Type 0 where
  viso_none viso_ps3 viso_iso : Viso

-- The operating system and the peer. A path is the bytes of a C string without its end.
-- recv is the call with MSG_WAITALL: `none` for an error, else the bytes that arrived.
-- send returns `none` for an error, else the number of bytes that it took.
-- unlink, mkdir and rmdir return the 32 bits of their int result.
pub record Os : Type 1 where
  pub file : AbstractFile
  pub World : Type 0
  pub recv : ℕ → World → Option (List ℕ) × World
  pub send : List ℕ → World → Option ℕ × World
  pub stat_file : List ℕ → World → Option Stat
  pub read_file : List ℕ → ℕ → World → Option (List ℕ)
  pub open_read : Viso → List ℕ → World → Option (AbstractFile.Handle file) × World
  pub open_create : List ℕ → World → Option (AbstractFile.Handle file) × World
  pub unlink : List ℕ → World → ℕ × World
  pub mkdir : List ℕ → World → ℕ × World
  pub rmdir : List ℕ → World → ℕ × World
  pub opendir : List ℕ → World → Option (List (List ℕ))
