-- ===== src/Session.antt =====
-- The state of one client thread: client_t of src/main.cpp without the fields of the accept loop
-- (those are in Slots.antt), and what the thread has sent so far.
use ps3netsrv.Prelude.{
  ℕ, ◌*◌, Bool, true, false, ◌==◌, if◌then◌else◌, Option, none, some, List, [], ◌∷◌, ◌++◌, length,
  drop,
}
use ps3netsrv.Env.{AbstractFile, Os}

-- SUCCEEDED and FAILED.
pub data Status : Type 0 where
  succeeded failed : Status

-- `buf` holds the bytes of the transfer buffer, `none` where it could not be allocated. `dir` holds
-- the entries that readdir has still to deliver.
pub record Client (F : AbstractFile) : Type 0 where
  pub ro_file : Option (AbstractFile.Handle F)
  pub wo_file : Option (AbstractFile.Handle F)
  pub dir : Option (List (List ℕ))
  pub dirpath : Option (List ℕ)
  pub buf : Option (List ℕ)
  pub cd_sector_size : ℕ
  pub subdirs : ℕ
  pub ro_file_size : ℕ
  pub eof_pad_logged : Bool

-- BUFFER_SIZE.
abbrev pub buffer_size : ℕ
buffer_size = 4 * 1048576

module _ {F : AbstractFile} where
  -- A write of `bytes` at the start of the buffer: what stood behind them stays.
  abbrev pub fill_buf : List ℕ → Client F → Client F
  fill_buf bytes c = record c {
    buf = elim c.buf [ none ↦ none | some old ↦ some (bytes ++ drop (length bytes) old) ];
  }

  -- What a read leaves in the buffer.
  abbrev pub filled : Option (List ℕ) → Client F → Client F
  filled none c = c
  filled (some got) c = fill_buf got c

  -- log_eof_padding: the note is printed once for each opened file.
  unfoldable pub log_eof_padding : Client F → Client F
  log_eof_padding c = if c.eof_pad_logged then c else record c { eof_pad_logged = true }

pub record Session (os : Os) : Type 0 where
  pub world : Os.World os
  pub client : Client (Os.file os)
  pub sent : List (List ℕ)

module _ {os : Os} where
  -- send() of a whole reply: whether the call took every byte. The call is recorded either way.
  unfoldable pub send_all : List ℕ → Session os → Bool × Session os
  send_all bytes s =
      let (r, w) = Os.send os bytes s.world in
      (
        elim r [ none ↦ false | some n ↦ n == length bytes ],
        record s { world = w; sent = s.sent ++ bytes ∷ [] },
      )
