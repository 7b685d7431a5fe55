-- ===== src/Commands.antt =====
-- What the commands of src/main.cpp on paths share, and process_open_cmd; the other commands are in
-- Commands/Paths.antt.
-- A recv that fails returns -1, which is no length; process_open_cmd keeps it in 16 bits, where it
-- would pass for the length 65535, and the model has it fail there too.
pub mod Detected
pub mod Opened
pub mod Paths
pub mod Replies
use ps3netsrv.Prelude.{
  ℕ, ◌+◌, ◌*◌, ◌%◌, ◌^◌, Bool, true, false, not, ◌&&◌, ◌||◌, ltb, leb, ◌==◌, if◌then◌else◌, Option,
  none, some, List, [], ◌∷◌, ◌++◌, length, take, drop,
}
use ps3netsrv.Env.{AbstractFile, Os, Stat, Viso, viso_none}
use ps3netsrv.Session.{
  Status, succeeded, failed, Client, Session, buffer_size, fill_buf, filled, send_all,
}
use ps3netsrv.Wire.{be16, be32, be64, store32, store64, none32, none64}
use ps3netsrv.Path.{c_str, normalize_path, find, is_some, starts_with, translate_path}

-- The length field of a command on a path, as loaded by the host.
pub record PathCmd : Type 0 where
  pub path_len : ℕ

-- strcmp of two strings of bytes is zero.
abbrev pub equal : List ℕ → List ℕ → Bool
equal xs ys = length xs == length ys && starts_with xs ys

-- "/CLOSEFILE", "PLAYSTATION " and "CD001".
abbrev pub close_file : List ℕ
close_file = 47 ∷ 67 ∷ 76 ∷ 79 ∷ 83 ∷ 69 ∷ 70 ∷ 73 ∷ 76 ∷ 69 ∷ []

abbrev pub playstation : List ℕ
playstation = 80 ∷ 76 ∷ 65 ∷ 89 ∷ 83 ∷ 84 ∷ 65 ∷ 84 ∷ 73 ∷ 79 ∷ 78 ∷ 32 ∷ []

abbrev pub cd001 : List ℕ
cd001 = 67 ∷ 68 ∷ 48 ∷ 48 ∷ 49 ∷ []

-- sec_size.
abbrev pub sec_size : List ℕ
sec_size = 2352 ∷ 2048 ∷ 2336 ∷ 2448 ∷ 2328 ∷ 2368 ∷ 2340 ∷ []

abbrev pub buf_of : {F : AbstractFile} → Client F → List ℕ
buf_of c = elim c.buf [ none ↦ [] | some b ↦ b ]

-- netiso_open_result.
abbrev pub open_result : ℕ → ℕ → List ℕ
open_result size mtime = store64 size ++ store64 mtime

module _ {F : AbstractFile} where
  -- One round of the search for the sector size: whether it is `size`. Both signatures are looked for
  -- in the buffer, with what earlier reads left there.
  unfoldable pub probe :
      ℕ → AbstractFile.Handle F → Client F → Bool × AbstractFile.Handle F × Client F
  probe size h c =
      let (_, h1) = AbstractFile.seek F h (size * 16 + 24) in
      let (r1, h2) = AbstractFile.read F h1 12 in
      let c1 = filled r1 c in
      let (r2, h3) = AbstractFile.read F h2 5 in
      let c2 = filled r2 c1 in
      if equal (take 12 (drop 8 (buf_of c1))) playstation then (true, h2, c1) else (
        equal (take 5 (drop 1 (buf_of c2))) cd001 && equal (take 1 (buf_of c2)) (1 ∷ []),
        h3,
        c2,
      )

  unfoldable pub detect :
      List ℕ → AbstractFile.Handle F → Client F → AbstractFile.Handle F × Client F
  unfolding probe
  detect [] h c = (h, c)
  detect (size ∷ sizes) h c =
      let (found, h1, c1) = probe size h c in
      let rest = detect sizes h1 c1 in
      if found then (h1, record c1 { cd_sector_size = size }) else rest

module _ {os : Os} where
  -- The reply is sent, and the command ends with `st` if the peer took all of it.
  unfoldable pub reply : List ℕ → Status → Session os → Status × Session os
  reply bytes st s = let (sent, s1) = send_all bytes s in (if sent then st else failed, s1)

  -- recv_all of a path: all of its bytes, or none.
  unfoldable pub recv_path : ℕ → Session os → Option (List ℕ) × Session os
  recv_path len s =
      let (r, w) = Os.recv os len s.world in
      (
        elim r [ none ↦ none | some got ↦ if length got == len then some (c_str got) else none ],
        record s { world = w },
      )

  module _ (root : List ℕ) where
    unfoldable pub translate : Bool → List ℕ → Session os → Option (List ℕ × Viso)
    unfolding translate_path
    translate wants path s =
        translate_path (λ p. Os.stat_file os p s.world) (λ p n. Os.read_file os p n s.world) root
          wants path

    abbrev pub open_failed : Session os → Status × Session os
    open_failed s = reply (open_result (be64 none64) (be64 0)) failed s

    -- What happens to the client before the new file is opened.
    abbrev pub no_file : Session os → Session os
    no_file s = record s {
      client = record s.client { ro_file = none; ro_file_size = 0; eof_pad_logged = false };
    }

    -- The file is open: its size is asked for, and the sector size of a CD image looked for.
    unfoldable pub opened : AbstractFile.Handle (Os.file os) → Session os → Status × Session os
    unfolding reply detect
    opened h s =
        let (st, h1) = AbstractFile.fstat (Os.file os) h in
        elim st [
          | none ↦ open_failed s
          | some st ↦
              let c = record s.client { ro_file_size = st.file_size } in
              let (h2, c2) =
                if leb 2097152 st.file_size && leb st.file_size 889192448
                then detect sec_size h1 c
                else (h1, c) in
              reply (open_result (be64 st.file_size) (be64 st.mtime)) succeeded
                (record s { client = record c2 { ro_file = some h2 } })
        ]

    unfoldable pub open_path : List ℕ → Session os → Status × Session os
    unfolding opened translate
    open_path path s = elim (translate true path s) [
      | none ↦ open_failed s
      | some (filepath, viso) ↦
          let (h, w) = Os.open_read os viso filepath s.world in
          let s1 = record s { world = w; client = record s.client { cd_sector_size = 2352 } } in
          elim h [ none ↦ open_failed s1 | some h ↦ opened h s1 ]
    ]

    unfoldable pub process_open_cmd : PathCmd → Session os → Status × Session os
    unfolding open_path recv_path
    process_open_cmd cmd s =
        let fp_len = be16 cmd.path_len in
        let (r, s1) = recv_path fp_len s in
        if not (is_some s.client.buf) || fp_len == 0 then open_failed s else elim r [
          | none ↦ open_failed s1
          | some path ↦
              let s2 = no_file s1 in
              if fp_len == 10 && equal path close_file
              then reply (open_result (be64 none64) (be64 0)) succeeded s2
              else open_path path s2
        ]
