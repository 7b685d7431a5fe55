-- ===== src/File.antt =====
-- File of src/File.cpp with an image in several parts: File::read and File::seek with SEEK_SET,
-- where neither `is_multipart` nor `part_size` is zero. The descriptors fp[i] with read_file and
-- seek_file of include/compat.h are a parameter with the shape of AbstractFile.
pub mod Encrypted
pub mod Multipart
pub mod Open
use ps3netsrv.Prelude.{
  ℕ, zero, suc, ◌+◌, ◌-◌, ◌*◌, ◌/◌, ◌%◌, Bool, true, false, not, ◌&&◌, ◌||◌, ltb, leb, ◌==◌,
  if◌then◌else◌, Option, none, some, List, [], ◌∷◌, ◌++◌, length, take,
}
use ps3netsrv.Env.{AbstractFile, Stat}

-- The fields that an image in parts uses. `fp` has `is_multipart` descriptors.
pub record Parts (F : AbstractFile) : Type 0 where
  pub fp : ℕ → AbstractFile.Handle F
  pub is_multipart : ℕ
  pub part_size : ℕ
  pub index : ℕ

-- What a read comes to. `underrun` is a second read that stores from the byte before the buffer on,
-- since the first one returned -1.
pub data ReadOut : Type 0 where
  stored : List ℕ → ReadOut
  failing underrun : ReadOut

module _ {F : AbstractFile} where
  abbrev pub put_part : ℕ → AbstractFile.Handle F → Parts F → Parts F
  put_part i h p = record p { fp = λ j. if j == i then h else p.fp j }

  -- The second read, at the beginning of the next part. Where it returns -1 that is added to the
  -- count of the first one.
  unfoldable pub read_next : List ℕ → ℕ → Parts F → ReadOut × Parts F
  read_next got more p =
      let i = p.index + 1 in
      let (_, h) = AbstractFile.seek F (p.fp i) 0 in
      let (r, h1) = AbstractFile.read F h more in
      let p1 = record (put_part i h1 p) { index = i } in
      (
        elim r [
          | none ↦ if length got == 0 then failing else stored (take (length got - 1) got)
          | some next ↦ stored (got ++ next)
        ],
        p1,
      )

  unfoldable pub read : Parts F → ℕ → ReadOut × Parts F
  unfolding read_next
  read p nbyte =
      let (r, h) = AbstractFile.read F (p.fp p.index) nbyte in
      let p1 = put_part p.index h p in
      let has_next = ltb (p.index + 1) p.is_multipart in
      elim r [
        | none ↦ (if has_next then underrun else failing, p1)
        | some got ↦
            let next = read_next got (nbyte - length got) p1 in
            if ltb (length got) nbyte && has_next then next else (stored got, p1)
      ]

  -- The offset chooses the part; the result says whether it was not negative.
  unfoldable pub seek : Parts F → ℕ → Bool × Parts F
  seek p offset =
      let i = offset / p.part_size in
      let (found, h) = AbstractFile.seek F (p.fp i) (offset % p.part_size) in
      if leb p.is_multipart i then (false, p) else (found, record (put_part i h p) { index = i })
