-- ===== src/Viso/Content/Blocks.antt =====
-- build of src/VIsoFile.cpp gives every directory the block at which its content will stand.
use ps3netsrv.Prelude.{
  ℕ, zero, suc, ◌+◌, ◌%◌, ◌^◌, ◌<◌, ◌≤◌, ◌≡◌, ◌⊎◌, refl, sym, ap, ◌∙◌, arith, Bool, false, ltb,
  ◌==◌, Bool-cases, Option-cases, inl, inr, Option, some, List, [], ◌∷◌, ◌++◌, length, set,
  length-append,
}
use ps3netsrv.Viso.{bytes_to_sectors}
use ps3netsrv.Viso.Records.{Time, padded, temp_buf_size}
use ps3netsrv.Viso.Content.{
  Directory, extent_of, put_extent, put_size, directory_bytes, put_in_parent, build_content,
  build_contents,
}
use ps3netsrv.Viso.Content.Located.{
  get_or_in, Front, Front-Alike, put_extent-Alike, Placed, sectors_of, sectors_of-set, Placed-set,
  Placed-snoc, sectors_of-snoc, sectors_of-le,
}
use ps3netsrv.Viso.Content.Own.{
  padded-sectors, false→le, put_size-Front_of, directory_bytes-own, Nameable, AllNameable,
  extent_of_len, put_in_parent-Alike,
}

module _ (times : List ℕ → Option Time) (joliet : Bool) where
  -- What holds behind the directories that were built: each is at its block, and the counter is the
  -- number of their sectors.
  pub record Laid (contents : List (List ℕ)) (sectors : ℕ) : Type 0 where
    pub placed : Placed 0 contents
    pub counted : sectors ≡ sectors_of contents

  length-set_all : (cs : List (List ℕ)) (i : ℕ) (c : List ℕ) → length (set cs i c) ≡ length cs
  length-set_all [] i c = refl
  length-set_all (b ∷ cs) zero c = refl
  length-set_all (b ∷ cs) (suc i) c = ap suc (length-set_all cs i c)

  snoc-Laid :
      (contents : List (List ℕ)) (sectors : ℕ) (c : List ℕ)
      → Laid contents sectors
      → Front sectors c
      → length contents < 2 ^ 20
      → Laid (contents ++ c ∷ []) ((sectors + bytes_to_sectors (length c)) % 2 ^ 32)
  unfolding bytes_to_sectors
  snoc-Laid contents sectors c laid f few =
      let le = sectors_of-le 0 contents laid.placed in
      let from_start : 0 + sectors_of contents ≡ sectors = omega (arith, laid.counted) in
      record {
        placed = Placed-snoc 0 contents c laid.placed (rw from_start f);
        counted =
            omega (arith, sectors_of-snoc contents c, le, few, f.small, f.sectors, laid.counted);
      }

  -- A directory that was built with room in tempBuf.
  own_Front :
      (dirs : List Directory) (contents : List (List ℕ)) (sectors : ℕ) (d : Directory)
      (is_root : Bool) (bytes : List ℕ)
      → directory_bytes times joliet dirs contents sectors d is_root ≡ some bytes
      → sectors < 2 ^ 32
      → ltb temp_buf_size (length (put_size (padded bytes))) ≡ false
      → Front sectors (put_size (padded bytes))
  own_Front dirs contents sectors d is_root bytes e fits room =
      let (time, tail, shape) =
        directory_bytes-own times joliet dirs contents sectors d is_root bytes e in
      put_size-Front_of sectors time tail (padded bytes) shape fits (padded-sectors bytes)
        (false→le temp_buf_size (length (put_size (padded bytes))) room)

  -- The new content of the root, whose second record is filled in.
  root_Laid :
      (contents contents' : List (List ℕ)) (sectors sectors' : ℕ) (content : List ℕ)
      → length contents < 2 ^ 20
      → Laid contents sectors
      → Front sectors content
      → contents ++ put_extent 40 (extent_of content) content ∷ [] ≡ contents'
      → (sectors + bytes_to_sectors (length content)) % 2 ^ 32 ≡ sectors'
      → Laid contents' sectors' × (length contents' ≡ suc (length contents))
  root_Laid contents contents' sectors sectors' content few laid f all count =
      let c = put_extent 40 (extent_of content) content in
      let long = get_or_in content 32 (omega (arith, f.id_len)) in
      let alike =
        put_extent-Alike 40 (extent_of content) content (omega arith)
          (omega (arith, long, f.sectors)) (extent_of_len times joliet sectors content f) in
      let l = snoc-Laid contents sectors c laid (Front-Alike sectors content c alike f) few in
      (
        rw (← all, ← count) (rw alike.same_len at l),
        ap length (sym all) ∙ omega (arith, length-append contents (c ∷ [])),
      )

  below_Laid :
      (d : Directory) (contents contents' patched : List (List ℕ)) (sectors sectors' : ℕ)
      (content : List ℕ)
      → Nameable times joliet d
      → length contents < 2 ^ 20
      → Laid contents sectors
      → Front sectors content
      → put_in_parent times joliet d content contents ≡ some patched
      → patched ++ content ∷ [] ≡ contents'
      → (sectors + bytes_to_sectors (length content)) % 2 ^ 32 ≡ sectors'
      → Laid contents' sectors' × (length contents' ≡ suc (length contents))
  below_Laid d contents contents' patched sectors sectors' content named few laid f put all count =
      let (c, same_all, alike) =
        put_in_parent-Alike times joliet d sectors content contents patched named f laid.placed
          put in
      let len : length patched ≡ length contents =
        ap length same_all ∙ length-set_all contents d.parent c in
      let kept : Laid patched sectors = rw same_all (record {
        placed = Placed-set 0 contents d.parent c alike laid.placed;
        counted = laid.counted ∙ sym (sectors_of-set contents d.parent c alike);
      }) in
      (
        rw (← all, ← count) (snoc-Laid patched sectors content kept f (omega (arith, len, few))),
        ap length (sym all) ∙ omega (arith, length-append patched (content ∷ []), len),
      )

  not_root :
      (d : Directory) (n : ℕ)
      → (d.parent ≡ n) ⊎ Nameable times joliet d
      → (d.parent == n) ≡ false
      → Nameable times joliet d
  not_root d n (inl root) other = absurd (ground (arith, root, other))
  not_root d n (inr named) other = named

  build_content-Laid :
      (dirs : List Directory) (d : Directory) (contents contents' : List (List ℕ))
      (sectors sectors' : ℕ)
      → (d.parent ≡ length contents) ⊎ Nameable times joliet d
      → length contents < 2 ^ 20
      → Laid contents sectors
      → build_content times joliet dirs d contents sectors ≡ some (contents', sectors')
      → Laid contents' sectors' × (length contents' ≡ suc (length contents))
  unfolding build_content
  build_content-Laid dirs d contents contents' sectors sectors' named few laid e =
      let is_root = d.parent == length contents in
      let fits : sectors < 2 ^ 32 =
        omega (arith, laid.counted, sectors_of-le 0 contents laid.placed, few) in
      elim (Option-cases (directory_bytes times joliet dirs contents sectors d is_root)) [
        | inl failing ↦ absurd (ground (arith, rw (build_content, failing) at e))
        | inr (bytes, made) ↦
            let content = put_size (padded bytes) in
            let after = (sectors + bytes_to_sectors (length content)) % 2 ^ 32 in
            elim (Bool-cases (ltb temp_buf_size (length content))) [
              | inl large ↦ absurd (ground (arith, rw (build_content, made, large) at e))
              | inr room ↦
                  let f = own_Front dirs contents sectors d is_root bytes made fits room in
                  elim (Bool-cases is_root) [
                    | inl root ↦
                        root_Laid contents contents' sectors sectors' content few laid f
                          (cc (rw (build_content, made, room, root) at e))
                          (cc (rw (build_content, made, room, root) at e))
                    | inr below ↦
                        elim (Option-cases (put_in_parent times joliet d content contents)) [
                          | inl lost ↦
                              absurd
                                (ground (arith, rw (build_content, made, room, below, lost) at e))
                          | inr (patched, put) ↦
                              below_Laid d contents contents' patched sectors sectors' content
                                (not_root d (length contents) named below) few laid f put
                                (cc (rw (build_content, made, room, below, put) at e))
                                (cc (rw (build_content, made, room, below, put) at e))
                        ]
                  ]
            ]
      ]

  build_contents-Laid :
      (dirs ds : List Directory) (contents contents' : List (List ℕ)) (sectors sectors' : ℕ)
      → AllNameable times joliet (length contents) ds
      → length contents + length ds ≤ 2 ^ 20
      → Laid contents sectors
      → build_contents times joliet dirs ds contents sectors ≡ some (contents', sectors')
      → Laid contents' sectors'
  unfolding build_contents
  build_contents-Laid dirs [] contents contents' sectors sectors' named few laid e =
      let all : contents ≡ contents' = cc e in
      let count : sectors ≡ sectors' = cc e in rw (← all, ← count) laid
  build_contents-Laid dirs (d ∷ ds) contents contents' sectors sectors' (first, named) few laid e =
      elim (Option-cases (build_content times joliet dirs d contents sectors)) [
        | inl failing ↦ absurd (ground (arith, rw (build_contents, failing) at e))
        | inr ((contents1, sectors1), made) ↦
            let (laid1, longer) =
              build_content-Laid dirs d contents contents1 sectors sectors1 first
                (omega (arith, few)) laid made in
            build_contents-Laid dirs ds contents1 contents' sectors1 sectors' (rw longer named)
              (omega (arith, few, longer)) laid1 (rw (build_contents, made) at e)
      ]

  -- Where the contents of all directories are built, of at most 2 ^ 20: the block in the first record of
  -- each, in both byte orders and counted from the start of the area, is the number of sectors of the directories before it,
  -- whatever was filled in later, and dirsSizeSectors is the number of all. A directory below the root has
  -- a name with an identifier that is not empty and not a zero byte.
  pub build_contents-Placed :
      (dirs : List Directory) (contents : List (List ℕ)) (sectors : ℕ)
      → AllNameable times joliet 0 dirs
      → length dirs ≤ 2 ^ 20
      → build_contents times joliet dirs dirs [] 0 ≡ some (contents, sectors)
      → Placed 0 contents × (sectors ≡ sectors_of contents)
  build_contents-Placed dirs contents sectors named few e =
      let laid =
        build_contents-Laid dirs dirs [] contents 0 sectors named (omega (arith, few))
          (record { placed = record {}; counted = refl }) e in
      (laid.placed, laid.counted)
