-- ===== src/Commands/Replies.antt =====
-- What the commands of src/main.cpp on paths send, and which paths they hand to the file system.
use ps3netsrv.Prelude.{
  ◌≡◌, ◌⊎◌, inl, inr, refl, sym, ◌∙◌, arith, true, false, not, ◌&&◌, ◌||◌, ◌==◌, Bool-cases,
  Option-cases, none, ℕ, List, [], ◌∷◌, ◌++◌, length,
}
use ps3netsrv.Env.{AbstractFile, Os}
use ps3netsrv.Session.{succeeded, failed, Session, send_all}
use ps3netsrv.Wire.{be16, be32, be64, store32, none64}
use ps3netsrv.Path.{ini, is_some, normalize_path}
use ps3netsrv.Path.Normal.{Clean}
use ps3netsrv.Path.Security.{translate_path-accepts, translate_path-below}
use ps3netsrv.Commands.{
  PathCmd, equal, close_file, reply, recv_path, translate, open_result, no_file, opened, open_path,
  process_open_cmd,
}
use ps3netsrv.Commands.Paths.{on_path}

-- Exactly one message of `n` bytes has been sent.
abbrev pub Answers : {os : Os} → ℕ → Session os → Session os → Type 0
Answers n s s' = (b : List ℕ) × (s'.sent ≡ s.sent ++ b ∷ []) × (length b ≡ n)

module _ {os : Os} (root : List ℕ) where
  opened-Answers :
      (h : AbstractFile.Handle (Os.file os)) (s : Session os) → Answers 16 s (opened root h s).1
  unfolding opened reply send_all
  opened-Answers h s = elim (Option-cases (AbstractFile.fstat (Os.file os) h).0) [
    | inl failing ↦ rw (opened, failing) (open_result (be64 none64) (be64 0), refl, refl)
    | inr (st, known) ↦
        rw (opened, known) (open_result (be64 st.file_size) (be64 st.mtime), refl, refl)
  ]

  open_path-Answers : (path : List ℕ) (s : Session os) → Answers 16 s (open_path root path s).1
  unfolding open_path reply send_all
  open_path-Answers path s = elim (Option-cases (translate root true path s)) [
    | inl refused ↦ rw (open_path, refused) (open_result (be64 none64) (be64 0), refl, refl)
    | inr ((filepath, viso), accepted) ↦
        let (file, w) = Os.open_read os viso filepath s.world in
        let s1 : Session os = record s {
          world = w;
          client = record s.client { cd_sector_size = 2352 };
        } in
        elim (Option-cases file) [
          | inl failing ↦
              rw (open_path, accepted, failing) (open_result (be64 none64) (be64 0), refl, refl)
          | inr (h, there) ↦ rw (open_path, accepted, there) (opened-Answers h s1)
        ]
  ]

  -- An open command is answered by exactly one message of 16 bytes, whatever the request and whether
  -- it succeeds or fails.
  pub process_open_cmd-Answers :
      (cmd : PathCmd) (s : Session os) → Answers 16 s (process_open_cmd root cmd s).1
  unfolding process_open_cmd recv_path reply send_all
  process_open_cmd-Answers cmd s =
      let fp_len = be16 cmd.path_len in
      let (got, s1) = recv_path fp_len s in
      let no_result = open_result (be64 none64) (be64 0) in
      elim (Bool-cases (not (is_some s.client.buf) || fp_len == 0)) [
        | inl bad ↦ rw (process_open_cmd, bad) (no_result, refl, refl)
        | inr fine ↦ elim (Option-cases got) [
          | inl lost ↦ rw (process_open_cmd, fine, lost) (no_result, refl, refl)
          | inr (path, received) ↦ elim (Bool-cases (fp_len == 10 && equal path close_file)) [
            | inl close ↦ rw (process_open_cmd, fine, received, close) (no_result, refl, refl)
            | inr other ↦
                rw (process_open_cmd, fine, received, other)
                  (open_path-Answers path (no_file root s1))
          ]
        ]
      ]

  -- Where no INI file exists and the root has slashes only and none at its end, a delete, mkdir or
  -- rmdir command either fails without a call and without a reply, or makes its call on a path that
  -- is the root followed by more, and replies with the result of the call.
  pub on_path-below :
      Clean root
      → ((q : List ℕ) (w : Os.World os) → Os.stat_file os (q ++ ini) w ≡ none)
      → (call : List ℕ → Os.World os → ℕ × Os.World os) (cmd : PathCmd) (s : Session os)
      → let s1 = (recv_path (be16 cmd.path_len) s).1 in
        (on_path root call cmd s ≡ (failed, s1))
        ⊎ ((tail : List ℕ) × (on_path root call cmd s
              ≡ reply
                  (store32 (be32 (call (root ++ tail) s1.world).0))
                  succeeded
                  (record s1 { world = (call (root ++ tail) s1.world).1 })))
  unfolding on_path recv_path translate reply send_all
  on_path-below clean nowhere call cmd s =
      let (got, s1) = recv_path (be16 cmd.path_len) s in
      elim (Option-cases got) [
        | inl lost ↦ inl (rw (on_path, lost) refl)
        | inr (path, received) ↦
            let w = s1.world in
            let accepts =
              translate_path-accepts (λ p. Os.stat_file os p w) (λ p n. Os.read_file os p n w) root
                false path in
            let below =
              translate_path-below (λ p. Os.stat_file os p w) (λ p n. Os.read_file os p n w) root
                false clean (λ q. nowhere q w) path in
            elim (Option-cases (translate root false path s1)) [
              | inl refused ↦ inl (rw (on_path, received, refused) refl)
              | inr (found, accepted) ↦
                  let ok : is_some (translate root false path s1) ≡ true = rw accepted refl in
                  let shape = sym accepts ∙ ok in
                  let here = below (ground (arith, shape)) (ground (arith, shape)) in
                  inr (
                    normalize_path (normalize_path (normalize_path path false) true) false,
                    rw (on_path, received, here) refl,
                  )
            ]
      ]
