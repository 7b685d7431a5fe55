-- ===== src/Serve/Input/Paths.antt =====
-- The commands on paths of src/main.cpp take from the input and never add to it.
use ps3netsrv.Prelude.{
  ℕ, ◌≤◌, ◌≡◌, arith, true, false, not, ◌||◌, ◌&&◌, ◌==◌, Option, some, List, Bool-cases,
  Option-cases, inl, inr,
}
use ps3netsrv.Env.{AbstractFile, Os, Stat}
use ps3netsrv.Session.{Status, Session, send_all}
use ps3netsrv.Wire.{be16}
use ps3netsrv.Path.{is_some, find}
use ps3netsrv.Commands.{
  PathCmd, equal, close_file, no_file, recv_path, translate, opened, open_path, process_open_cmd,
}
use ps3netsrv.Commands.Paths.{
  compat1, is_directory, create_at, process_create_cmd, on_path, process_open_dir_cmd,
  process_stat_cmd,
}
use ps3netsrv.DirSize.{calculate_directory_size, process_get_dir_size_cmd}
use ps3netsrv.Serve.Input.{FiniteInput, sends, by_result}

module _ {os : Os} (input : FiniteInput os) where
  open input use {left, left-recv_le, left-send, left-open_read, left-open_create}

  module _ (root : List ℕ) (cmd : PathCmd) (s : Session os) where
    abbrev start : ℕ
    start = left s.world

    abbrev received : Option (List ℕ) × Session os
    received = recv_path (be16 cmd.path_len) s

    left-received : left received.1.world ≤ start
    unfolding recv_path
    left-received = left-recv_le (be16 cmd.path_len) s.world

    pub left-create : left (process_create_cmd root cmd s).1.world ≤ start
    unfolding process_create_cmd create_at send_all
    left-create =
        let (r, s1) = received in
        elim (Option-cases r) [
          | inl lost ↦ rw (process_create_cmd, lost) (sends input _ s1.world _ left-received)
          | inr (path, e) ↦ elim (Option-cases (translate root false path s1)) [
            | inl refused ↦
                rw (process_create_cmd, e, refused) (sends input _ s1.world _ left-received)
            | inr ((filepath, viso), accepted) ↦
                let (h, w) = Os.open_create os filepath s1.world in
                let after : left w ≤ start =
                  omega (arith, left-open_create filepath s1.world, left-received) in
                elim (Bool-cases (is_directory (Os.stat_file os filepath s1.world))) [
                  | inl below ↦
                      rw (process_create_cmd, e, accepted, below)
                        (sends input _ s1.world _ left-received)
                  | inr plain ↦ elim (Option-cases h) [
                    | inl failing ↦
                        rw (process_create_cmd, e, accepted, plain, failing)
                          (sends input _ w _ after)
                    | inr (g, there) ↦
                        rw (process_create_cmd, e, accepted, plain, there) (sends input _ w _ after)
                  ]
                ]
          ]
        ]

    pub left-on_path :
        (call : List ℕ → Os.World os → ℕ × Os.World os)
        → ((p : List ℕ) (w : Os.World os) → left (call p w).1 ≤ left w)
        → left (on_path root call cmd s).1.world ≤ start
    unfolding on_path send_all
    left-on_path call le =
        let (r, s1) = received in
        elim (Option-cases r) [
          | inl lost ↦ rw (on_path, lost) left-received
          | inr (path, e) ↦ elim (Option-cases (translate root false path s1)) [
            | inl refused ↦ rw (on_path, e, refused) left-received
            | inr ((filepath, viso), accepted) ↦
                let w = (call filepath s1.world).1 in
                rw (on_path, e, accepted)
                  (sends input _ w _ (omega (arith, le filepath s1.world, left-received)))
          ]
        ]

    pub left-open_dir : left (process_open_dir_cmd root cmd s).1.world ≤ start
    unfolding process_open_dir_cmd send_all
    left-open_dir =
        let (r, s1) = received in
        elim (Option-cases r) [
          | inl lost ↦ rw (process_open_dir_cmd, lost) left-received
          | inr (path, e) ↦ elim (Option-cases (translate root false path s1)) [
            | inl refused ↦ rw (process_open_dir_cmd, e, refused) left-received
            | inr (found, accepted) ↦
                rw (process_open_dir_cmd, e, accepted) (sends input _ s1.world _ left-received)
          ]
        ]

    pub left-stat :
        (junk : Stat) (stack : List ℕ)
        → left (process_stat_cmd root junk stack cmd s).1.world ≤ start
    unfolding process_stat_cmd send_all
    left-stat junk stack =
        let (r, s1) = received in
        elim (Option-cases r) [
          | inl lost ↦ rw (process_stat_cmd, lost) left-received
          | inr (path, e) ↦ elim (Option-cases (translate root false path s1)) [
            | inl refused ↦ rw (process_stat_cmd, e, refused) left-received
            | inr ((filepath, viso), accepted) ↦
                elim (Option-cases (Os.stat_file os filepath s1.world)) [
                  | inr (st, known) ↦
                      rw (process_stat_cmd, e, accepted, known)
                        (sends input _ s1.world _ left-received)
                  | inl missing ↦ elim (Bool-cases (is_some (find compat1 filepath))) [
                    | inl compat ↦
                        rw (process_stat_cmd, e, accepted, missing, compat)
                          (sends input _ s1.world _ left-received)
                    | inr other ↦
                        rw (process_stat_cmd, e, accepted, missing, other)
                          (sends input _ s1.world _ left-received)
                  ]
                ]
          ]
        ]

    pub left-get_dir_size :
        (fuel : ℕ) (st : Status) (s' : Session os)
        → process_get_dir_size_cmd root fuel cmd s ≡ some (st, s')
        → left s'.world ≤ start
    unfolding process_get_dir_size_cmd send_all
    left-get_dir_size fuel st s' e =
        let (r, s1) = received in
        elim (Option-cases r) [
          | inl lost ↦
              by_result input _ st s' start left-received (rw (process_get_dir_size_cmd, lost) at e)
          | inr (path, got) ↦ elim (Option-cases (translate root false path s1)) [
            | inl refused ↦
                by_result input _ st s' start left-received
                  (rw (process_get_dir_size_cmd, got, refused) at e)
            | inr ((dirpath, viso), accepted) ↦
                elim (Option-cases (
                  calculate_directory_size (λ p. Os.stat_file os p s1.world)
                    (λ p. Os.opendir os p s1.world) fuel dirpath)) [
                      | inl deep ↦
                          absurd (
                            ground (arith, rw (process_get_dir_size_cmd, got, accepted, deep) at e))
                      | inr (size, known) ↦
                          by_result input _ st s' start (sends input _ s1.world _ left-received)
                            (rw (process_get_dir_size_cmd, got, accepted, known) at e)
                    ]
          ]
        ]

    left-opened :
        (h : AbstractFile.Handle (Os.file os)) (s1 : Session os)
        → left (opened root h s1).1.world ≤ left s1.world
    unfolding opened send_all
    left-opened h s1 = elim (Option-cases (AbstractFile.fstat (Os.file os) h).0) [
      | inl failing ↦ rw (opened, failing) (left-send _ s1.world)
      | inr (st, known) ↦ rw (opened, known) (left-send _ s1.world)
    ]

    left-open_path :
        (path : List ℕ) (s1 : Session os) → left (open_path root path s1).1.world ≤ left s1.world
    unfolding open_path send_all
    left-open_path path s1 = elim (Option-cases (translate root true path s1)) [
      | inl refused ↦ rw (open_path, refused) (left-send _ s1.world)
      | inr ((filepath, viso), accepted) ↦
          let (file, w) = Os.open_read os viso filepath s1.world in
          let s2 : Session os = record s1 {
            world = w;
            client = record s1.client { cd_sector_size = 2352 };
          } in
          let after = left-open_read viso filepath s1.world in
          elim (Option-cases file) [
            | inl failing ↦ rw (open_path, accepted, failing) (sends input _ w _ after)
            | inr (h, there) ↦
                rw (open_path, accepted, there) (omega (arith, left-opened h s2, after))
          ]
    ]

    pub left-open : left (process_open_cmd root cmd s).1.world ≤ start
    unfolding process_open_cmd send_all
    left-open =
        let fp_len = be16 cmd.path_len in
        let (got, s1) = received in
        elim (Bool-cases (not (is_some s.client.buf) || fp_len == 0)) [
          | inl bad ↦ rw (process_open_cmd, bad) (left-send _ s.world)
          | inr fine ↦ elim (Option-cases got) [
            | inl lost ↦ rw (process_open_cmd, fine, lost) (sends input _ s1.world _ left-received)
            | inr (path, e) ↦ elim (Bool-cases (fp_len == 10 && equal path close_file)) [
              | inl close ↦
                  rw (process_open_cmd, fine, e, close) (sends input _ s1.world _ left-received)
              | inr other ↦
                  rw (process_open_cmd, fine, e, other)
                    (omega (arith, left-open_path path (no_file root s1), left-received))
            ]
          ]
        ]
