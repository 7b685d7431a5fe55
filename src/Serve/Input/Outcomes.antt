-- ===== src/Serve/Input/Outcomes.antt =====
-- How client_thread of src/main.cpp ends.
use ps3netsrv.Prelude.{
  ℕ, zero, suc, ◌⊎◌, ◌<◌, ◌≡◌, refl, arith, ◌==◌, none, some, List, length, Bool-cases,
  Option-cases, inl, inr,
}
use ps3netsrv.Env.{Os}
use ps3netsrv.Session.{succeeded, failed, Session}
use ps3netsrv.Wire.{be16, load16}
use ps3netsrv.Listing.Items.{overrun}
use ps3netsrv.Listing.Whole.{collect, process_read_dir_cmd}
use ps3netsrv.Listing.Whole.Replies.{Filled-cases}
use ps3netsrv.DirSize.Levels.{Nesting, process_get_dir_size_cmd-ne-none}
use ps3netsrv.Read.Critical.{process_read_file_critical-ne-none}
use ps3netsrv.Serve.{
  Opcode, open_file, read_file_critical, read_cd_2048_critical, read_file, create_file, write_file,
  open_dir, read_dir_entry, delete_file, mkdir, rmdir, read_dir_entry_v2, stat_file, get_dir_size,
  read_dir, unknown, opcode, path_cmd, read_file_cmd, Setup, dispatch, round, Outcome, ended,
  undefined, finalized, client_thread,
}
use ps3netsrv.Serve.Reached.{Reached, at_start, after_round}
use ps3netsrv.Serve.Input.{FiniteInput}
use ps3netsrv.Serve.Input.Ends.{left-round}

-- A session that differs from another in its client, which has no file, directory, path or buffer left.
pub record Released {os : Os} (s s' : Session os) : Type 0 where
  pub same_world : s'.world ≡ s.world
  pub same_sent : s'.sent ≡ s.sent
  pub no_ro_file : s'.client.ro_file ≡ none
  pub no_wo_file : s'.client.wo_file ≡ none
  pub no_dir : s'.client.dir ≡ none
  pub no_dirpath : s'.client.dirpath ≡ none
  pub no_buf : s'.client.buf ≡ none
  pub default_sector : s'.client.cd_sector_size ≡ 2352

-- A session behind the rounds that succeeded, of which the next one fails, and the thread ends with the
-- client of that round released.
pub record EndsReleased {os : Os} (setup : Setup os) (s : Session os) (out : Outcome setup)
    : Type 0 where
  pub last : Session os
  pub reached : Reached setup s last
  pub after : Session os
  pub fails : round setup last ≡ some (failed, after)
  pub left_over : Session os
  pub outcome : out ≡ ended left_over
  pub released : Released after left_over

-- The next command of a session is read_dir, and the entries of its directory overrun the array.
pub record Overruns {os : Os} (setup : Setup os) (s : Session os) : Type 0 where
  pub cmd : List ℕ
  pub received : (Os.recv os 16 s.world).0 ≡ some cmd
  pub is_read_dir : opcode (be16 (load16 cmd 0)) ≡ read_dir
  pub dirpath : List ℕ
  pub at_path : s.client.dirpath ≡ some dirpath
  pub overruns :
      collect (Setup.root setup) dirpath (record s { world = (Os.recv os 16 s.world).1 }) ≡ overrun

-- A session behind the rounds that succeeded, with a read_dir command that writes behind its array of
-- entries.
pub record EndsOverrun {os : Os} (setup : Setup os) (s : Session os) (out : Outcome setup)
    : Type 0 where
  pub last : Session os
  pub reached : Reached setup s last
  pub outcome : out ≡ undefined
  pub overruns : Overruns setup last

read_dir-overrun :
    {os : Os} (root : List ℕ) (s : Session os)
    → process_read_dir_cmd root s ≡ none
    → (dirpath : List ℕ) × (s.client.dirpath ≡ some dirpath) × (collect root dirpath s ≡ overrun)
unfolding process_read_dir_cmd
read_dir-overrun root s e = elim (Option-cases s.client.dir) [
  | inl closed ↦ absurd (ground (arith, rw (process_read_dir_cmd, closed) at e))
  | inr (names, is_open) ↦ elim (Option-cases s.client.dirpath) [
    | inl lost ↦ absurd (ground (arith, rw (process_read_dir_cmd, is_open, lost) at e))
    | inr (dirpath, at_path) ↦ elim (Filled-cases (collect root dirpath s)) [
      | inl over ↦ (dirpath, at_path, over)
      | inr (items, found) ↦
          absurd (ground (arith, rw (process_read_dir_cmd, is_open, at_path, found) at e))
    ]
  ]
]

module _ {os : Os} (setup : Setup os) (nesting : Nesting os (Setup.deepest setup)) where
  -- Only a read_dir command can have no result.
  dispatch-overrun :
      (op : Opcode) (b : List ℕ) (s : Session os)
      → dispatch setup op b s ≡ none
      → (op ≡ read_dir)
        × (dirpath : List ℕ) × (s.client.dirpath ≡ some dirpath)
        × (collect (Setup.root setup) dirpath s ≡ overrun)
  unfolding dispatch
  dispatch-overrun read_file_critical b s e =
      absurd (process_read_file_critical-ne-none (read_file_cmd b) s e)
  dispatch-overrun get_dir_size b s e = absurd (
      process_get_dir_size_cmd-ne-none (Setup.deepest setup) nesting (Setup.root setup) (path_cmd b)
        s e)
  dispatch-overrun read_dir b s e =
      let (dirpath, at_path, over) = read_dir-overrun (Setup.root setup) s e in
      (refl, dirpath, at_path, over)
  dispatch-overrun open_file b s e = absurd cc
  dispatch-overrun read_cd_2048_critical b s e = absurd cc
  dispatch-overrun read_file b s e = absurd cc
  dispatch-overrun create_file b s e = absurd cc
  dispatch-overrun write_file b s e = absurd cc
  dispatch-overrun open_dir b s e = absurd cc
  dispatch-overrun read_dir_entry b s e = absurd cc
  dispatch-overrun delete_file b s e = absurd cc
  dispatch-overrun mkdir b s e = absurd cc
  dispatch-overrun rmdir b s e = absurd cc
  dispatch-overrun read_dir_entry_v2 b s e = absurd cc
  dispatch-overrun stat_file b s e = absurd cc
  dispatch-overrun unknown b s e = absurd cc

  round-overrun : (s : Session os) → round setup s ≡ none → Overruns setup s
  unfolding round
  round-overrun s e =
      let s1 : Session os = record s { world = (Os.recv os 16 s.world).1 } in
      elim (Option-cases (Os.recv os 16 s.world).0) [
        | inl lost ↦ absurd (ground (arith, rw (round, lost) at e))
        | inr (cmd, there) ↦ elim (Bool-cases (length cmd == 16)) [
          | inl whole ↦
              let (is_read_dir, dirpath, at_path, over) =
                dispatch-overrun (opcode (be16 (load16 cmd 0))) cmd s1
                  (rw (round, there, whole) at e) in
              record {
                cmd = cmd;
                received = there;
                is_read_dir = is_read_dir;
                dirpath = dirpath;
                at_path = at_path;
                overruns = over;
              }
          | inr short ↦ absurd (ground (arith, rw (round, there, short) at e))
        ]
      ]

  earlier :
      (s s1 s2 : Session os)
      → round setup s ≡ some (succeeded, s1)
      → Reached setup s1 s2
      → Reached setup s s2
  earlier s s1 s2 e at_start = after_round at_start e
  earlier s s1 s2 e (after_round {s1 = s3} before f) = after_round (earlier s s1 s3 e before) f

  finalized-Released : (s : Session os) → Released s (finalized setup s)
  finalized-Released s = record {
    same_world = refl;
    same_sent = refl;
    no_ro_file = refl;
    no_wo_file = refl;
    no_dir = refl;
    no_dirpath = refl;
    no_buf = refl;
    default_sector = refl;
  }

  module _ (input : FiniteInput os) where
    open input use {left}

    -- For a peer that sends finitely many bytes and a host whose directories are nested to a bounded
    -- number of levels, one round more than there are bytes is enough for client_thread. It ends when
    -- a round fails, and then with the client of that round released: no file, directory, path or buffer
    -- is left in it. Or it comes to a read_dir command that writes behind its array of entries,
    -- whose behaviour is not defined.
    pub client_thread_ends :
        (fuel : ℕ) (s : Session os)
        → left s.world < fuel
        → EndsReleased setup s (client_thread setup fuel s)
          ⊎ EndsOverrun setup s (client_thread setup fuel s)
    unfolding client_thread
    client_thread_ends zero s lt = absurd (omega (arith, lt))
    client_thread_ends (suc fuel) s lt = elim (Option-cases (round setup s)) [
      | inl wrong ↦
          rw (client_thread, wrong)
            (inr (record {
              last = s;
              reached = at_start;
              outcome = refl;
              overruns = round-overrun s wrong;
            }))
      | inr ((failed, s1), e) ↦
          rw (client_thread, e)
            (inl (record {
              last = s;
              reached = at_start;
              after = s1;
              fails = e;
              left_over = finalized setup s1;
              outcome = refl;
              released = finalized-Released s1;
            }))
      | inr ((succeeded, s1), e) ↦
          rw (client_thread, e)
            (elim (client_thread_ends fuel s1 (omega (arith, left-round input setup s s1 e, lt))) [
              | inl r ↦ inl (record {
                last = r.last;
                reached = earlier s s1 r.last e r.reached;
                after = r.after;
                fails = r.fails;
                left_over = r.left_over;
                outcome = r.outcome;
                released = r.released;
              })
              | inr r ↦ inr (record {
                last = r.last;
                reached = earlier s s1 r.last e r.reached;
                outcome = r.outcome;
                overruns = r.overruns;
              })
            ])
    ]
