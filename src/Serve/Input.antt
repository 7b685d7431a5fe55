-- ===== src/Serve/Input.antt =====
-- A peer of client_thread of src/main.cpp that sends finitely many bytes.
pub mod Paths
pub mod Files
pub mod Ends
pub mod Outcomes
use ps3netsrv.Prelude.{ℕ, ◌<◌, ◌≤◌, ◌≡◌, arith, Option, some, List, length}
use ps3netsrv.Env.{Os, Viso}
use ps3netsrv.Session.{Status, Session}

-- A peer that sends a number of bytes: `left` counts those that have not been received, and no other
-- call adds to them.
pub record FiniteInput (os : Os) : Type 0 where
  pub left : Os.World os → ℕ
  pub left-recv_le : (n : ℕ) (w : Os.World os) → left (Os.recv os n w).1 ≤ left w
  pub left-recv_lt :
      (n : ℕ) (w : Os.World os) (got : List ℕ)
      → (Os.recv os n w).0 ≡ some got
      → length got ≡ n
      → 0 < n
      → left (Os.recv os n w).1 < left w
  pub left-send : (b : List ℕ) (w : Os.World os) → left (Os.send os b w).1 ≤ left w
  pub left-open_read :
      (v : Viso) (p : List ℕ) (w : Os.World os) → left (Os.open_read os v p w).1 ≤ left w
  pub left-open_create : (p : List ℕ) (w : Os.World os) → left (Os.open_create os p w).1 ≤ left w
  pub left-unlink : (p : List ℕ) (w : Os.World os) → left (Os.unlink os p w).1 ≤ left w
  pub left-mkdir : (p : List ℕ) (w : Os.World os) → left (Os.mkdir os p w).1 ≤ left w
  pub left-rmdir : (p : List ℕ) (w : Os.World os) → left (Os.rmdir os p w).1 ≤ left w

module _ {os : Os} (input : FiniteInput os) where
  open input use {left, left-send}

  -- A reply is sent from a world that has taken from the input.
  pub sends : (b : List ℕ) (w : Os.World os) (n : ℕ) → left w ≤ n → left (Os.send os b w).1 ≤ n
  sends b w n le = omega (arith, left-send b w, le)

  -- What a result says of its session.
  pub by_result :
      (r : Status × Session os) (st : Status) (s' : Session os) (n : ℕ)
      → left r.1.world ≤ n
      → some r ≡ some (st, s')
      → left s'.world ≤ n
  by_result r st s' n le e = let same : r.1 ≡ s' = cc e in rw (← same) le
