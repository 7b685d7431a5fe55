-- ===== src/Slots/Invariant.antt =====
-- What holds between the slots, their threads and the accept loop in every reachable state.
use ps3netsrv.Prelude.{
  ℕ, zero, suc, ◌+◌, ◌≤◌, ◌<◌, ◌≡◌, ◌≢◌, arith, Bool, true, false, ltb, ◌==◌, ◌&&◌, if◌then◌else◌,
  Option, none, some,
}
use ps3netsrv.Slots.{
  max_clients, Slot, Acceptor, waiting, tearing, joining, preparing, starting, Thread, absent,
  serving, closing, releasing, exited, State, find_slot, has_ended,
}
use ps3netsrv.Slots.Count.{held, times, tally}

-- How often each part of the state holds the socket `k`.
abbrev pub slot_holds : ℕ → Slot → ℕ
slot_holds k slot = held k slot.s

abbrev pub thread_holds : ℕ → Thread → ℕ
thread_holds k absent = 0
thread_holds k serving = 0
thread_holds k (closing s) = held k s
thread_holds k releasing = 0
thread_holds k exited = 0

abbrev pub acceptor_holds : ℕ → Acceptor → ℕ
acceptor_holds k waiting = 0
acceptor_holds k (tearing i old_s join cs ip) = held k old_s + held k (some cs)
acceptor_holds k (joining i join cs ip) = held k (some cs)
acceptor_holds k (preparing i cs ip) = held k (some cs)
acceptor_holds k (starting i cs ip) = held k (some cs)

-- The accept loop has reserved slot `j`.
abbrev pub reserves : ℕ → Acceptor → Bool
reserves j waiting = false
reserves j (tearing i old_s join cs ip) = j == i
reserves j (joining i join cs ip) = j == i
reserves j (preparing i cs ip) = j == i
reserves j (starting i cs ip) = j == i

-- It has still to join the thread of slot `j`.
abbrev pub will_join : ℕ → Acceptor → Bool
will_join j waiting = false
will_join j (tearing i old_s join cs ip) = j == i && join
will_join j (joining i join cs ip) = j == i && join
will_join j (preparing i cs ip) = false
will_join j (starting i cs ip) = false

-- It is past the join, and writes to slot `j` without the lock.
abbrev pub owns : ℕ → Acceptor → Bool
owns j waiting = false
owns j (tearing i old_s join cs ip) = false
owns j (joining i join cs ip) = false
owns j (preparing i cs ip) = j == i
owns j (starting i cs ip) = j == i

-- The address of the connection that it is setting up.
abbrev pub newcomer : Acceptor → Option ℕ
newcomer waiting = none
newcomer (tearing i old_s join cs ip) = some ip
newcomer (joining i join cs ip) = some ip
newcomer (preparing i cs ip) = some ip
newcomer (starting i cs ip) = some ip

abbrev pub is_serving : Thread → Bool
is_serving serving = true
is_serving absent = false
is_serving (closing s) = false
is_serving releasing = false
is_serving exited = false

abbrev pub target : Acceptor → ℕ
target waiting = 0
target (tearing i old_s join cs ip) = i
target (joining i join cs ip) = i
target (preparing i cs ip) = i
target (starting i cs ip) = i

-- Slot `j`, its thread and the accept loop.
pub record Agrees (a : Acceptor) (j : ℕ) (slot : Slot) (t : Thread) : Type 0 where
  pub joinable : has_ended t ≡ false → will_join j a ≡ false → slot.has_thread ≡ true
  pub taken : reserves j a ≡ true → slot.has_thread ≡ false
  pub alone : owns j a ≡ true → has_ended t ≡ true
  pub in_use : has_ended t ≡ false → reserves j a ≡ false → slot.connected ≡ true
  pub has_user : slot.connected ≡ true → reserves j a ≡ false → has_ended t ≡ false
  pub unowned : (k : ℕ) → 1 ≤ k → is_serving t ≡ false → held k slot.s ≡ 0

-- No two connections from one address, outside the slot that is being set up.
pub record Distinct (st : State) : Type 0 where
  pub others :
      (i j : ℕ)
      → i < max_clients
      → j < max_clients
      → reserves i st.acceptor ≡ false
      → reserves j st.acceptor ≡ false
      → (st.slots i).connected ≡ true
      → (st.slots j).connected ≡ true
      → (st.slots i).ip_addr ≡ (st.slots j).ip_addr
      → i ≡ j
  pub newcomers :
      (j ip : ℕ)
      → j < max_clients
      → newcomer st.acceptor ≡ some ip
      → reserves j st.acceptor ≡ false
      → (st.slots j).connected ≡ true
      → (st.slots j).ip_addr ≢ ip

abbrev pub holders : ℕ → State → ℕ
holders k st =
    tally (slot_holds k) max_clients st.slots
    + tally (thread_holds k) max_clients st.threads
    + acceptor_holds k st.acceptor

-- Every socket that was accepted has one holder or has been closed, once.
abbrev pub Accounted : State → Type 0
Accounted st = (k : ℕ) → 1 ≤ k → holders k st + times k st.closed ≡ (if ltb k st.next then 1 else 0)

pub record Inv (st : State) : Type 0 where
  pub accounted : Accounted st
  pub first : 1 ≤ st.next
  pub in_range : target st.acceptor < max_clients
  pub agrees : (j : ℕ) → Agrees st.acceptor j (st.slots j) (st.threads j)
  pub distinct : Distinct st

-- What the search for a slot finds.
pub find_slot-some :
    (test : ℕ → Bool) (i n j : ℕ)
    → find_slot test i n ≡ some j
    → (test j ≡ true) × (i ≤ j) × (j < i + n)
unfolding find_slot
find_slot-some test i zero j e = cc
find_slot-some test i (suc n) j e = ground (arith, find_slot-some test (suc i) n j)

pub find_slot-none :
    (test : ℕ → Bool) (i n j : ℕ) → find_slot test i n ≡ none → i ≤ j → j < i + n → test j ≡ false
unfolding find_slot
find_slot-none test i zero j e lo hi = absurd (omega arith)
find_slot-none test i (suc n) j e lo hi = ground (arith, find_slot-none test (suc i) n j)
