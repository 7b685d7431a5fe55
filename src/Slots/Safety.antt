-- ===== src/Slots/Safety.antt =====
-- What the locking of the accept loop is for: no socket is closed twice or lost, and no slot is
-- written to while the thread of its last owner still runs.
use ps3netsrv.Prelude.{ℕ, ◌+◌, ◌≤◌, ◌<◌, ◌≡◌, refl, arith, true, Option-cases, inl, inr, none}
use ps3netsrv.Slots.{
  max_clients, Whitelist, waiting, Thread, absent, exited, State, Reach, find_slot, same_client,
  reserve, on_accept, has_ended,
}
use ps3netsrv.Slots.Count.{times, tally-nothing}
use ps3netsrv.Slots.Invariant.{
  slot_holds, thread_holds, holders, owns, find_slot-some, find_slot-none,
}
use ps3netsrv.Slots.Kept.{Reach-Inv, not_serving}

-- In every reachable state each socket that was accepted has exactly one holder (a slot, a thread
-- or the accept loop) and is not closed, or has no holder and was closed exactly once.
pub accounted_once :
    {w : Whitelist} {st : State} (k : ℕ)
    → Reach w st
    → 1 ≤ k
    → k < st.next
    → holders k st + times k st.closed ≡ 1
accounted_once {st = st} k r hk old = ground (arith, (Reach-Inv r).accounted k hk)

-- In every reachable state in which the accept loop is past its join and writes to slot `i` without
-- the lock, the thread that had the slot before has ended.
pub sole_owner :
    {w : Whitelist} {st : State} (i : ℕ)
    → Reach w st
    → owns i st.acceptor ≡ true
    → has_ended (st.threads i) ≡ true
sole_owner i r h = ((Reach-Inv r).agrees i).alone h

ended-holds : (k : ℕ) (t : Thread) → has_ended t ≡ true → thread_holds k t ≡ 0
unfolding has_ended
ended-holds k absent h = refl
ended-holds k exited h = refl
ended-holds k _ h = cc

-- No socket leaks: in every reachable state in which the accept loop waits and every thread has
-- ended, each socket that was ever accepted has been closed exactly once.
pub no_leak :
    {w : Whitelist} {st : State} (k : ℕ)
    → Reach w st
    → st.acceptor ≡ waiting
    → ((i : ℕ) → has_ended (st.threads i) ≡ true)
    → 1 ≤ k
    → k < st.next
    → times k st.closed ≡ 1
no_leak {st = st} k r idle quiet hk old =
    let inv = Reach-Inv r in
    let slots_free =
      tally-nothing (slot_holds k) max_clients st.slots
        (λ i. (inv.agrees i).unowned k hk (not_serving _ (quiet i))) in
    let threads_free =
      tally-nothing (thread_holds k) max_clients st.threads (λ i. ended-holds k _ (quiet i)) in
    ground (arith, accounted_once k r hk old, slots_free, threads_free, idle)

-- In every reachable state in which the accept loop waits, two live connections have different
-- addresses.
pub one_slot_per_address :
    {w : Whitelist} {st : State} (i j : ℕ)
    → Reach w st
    → st.acceptor ≡ waiting
    → i < max_clients
    → j < max_clients
    → (st.slots i).connected ≡ true
    → (st.slots j).connected ≡ true
    → (st.slots i).ip_addr ≡ (st.slots j).ip_addr
    → i ≡ j
one_slot_per_address {st = st} i j r idle hi hj ci cj e =
    (Reach-Inv r).distinct.others i j hi hj (rw idle) (rw idle) ci cj e

-- A peer that is already connected is never refused: its slot is reserved for the new socket, and
-- the accept loop takes the old socket from it.
pub reconnection :
    {w : Whitelist} {st : State} (i : ℕ)
    → Reach w st
    → st.acceptor ≡ waiting
    → i < max_clients
    → (st.slots i).connected ≡ true
    → on_accept w st (st.slots i).ip_addr ≡ reserve st i (st.slots i).s none (st.slots i).ip_addr
unfolding on_accept same_client
reconnection {w} {st} i r idle hi ci =
    let ip = (st.slots i).ip_addr in
    let test = same_client st ip in
    elim (Option-cases (find_slot test 0 max_clients)) [
      | inl nobody ↦
          absurd
            (ground (arith, find_slot-none test 0 max_clients i nobody (omega arith) (omega arith)))
      | inr (j, found) ↦
          let (same, _, small) = find_slot-some test 0 max_clients j found in
          let here : j ≡ i =
            one_slot_per_address j i r idle (omega arith) hi (ground arith) ci (ground arith) in
          rw (found, on_accept, here)
    ]
