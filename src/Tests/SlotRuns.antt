-- ===== src/Tests/SlotRuns.antt =====
-- A run of the accept loop: a client connects, connects again from the same address while its first
-- thread still runs, and the slot changes hands.
use ps3netsrv.Prelude.{ℕ, ◌+◌, ◌≡◌, refl, true, arith, none}
use ps3netsrv.Slots.{
  Whitelist, waiting, State, init, arrives, loop_goes_on, thread_winds_up, Reach, boot, step,
  reserve, on_accept, go_on, wind_up, has_ended,
}
use ps3netsrv.Slots.Count.{times}
use ps3netsrv.Slots.Invariant.{holders}
use ps3netsrv.Slots.Safety.{accounted_once, sole_owner, no_leak, one_slot_per_address, reconnection}

abbrev everyone : Whitelist
everyone = record { start = 0; end = 0 }

abbrev address : ℕ
address = 3232235777

-- The accept loop, `n` steps on.
abbrev on : State → State
on st = go_on true st.acceptor st

abbrev off : State → State
off st = wind_up 0 (st.threads 0) st

abbrev connected : State
connected = on (on (on (on (on_accept everyone init address))))

-- The second connection, up to the join of the first one's thread.
abbrev again : State
again = on (on_accept everyone connected address)

abbrev ready : State
ready = on (off (off (off again)))

connected-waiting : connected.acceptor ≡ waiting
unfolding on_accept go_on
connected-waiting = refl

Reach-connected : Reach everyone connected
Reach-connected =
    step
      (step (step (step (step boot (arrives address refl)) (loop_goes_on true)) (loop_goes_on true))
        (loop_goes_on true))
      (loop_goes_on true)

Reach-again : Reach everyone again
Reach-again = step (step Reach-connected (arrives address connected-waiting)) (loop_goes_on true)

Reach-ready : Reach everyone ready
Reach-ready =
    step
      (step
        (step (step Reach-again (thread_winds_up 0 (omega arith)))
          (thread_winds_up 0 (omega arith)))
        (thread_winds_up 0 (omega arith)))
      (loop_goes_on true)

-- The accept loop waits in its join: the first thread has not wound up.
join_waits : on again ≡ again
unfolding on_accept go_on
join_waits = refl

first_closed_once : times 1 ready.closed ≡ 1
unfolding on_accept go_on wind_up
first_closed_once = refl

accounted_once_example : holders 1 ready + times 1 ready.closed ≡ 1
unfolding on_accept go_on wind_up
accounted_once_example = accounted_once 1 Reach-ready (omega arith) (omega arith)

sole_owner_example : has_ended (ready.threads 0) ≡ true
unfolding on_accept go_on wind_up
sole_owner_example = sole_owner 0 Reach-ready refl

one_slot_per_address_example : ◌≡◌ {A = ℕ} 0 0
unfolding on_accept go_on
one_slot_per_address_example =
    one_slot_per_address 0 0 Reach-connected refl (omega arith) (omega arith) refl refl refl

reconnection_example :
    on_accept everyone connected (connected.slots 0).ip_addr
    ≡ reserve connected 0 (connected.slots 0).s none (connected.slots 0).ip_addr
unfolding on_accept go_on
reconnection_example = reconnection 0 Reach-connected refl (omega arith) refl

abbrev gone : State
gone = off (off (off connected))

Reach-gone : Reach everyone gone
Reach-gone =
    step
      (step (step Reach-connected (thread_winds_up 0 (omega arith)))
        (thread_winds_up 0 (omega arith)))
      (thread_winds_up 0 (omega arith))

all_ended : (i : ℕ) → has_ended (gone.threads i) ≡ true
unfolding on_accept go_on wind_up has_ended
all_ended i = ground arith

no_leak_example : times 1 gone.closed ≡ 1
unfolding on_accept go_on wind_up
no_leak_example = no_leak 1 Reach-gone refl all_ended (omega arith) (omega arith)
