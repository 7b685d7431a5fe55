-- ===== src/Slots/Kept/Sockets.antt =====
-- No step loses a socket, and none closes one twice.
use ps3netsrv.Prelude.{ℕ, ◌+◌, ◌≤◌, ◌<◌, ◌≡◌, refl, arith, Bool, true, false, Option, none, some}
use ps3netsrv.Slots.{
  max_clients, Slot, Acceptor, waiting, tearing, joining, preparing, starting, Thread, absent,
  serving, closing, releasing, exited, State, reserve, refuse, start, go_on, wind_up, has_ended,
}
use ps3netsrv.Slots.Count.{held, times-close, tally-update}
use ps3netsrv.Slots.Invariant.{slot_holds, thread_holds, Accounted, target, owns}

pub reserve-Accounted :
    (st : State) (i : ℕ) (old_s left_s : Option ℕ) (ip : ℕ)
    → st.acceptor ≡ waiting
    → i < max_clients
    → ((k : ℕ) → held k old_s + held k left_s ≡ held k (st.slots i).s)
    → Accounted st
    → Accounted (reserve st i old_s left_s ip)
unfolding reserve
reserve-Accounted st i old_s left_s ip idle small split acc k hk =
    let slot = record (st.slots i) { s = left_s; connected = true; has_thread = false } in
    ground (
      arith,
      idle,
      split k,
      acc k hk,
      tally-update (slot_holds k) max_clients st.slots i slot small,
    )

pub refuse-Accounted : (st : State) → Accounted st → Accounted (refuse st)
unfolding refuse
refuse-Accounted st acc k hk = ground (arith, acc k hk)

-- A slot whose socket nobody holds is written over.
module _ (st : State) (i cs ip : ℕ) (small : i < max_clients) (acc : Accounted st)
    (unowned : (k : ℕ) → 1 ≤ k → held k (st.slots i).s ≡ 0)
    (idle : (k : ℕ) → thread_holds k (st.threads i) ≡ 0) where
  start-Accounted : (ok : Bool) → st.acceptor ≡ starting i cs ip → Accounted (start ok i cs ip st)
  unfolding start
  start-Accounted true here k hk =
      let slot : Slot = record { s = some cs; connected = true; ip_addr = ip; has_thread = true } in
      ground (
        arith,
        here,
        acc k hk,
        unowned k hk,
        idle k,
        tally-update (slot_holds k) max_clients st.slots i slot small,
        tally-update (thread_holds k) max_clients st.threads i serving small,
      )
  start-Accounted false here k hk =
      let slot : Slot = record { s = none; connected = false; ip_addr = ip; has_thread = false } in
      ground (
        arith,
        here,
        acc k hk,
        unowned k hk,
        tally-update (slot_holds k) max_clients st.slots i slot small,
      )

  prepare-Accounted :
      (ok : Bool) → st.acceptor ≡ preparing i cs ip → Accounted (go_on ok (preparing i cs ip) st)
  unfolding go_on
  prepare-Accounted true here k hk =
      let slot : Slot = record { s = none; connected = true; ip_addr = 0; has_thread = false } in
      ground (
        arith,
        here,
        acc k hk,
        unowned k hk,
        tally-update (slot_holds k) max_clients st.slots i slot small,
      )
  prepare-Accounted false here k hk =
      let slot : Slot = record { s = none; connected = false; ip_addr = 0; has_thread = false } in
      ground (
        arith,
        here,
        acc k hk,
        unowned k hk,
        tally-update (slot_holds k) max_clients st.slots i slot small,
      )

-- A thread that has ended holds no socket.
ended_holds : (k : ℕ) (t : Thread) → has_ended t ≡ true → thread_holds k t ≡ 0
unfolding has_ended
ended_holds k absent h = refl
ended_holds k exited h = refl
ended_holds k _ h = cc

pub go_on-Accounted :
    (ok : Bool) (a : Acceptor) (st : State)
    → st.acceptor ≡ a
    → target a < max_clients
    → (owns (target a) a ≡ true → has_ended (st.threads (target a)) ≡ true)
    → (owns (target a) a ≡ true → (k : ℕ) → 1 ≤ k → held k (st.slots (target a)).s ≡ 0)
    → Accounted st
    → Accounted (go_on ok a st)
unfolding go_on
go_on-Accounted ok waiting st here small ended unowned acc k hk = acc k hk
go_on-Accounted ok (tearing i old_s join cs ip) st here small ended unowned acc k hk =
    ground (arith, here, acc k hk, times-close k old_s st.closed)
go_on-Accounted ok (joining i join cs ip) st here small ended unowned acc k hk =
    ground (arith, here, acc k hk)
go_on-Accounted ok (preparing i cs ip) st here small ended unowned acc k hk =
    prepare-Accounted st i cs ip small acc (unowned (ground arith))
      (λ k. ended_holds k (st.threads i) (ended (ground arith))) ok here k hk
go_on-Accounted ok (starting i cs ip) st here small ended unowned acc k hk =
    start-Accounted st i cs ip small acc (unowned (ground arith))
      (λ k. ended_holds k (st.threads i) (ended (ground arith))) ok here k hk

pub wind_up-Accounted :
    (i : ℕ) (t : Thread) (st : State)
    → st.threads i ≡ t
    → i < max_clients
    → Accounted st
    → Accounted (wind_up i t st)
unfolding wind_up
wind_up-Accounted i absent st here small acc k hk = acc k hk
wind_up-Accounted i serving st here small acc k hk =
    let slot = record (st.slots i) { s = none } in
    ground (
      arith,
      here,
      acc k hk,
      tally-update (slot_holds k) max_clients st.slots i slot small,
      tally-update (thread_holds k) max_clients st.threads i (closing (st.slots i).s) small,
    )
wind_up-Accounted i (closing s) st here small acc k hk = ground (
  arith,
  here,
  acc k hk,
  times-close k s st.closed,
  tally-update (thread_holds k) max_clients st.threads i releasing small,
)
wind_up-Accounted i releasing st here small acc k hk =
    let slot = record (st.slots i) { connected = false } in
    ground (
      arith,
      here,
      acc k hk,
      tally-update (slot_holds k) max_clients st.slots i slot small,
      tally-update (thread_holds k) max_clients st.threads i exited small,
    )
wind_up-Accounted i exited st here small acc k hk = acc k hk
