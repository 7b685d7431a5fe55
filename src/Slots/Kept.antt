-- ===== src/Slots/Kept.antt =====
-- Every step of the server keeps the invariant, and the server starts in it.
mod Sockets
mod Owners
mod Addresses
use Sockets.{reserve-Accounted, refuse-Accounted, go_on-Accounted, wind_up-Accounted}
use Owners.{reserve-Agrees, refuse-Agrees, go_on-Agrees, wind_up-Agrees}
use Addresses.{reserve-Distinct, refuse-Distinct, go_on-Distinct, wind_up-Distinct}
use ps3netsrv.Prelude.{
  ℕ, ◌+◌, ◌≤◌, ◌<◌, ◌≡◌, ◌≢◌, refl, arith, Bool, true, false, Bool-cases, Option-cases, inl, inr,
  Option, none, some,
}
use ps3netsrv.Slots.{
  max_clients, Whitelist, Acceptor, waiting, tearing, joining, preparing, starting, Thread, absent,
  serving, closing, releasing, exited, State, Step, arrives, loop_goes_on, thread_winds_up, Reach,
  boot, step, init, find_slot, same_client, is_free, is_listed, reserve, refuse, take_free,
  on_accept, start, go_on, wind_up, has_ended,
}
use ps3netsrv.Slots.Count.{held, tally}
use ps3netsrv.Slots.Invariant.{Inv, is_serving, owns, target, find_slot-some, find_slot-none}

module _ (st : State) (inv : Inv st) (idle : st.acceptor ≡ waiting) where
  refuse-Inv : Inv (refuse st)
  refuse-Inv = record {
    accounted = refuse-Accounted st inv.accounted;
    first = unfold refuse in omega (arith, inv.first);
    in_range = unfold refuse in inv.in_range;
    agrees = refuse-Agrees st inv.agrees;
    distinct = refuse-Distinct st inv.distinct;
  }

  reserve-Inv :
      (i : ℕ) (old_s left_s : Option ℕ) (ip : ℕ)
      → i < max_clients
      → ((k : ℕ) → held k old_s + held k left_s ≡ held k (st.slots i).s)
      → ((k : ℕ) → 1 ≤ k → is_serving (st.threads i) ≡ false → held k left_s ≡ 0)
      → ((j : ℕ)
          → j < max_clients
          → j ≢ i
          → (st.slots j).connected ≡ true
          → (st.slots j).ip_addr ≢ ip)
      → Inv (reserve st i old_s left_s ip)
  reserve-Inv i old_s left_s ip small split left apart = record {
    accounted = reserve-Accounted st i old_s left_s ip idle small split inv.accounted;
    first = unfold reserve in omega (arith, inv.first);
    in_range = unfold reserve in small;
    agrees = reserve-Agrees st inv.agrees i old_s left_s ip idle left;
    distinct = reserve-Distinct st inv.distinct i old_s left_s ip idle apart;
  }

  take_free-Inv :
      (w : Whitelist) (ip : ℕ)
      → ((j : ℕ) → j < max_clients → (st.slots j).connected ≡ true → (st.slots j).ip_addr ≢ ip)
      → Inv (take_free w st ip)
  unfolding take_free
  take_free-Inv w ip apart = elim (Bool-cases (is_listed w ip)) [
    | inr out ↦ rw (out, take_free) refuse-Inv
    | inl listed ↦ elim (Option-cases (find_slot (is_free st) 0 max_clients)) [
      | inl full ↦ rw (listed, take_free, full) refuse-Inv
      | inr (i, found) ↦
          let (free, _, small) = find_slot-some (is_free st) 0 max_clients i found in
          rw (listed, take_free, found)
            (reserve-Inv i none (st.slots i).s ip (omega arith) (λ k. omega arith)
              (λ k hk quiet. (inv.agrees i).unowned k hk quiet) (λ j hj _ cj. apart j hj cj))
    ]
  ]

  nobody :
      (ip j : ℕ)
      → find_slot (same_client st ip) 0 max_clients ≡ none
      → j < max_clients
      → (st.slots j).connected ≡ true
      → (st.slots j).ip_addr ≢ ip
  unfolding same_client
  nobody ip j new hj cj e =
      ground
        (arith, find_slot-none (same_client st ip) 0 max_clients j new (omega arith) (omega arith))

  nobody_else :
      (ip i j : ℕ)
      → i < max_clients
      → same_client st ip i ≡ true
      → j < max_clients
      → j ≢ i
      → (st.slots j).connected ≡ true
      → (st.slots j).ip_addr ≢ ip
  unfolding same_client
  nobody_else ip i j hi same hj ne cj e = ground (arith, idle, inv.distinct.others i j hi hj)

  on_accept-Inv : (w : Whitelist) (ip : ℕ) → Inv (on_accept w st ip)
  unfolding on_accept
  on_accept-Inv w ip = elim (Option-cases (find_slot (same_client st ip) 0 max_clients)) [
    | inl new ↦ rw (new, on_accept) (take_free-Inv w ip (λ j hj cj. nobody ip j new hj cj))
    | inr (i, found) ↦
        let (same, _, small) = find_slot-some (same_client st ip) 0 max_clients i found in
        rw (found, on_accept)
          (reserve-Inv i (st.slots i).s none ip (omega arith) (λ k. omega arith)
            (λ k hk quiet. refl) (λ j hj ne cj. nobody_else ip i j (omega arith) same hj ne cj))
  ]

pub not_serving : (t : Thread) → has_ended t ≡ true → is_serving t ≡ false
unfolding has_ended
not_serving absent h = refl
not_serving exited h = refl
not_serving _ h = cc

next-go_on : (ok : Bool) (a : Acceptor) (st : State) → (go_on ok a st).next ≡ st.next
unfolding go_on start
next-go_on ok waiting st = refl
next-go_on ok _ st = ground arith

target-go_on :
    (ok : Bool) (a : Acceptor) (st : State)
    → st.acceptor ≡ a
    → target a < max_clients
    → target (go_on ok a st).acceptor < max_clients
unfolding go_on start
target-go_on ok waiting st here h = ground arith
target-go_on ok _ st here h = ground arith

next-wind_up : (i : ℕ) (t : Thread) (st : State) → (wind_up i t st).next ≡ st.next
unfolding wind_up
next-wind_up i absent st = refl
next-wind_up i _ st = refl

acceptor-wind_up : (i : ℕ) (t : Thread) (st : State) → (wind_up i t st).acceptor ≡ st.acceptor
unfolding wind_up
acceptor-wind_up i absent st = refl
acceptor-wind_up i _ st = refl

module _ (st : State) (inv : Inv st) where
  owner_ended :
      (a : Acceptor)
      → st.acceptor ≡ a
      → owns (target a) a ≡ true
      → has_ended (st.threads (target a)) ≡ true
  owner_ended a here h = (inv.agrees (target a)).alone (rw here h)

  go_on-Inv : (ok : Bool) (a : Acceptor) → st.acceptor ≡ a → Inv (go_on ok a st)
  go_on-Inv ok a here = record {
    accounted =
        go_on-Accounted ok a st here (rw here at inv.in_range) (owner_ended a here)
          (λ h k hk. (inv.agrees (target a)).unowned k hk (not_serving _ (owner_ended a here h)))
          inv.accounted;
    first = rw (next-go_on ok a st) inv.first;
    in_range = target-go_on ok a st here (rw here at inv.in_range);
    agrees = go_on-Agrees st inv.agrees ok a here;
    distinct = go_on-Distinct st inv.distinct ok a here;
  }

  wind_up-Inv : (i : ℕ) (t : Thread) → st.threads i ≡ t → i < max_clients → Inv (wind_up i t st)
  wind_up-Inv i t here small = record {
    accounted = wind_up-Accounted i t st here small inv.accounted;
    first = rw (next-wind_up i t st) inv.first;
    in_range = rw (acceptor-wind_up i t st) inv.in_range;
    agrees = wind_up-Agrees st inv.agrees i t here;
    distinct = wind_up-Distinct st inv.distinct i t here;
  }

-- Every step of the server keeps the invariant.
pub Step-Inv : {w : Whitelist} {st st' : State} → Step w st st' → Inv st → Inv st'
Step-Inv (arrives ip idle) inv = on_accept-Inv _ inv idle _ ip
Step-Inv (loop_goes_on ok) inv = go_on-Inv _ inv ok _ refl
Step-Inv (thread_winds_up i small) inv = wind_up-Inv _ inv i _ refl small

pub Inv-init : Inv init
unfolding tally has_ended
Inv-init = record {
  accounted = λ k hk. ground arith;
  first = omega arith;
  in_range = omega arith;
  agrees = λ j. record {
    joinable = λ h. cc;
    taken = λ h. cc;
    alone = λ h. cc;
    in_use = λ h. cc;
    has_user = λ h. cc;
    unowned = λ k hk quiet. ground arith;
  };
  distinct = record {
    others = λ a b ha hb ra rb ca cb e. cc;
    newcomers = λ j ip hj new rj cj e. cc;
  };
}

pub Reach-Inv : {w : Whitelist} {st : State} → Reach w st → Inv st
Reach-Inv boot = Inv-init
Reach-Inv (step r s) = Step-Inv s (Reach-Inv r)
