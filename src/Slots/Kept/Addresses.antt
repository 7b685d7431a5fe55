-- ===== src/Slots/Kept/Addresses.antt =====
-- Every step keeps the addresses of the live connections apart.
use ps3netsrv.Prelude.{ℕ, ◌<◌, ◌≡◌, ◌≢◌, arith, Bool, true, Option}
use ps3netsrv.Slots.{
  max_clients, Acceptor, waiting, tearing, joining, preparing, starting, Thread, serving, State,
  reserve, refuse, start, go_on, wind_up, has_ended,
}
use ps3netsrv.Slots.Invariant.{Distinct}

module _ (st : State) (d : Distinct st) where
  pub reserve-Distinct :
      (i : ℕ) (old_s left_s : Option ℕ) (ip : ℕ)
      → st.acceptor ≡ waiting
      → ((j : ℕ)
          → j < max_clients
          → j ≢ i
          → (st.slots j).connected ≡ true
          → (st.slots j).ip_addr ≢ ip)
      → Distinct (reserve st i old_s left_s ip)
  unfolding reserve
  reserve-Distinct i old_s left_s ip idle apart = record {
    others = λ a b ha hb ra rb ca cb e. ground (arith, idle, d.others a b ha hb);
    newcomers = λ j ip' hj new rj cj e. ground (arith, apart j hj);
  }

  pub refuse-Distinct : Distinct (refuse st)
  unfolding refuse
  refuse-Distinct = record { others = d.others; newcomers = d.newcomers }

  pub go_on-Distinct : (ok : Bool) (a : Acceptor) → st.acceptor ≡ a → Distinct (go_on ok a st)
  unfolding go_on start has_ended
  go_on-Distinct ok waiting here = d
  go_on-Distinct ok (tearing i old_s join cs ip) here = record {
    others = λ a b ha hb ra rb ca cb e. ground (arith, here, d.others a b ha hb);
    newcomers = λ j ip' hj new rj cj e. ground (arith, here, d.newcomers j ip' hj);
  }
  go_on-Distinct ok (joining i join cs ip) here = record {
    others = λ a b ha hb ra rb ca cb e. ground (arith, here, d.others a b ha hb);
    newcomers = λ j ip' hj new rj cj e. ground (arith, here, d.newcomers j ip' hj);
  }
  go_on-Distinct ok (preparing i cs ip) here = record {
    others = λ a b ha hb ra rb ca cb e. ground (arith, here, d.others a b ha hb);
    newcomers = λ j ip' hj new rj cj e. ground (arith, here, d.newcomers j ip' hj);
  }
  go_on-Distinct ok (starting i cs ip) here = record {
    others = λ a b ha hb ra rb ca cb e.
        ground (arith, here, d.others a b ha hb, d.newcomers a ip ha, d.newcomers b ip hb);
    newcomers = λ j ip' hj new rj cj e. ground (arith, here, d.newcomers j ip' hj);
  }

  pub wind_up-Distinct : (i : ℕ) (t : Thread) → st.threads i ≡ t → Distinct (wind_up i t st)
  unfolding wind_up
  wind_up-Distinct i serving here = record {
    others = λ a b ha hb ra rb ca cb e. ground (arith, here, d.others a b ha hb);
    newcomers = λ j ip' hj new rj cj e. ground (arith, here, d.newcomers j ip' hj);
  }
  wind_up-Distinct i _ here = record {
    others = λ a b ha hb ra rb ca cb e. ground (arith, here, d.others a b ha hb);
    newcomers = λ j ip' hj new rj cj e. ground (arith, here, d.newcomers j ip' hj);
  }
