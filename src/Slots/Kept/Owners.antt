-- ===== src/Slots/Kept/Owners.antt =====
-- Every step keeps a slot, its thread and the accept loop in agreement.
use ps3netsrv.Prelude.{
  ℕ, ◌≤◌, ◌≡◌, arith, Bool, true, false, not, ◌&&◌, Option, Bool-cases, inl, inr,
}
use ps3netsrv.Slots.{
  Acceptor, waiting, tearing, joining, preparing, starting, Thread, absent, serving, closing,
  releasing, exited, State, reserve, refuse, start, go_on, wind_up, has_ended,
}
use ps3netsrv.Slots.Count.{held}
use ps3netsrv.Slots.Invariant.{Agrees, is_serving}

abbrev pub AllAgree : State → Type 0
AllAgree st = (j : ℕ) → Agrees st.acceptor j (st.slots j) (st.threads j)

module _ (st : State) (agrees : AllAgree st) where
  pub reserve-Agrees :
      (i : ℕ) (old_s left_s : Option ℕ) (ip : ℕ)
      → st.acceptor ≡ waiting
      → ((k : ℕ) → 1 ≤ k → is_serving (st.threads i) ≡ false → held k left_s ≡ 0)
      → AllAgree (reserve st i old_s left_s ip)
  unfolding reserve has_ended
  reserve-Agrees i old_s left_s ip idle left j = record {
    joinable = ground (arith, idle, (agrees j).joinable);
    taken = ground (arith, idle, (agrees j).taken);
    alone = ground (arith, idle, (agrees j).alone);
    in_use = ground (arith, idle, (agrees j).in_use);
    has_user = ground (arith, idle, (agrees j).has_user);
    unowned = λ k hk quiet. ground (arith, idle, left k hk, (agrees j).unowned k hk);
  }

  pub refuse-Agrees : AllAgree (refuse st)
  unfolding refuse
  refuse-Agrees = agrees

  at_acceptor : {a : Acceptor} → st.acceptor ≡ a → (j : ℕ) → Agrees a j (st.slots j) (st.threads j)
  at_acceptor here j = rw here at (agrees j)

  pub go_on-Agrees : (ok : Bool) (a : Acceptor) → st.acceptor ≡ a → AllAgree (go_on ok a st)
  unfolding go_on start
  go_on-Agrees ok waiting here j = agrees j
  go_on-Agrees ok (tearing i old_s join cs ip) here j =
      let old = at_acceptor here j in
      record {
        joinable = old.joinable;
        taken = old.taken;
        alone = λ h. cc;
        in_use = old.in_use;
        has_user = old.has_user;
        unowned = old.unowned;
      }
  go_on-Agrees ok (joining i join cs ip) here j =
      let old = at_acceptor here j in
      elim (Bool-cases (join && not (has_ended (st.threads i)))) [
        | inl waits ↦ rw waits (agrees j)
        | inr joined ↦ rw joined (record {
          joinable = ground (arith, joined, old.joinable);
          taken = old.taken;
          alone = ground (arith, joined, old.joinable, old.taken);
          in_use = old.in_use;
          has_user = old.has_user;
          unowned = old.unowned;
        })
      ]
  go_on-Agrees true (preparing i cs ip) here j =
      let old = at_acceptor here j in
      record {
        joinable = ground (arith, old.joinable, old.alone);
        taken = ground (arith, old.taken);
        alone = old.alone;
        in_use = ground (arith, old.in_use);
        has_user = ground (arith, old.has_user);
        unowned = λ k hk quiet. ground (arith, old.unowned k hk quiet);
      }
  go_on-Agrees false (preparing i cs ip) here j =
      let old = at_acceptor here j in
      record {
        joinable = ground (arith, old.joinable, old.alone);
        taken = λ h. cc;
        alone = λ h. cc;
        in_use = ground (arith, old.in_use, old.alone);
        has_user = ground (arith, old.has_user);
        unowned = λ k hk quiet. ground (arith, old.unowned k hk quiet);
      }
  go_on-Agrees true (starting i cs ip) here j =
      let old = at_acceptor here j in
      record {
        joinable = ground (arith, old.joinable);
        taken = λ h. cc;
        alone = λ h. cc;
        in_use = ground (arith, old.in_use);
        has_user = ground (arith, old.has_user);
        unowned = λ k hk quiet. ground (arith, old.unowned k hk);
      }
  go_on-Agrees false (starting i cs ip) here j =
      let old = at_acceptor here j in
      record {
        joinable = ground (arith, old.joinable, old.alone);
        taken = λ h. cc;
        alone = λ h. cc;
        in_use = ground (arith, old.in_use, old.alone);
        has_user = ground (arith, old.has_user);
        unowned = λ k hk quiet. ground (arith, old.unowned k hk quiet);
      }

  pub wind_up-Agrees : (i : ℕ) (t : Thread) → st.threads i ≡ t → AllAgree (wind_up i t st)
  unfolding wind_up has_ended
  wind_up-Agrees i absent here j = agrees j
  wind_up-Agrees i exited here j = agrees j
  wind_up-Agrees i serving here j =
      let old = agrees j in
      record {
        joinable = ground (arith, here, old.joinable);
        taken = ground (arith, here, old.taken);
        alone = ground (arith, here, old.alone);
        in_use = ground (arith, here, old.in_use);
        has_user = ground (arith, here, old.has_user);
        unowned = λ k hk quiet. ground (arith, here, old.unowned k hk);
      }
  wind_up-Agrees i (closing s) here j =
      let old = agrees j in
      record {
        joinable = ground (arith, here, old.joinable);
        taken = ground (arith, here, old.taken);
        alone = ground (arith, here, old.alone);
        in_use = ground (arith, here, old.in_use);
        has_user = ground (arith, here, old.has_user);
        unowned = λ k hk quiet. ground (arith, here, old.unowned k hk);
      }
  wind_up-Agrees i releasing here j =
      let old = agrees j in
      record {
        joinable = ground (arith, here, old.joinable);
        taken = ground (arith, here, old.taken);
        alone = ground (arith, here, old.alone);
        in_use = ground (arith, here, old.in_use);
        has_user = ground (arith, here, old.has_user);
        unowned = λ k hk quiet. ground (arith, here, old.unowned k hk);
      }
