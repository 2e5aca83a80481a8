-- ===== src/Stake/Admin/Flags.antt =====
-- The emergency flag: who sets and clears it, and what it stops.
use wynddex.Base.{
  ◌≡◌, refl, sym, ap, subst, arith, true, not, List, [], ok, >>=-eq-ok, ok-injective, fail_if,
  fail_if-eq-ok,
}
use wynddex.Host.{Host}
use wynddex.Stake.State.{Msg}
use wynddex.Stake.Store.{Store, MessageInfo}
use wynddex.Stake.Transfers.{is_unbonder}
use wynddex.Stake.Admin.{execute_unbond_all, execute_stop_unbond_all}

module _ {C : Type 0} ⦃h : Host⦄ where
  Stopped : Store C → MessageInfo → Store C × List Msg → Type 0
  Stopped s info r = (r.0.unbond_all ≡ true) × (execute_stop_unbond_all info r.0 ≡ ok (s, []))

  -- Setting the emergency flag, where it is accepted, turns it on, and the same account's stop
  -- of it gives back the storage of before.
  pub execute_unbond_all-stop :
      (info : MessageInfo) (s : Store C) {r : Store C × List Msg}
      → execute_unbond_all info s ≡ ok r
      → (r.0.unbond_all ≡ true) × (execute_stop_unbond_all info r.0 ≡ ok (s, []))
  unfolding execute_unbond_all execute_stop_unbond_all Stopped
  execute_unbond_all-stop info s e =
      let (_, allowed, e1) =
        >>=-eq-ok (fail_if (not (is_unbonder s.config.unbonder info.sender)) _) _ e in
      let (_, unset, e2) = >>=-eq-ok (fail_if s.unbond_all _) _ e1 in
      let yes : is_unbonder s.config.unbonder info.sender ≡ true =
        ground (arith, fail_if-eq-ok _ _ allowed) in
      let no = fail_if-eq-ok s.unbond_all _ unset in
      subst (Stopped s info) (ok-injective e2)
        (refl, rw yes (ap (λ b. ok (record s { unbond_all = b }, [])) (sym no)))
