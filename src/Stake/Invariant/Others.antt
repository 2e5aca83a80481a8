-- ===== src/Stake/Invariant/Others.antt =====
-- The handlers that leave the stakes, the claims and the stored totals alone: withdrawals, the flag
-- and the admin.
use wynddex.Base.{
  ℕ, ◌≡◌, subst, true, false, List, [], ◌∷◌, Option, ok, >>=-eq-ok, ok-injective, fail_if, not,
  ok_or, ◌==◌, ◌||◌, unwrap_or,
}
use wynddex.Num.{add128, sub128}
use wynddex.Map.{lookup, nat_key}
use wynddex.Asset.{AssetInfo, asset_key}
use wynddex.Host.{Host}
use wynddex.Stake.State.{Distribution, Msg}
use wynddex.Stake.Store.{Store, MessageInfo, Distributions, std_or_fail}
use wynddex.Stake.Rewards.{
  withdraw_one, withdraw_each, execute_withdraw_rewards, execute_delegate_withdrawal,
  optional_address, withdrawable_rewards, load_adjustment,
}
use wynddex.Stake.Transfers.{is_unbonder}
use wynddex.Stake.Admin.{
  maybe_addr, execute_unbond_all, execute_stop_unbond_all, execute_update_admin,
}
use wynddex.Stake.Invariant.Kept.{
  Kept, Kept-refl, Kept-trans, Kept-insert, Kept-with, if-ok, KeptAnswer,
}

module _ {C : Type 0} ⦃h : Host⦄ where
  withdraw_one-Kept :
      (owner receiver : ℕ) (s : Store C) (msgs : List Msg) (asset : AssetInfo) (d : Distribution)
      {r : Store C × List Msg}
      → withdraw_one owner receiver s msgs asset d ≡ ok r
      → KeptAnswer s r
  unfolding withdraw_one KeptAnswer
  withdraw_one-Kept owner receiver s msgs asset d e =
      let adjustment = load_adjustment s.withdraw_adjustment owner asset in
      let (reward, er, e1) =
        >>=-eq-ok (withdrawable_rewards s.config s.stake owner d adjustment) _ e in
      if-ok (KeptAnswer s) (reward == 0) _ _ e1
        (λ f. subst (KeptAnswer s) (ok-injective f) (Kept-refl s))
        (λ f.
          let (withdrawn, ew, f1) = >>=-eq-ok (add128 adjustment.withdrawn_rewards reward) _ f in
          let (left, el, f2) = >>=-eq-ok (sub128 d.withdrawable_total reward) _ f1 in
          subst (KeptAnswer s) (ok-injective f2) (Kept-insert s _ s.reward_curve asset _))

  withdraw_each-Kept :
      (owner receiver : ℕ) (ds : Distributions) (s : Store C) (msgs : List Msg)
      {r : Store C × List Msg}
      → withdraw_each owner receiver ds s msgs ≡ ok r
      → KeptAnswer s r
  unfolding withdraw_each KeptAnswer
  withdraw_each-Kept owner receiver [] s msgs e =
      subst (KeptAnswer s) (ok-injective e) (Kept-refl s)
  withdraw_each-Kept owner receiver ((asset, d) ∷ ds) s msgs e =
      let (t, et, e1) = >>=-eq-ok (withdraw_one owner receiver s msgs asset d) _ e in
      Kept-trans (withdraw_one-Kept owner receiver s msgs asset d et)
        (withdraw_each-Kept owner receiver ds t.0 t.1 e1)

  pub execute_withdraw_rewards-Kept :
      (info : MessageInfo) (owner receiver : Option ℕ) (s : Store C) {r : Store C × List Msg}
      → execute_withdraw_rewards info owner receiver s ≡ ok r
      → Kept s r.0
  unfolding execute_withdraw_rewards KeptAnswer
  execute_withdraw_rewards-Kept info owner receiver s e =
      let (o, eo, e1) = >>=-eq-ok (optional_address owner info.sender) _ e in
      let (to, er, e2) = >>=-eq-ok (optional_address receiver info.sender) _ e1 in
      let delegated = unwrap_or (lookup o s.delegated) o in
      let (_, _, e3) =
        >>=-eq-ok (fail_if (not (o == info.sender || delegated == info.sender)) _) _ e2 in
      withdraw_each-Kept o to s.distribution s [] e3

  pub execute_delegate_withdrawal-Kept :
      (info : MessageInfo) (delegated : ℕ) (s : Store C) {r : Store C × List Msg}
      → execute_delegate_withdrawal info delegated s ≡ ok r
      → Kept s r.0
  unfolding execute_delegate_withdrawal KeptAnswer
  execute_delegate_withdrawal-Kept info delegated s e =
      let (a, ea, e1) = >>=-eq-ok (std_or_fail (h.addr_validate delegated)) _ e in
      subst (KeptAnswer s) (ok-injective e1) (Kept-with s s.admin s.reward_curve _ s.unbond_all)

  pub execute_update_admin-Kept :
      (info : MessageInfo) (a : Option ℕ) (s : Store C) {r : Store C × List Msg}
      → execute_update_admin info a s ≡ ok r
      → Kept s r.0
  unfolding execute_update_admin KeptAnswer
  execute_update_admin-Kept info a s e =
      let (b, eb, e1) = >>=-eq-ok (maybe_addr a) _ e in
      let (c, ec, e2) = >>=-eq-ok (ok_or (h.execute_update_admin s.admin info.sender b) _) _ e1 in
      subst (KeptAnswer s) (ok-injective e2) (Kept-with s c s.reward_curve s.delegated s.unbond_all)

  pub execute_unbond_all-Kept :
      (info : MessageInfo) (s : Store C) {r : Store C × List Msg}
      → execute_unbond_all info s ≡ ok r
      → Kept s r.0
  unfolding execute_unbond_all KeptAnswer
  execute_unbond_all-Kept info s e =
      let (_, _, e1) =
        >>=-eq-ok (fail_if (not (is_unbonder s.config.unbonder info.sender)) _) _ e in
      let (_, _, e2) = >>=-eq-ok (fail_if s.unbond_all _) _ e1 in
      subst (KeptAnswer s) (ok-injective e2) (Kept-with s s.admin s.reward_curve s.delegated true)

  pub execute_stop_unbond_all-Kept :
      (info : MessageInfo) (s : Store C) {r : Store C × List Msg}
      → execute_stop_unbond_all info s ≡ ok r
      → Kept s r.0
  unfolding execute_stop_unbond_all KeptAnswer
  execute_stop_unbond_all-Kept info s e =
      let allowed = is_unbonder s.config.unbonder info.sender || h.is_admin s.admin info.sender in
      let (_, _, e1) = >>=-eq-ok (fail_if (not allowed) _) _ e in
      let (_, _, e2) = >>=-eq-ok (fail_if (not s.unbond_all) _) _ e1 in
      subst (KeptAnswer s) (ok-injective e2) (Kept-with s s.admin s.reward_curve s.delegated false)
