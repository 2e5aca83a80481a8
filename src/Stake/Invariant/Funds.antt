-- ===== src/Stake/Invariant/Funds.antt =====
-- The same of the distribution of rewards, their funding and the flows.
use wynddex.Base.{
  ℕ, ◌≡◌, subst, List, [], ◌∷◌, Option, ok, >>=-eq-ok, ok-injective, fail_if, not, ok_or, ltb, leb,
  length, ◌==◌, ◌||◌,
}
use wynddex.Num.{sub128, add64}
use wynddex.Map.{lookup, nat_key}
use wynddex.Asset.{AssetInfo, native, asset_key, validate}
use wynddex.Host.{Host, Curves}
use wynddex.Stake.State.{Distribution, Msg}
use wynddex.Stake.Store.{Store, Env, MessageInfo, Distributions, std_or_fail}
use wynddex.Stake.Power.{total_rewards_power}
use wynddex.Stake.Rewards.{
  distribute, distribute_one, distribute_each, execute_distribute_rewards, optional_address,
  reject_coin, unsupported_coin, native_denoms,
}
use wynddex.Stake.Admin.{
  FundingInfo, update_reward_config, fund_each, execute_fund_distribution,
  execute_create_distribution_flow, is_staked_token, same_periods, any_decrease, contains_key,
}
use wynddex.Stake.Invariant.Kept.{
  Kept, Kept-refl, Kept-trans, Kept-insert, Kept-with, if-ok, KeptAnswer,
}

module _ {C : Type 0} ⦃h : Host⦄ ⦃curves : Curves C⦄ where
  KeptStore : Store C → Store C → Type 0
  KeptStore s r = Kept s r

  distribute_one-Kept :
      (query_balance : AssetInfo → Option ℕ) (now : ℕ) (s : Store C) (asset : AssetInfo)
      (d : Distribution) {r : Store C}
      → distribute_one query_balance now s asset d ≡ ok r
      → KeptStore s r
  unfolding distribute_one KeptStore
  distribute_one-Kept query_balance now s asset d e =
      let (total, et, e1) = >>=-eq-ok (total_rewards_power s.config s.total_per_period d) _ e in
      if-ok (KeptStore s) (total == 0) _ _ e1
        (λ f. subst (KeptStore s) (ok-injective f) (Kept-refl s))
        (λ f.
          let (balance, _, f1) = >>=-eq-ok (std_or_fail (query_balance asset)) _ f in
          let (c, _, f2) = >>=-eq-ok (ok_or (lookup asset s.reward_curve) _) _ f1 in
          let (free, _, f3) = >>=-eq-ok (sub128 balance d.withdrawable_total) _ f2 in
          let (amount, _, f4) = >>=-eq-ok (sub128 free (curves.value c now)) _ f3 in
          if-ok (KeptStore s) (amount == 0) _ _ f4
            (λ g. subst (KeptStore s) (ok-injective g) (Kept-refl s))
            (λ g.
              let (d', _, g1) = >>=-eq-ok (distribute d total amount) _ g in
              subst (KeptStore s) (ok-injective g1)
                (Kept-insert s s.withdraw_adjustment s.reward_curve asset d')))

  distribute_each-Kept :
      (query_balance : AssetInfo → Option ℕ) (now : ℕ) (ds : Distributions) (s : Store C)
      {r : Store C}
      → distribute_each query_balance now ds s ≡ ok r
      → KeptStore s r
  unfolding distribute_each KeptStore
  distribute_each-Kept query_balance now [] s e = subst (KeptStore s) (ok-injective e) (Kept-refl s)
  distribute_each-Kept query_balance now ((asset, d) ∷ ds) s e =
      let (t, et, e1) = >>=-eq-ok (distribute_one query_balance now s asset d) _ e in
      Kept-trans (distribute_one-Kept query_balance now s asset d et)
        (distribute_each-Kept query_balance now ds t e1)

  pub execute_distribute_rewards-Kept :
      (query_balance : AssetInfo → Option ℕ) (env : Env) (info : MessageInfo) (sender : Option ℕ)
      (s : Store C) {r : Store C × List Msg}
      → execute_distribute_rewards query_balance env info sender s ≡ ok r
      → Kept s r.0
  unfolding execute_distribute_rewards KeptAnswer KeptStore
  execute_distribute_rewards-Kept query_balance env info sender s e =
      let coin = unsupported_coin (native_denoms s.distribution) info.funds in
      let (_, _, e1) = >>=-eq-ok (fail_if s.unbond_all _) _ e in
      let (_, _, e2) = >>=-eq-ok (optional_address sender info.sender) _ e1 in
      let (_, _, e3) = >>=-eq-ok (reject_coin coin) _ e2 in
      let (t, et, e4) =
        >>=-eq-ok (distribute_each query_balance (h.seconds env.block_time) s.distribution s) _
          e3 in
      subst (KeptAnswer s) (ok-injective e4)
        (distribute_each-Kept query_balance (h.seconds env.block_time) s.distribution s et)

  pub update_reward_config-Kept :
      (s : Store C) (asset : AssetInfo) (amount : ℕ) (f : FundingInfo) {r : Store C}
      → update_reward_config s asset amount f ≡ ok r
      → Kept s r
  unfolding update_reward_config KeptStore
  update_reward_config-Kept s asset amount f e =
      let (previous, _, e1) = >>=-eq-ok (ok_or (lookup asset s.reward_curve) _) _ e in
      let (end_time, _, e2) = >>=-eq-ok (add64 f.start_time f.distribution_duration) _ e1 in
      let schedule = curves.saturating_linear (f.start_time, f.amount) (end_time, 0) in
      let low = (curves.range schedule).0 in
      let high = (curves.range schedule).1 in
      let (_, _, e3) = >>=-eq-ok (fail_if (not (low == 0) || ltb amount high) _) _ e2 in
      let new_curve = curves.combine previous schedule in
      let (_, _, e4) =
        >>=-eq-ok (fail_if (not (curves.is_monotonic_decreasing new_curve)) _) _ e3 in
      subst (KeptStore s) (ok-injective e4) (Kept-with s s.admin _ s.delegated s.unbond_all)

  fund_each-Kept :
      (funds : List (ℕ × ℕ)) (f : FundingInfo) (s : Store C) {r : Store C}
      → fund_each funds f s ≡ ok r
      → KeptStore s r
  unfolding fund_each KeptStore
  fund_each-Kept [] f s e = subst (KeptStore s) (ok-injective e) (Kept-refl s)
  fund_each-Kept ((denom, amount) ∷ funds) f s e =
      let (asset, _, e1) = >>=-eq-ok (std_or_fail (validate (native denom))) _ e in
      let (t, et, e2) = >>=-eq-ok (update_reward_config s asset amount f) _ e1 in
      Kept-trans (update_reward_config-Kept s asset amount f et) (fund_each-Kept funds f t e2)

  pub execute_fund_distribution-Kept :
      (env : Env) (info : MessageInfo) (f : FundingInfo) (s : Store C) {r : Store C × List Msg}
      → execute_fund_distribution env info f s ≡ ok r
      → Kept s r.0
  unfolding execute_fund_distribution KeptAnswer KeptStore
  execute_fund_distribution-Kept env info f s e =
      let (_, _, e1) = >>=-eq-ok (fail_if s.unbond_all _) _ e in
      let (_, _, e2) = >>=-eq-ok (fail_if (ltb f.start_time (h.seconds env.block_time)) _) _ e1 in
      let (t, et, e3) = >>=-eq-ok (fund_each info.funds f s) _ e2 in
      subst (KeptAnswer s) (ok-injective e3) (fund_each-Kept info.funds f s et)

  pub execute_create_distribution_flow-Kept :
      (info : MessageInfo) (manager : ℕ) (asset : AssetInfo) (rewards : List (ℕ × ℕ)) (s : Store C)
      {r : Store C × List Msg}
      → execute_create_distribution_flow info manager asset rewards s ≡ ok r
      → Kept s r.0
  unfolding execute_create_distribution_flow KeptAnswer
  execute_create_distribution_flow-Kept info manager asset rewards s e =
      let (_, _, e1) = >>=-eq-ok (fail_if (not (h.is_admin s.admin info.sender)) _) _ e in
      let (a, _, e2) = >>=-eq-ok (std_or_fail (validate asset)) _ e1 in
      let (m, _, e3) = >>=-eq-ok (std_or_fail (h.addr_validate manager)) _ e2 in
      let (_, _, e4) = >>=-eq-ok (fail_if (is_staked_token a s.config.cw20_contract) _) _ e3 in
      let (_, _, e5) =
        >>=-eq-ok (fail_if (not (same_periods rewards s.config.unbonding_periods)) _) _ e4 in
      let (_, _, e6) = >>=-eq-ok (fail_if (any_decrease rewards) _) _ e5 in
      let full = leb s.config.max_distributions (length s.distribution) in
      let (_, _, e7) = >>=-eq-ok (fail_if full _) _ e6 in
      let (_, _, e8) = >>=-eq-ok (fail_if (contains_key s.distribution a) _) _ e7 in
      subst (KeptAnswer s) (ok-injective e8) (Kept-insert s s.withdraw_adjustment _ a _)
