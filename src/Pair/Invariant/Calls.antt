-- ===== src/Pair/Invariant/Calls.antt =====
-- Which calls change the terms of a pair: every call of `execute` is a swap, a deposit, a withdrawal,
-- or one of the two that are for the factory and for the circuit breaker.
use wynddex.Base.{
  unwrap-eq-ok, some, ℕ, ◌<◌, ◌≡◌, subst, false, List, [], Option, some, ok, >>=-eq-ok,
  ok-injective, map_err-eq-ok, fail_if, fail_if-eq-ok, ltb,
}
use wynddex.Num.{u64_limit, add128}
use wynddex.Host.{Host, KeepsTime}
use wynddex.Decimals.{Decimals}
use wynddex.Platform.{Env, MessageInfo, Msg}
use wynddex.Asset.{AssetInfo}
use wynddex.Asset.Amounts.{AssetValidated, assert_sent_native_token_balance}
use wynddex.Oracle.{index}
use wynddex.Pair.State.{
  Store, PairError, lift, std, Querier, FactoryConfig, total_fee_rate, trading_not_started,
  contract_frozen,
}
use wynddex.Pair.Checks.{assert_max_spread, query_pools}
use wynddex.Pair.Math.{compute_swap}
use wynddex.Pair.Referral.{query_factory_config, handle_referral}
use wynddex.Pair.Swap.{
  do_swap, swap, finish_swap, order_pools, protocol_fee, new_pools, record_prices, SwapResult,
  check_if_frozen, without_offer,
}
use wynddex.Pair.Invariant.{Recorded, record_prices-Recorded}

module _ ⦃h : Host⦄ ⦃d : Decimals⦄ where
  -- A swap that succeeds has ordered its pools, computed its amounts, and then finished.
  abbrev pub IsSwapped :
      Store
      → Env
      → FactoryConfig
      → List AssetValidated
      → AssetValidated
      → Store × SwapResult
      → Type 0
  IsSwapped s env fc pools offer r =
      (pool0 : AssetValidated) × (pool1 : AssetValidated) × (ordered : AssetValidated
        × AssetValidated)
      × (rate : ℕ) × (amounts : ℕ × ℕ × ℕ) × (d.from_ratio
            s.config.pair_info.fee_config.total_fee_bps 10000
          ≡ some rate)
      × (index {E = PairError} pools 0 ≡ ok pool0)
      × (index {E = PairError} pools 1 ≡ ok pool1)
      × (order_pools offer.info pool0 pool1 ≡ ok ordered)
      × (compute_swap ordered.0.amount ordered.1.amount offer.amount rate ≡ ok amounts)
      × (finish_swap s env fc pool0 pool1 ordered.1.info offer.amount amounts ≡ ok r)

  pub do_swap-eq-ok :
      (s : Store) (env : Env) (fc : FactoryConfig) (pools : List AssetValidated)
      (offer : AssetValidated) (belief_price max_spread : Option ℕ) {r : Store × SwapResult}
      → do_swap s env fc pools offer belief_price max_spread ≡ ok r
      → IsSwapped s env fc pools offer r
  unfolding do_swap total_fee_rate
  do_swap-eq-ok s env fc pools offer belief_price max_spread e =
      let (u, e_u, e1) =
        >>=-eq-ok
          (fail_if (ltb (h.seconds env.block_time) s.config.trading_starts) trading_not_started) _
          e in
      let (pool0, e_0, e2) = >>=-eq-ok (index pools 0) _ e1 in
      let (pool1, e_1, e3) = >>=-eq-ok (index pools 1) _ e2 in
      let (ordered, e_o, e4) = >>=-eq-ok (order_pools offer.info pool0 pool1) _ e3 in
      let (rate, e_r, e5) = >>=-eq-ok (total_fee_rate s.config.pair_info.fee_config) _ e4 in
      let (amounts, e_a, e6) =
        >>=-eq-ok (lift (compute_swap ordered.0.amount ordered.1.amount offer.amount rate)) _ e5 in
      let (returned, e_t, e7) = >>=-eq-ok (add128 amounts.0 amounts.2) _ e6 in
      let (v, e_v, e8) =
        >>=-eq-ok (assert_max_spread belief_price max_spread offer.amount returned amounts.1) _
          e7 in
      (
        pool0,
        pool1,
        ordered,
        rate,
        amounts,
        unwrap-eq-ok {E = PairError} _ e_r,
        e_0,
        e_1,
        e_o,
        map_err-eq-ok std _ e_a,
        e8,
      )

module _ ⦃h : Host⦄ ⦃d : Decimals⦄ (time : KeepsTime h) where
  finish_swap-Recorded :
      (s : Store) (env : Env) (fc : FactoryConfig) (pool0 pool1 : AssetValidated)
      (ask_info : AssetInfo) (offer_amount : ℕ) (amounts : ℕ × ℕ × ℕ) {r : Store × SwapResult}
      → env.block_time < u64_limit
      → finish_swap s env fc pool0 pool1 ask_info offer_amount amounts ≡ ok r
      → Recorded env.block_time s r.0
  unfolding finish_swap
  finish_swap-Recorded s env fc pool0 pool1 ask_info offer_amount (a, b, c) small e =
      let (fee, e_f, e1) =
        >>=-eq-ok (protocol_fee fc s.config.pair_info.fee_config ask_info c) _ e in
      let (pools, e_p, e2) = >>=-eq-ok (new_pools pool0 pool1 ask_info offer_amount a fee.0) _ e1 in
      let (s', e_s, e3) =
        >>=-eq-ok (record_prices s env.block_time pools (pool0.amount, pool1.amount)) _ e2 in
      subst (λ (r : Store × SwapResult). Recorded env.block_time s r.0) (ok-injective e3)
        (record_prices-Recorded s env.block_time pools (pool0.amount, pool1.amount) time small e_s)

  pub do_swap-Recorded :
      (s : Store) (env : Env) (fc : FactoryConfig) (pools : List AssetValidated)
      (offer : AssetValidated) (belief_price max_spread : Option ℕ) {r : Store × SwapResult}
      → env.block_time < u64_limit
      → do_swap s env fc pools offer belief_price max_spread ≡ ok r
      → Recorded env.block_time s r.0
  do_swap-Recorded s env fc pools offer belief_price max_spread small e =
      let (pool0, pool1, ordered, rate, amounts, _, _, _, _, _, done) =
        do_swap-eq-ok s env fc pools offer belief_price max_spread e in
      finish_swap-Recorded s env fc pool0 pool1 ordered.1.info offer.amount amounts small done

module _ ⦃h : Host⦄ ⦃d : Decimals⦄ ⦃q : Querier⦄ (time : KeepsTime h) where
  pub swap-Recorded :
      (s : Store) (env : Env) (info : MessageInfo) (sender : ℕ) (offer : AssetValidated)
      (belief_price max_spread to referral commission : Option ℕ) {r : Store × List Msg}
      → env.block_time < u64_limit
      → swap s env info sender offer belief_price max_spread to referral commission ≡ ok r
      → Recorded env.block_time s r.0 × (s.frozen ≡ false)
  unfolding swap check_if_frozen
  swap-Recorded s env info sender offer belief_price max_spread to referral commission small e =
      let (u, e_u, e1) = >>=-eq-ok (lift (assert_sent_native_token_balance offer info)) _ e in
      let (v, e_v, e2) = >>=-eq-ok (fail_if s.frozen contract_frozen) _ e1 in
      let (fc, e_f, e3) = >>=-eq-ok (lift (query_factory_config s.config.factory_addr)) _ e2 in
      let (left, e_l, e4) = >>=-eq-ok (handle_referral fc referral commission offer []) _ e3 in
      let (all, e_a, e5) =
        >>=-eq-ok (lift (query_pools s.config.pair_info.asset_infos env.contract)) _ e4 in
      let (pools, e_p, e6) = >>=-eq-ok (lift (without_offer offer all)) _ e5 in
      let (result, e_r, e7) =
        >>=-eq-ok (do_swap s env fc pools left.0 belief_price max_spread) _ e6 in
      let kept = do_swap-Recorded time s env fc pools left.0 belief_price max_spread small e_r in
      (
        subst (λ (r : Store × List Msg). Recorded env.block_time s r.0) (ok-injective e7) kept,
        fail_if-eq-ok s.frozen contract_frozen e_v,
      )
