-- ===== src/Pair/Invariant/Provide.antt =====
-- Deposits and withdrawals keep the terms of a pair, and which of them a frozen pair refuses.
use wynddex.Base.{
  ℕ, ◌/◌, ◌<◌, ◌≡◌, sym, subst, ap, false, List, [], ◌∷◌, length, Option, none, some, ok, >>=-eq-ok,
  ok-injective, fail_if, fail_if-eq-ok, ltb, ◌==◌, if◌then◌else◌,
}
use wynddex.Num.{u64_limit, add128, sub128}
use wynddex.Host.{Host, KeepsTime}
use wynddex.Decimals.{Decimals}
use wynddex.Platform.{Env, MessageInfo, Msg}
use wynddex.Asset.Amounts.{AssetValidated, addr_opt_validate}
use wynddex.Oracle.{index}
use wynddex.Pair.State.{
  Store, lift, Querier, contract_frozen, invalid_zero_amount, too_many_assets,
  invalid_provide_lps_with_single_token,
}
use wynddex.Pair.Checks.{check_assets, query_pools}
use wynddex.Pair.Referral.{query_factory_config}
use wynddex.Pair.Swap.{do_swap, SwapResult, check_if_frozen}
use wynddex.Pair.Liquidity.{
  Deposit, after_swap, single_sided, prepare, match_deposits, count_shares, mint_shares, all_zero,
  pool_indices, receive_each, provide_liquidity, start_or_record, change_pool, query_supply,
}
use wynddex.Pair.Invariant.{
  Kept, Kept-refl, Recorded, Recorded-Kept, Kept-Recorded, start_or_record-Recorded,
}
use wynddex.Pair.Invariant.Calls.{do_swap-Recorded}

module _ ⦃h : Host⦄ ⦃d : Decimals⦄ ⦃q : Querier⦄ (time : KeepsTime h) where
  after_swap-store :
      (pools : List AssetValidated) (i other : ℕ) (offer : AssetValidated) (half : ℕ)
      (messages : List Msg) (s : Store) (result : SwapResult) {deposit : Deposit}
      → after_swap pools i other offer half messages s result ≡ ok deposit
      → deposit.store ≡ s
  unfolding after_swap
  after_swap-store pools i other offer half messages s result e =
      let (p1, e_1, e1) =
        >>=-eq-ok
          (elim result.protocol_fee_msg [
            | none ↦ ok pools
            | some m ↦ change_pool pools other (λ amount. sub128 amount result.protocol_fee_amount)
          ])
          _ e in
      let (p2, e_2, e2) = >>=-eq-ok (change_pool p1 i (λ amount. add128 amount half)) _ e1 in
      let (p3, e_3, e3) =
        >>=-eq-ok (change_pool p2 other (λ amount. sub128 amount result.return_asset.amount)) _
          e2 in
      let (rest, e_r, e4) = >>=-eq-ok (sub128 offer.amount half) _ e3 in
      ap (λ (t : Deposit). t.store) (sym (ok-injective e4))

  single_sided-Kept :
      (s : Store) (env : Env) (pools : List AssetValidated) (i : ℕ) (offer : AssetValidated)
      (messages : List Msg) {deposit : Deposit}
      → env.block_time < u64_limit
      → single_sided s env pools i offer messages ≡ ok deposit
      → Kept s deposit.store
  unfolding single_sided
  single_sided-Kept s env pools i offer messages small e =
      let other = if i == 0 then 1 else 0 in
      let half = offer.amount / 2 in
      let (ask, e_a, e1) = >>=-eq-ok (index pools other) _ e in
      let (u, e_u, e2) =
        >>=-eq-ok (fail_if (ask.amount == 0) invalid_provide_lps_with_single_token) _ e1 in
      let (fc, e_f, e3) = >>=-eq-ok (lift (query_factory_config s.config.factory_addr)) _ e2 in
      let input : AssetValidated = record { info = offer.info; amount = half } in
      let (r, e_r, e4) = >>=-eq-ok (do_swap s env fc pools input none none) _ e3 in
      subst (Kept s) (sym (after_swap-store pools i other offer half messages r.0 r.1 e4))
        (Recorded-Kept (do_swap-Recorded time s env fc pools input none none small e_r))

  prepare-Kept :
      (s : Store) (env : Env) (pools assets : List AssetValidated) (is : List ℕ)
      (messages : List Msg) {deposit : Deposit}
      → env.block_time < u64_limit
      → prepare s env pools assets is messages ≡ ok deposit
      → Kept s deposit.store
  unfolding prepare
  prepare-Kept s env pools [] is messages small e =
      subst (λ (t : Deposit). Kept s t.store) (ok-injective e) (Kept-refl s)
  prepare-Kept s env pools (a ∷ []) [] messages small e =
      subst (λ (t : Deposit). Kept s t.store) (ok-injective e) (Kept-refl s)
  prepare-Kept s env pools (a ∷ []) (i ∷ is) messages small e =
      single_sided-Kept s env pools i a messages small e
  prepare-Kept s env pools (a ∷ b ∷ rest) is messages small e =
      subst (λ (t : Deposit). Kept s t.store) (ok-injective e) (Kept-refl s)

  mint_shares-Recorded :
      (env : Env) (info : MessageInfo) (slippage receiver : Option ℕ) (deposit : Deposit)
      {r : Store × List Msg}
      → env.block_time < u64_limit
      → mint_shares env info slippage receiver deposit ≡ ok r
      → Recorded env.block_time deposit.store r.0
  unfolding mint_shares
  mint_shares-Recorded env info slippage receiver deposit small e =
      let token = deposit.store.config.pair_info.liquidity_token in
      let (m, e_m, e1) = >>=-eq-ok (match_deposits deposit) _ e in
      let (total, e_t, e2) = >>=-eq-ok (lift (query_supply token)) _ e1 in
      let (c, e_c, e3) =
        >>=-eq-ok (count_shares token env slippage total m.0 m.1 deposit.messages) _ e2 in
      let (to, e_to, e4) = >>=-eq-ok (lift (addr_opt_validate receiver)) _ e3 in
      let (n0, e_0, e5) = >>=-eq-ok (add128 m.1.0 m.0.0) _ e4 in
      let (n1, e_1, e6) = >>=-eq-ok (add128 m.1.1 m.0.1) _ e5 in
      let (s, e_s, e7) =
        >>=-eq-ok (start_or_record deposit.store env.block_time total (n0, n1) m.1) _ e6 in
      subst (λ (r : Store × List Msg). Recorded env.block_time deposit.store r.0) (ok-injective e7)
        (start_or_record-Recorded deposit.store env.block_time total (n0, n1) m.1 time small e_s)

  pub provide_liquidity-Recorded :
      (s : Store) (env : Env) (info : MessageInfo) (raw : List AssetValidated)
      (slippage receiver : Option ℕ) {r : Store × List Msg}
      → env.block_time < u64_limit
      → provide_liquidity s env info raw slippage receiver ≡ ok r
      → Recorded env.block_time s r.0 × (s.frozen ≡ false)
  unfolding provide_liquidity check_if_frozen
  provide_liquidity-Recorded s env info raw slippage receiver small e =
      let (assets, e_a, e1) = >>=-eq-ok (check_assets raw) _ e in
      let (u, e_u, e2) = >>=-eq-ok (fail_if s.frozen contract_frozen) _ e1 in
      let (v, e_v, e3) =
        >>=-eq-ok (fail_if (ltb 2 (length assets)) (too_many_assets 2 (length assets))) _ e2 in
      let (w, e_w, e4) = >>=-eq-ok (fail_if (all_zero assets) invalid_zero_amount) _ e3 in
      let (pools, e_p, e5) =
        >>=-eq-ok (lift (query_pools s.config.pair_info.asset_infos env.contract)) _ e4 in
      let (is, e_i, e6) = >>=-eq-ok (pool_indices pools assets) _ e5 in
      let (c, e_c, e7) = >>=-eq-ok (receive_each env info assets is pools []) _ e6 in
      let (deposit, e_d, e8) = >>=-eq-ok (prepare s env c.0 assets is c.1) _ e7 in
      (
        Kept-Recorded (prepare-Kept s env c.0 assets is c.1 small e_d)
            (mint_shares-Recorded env info slippage receiver deposit small e8),
        fail_if-eq-ok s.frozen contract_frozen e_u,
      )
