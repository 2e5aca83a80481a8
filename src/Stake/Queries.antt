-- ===== src/Stake/Queries.antt =====
-- The queries of contracts/stake/src/contract.rs and distribution.rs.
pub mod Bonds
use wynddex.Base.{
  ℕ, Bool, true, false, List, [], ◌∷◌, map, Option, none, some, Result, ok, ◌>>=◌, ◌>>◌, fail_if,
  unwrap_or, ◌==◌, if◌then◌else◌,
}
use wynddex.Num.{sub128}
use wynddex.Map.{lookup, nat_key}
use wynddex.Asset.{AssetInfo, asset_key, validate}
use wynddex.Host.{Host}
use wynddex.Search.{Position, found, not_found, search_by_key}
use wynddex.Stake.State.{Config, BondingInfo, TotalStake, ContractError, std, generic_err}
use wynddex.Stake.Bonding.{total_stake, total_locked}
use wynddex.Stake.Power.{Stakes, periods_of, load_stake, calc_rewards_power, total_rewards_power}
use wynddex.Stake.Store.{Store, Env, std_or_fail, Distributions, WithdrawAdjustment, Adjustments}
use wynddex.Stake.Rewards.{load_adjustment, withdrawable_rewards}

pub record StakedResponse : Type 0 where
  pub stake : ℕ
  pub total_locked : ℕ
  pub unbonding_period : ℕ
  pub cw20_contract : ℕ

unfoldable pub staked_response : BondingInfo → ℕ → ℕ → ℕ → Result ContractError StakedResponse
staked_response b now period cw20_contract = do
  staked ← total_stake b
  locked ← total_locked b now
  ok (record {
    stake = staked;
    total_locked = locked;
    unbonding_period = period;
    cw20_contract = cw20_contract;
  })

unfoldable pub is_missing : Position → Bool
is_missing (found _) = false
is_missing (not_found _) = true

-- Periods without a bond are skipped.
unfoldable pub staked_responses :
    Stakes → ℕ → ℕ → ℕ → List ℕ → Result ContractError (List StakedResponse)
staked_responses stakes now addr cw20_contract [] = ok []
staked_responses stakes now addr cw20_contract (p ∷ ps) = do
  rest ← staked_responses stakes now addr cw20_contract ps
  elim (lookup p (periods_of stakes addr)) [
    | none ↦ ok rest
    | some b ↦ do first ← staked_response b now p cw20_contract; ok (first ∷ rest)
  ]

unfoldable pub rewards_of :
    ⦃h : Host⦄ → Config → Stakes → ℕ → Distributions → Result ContractError (List (AssetInfo × ℕ))
rewards_of cfg stakes addr [] = ok []
rewards_of cfg stakes addr ((asset, d) ∷ ds) = do
  power ← calc_rewards_power cfg stakes d addr
  rest ← rewards_of cfg stakes addr ds
  ok (if power == 0 then rest else (asset, power) ∷ rest)

unfoldable pub total_rewards_of :
    ⦃h : Host⦄
    → Config
    → List (ℕ × TotalStake)
    → Distributions
    → Result ContractError (List (AssetInfo × ℕ))
total_rewards_of cfg totals [] = ok []
total_rewards_of cfg totals ((asset, d) ∷ ds) = do
  power ← total_rewards_power cfg totals d
  rest ← total_rewards_of cfg totals ds
  ok ((asset, power) ∷ rest)

unfoldable pub withdrawable_of :
    ⦃h : Host⦄
    → Config
    → Stakes
    → Adjustments
    → ℕ
    → Distributions
    → Result ContractError (List (AssetInfo × ℕ))
withdrawable_of cfg stakes m owner [] = ok []
withdrawable_of cfg stakes m owner ((asset, d) ∷ ds) = do
  rewards ← withdrawable_rewards cfg stakes owner d (load_adjustment m owner asset)
  rest ← withdrawable_of cfg stakes m owner ds
  ok ((asset, rewards) ∷ rest)

unfoldable pub undistributed_of :
    (AssetInfo → Option ℕ) → Distributions → Result ContractError (List (AssetInfo × ℕ))
undistributed_of query_balance [] = ok []
undistributed_of query_balance ((asset, d) ∷ ds) = do
  balance ← std_or_fail (query_balance asset)
  left ← sub128 balance d.withdrawable_total
  rest ← undistributed_of query_balance ds
  ok ((asset, left) ∷ rest)

module _ {C : Type 0} ⦃h : Host⦄ where
  unfoldable pub query_staked : Store C → Env → ℕ → ℕ → Result ContractError StakedResponse
  unfolding is_missing
  query_staked s env addr period = do
    a ← std_or_fail (h.addr_validate addr)
    fail_if (is_missing (search_by_key (λ e. e.0) period s.total_per_period)) (std generic_err)
    staked_response (load_stake s.stake a period) env.block_time period s.config.cw20_contract

  unfoldable pub query_all_staked : Store C → Env → ℕ → Result ContractError (List StakedResponse)
  query_all_staked s env addr = do
    a ← std_or_fail (h.addr_validate addr)
    staked_responses s.stake env.block_time a s.config.cw20_contract s.config.unbonding_periods

  unfoldable pub query_rewards : Store C → ℕ → Result ContractError (List (AssetInfo × ℕ))
  query_rewards s addr = do
    a ← std_or_fail (h.addr_validate addr)
    rewards_of s.config s.stake a s.distribution

  unfoldable pub query_total_rewards : Store C → Result ContractError (List (AssetInfo × ℕ))
  query_total_rewards s = total_rewards_of s.config s.total_per_period s.distribution

  -- The address is not checked.
  unfoldable pub query_withdrawable_rewards :
      Store C → ℕ → Result ContractError (List (AssetInfo × ℕ))
  query_withdrawable_rewards s owner =
      withdrawable_of s.config s.stake s.withdraw_adjustment owner s.distribution

  unfoldable pub query_undistributed_rewards :
      (AssetInfo → Option ℕ) → Store C → Result ContractError (List (AssetInfo × ℕ))
  query_undistributed_rewards query_balance s = undistributed_of query_balance s.distribution

  unfoldable pub query_delegated : Store C → ℕ → Result ContractError ℕ
  query_delegated s owner = do
    a ← std_or_fail (h.addr_validate owner)
    ok (unwrap_or (lookup a s.delegated) a)

  unfoldable pub query_withdraw_adjustment_data :
      Store C → ℕ → AssetInfo → Result ContractError WithdrawAdjustment
  query_withdraw_adjustment_data s owner asset = do
    a ← std_or_fail (h.addr_validate owner)
    asset' ← std_or_fail (validate asset)
    ok (load_adjustment s.withdraw_adjustment a asset')

module _ {C : Type 0} where
  abbrev pub query_total_staked : Store C → ℕ
  query_total_staked s = s.total_staked.staked

  abbrev pub query_total_unbonding : Store C → ℕ
  query_total_unbonding s = s.total_staked.unbonding

  abbrev pub query_unbond_all : Store C → Bool
  query_unbond_all s = s.unbond_all

  abbrev pub query_bonding_info : Store C → List (ℕ × ℕ)
  query_bonding_info s = map (λ e. (e.0, e.1.staked)) s.total_per_period

  -- The distributed and the withdrawable amounts.
  abbrev pub query_distributed_rewards : Store C → List (AssetInfo × ℕ) × List (AssetInfo × ℕ)
  query_distributed_rewards s = (
    map (λ e. (e.0, e.1.distributed_total)) s.distribution,
    map (λ e. (e.0, e.1.withdrawable_total)) s.distribution,
  )

  abbrev pub query_distribution_data : Store C → Distributions
  query_distribution_data s = s.distribution
