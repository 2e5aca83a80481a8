-- ===== src/Stake/Power.antt =====
-- Rewards power: contracts/stake/src/utils.rs (`calc_power`) and the methods of `Distribution` in
-- state.rs.
pub mod Loads
use wynddex.Base.{
  ℕ, ◌/◌, List, [], ◌∷◌, Result, ok, err, panic, ◌>>=◌, unwrap, unwrap_or, ltb, ◌==◌, if◌then◌else◌,
  get_elem?, zip,
}
use wynddex.Num.{add128, sum128}
use wynddex.Map.{Map, lookup, insert, nat_key}
use wynddex.Search.{found, not_found, search_by_key}
use wynddex.Host.{Host}
use wynddex.Stake.State.{
  Config, BondingInfo, TotalStake, Distribution, ContractError, no_unbonding_period_found,
}
use wynddex.Stake.Bonding.{no_bond, total_stake}

-- A division by zero panics.
div128 : ℕ → ℕ → Result ContractError ℕ
div128 a b = if b == 0 then panic else ok (a / b)

-- `STAKE`, by staker and unbonding period
abbrev pub Stakes : Type 0
Stakes = Map ℕ (Map ℕ BondingInfo)

abbrev pub periods_of : Stakes → ℕ → Map ℕ BondingInfo
periods_of m staker = unwrap_or (lookup staker m) []

-- `STAKE.may_load(..)?.unwrap_or_default()`
abbrev pub load_stake : Stakes → ℕ → ℕ → BondingInfo
load_stake m staker period = unwrap_or (lookup period (periods_of m staker)) no_bond

-- `STAKE.save(..)`
unfoldable pub save_stake : Stakes → ℕ → ℕ → BondingInfo → Stakes
save_stake m staker period b = insert staker (insert period b (periods_of m staker)) m

module _ ⦃h : Host⦄ (cfg : Config) where
  unfoldable pub calc_power : ℕ → ℕ → Result ContractError ℕ
  unfolding div128
  calc_power stake multiplier = if ltb stake cfg.min_bond then ok 0 else do
    weighted ← unwrap (h.mul_decimal stake multiplier)
    div128 weighted cfg.tokens_per_power

  -- `Distribution::calc_rewards_power`: the loop over the multipliers, from a running power
  unfoldable pub add_powers : Stakes → ℕ → List (ℕ × ℕ) → ℕ → Result ContractError ℕ
  add_powers stakes staker [] power = ok power
  add_powers stakes staker ((period, multiplier) ∷ rest) power = do
    stake ← total_stake (load_stake stakes staker period)
    points ← calc_power stake multiplier
    power' ← add128 power points
    add_powers stakes staker rest power'

  unfoldable pub calc_rewards_power : Stakes → Distribution → ℕ → Result ContractError ℕ
  unfolding add_powers
  calc_rewards_power stakes d staker = add_powers stakes staker d.reward_multipliers 0

  -- the power of one pair of a multiplier and a total
  period_power : (ℕ × ℕ) × (ℕ × TotalStake) → Result ContractError ℕ
  period_power ((period, multiplier), (period2, total)) = calc_power total.powered_stake multiplier

  period_powers : List ((ℕ × ℕ) × (ℕ × TotalStake)) → Result ContractError (List ℕ)
  unfolding period_power
  period_powers [] = ok []
  period_powers (x ∷ xs) = do p ← period_power x; ps ← period_powers xs; ok (p ∷ ps)

  unfoldable pub total_rewards_power : List (ℕ × TotalStake) → Distribution → Result ContractError ℕ
  unfolding period_powers
  total_rewards_power totals d = do
    powers ← period_powers (zip d.reward_multipliers totals)
    sum128 powers

  -- `calc_rewards_powers` of contract.rs
  unfoldable pub calc_rewards_powers {ℓ} :
      {A : Type ℓ} → Stakes → ℕ → List (A × Distribution) → Result ContractError (List ℕ)
  calc_rewards_powers stakes staker [] = ok []
  calc_rewards_powers stakes staker ((_, d) ∷ ds) = do
    p ← calc_rewards_power stakes d staker
    ps ← calc_rewards_powers stakes staker ds
    ok (p ∷ ps)

unfoldable pub rewards_multiplier : Distribution → ℕ → Result ContractError ℕ
rewards_multiplier d period = elim (search_by_key (λ e. e.0) period d.reward_multipliers) [
  | found idx ↦ do e ← unwrap (get_elem? d.reward_multipliers idx); ok e.1
  | not_found _ ↦ err (no_unbonding_period_found period)
]

unfoldable pub total_rewards_power_of_period :
    ⦃h : Host⦄ (cfg : Config) (totals : List (ℕ × TotalStake)) (d : Distribution) (period : ℕ)
    → Result ContractError ℕ
unfolding rewards_multiplier
total_rewards_power_of_period cfg totals d period = elim (search_by_key (λ e. e.0) period totals) [
  | found idx ↦ do
    e ← unwrap (get_elem? totals idx)
    multiplier ← rewards_multiplier d period
    calc_power cfg e.1.powered_stake multiplier
  | not_found _ ↦ err (no_unbonding_period_found period)
]
