-- ===== src/Stake/State.antt =====
-- contracts/stake/src/state.rs, error.rs and msg.rs: what the staking contract stores, what it
-- answers and how it fails.
use Prim.Native.String.{String}
use wynddex.Base.{ℕ, Option, List}
use wynddex.Asset.{AssetInfo}
pub use wynddex.Platform.{
  StdError, overflow, not_found, generic_err, Msg, cw20_transfer, bank_send, convert,
}

pub record ConverterConfig : Type 0 where
  pub contract : ℕ
  pub pair_to : ℕ

pub record Config : Type 0 where
  pub cw20_contract : ℕ
  pub instantiator : ℕ
  pub tokens_per_power : ℕ
  pub min_bond : ℕ
  pub unbonding_periods : List ℕ
  pub max_distributions : ℕ
  pub unbonder : Option ℕ
  pub converter : Option ConverterConfig

pub record BondingInfo : Type 0 where
  pub stake : ℕ
  pub locked_tokens : List (ℕ × ℕ)

pub record TokenInfo : Type 0 where
  pub staked : ℕ
  pub unbonding : ℕ

pub record TotalStake : Type 0 where
  pub staked : ℕ
  pub powered_stake : ℕ

pub record Distribution : Type 0 where
  pub shares_per_point : ℕ
  pub shares_leftover : ℕ
  pub distributed_total : ℕ
  pub withdrawable_total : ℕ
  pub manager : ℕ
  pub reward_multipliers : List (ℕ × ℕ)

pub data ContractError : Type 0 where
  std : StdError → ContractError
  curve : ContractError
  admin : ContractError
  unauthorized same_unbonding_rebond no_rebond_amount nothing_to_claim : ContractError
  cw20_addresses_not_match : ℕ → ℕ → ContractError
  mass_delegate_too_much : ℕ → ℕ → ContractError
  no_unbonding_period_found : ℕ → ContractError
  distribution_already_exists : AssetInfo → ContractError
  invalid_asset : ContractError
  no_distribution_flow : ℕ × ℕ → ContractError
  too_many_distributions : ℕ → ContractError
  invalid_rewards no_converter past_starting_time flag_already_set : ContractError
  cannot_delegate_if_unbond_all : ContractError
  cannot_distribute_if_unbond_all : String → ContractError
  cannot_rebond_if_unbond_all : ContractError
