-- ===== src/Pair/State.antt =====
-- What a pair stores (contracts/pair/src/state.rs), its description and configuration
-- (packages/wyndex/src/pair.rs, fee_config.rs), its errors (pair/error.rs) and its messages.
use wynddex.Base.{ℕ, Bool, ◌&&◌, Option, List, Result, leb, unwrap, map_err}
use wynddex.Decimals.{Decimals}
use wynddex.Asset.{AssetInfo}
use wynddex.Asset.Amounts.{AssetValidated}
use wynddex.Platform.{StdError, Msg}
use wynddex.Oracle.{Oracle}
use wynddex.Stake.State.{ConverterConfig}

pub record FeeConfig : Type 0 where
  pub total_fee_bps : ℕ
  pub protocol_fee_bps : ℕ

abbrev pub valid_fee_bps : FeeConfig → Bool
valid_fee_bps fees = leb fees.total_fee_bps 10000 && leb fees.protocol_fee_bps 10000

module _ {E : Type 0} ⦃d : Decimals⦄ where
  unfoldable pub total_fee_rate : FeeConfig → Result E ℕ
  total_fee_rate fees = unwrap (d.from_ratio fees.total_fee_bps 10000)

  unfoldable pub protocol_fee_rate : FeeConfig → Result E ℕ
  protocol_fee_rate fees = unwrap (d.from_ratio fees.protocol_fee_bps 10000)

pub data PairType : Type 0 where
  xyk stable lsd : PairType
  custom : ℕ → PairType

pub record PairInfo : Type 0 where
  pub asset_infos : List AssetInfo
  pub contract_addr : ℕ
  pub liquidity_token : ℕ
  pub staking_addr : ℕ
  pub pair_type : PairType
  pub fee_config : FeeConfig

pub record Config : Type 0 where
  pub pair_info : PairInfo
  pub factory_addr : ℕ
  pub block_time_last : ℕ
  pub price0_cumulative_last : ℕ
  pub price1_cumulative_last : ℕ
  pub trading_starts : ℕ

pub record StakeConfig : Type 0 where
  pub staking_code_id : ℕ
  pub tokens_per_power : ℕ
  pub min_bond : ℕ
  pub unbonding_periods : List ℕ
  pub max_distributions : ℕ
  pub converter : Option ConverterConfig

-- The storage of a pair: the items of state.rs, `TMP_STAKING_CONFIG` and the oracle's items.
pub record Store : Type 0 where
  pub config : Config
  pub frozen : Bool
  pub circuit_breaker : Option ℕ
  pub tmp_staking_config : Option StakeConfig
  pub oracle : Option Oracle

-- `Addr::unchecked("")`; the empty string is the least address.
abbrev pub no_address : ℕ
no_address = 0

-- The variants that the modelled code returns.
pub data PairError : Type 0 where
  std : StdError → PairError
  unknown_reply : ℕ → PairError
  unauthorized trading_not_started non_supported invalid_zero_amount : PairError
  max_spread_assertion allowed_spread_assertion max_slippage_assertion : PairError
  doubling_assets asset_mismatch pair_is_not_migrated minimum_liquidity_amount_error : PairError
  referral_commission_too_high invalid_provide_lps_with_single_token : PairError
  invalid_asset : AssetInfo → PairError
  invalid_fee_bps contract_frozen liquidity_token_already_set staking_already_set : PairError
  invalid_number_of_assets : ℕ → ℕ → PairError
  too_many_assets : ℕ → ℕ → PairError

-- The part of the factory's `ConfigResponse` that pairs read.
pub record FactoryConfig : Type 0 where
  pub owner : ℕ
  pub fee_address : Option ℕ
  pub max_referral_commission : ℕ

-- The other contracts, as a pair queries them. `none` is a failed query.
pub record Querier : Type 0 where
  -- the balance of an asset that an account has
  pub query_balance : AssetInfo → ℕ → Option ℕ
  -- the supply of a token
  pub query_supply : ℕ → Option ℕ
  pub query_token_symbol : ℕ → Option ℕ
  pub query_factory_config : ℕ → Option FactoryConfig
  -- the raw query of `pairs_to_migrate`, which may have no value
  pub pairs_to_migrate : ℕ → Option (Option (List ℕ))

abbrev pub Answer : Type 0
Answer = Result PairError (Store × List Msg)

-- `?` on a call of the standard library
abbrev pub lift {ℓ} : {A : Type ℓ} → Result StdError A → Result PairError A
lift r = map_err std r

pub data Cw20HookMsg : Type 0 where
  -- the belief price, the maximal spread, the recipient, the referral address and its commission
  swap_tokens : Option ℕ → Option ℕ → Option ℕ → Option ℕ → Option ℕ → Cw20HookMsg
  withdraw_shares : Cw20HookMsg

-- A message of another kind, which the contract does not support, is `unsupported`.
pub data ExecuteMsg : Type 0 where
  -- the sender and the amount of a `Cw20ReceiveMsg`, and its message, `none` if it cannot be parsed
  receive_tokens : ℕ → ℕ → Option Cw20HookMsg → ExecuteMsg
  provide : List AssetValidated → Option ℕ → Option ℕ → ExecuteMsg
  swap_native : AssetValidated → Option ℕ → Option ℕ → Option ℕ → Option ℕ → Option ℕ → ExecuteMsg
  update_fee_config : FeeConfig → ExecuteMsg
  freeze : Bool → ExecuteMsg
  unsupported : ExecuteMsg

pub record InstantiateMsg : Type 0 where
  pub asset_infos : List AssetInfo
  pub token_code_id : ℕ
  pub factory_addr : ℕ
  pub fee_config : FeeConfig
  pub staking_config : StakeConfig
  pub trading_starts : ℕ
  pub circuit_breaker : Option ℕ

pub data MigrateMsg : Type 0 where
  update_freeze : Bool → Option ℕ → MigrateMsg
