-- ===== src/Pair/Queries.antt =====
-- The queries of contracts/pair/src/contract.rs that compute something.
pub mod Simulation
use wynddex.Base.{
  ℕ, ◌+◌, List, [], ◌∷◌, Bool, Option, none, some, Result, ok, err, panic, ◌>>=◌, ok_or, map_err,
  if◌then◌else◌,
}
use wynddex.Host.{Host}
use wynddex.Decimals.{Decimals}
use wynddex.Platform.{StdError, generic_err}
use wynddex.Asset.{AssetInfo, equal}
use wynddex.Asset.Amounts.{AssetValidated, validate_asset}
use wynddex.Oracle.{index}
use wynddex.Pair.State.{Store, Config, PairError, std, Querier, FactoryConfig, total_fee_rate}
use wynddex.Pair.Checks.{query_pools, get_share_in_assets}
use wynddex.Pair.Math.{compute_swap, compute_offer_amount, accumulate_prices}
use wynddex.Pair.Referral.{query_factory_config, take_referral, add_referral}
use wynddex.Pair.Liquidity.{pool_info}

pub record SimulationResponse : Type 0 where
  pub return_amount : ℕ
  pub spread_amount : ℕ
  pub commission_amount : ℕ
  pub referral_amount : ℕ

pub record ReverseSimulationResponse : Type 0 where
  pub offer_amount : ℕ
  pub spread_amount : ℕ
  pub commission_amount : ℕ
  pub referral_amount : ℕ

pub record CumulativePricesResponse : Type 0 where
  pub assets : List AssetValidated
  pub total_share : ℕ
  pub cumulative_prices : List (AssetInfo × AssetInfo × ℕ)

-- `From<ContractError> for StdError`
abbrev pub as_std : PairError → StdError
as_std (std e) = e
as_std _ = generic_err

-- The pool of an asset, and the other one.
unfoldable pub split_pools :
    AssetInfo → AssetValidated → AssetValidated → Result StdError (AssetValidated × AssetValidated)
split_pools info pool0 pool1 =
    if equal info pool0.info
    then ok (pool0, pool1)
    else (if equal info pool1.info then ok (pool1, pool0) else err generic_err)

-- The cumulative prices of a query: the new ones where time has passed.
abbrev pub latest_prices : Config → Option (ℕ × ℕ × ℕ) → ℕ × ℕ
latest_prices config none = (config.price0_cumulative_last, config.price1_cumulative_last)
latest_prices config (some (price0, price1, time)) = (price0, price1)

module _ ⦃h : Host⦄ ⦃d : Decimals⦄ ⦃q : Querier⦄ where
  unfoldable pub query_share : Store → ℕ → Result StdError (List AssetValidated)
  query_share s amount = do
    (pools, total_share) ← pool_info s.config
    map_err as_std (get_share_in_assets pools amount total_share)

  -- The offer that is left after a referral, and its commission.
  unfoldable pub referred :
      Config → AssetValidated → Bool → Option ℕ → Result StdError (AssetValidated × ℕ)
  referred config offer referral commission = do
    let taken : Result StdError (AssetValidated × ℕ) = do
      fc ← query_factory_config config.factory_addr
      map_err as_std (take_referral fc commission offer)
    if referral then taken else ok (offer, 0)

  -- The part of `query_simulation` that computes, on the pools that it read.
  unfoldable pub simulate :
      Config → List AssetValidated → AssetValidated → ℕ → Result StdError SimulationResponse
  simulate config pools offer referral_amount = do
    pool0 ← index pools 0
    pool1 ← index pools 1
    (offer_pool, ask_pool) ← split_pools offer.info pool0 pool1
    rate ← total_fee_rate config.pair_info.fee_config
    amounts ← compute_swap offer_pool.amount ask_pool.amount offer.amount rate
    ok (record {
      return_amount = amounts.0;
      spread_amount = amounts.1;
      commission_amount = amounts.2;
      referral_amount = referral_amount;
    })

  unfoldable pub query_simulation :
      Store → AssetValidated → Bool → Option ℕ → Result StdError SimulationResponse
  query_simulation s offer referral referral_commission = do
    offer_asset ← validate_asset offer
    (left, referral_amount) ← referred s.config offer_asset referral referral_commission
    pools ← query_pools s.config.pair_info.asset_infos s.config.pair_info.contract_addr
    simulate s.config pools left referral_amount

  unfoldable pub query_reverse_simulation :
      Store → AssetValidated → Bool → Option ℕ → Result StdError ReverseSimulationResponse
  query_reverse_simulation s ask referral referral_commission = do
    ask_asset ← validate_asset ask
    pools ← query_pools s.config.pair_info.asset_infos s.config.pair_info.contract_addr
    pool0 ← index pools 0
    pool1 ← index pools 1
    (ask_pool, offer_pool) ← split_pools ask_asset.info pool0 pool1
    rate ← total_fee_rate s.config.pair_info.fee_config
    amounts ← compute_offer_amount offer_pool.amount ask_pool.amount ask_asset.amount rate
    let offer : AssetValidated = record { info = offer_pool.info; amount = amounts.0 }
    (more, referral_amount) ←
        map_err as_std (add_referral s.config.factory_addr referral referral_commission offer)
    ok (record {
      offer_amount = more.amount;
      spread_amount = amounts.1;
      commission_amount = amounts.2;
      referral_amount = referral_amount;
    })

  unfoldable pub query_cumulative_prices : Store → ℕ → Result StdError CumulativePricesResponse
  query_cumulative_prices s now = do
    (assets, total_share) ← pool_info s.config
    pool0 ← index assets 0
    pool1 ← index assets 1
    prices ← accumulate_prices now s.config pool0.amount pool1.amount
    let latest = latest_prices s.config prices
    ok (record {
      assets = assets;
      total_share = total_share;
      cumulative_prices =
          (pool0.info, pool1.info, latest.0) ∷ (pool1.info, pool0.info, latest.1) ∷ [];
    })
