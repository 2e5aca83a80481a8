-- ===== src/Pair/Tests/Parts.antt =====
-- The arithmetic, the shares, the referrals and the creation of the concrete pair.
use wynddex.Base.{ℕ, ◌+◌, ◌-◌, ◌*◌, ◌≤◌, ◌<◌, ◌≡◌, refl, arith, [], ◌∷◌, some, none, Option, ◌⊎◌}
use wynddex.Num.{mul256, add256, sub256, to_u128, checked_sub, narrow128, add128, sub128}
use wynddex.Decimals.{decimal_unit}
use wynddex.Decimals.Concrete.{platform, exact, exact-KeepsDecimals}
use wynddex.Asset.Amounts.{AssetValidated, check_swap_parameters}
use wynddex.Stake.Admin
use wynddex.Pair.State.{Store}
use wynddex.Pair.Checks.{get_share_in_assets, refund}
use wynddex.Pair.Math.{
  compute_swap, gross_return, settle_swap, decimal2decimal256, offer_for, assert_slippage_tolerance,
  price_moves,
}
use wynddex.Pair.Math.Product.{compute_swap-product}
use wynddex.Pair.Math.Quote.{offer_for-gross_return}
use wynddex.Pair.Referral.{take_referral, add_referral, commission_on, query_factory_config}
use wynddex.Pair.Referral.Commission.{take_referral_lem, take_referral-add_referral}
use wynddex.Pair.Liquidity.{proportional_share, initial_share}
use wynddex.Pair.Liquidity.Shares.{initial_share-root, proportional_share-get_share_in_assets}
use wynddex.Pair.Contract.{reply, instantiate_lp_token_reply, into_init_msg}
use wynddex.Pair.Contract.Creation.{reply-instantiate}
use wynddex.Pair.Tests.{
  native_coin, cw20_coin, factory_config, querier, pair_store, env, trader, offer,
}

compute_swap-product_example :
    (19742 + 59 ≤ 2000000)
    × (1000000 * 2000000 * decimal_unit
        < (2000000 - (19742 + 59)) * (1000000 + 10000) * decimal_unit + (1000000 + 10000))
    × ((decimal_unit < 1000000 + 10000)
        ⊎ (1000000 * 2000000 ≤ (2000000 - (19742 + 59)) * (1000000 + 10000)))
unfolding compute_swap gross_return settle_swap decimal2decimal256 check_swap_parameters mul256
    add256 sub256 to_u128
compute_swap-product_example =
    compute_swap-product 1000000 2000000 10000 3000000000000000 {r = (19742, 199, 59)}
      exact-KeepsDecimals refl

offer_for-gross_return_example : (9999 ≤ 10000) × (10000 ≤ 10001)
unfolding offer_for gross_return mul256 add256 sub256 to_u128 checked_sub
offer_for-gross_return_example =
    offer_for-gross_return 1000000 2000000 10000 {offer = 5025} exact-KeepsDecimals refl refl refl

initial_share-root_example :
    (0 < 1999000) × ((1999000 + 1000) * (1999000 + 1000) ≤ 4000000 * 1000000)
unfolding initial_share mul256 to_u128 checked_sub
initial_share-root_example = initial_share-root 7 env (4000000, 1000000) [] exact-KeepsDecimals refl

proportional_share-get_share_in_assets_example :
    (native_coin ≡ native_coin) × (9999 ≤ 10000) × (cw20_coin ≡ cw20_coin) × (19999 ≤ 20000)
unfolding proportional_share assert_slippage_tolerance price_moves decimal2decimal256 sub256
    get_share_in_assets refund
proportional_share-get_share_in_assets_example =
    proportional_share-get_share_in_assets none 1000000 10000 20000
      (record { info = native_coin; amount = 1000000 })
      (record { info = cw20_coin; amount = 2000000 }) [] {share = 10000}
      {refund0 = record { info = native_coin; amount = 9999 }}
      {refund1 = record { info = cw20_coin; amount = 19999 }} exact-KeepsDecimals (omega arith) refl
      refl

abbrev taken0 : AssetValidated × ℕ
taken0 = (record { info = native_coin; amount = 9500 }, 500)

take_referral_lem_example :
    (native_coin ≡ native_coin)
    × (9500 + 500 ≡ 10000)
    × (500 * decimal_unit ≤ 10000 * 50000000000000000)
unfolding take_referral sub128
take_referral_lem_example =
    take_referral_lem exact factory_config none offer {r = taken0} exact-KeepsDecimals refl

take_referral-add_referral_example :
    (native_coin ≡ native_coin) × ◌≡◌ {A = ℕ} 10000 10000 × ◌≡◌ {A = ℕ} 526 526
unfolding add_referral commission_on take_referral query_factory_config sub128 sub256 add128
    narrow128
take_referral-add_referral_example =
    take_referral-add_referral 2 none offer factory_config
      {added = (record { info = native_coin; amount = 10526 }, 526)}
      {taken = (record { info = native_coin; amount = 10000 }, 526)} exact-KeepsDecimals refl refl
      refl

abbrev without_token : Store
without_token = record pair_store {
  config = record pair_store.config {
    pair_info = record pair_store.config.pair_info { liquidity_token = 0 };
  };
}

abbrev staking_message : Admin.InstantiateMsg
staking_message = record {
  cw20_contract = 7;
  tokens_per_power = 1000;
  min_bond = 5000;
  unbonding_periods = 60 ∷ 30 ∷ [];
  admin = some 2;
  max_distributions = 6;
  unbonder = none;
  converter = none;
}

reply-instantiate_example :
    ◌≡◌ {A = ℕ} 7 7
    × ((v : ℕ) × (platform.addr_validate 2 ≡ some v) × ◌≡◌ {A = Option ℕ} (some 2) (some v))
    × ◌≡◌ {A = ℕ} 0 0
unfolding reply instantiate_lp_token_reply into_init_msg query_factory_config Admin.instantiate
    Admin.maybe_addr Admin.validate_converter
reply-instantiate_example =
    reply-instantiate {C = Unit} without_token 7 trader {msg = staking_message} refl refl
