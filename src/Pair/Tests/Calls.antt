-- ===== src/Pair/Tests/Calls.antt =====
-- Calls of the concrete pair.
use wynddex.Base.{ℕ, ◌≡◌, refl, arith, List, [], some, none, Option, value}
use wynddex.Num.{
  mul256, add256, sub256, to_u128, checked_sub, add128, sub128, sub64, div, mul64, add64, add_usize,
}
use wynddex.Decimals.Concrete.{platform, exact, exact-KeepsDecimals, platform-KeepsTime}
use wynddex.Platform.{Msg}
use wynddex.Asset.{validate, into_msg}
use wynddex.Asset.Amounts.{
  check_swap_parameters, validate_asset, addr_opt_validate, assert_sent_native_token_balance,
}
use wynddex.Oracle.{
  accumulate, accumulate_nanos, advance, calc_checkpoint, initialize_oracle, store_price,
  store_oracle_price, refresh, refresh_at, written, fill, samples, sample, slice, update,
  diff_nanos, index,
}
use wynddex.Pair.State.{
  Store, PairError, ExecuteMsg, swap_native, total_fee_rate, protocol_fee_rate,
}
use wynddex.Pair.Checks.{
  get_share_in_assets, refund, migration_check, query_pools, assert_max_spread, spread_exceeds,
}
use wynddex.Pair.Math.{
  compute_swap, gross_return, settle_swap, decimal2decimal256, accumulate_prices, cumulate,
  calculate_protocol_fee,
}
use wynddex.Pair.Referral.{handle_referral, query_factory_config}
use wynddex.Pair.Swap.{
  swap, do_swap, finish_swap, order_pools, protocol_fee, new_pools, record_prices, SwapResult,
  check_if_frozen, without_offer, cumulative_prices,
}
use wynddex.Pair.Swap.Cumulative.{cumulative_prices-IsAdvanced, IsAdvanced}
use wynddex.Pair.Liquidity.{withdraw_liquidity, pool_info, query_supply}
use wynddex.Pair.Contract.{execute, dispatch, execute_swap}
use wynddex.Pair.Queries.{simulate, split_pools}
use wynddex.Pair.Queries.Simulation.{simulate-do_swap}
use wynddex.Pair.Invariant.{SameTerms}
use wynddex.Pair.Invariant.Withdraw.{withdraw_liquidity-pays, IsPaid}
use wynddex.Pair.Invariant.Execute.{execute-SameTerms, AllowedBy}
use wynddex.Pair.Tests.{cw20_coin, factory_config, querier, pair_store, env, trader, offer, pools}

abbrev advanced0 : Store
advanced0 = record pair_store {
  config = record (pair_store.config) {
    price0_cumulative_last = 280000000;
    price1_cumulative_last = 70000000;
    block_time_last = 200;
  };
}

cumulative_prices-IsAdvanced_example :
    IsAdvanced 200 1000000 2000000 pair_store.config advanced0.config
unfolding cumulative_prices accumulate_prices cumulate
cumulative_prices-IsAdvanced_example =
    cumulative_prices-IsAdvanced pair_store 200000000000 1000000 2000000 {s' = advanced0}
      exact-KeepsDecimals refl

-- A maximal spread of 2%.
abbrev loose : Option ℕ
loose = some 20000000000000000

abbrev swapped0 : Store × SwapResult
swapped0 = value {E = PairError} (do_swap pair_store env factory_config pools offer none loose) (
  pair_store,
  record {
    return_asset = offer;
    ask_info = cw20_coin;
    spread_amount = 0;
    commission_amount = 0;
    protocol_fee_amount = 0;
    protocol_fee_msg = none;
  },
)

abbrev withdrawn0 : Store × List Msg
withdrawn0 =
    value {E = PairError}
      (withdraw_liquidity pair_store env (record { sender = 7; funds = [] }) 1 1000)
      (pair_store, [])

withdraw_liquidity-pays_example :
    ◌≡◌ {A = ℕ} 7 7 × SameTerms pair_store withdrawn0.0 × IsPaid pair_store 1 1000 withdrawn0.1
unfolding withdraw_liquidity pool_info query_pools query_supply get_share_in_assets refund index
    add128 sub128 record_prices cumulative_prices accumulate_prices cumulate initialize_oracle
    store_oracle_price store_price refresh refresh_at calc_checkpoint accumulate written fill
    samples sample slice update advance accumulate_nanos diff_nanos mul256 add256 sub64 div mul64
    add64 add_usize into_msg
withdraw_liquidity-pays_example =
    withdraw_liquidity-pays pair_store env (record { sender = 7; funds = [] }) 1 1000
      {r = withdrawn0} exact-KeepsDecimals platform-KeepsTime (omega arith) refl

abbrev swap_message : ExecuteMsg
swap_message = swap_native offer none loose none none none

abbrev executed0 : Store × List Msg
executed0 = value {E = PairError} (execute pair_store env trader swap_message) (pair_store, [])

execute-SameTerms_example : AllowedBy SameTerms pair_store trader swap_message executed0.0
unfolding execute dispatch migration_check execute_swap validate_asset validate addr_opt_validate
    swap assert_sent_native_token_balance check_if_frozen query_factory_config handle_referral
    query_pools without_offer checked_sub do_swap index order_pools total_fee_rate protocol_fee_rate
    compute_swap gross_return settle_swap decimal2decimal256 check_swap_parameters mul256 add256
    sub256 to_u128 assert_max_spread spread_exceeds add128 sub128 finish_swap protocol_fee
    calculate_protocol_fee new_pools record_prices cumulative_prices accumulate_prices cumulate
    initialize_oracle store_oracle_price store_price refresh refresh_at calc_checkpoint accumulate
    written fill samples sample slice update advance accumulate_nanos diff_nanos sub64 div mul64
    add64 add_usize into_msg
execute-SameTerms_example =
    execute-SameTerms pair_store env trader swap_message {r = executed0} exact-KeepsDecimals
      platform-KeepsTime (omega arith) refl

simulate-do_swap_example :
    (swapped0.1.return_asset.amount ≡ 19742)
    × (swapped0.1.spread_amount ≡ 199)
    × (swapped0.1.commission_amount ≡ 59)
unfolding simulate split_pools do_swap index order_pools total_fee_rate protocol_fee_rate
    compute_swap gross_return settle_swap decimal2decimal256 check_swap_parameters mul256 add256
    sub256 to_u128 assert_max_spread spread_exceeds add128 sub128 finish_swap protocol_fee
    calculate_protocol_fee new_pools record_prices cumulative_prices accumulate_prices cumulate
    initialize_oracle store_oracle_price store_price refresh refresh_at calc_checkpoint accumulate
    written fill samples sample slice update advance accumulate_nanos diff_nanos sub64 div mul64
    add64 add_usize into_msg
simulate-do_swap_example =
    simulate-do_swap pair_store env factory_config pools offer 0 none loose
      {sim = record {
        return_amount = 19742;
        spread_amount = 199;
        commission_amount = 59;
        referral_amount = 0;
      }}
      {r = swapped0} refl refl
