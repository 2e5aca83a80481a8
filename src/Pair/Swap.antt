-- ===== src/Pair/Swap.antt =====
-- `do_swap` and `swap` of contracts/pair/src/contract.rs: a swap of one asset of the pair for the
-- other.
pub mod Product
pub mod Cumulative
use wynddex.Base.{
  ℕ, List, [], ◌∷◌, ◌++◌, Option, none, some, Result, ok, err, ◌>>=◌, ◌>>◌, fail_if, unwrap,
  unwrap_or, ltb, if◌then◌else◌,
}
use wynddex.Num.{add128, sub128, checked_sub}
use wynddex.Host.{Host}
use wynddex.Decimals.{Decimals}
use wynddex.Platform.{StdError, overflow, Msg, Env, MessageInfo}
use wynddex.Asset.{AssetInfo, equal, into_msg}
use wynddex.Asset.Amounts.{AssetValidated, send_to, assert_sent_native_token_balance}
use wynddex.Oracle.{store_oracle_price, index}
use wynddex.Pair.State.{
  PairError, lift, Store, FactoryConfig, FeeConfig, Querier, Answer, total_fee_rate,
  protocol_fee_rate, trading_not_started, asset_mismatch, contract_frozen,
}
use wynddex.Pair.Checks.{assert_max_spread, query_pools}
use wynddex.Pair.Math.{compute_swap, accumulate_prices, calculate_protocol_fee}
use wynddex.Pair.Referral.{handle_referral, query_factory_config}

pub record SwapResult : Type 0 where
  pub return_asset : AssetValidated
  pub ask_info : AssetInfo
  pub spread_amount : ℕ
  pub commission_amount : ℕ
  pub protocol_fee_amount : ℕ
  pub protocol_fee_msg : Option Msg

unfoldable pub check_if_frozen : Store → Result PairError (Unit {0})
check_if_frozen s = fail_if s.frozen contract_frozen

-- The offer pool and the ask pool.
unfoldable pub order_pools :
    AssetInfo → AssetValidated → AssetValidated → Result PairError (AssetValidated × AssetValidated)
order_pools offer_info pool0 pool1 =
    if equal offer_info pool0.info
    then ok (pool0, pool1)
    else (if equal offer_info pool1.info then ok (pool1, pool0) else err asset_mismatch)

-- The configuration with the cumulative prices, where time has passed.
abbrev pub save_prices : Store → Option (ℕ × ℕ × ℕ) → Store
save_prices s none = s
save_prices s (some (price0, price1, block_time)) = record s {
  config = record s.config {
    price0_cumulative_last = price0;
    price1_cumulative_last = price1;
    block_time_last = block_time;
  };
}

-- The message of a fee, none for no fee.
abbrev pub fee_message : AssetInfo → ℕ → Option ℕ → ℕ × Option Msg
fee_message info fee_address none = (0, none)
fee_message info fee_address (some f) = (f, some (into_msg info f fee_address))

abbrev pub push_message : List Msg → Option Msg → List Msg
push_message messages none = messages
push_message messages (some m) = messages ++ m ∷ []

module _ ⦃h : Host⦄ ⦃d : Decimals⦄ where
  unfoldable pub cumulative_prices : Store → ℕ → ℕ → ℕ → Result PairError Store
  cumulative_prices s now x y = do
    prices ← lift (accumulate_prices now s.config x y)
    ok (save_prices s prices)

  -- The price of the new pools goes to the oracle, then the cumulative prices of the old ones.
  unfoldable pub record_prices : Store → ℕ → ℕ × ℕ → ℕ × ℕ → Result PairError Store
  record_prices s now (new_pool0, new_pool1) (x, y) = do
    price ← unwrap (d.from_ratio new_pool0 new_pool1)
    oracle ← lift (store_oracle_price s.oracle now price)
    cumulative_prices (record s { oracle = some oracle }) now x y

  unfoldable pub protocol_fee :
      FactoryConfig → FeeConfig → AssetInfo → ℕ → Result PairError (ℕ × Option Msg)
  protocol_fee fc fees ask_info commission_amount = do
    let charged : ℕ → Result PairError (ℕ × Option Msg) = λ fee_address. do
      rate ← protocol_fee_rate fees
      fee ← calculate_protocol_fee commission_amount rate
      ok (fee_message ask_info fee_address fee)
    elim fc.fee_address [ none ↦ ok (0, none) | some fee_address ↦ charged fee_address ]

  unfoldable pub new_pools :
      AssetValidated → AssetValidated → AssetInfo → ℕ → ℕ → ℕ → Result PairError (ℕ × ℕ)
  new_pools pool0 pool1 ask_info offer_amount return_amount fee = do
    let first : Result PairError (ℕ × ℕ) = do
      less ← sub128 pool0.amount fee
      a ← sub128 less return_amount
      b ← add128 pool1.amount offer_amount
      ok (a, b)
    let second : Result PairError (ℕ × ℕ) = do
      a ← add128 pool0.amount offer_amount
      less ← sub128 pool1.amount fee
      b ← sub128 less return_amount
      ok (a, b)
    if equal pool0.info ask_info then first else second

  -- The second part of `do_swap`: the fee of the protocol and the prices.
  unfoldable pub finish_swap :
      Store
      → Env
      → FactoryConfig
      → AssetValidated
      → AssetValidated
      → AssetInfo
      → ℕ
      → ℕ × ℕ × ℕ
      → Result PairError (Store × SwapResult)
  finish_swap s env fc pool0 pool1 ask_info offer_amount (return_amount, spread, commission) = do
    (fee, msg) ← protocol_fee fc s.config.pair_info.fee_config ask_info commission
    pools ← new_pools pool0 pool1 ask_info offer_amount return_amount fee
    s' ← record_prices s env.block_time pools (pool0.amount, pool1.amount)
    ok (
      s',
      record {
        return_asset = record { info = ask_info; amount = return_amount };
        ask_info = ask_info;
        spread_amount = spread;
        commission_amount = commission;
        protocol_fee_amount = fee;
        protocol_fee_msg = msg;
      },
    )

  -- The pools do not include the offer. The configuration is the stored one.
  unfoldable pub do_swap :
      Store
      → Env
      → FactoryConfig
      → List AssetValidated
      → AssetValidated
      → Option ℕ
      → Option ℕ
      → Result PairError (Store × SwapResult)
  do_swap s env fc pools offer_asset belief_price max_spread = do
    fail_if (ltb (h.seconds env.block_time) s.config.trading_starts) trading_not_started
    pool0 ← index pools 0
    pool1 ← index pools 1
    (offer_pool, ask_pool) ← order_pools offer_asset.info pool0 pool1
    rate ← total_fee_rate s.config.pair_info.fee_config
    amounts ← lift (compute_swap offer_pool.amount ask_pool.amount offer_asset.amount rate)
    returned ← add128 amounts.0 amounts.2
    assert_max_spread belief_price max_spread offer_asset.amount returned amounts.1
    finish_swap s env fc pool0 pool1 ask_pool.info offer_asset.amount amounts

-- The pools without what was offered with the call.
unfoldable pub without_offer :
    AssetValidated → List AssetValidated → Result StdError (List AssetValidated)
without_offer offer [] = ok []
without_offer offer (p ∷ pools) = do
  let less : Result StdError AssetValidated = do
    amount ← checked_sub overflow p.amount offer.amount
    ok (record p { amount = amount })
  pool ← if equal p.info offer.info then less else ok p
  rest ← without_offer offer pools
  ok (pool ∷ rest)

module _ ⦃h : Host⦄ ⦃d : Decimals⦄ ⦃q : Querier⦄ where
  unfoldable pub swap :
      Store
      → Env
      → MessageInfo
      → ℕ
      → AssetValidated
      → Option ℕ
      → Option ℕ
      → Option ℕ
      → Option ℕ
      → Option ℕ
      → Answer
  swap s env info sender offer belief_price max_spread to referral_address referral_commission = do
    lift (assert_sent_native_token_balance offer info)
    check_if_frozen s
    fc ← lift (query_factory_config s.config.factory_addr)
    (left, messages) ← handle_referral fc referral_address referral_commission offer []
    all_pools ← lift (query_pools s.config.pair_info.asset_infos env.contract)
    pools ← lift (without_offer offer all_pools)
    (s', result) ← do_swap s env fc pools left belief_price max_spread
    let receiver = unwrap_or to sender
    let paid = messages ++ send_to result.return_asset receiver ∷ []
    ok (s', push_message paid result.protocol_fee_msg)
