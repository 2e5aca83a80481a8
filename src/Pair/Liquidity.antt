-- ===== src/Pair/Liquidity.antt =====
-- `provide_liquidity` and `withdraw_liquidity` of contracts/pair/src/contract.rs.
pub mod Shares
use wynddex.Base.{
  ℕ, ◌/◌, Bool, true, not, ◌&&◌, ◌||◌, List, [], ◌∷◌, ◌++◌, length, set, Option, none, some, Result,
  ok, ◌>>=◌, ◌>>◌, fail_if, ok_or, unwrap, unwrap_or, ltb, leb, ◌==◌, if◌then◌else◌, suc,
}
use wynddex.Num.{add128, sub128, checked_sub, mul256, to_u128}
use wynddex.Host.{Host}
use wynddex.Decimals.{Decimals}
use wynddex.Platform.{StdError, overflow, generic_err, Msg, cw20_mint, cw20_burn, Env, MessageInfo}
use wynddex.Asset.{AssetInfo, equal}
use wynddex.Asset.Amounts.{AssetValidated, send_to, is_native_token, receive, addr_opt_validate}
use wynddex.Oracle.{initialize_oracle, index}
use wynddex.Pair.State.{
  PairError, std, lift, Store, Config, Querier, Answer, unauthorized, invalid_zero_amount,
  invalid_asset, too_many_assets, invalid_provide_lps_with_single_token,
  minimum_liquidity_amount_error,
}
use wynddex.Pair.Checks.{check_assets, query_pools, get_share_in_assets}
use wynddex.Pair.Math.{assert_slippage_tolerance}
use wynddex.Pair.Referral.{query_factory_config}
use wynddex.Pair.Swap.{
  check_if_frozen, do_swap, SwapResult, push_message, record_prices, cumulative_prices,
}

-- `MINIMUM_LIQUIDITY_AMOUNT`
abbrev pub minimum_liquidity_amount : ℕ
minimum_liquidity_amount = 1000

abbrev pub all_zero : List AssetValidated → Bool
all_zero [] = true
all_zero (a ∷ as') = (a.amount == 0) && all_zero as'

-- The first pool of an asset.
abbrev pub position : AssetInfo → List AssetValidated → Option ℕ
position info [] = none
position info (p ∷ pools) =
    if equal p.info info
    then some 0
    else elim (position info pools) [ none ↦ none | some i ↦ some (suc i) ]

abbrev pub find_asset : AssetInfo → List AssetValidated → Option AssetValidated
find_asset info [] = none
find_asset info (a ∷ as') = if equal a.info info then some a else find_asset info as'

unfoldable pub pool_indices : List AssetValidated → List AssetValidated → Result PairError (List ℕ)
pool_indices pools [] = ok []
pool_indices pools (a ∷ as') = do
  i ← ok_or (position a.info pools) (invalid_asset a.info)
  is ← pool_indices pools as'
  ok (i ∷ is)

-- A pool whose amount is changed by a checked operation.
unfoldable pub change_pool :
    List AssetValidated → ℕ → (ℕ → Result PairError ℕ) → Result PairError (List AssetValidated)
change_pool pools i change = do
  pool ← index pools i
  amount ← change pool.amount
  ok (set pools i (record pool { amount = amount }))

-- The loop that takes the assets: the pools without native deposits, and the messages.
unfoldable pub receive_each :
    Env
    → MessageInfo
    → List AssetValidated
    → List ℕ
    → List AssetValidated
    → List Msg
    → Result PairError (List AssetValidated × List Msg)
receive_each env info [] is pools messages = ok (pools, messages)
receive_each env info (a ∷ as') [] pools messages = ok (pools, messages)
receive_each env info (a ∷ as') (i ∷ is) pools messages = do
  messages' ← lift (receive a env info messages)
  let less = change_pool pools i (λ amount. checked_sub (std overflow) amount a.amount)
  pools' ← if is_native_token a.info then less else ok pools
  receive_each env info as' is pools' messages'

-- What a deposit is turned into before shares are counted.
pub record Deposit : Type 0 where
  pub store : Store
  pub pools : List AssetValidated
  pub assets : List AssetValidated
  pub messages : List Msg

module _ ⦃h : Host⦄ ⦃d : Decimals⦄ ⦃q : Querier⦄ where
  -- The rest of a one-sided deposit, after half of it was swapped.
  unfoldable pub after_swap :
      List AssetValidated
      → ℕ
      → ℕ
      → AssetValidated
      → ℕ
      → List Msg
      → Store
      → SwapResult
      → Result PairError Deposit
  after_swap pools i other offer half messages s result = do
    let charge = change_pool pools other (λ amount. sub128 amount result.protocol_fee_amount)
    pools1 ← elim result.protocol_fee_msg [ none ↦ ok pools | some m ↦ charge ]
    pools2 ← change_pool pools1 i (λ amount. add128 amount half)
    pools3 ← change_pool pools2 other (λ amount. sub128 amount result.return_asset.amount)
    rest ← sub128 offer.amount half
    ok (record {
      store = s;
      pools = pools3;
      assets = record { info = offer.info; amount = rest } ∷ result.return_asset ∷ [];
      messages = push_message messages result.protocol_fee_msg;
    })

  -- A deposit of one asset: half of it is swapped for the other one first.
  unfoldable pub single_sided :
      Store → Env → List AssetValidated → ℕ → AssetValidated → List Msg → Result PairError Deposit
  single_sided s env pools i offer messages = do
    let other = if i == 0 then 1 else 0
    ask_pool ← index pools other
    fail_if (ask_pool.amount == 0) invalid_provide_lps_with_single_token
    let half = offer.amount / 2
    fc ← lift (query_factory_config s.config.factory_addr)
    (s', result) ← do_swap s env fc pools (record { info = offer.info; amount = half }) none none
    after_swap pools i other offer half messages s' result

  unfoldable pub prepare :
      Store
      → Env
      → List AssetValidated
      → List AssetValidated
      → List ℕ
      → List Msg
      → Result PairError Deposit
  prepare s env pools (offer ∷ []) (i ∷ is) messages = single_sided s env pools i offer messages
  prepare s env pools assets is messages =
      ok (record { store = s; pools = pools; assets = assets; messages = messages })

  unfoldable pub query_supply : ℕ → Result StdError ℕ
  query_supply token = ok_or (q.query_supply token) generic_err

  -- The share of the first deposit; the minimum is minted to the pair.
  unfoldable pub initial_share : ℕ → Env → ℕ × ℕ → List Msg → Result PairError (ℕ × List Msg)
  initial_share liquidity_token env (deposit0, deposit1) messages = do
    product ← mul256 deposit0 deposit1
    root ← to_u128 (std overflow) (d.isqrt product)
    share ← checked_sub minimum_liquidity_amount_error root minimum_liquidity_amount
    fail_if (share == 0) minimum_liquidity_amount_error
    ok (share, messages ++ cw20_mint liquidity_token env.contract minimum_liquidity_amount ∷ [])

  -- The share of a later deposit.
  unfoldable pub proportional_share :
      Option ℕ → ℕ → ℕ × ℕ → ℕ × ℕ → List Msg → Result PairError (ℕ × List Msg)
  proportional_share slippage total_share (deposit0, deposit1) (pool0, pool1) messages = do
    assert_slippage_tolerance slippage (deposit0, deposit1) (pool0, pool1)
    share0 ← unwrap (d.multiply_ratio deposit0 total_share pool0)
    share1 ← unwrap (d.multiply_ratio deposit1 total_share pool1)
    ok (if leb share0 share1 then share0 else share1, messages)

  -- The price of the new pools goes to the oracle, which the first deposit starts.
  unfoldable pub start_or_record : Store → ℕ → ℕ → ℕ × ℕ → ℕ × ℕ → Result PairError Store
  start_or_record s now total_share (new_pool0, new_pool1) (x, y) = do
    let start : Result PairError Store = do
      price ← unwrap (d.from_ratio new_pool0 new_pool1)
      cumulative_prices (record s { oracle = some (initialize_oracle now price) }) now x y
    if total_share == 0 then start else record_prices s now (new_pool0, new_pool1) (x, y)

  -- The amounts that are deposited, and those of the pools.
  unfoldable pub match_deposits : Deposit → Result PairError ((ℕ × ℕ) × (ℕ × ℕ))
  match_deposits deposit = do
    pool0 ← index deposit.pools 0
    pool1 ← index deposit.pools 1
    deposit0 ← unwrap (find_asset pool0.info deposit.assets)
    deposit1 ← unwrap (find_asset pool1.info deposit.assets)
    fail_if ((deposit0.amount == 0) || (deposit1.amount == 0)) invalid_zero_amount
    ok ((deposit0.amount, deposit1.amount), (pool0.amount, pool1.amount))

  -- The shares of a deposit, and the messages.
  unfoldable pub count_shares :
      ℕ → Env → Option ℕ → ℕ → ℕ × ℕ → ℕ × ℕ → List Msg → Result PairError (ℕ × List Msg)
  count_shares token env slippage total_share deposits pools messages =
      if total_share == 0
      then initial_share token env deposits messages
      else proportional_share slippage total_share deposits pools messages

  -- The deposits against the pools: the shares that are minted, and the prices.
  unfoldable pub mint_shares : Env → MessageInfo → Option ℕ → Option ℕ → Deposit → Answer
  mint_shares env info slippage receiver deposit = do
    let token = deposit.store.config.pair_info.liquidity_token
    (deposits, pools) ← match_deposits deposit
    total_share ← lift (query_supply token)
    (share, messages) ← count_shares token env slippage total_share deposits pools deposit.messages
    to ← lift (addr_opt_validate receiver)
    new_pool0 ← add128 pools.0 deposits.0
    new_pool1 ← add128 pools.1 deposits.1
    s ← start_or_record deposit.store env.block_time total_share (new_pool0, new_pool1) pools
    ok (s, messages ++ cw20_mint token (unwrap_or to info.sender) share ∷ [])

  unfoldable pub provide_liquidity :
      Store → Env → MessageInfo → List AssetValidated → Option ℕ → Option ℕ → Answer
  provide_liquidity s env info raw_assets slippage_tolerance receiver = do
    assets ← check_assets raw_assets
    check_if_frozen s
    fail_if (ltb 2 (length assets)) (too_many_assets 2 (length assets))
    fail_if (all_zero assets) invalid_zero_amount
    pools ← lift (query_pools s.config.pair_info.asset_infos env.contract)
    is ← pool_indices pools assets
    (pools', messages) ← receive_each env info assets is pools []
    deposit ← prepare s env pools' assets is messages
    mint_shares env info slippage_tolerance receiver deposit

  -- `pool_info`
  unfoldable pub pool_info : Config → Result StdError (List AssetValidated × ℕ)
  pool_info config = do
    pools ← query_pools config.pair_info.asset_infos config.pair_info.contract_addr
    total_share ← query_supply config.pair_info.liquidity_token
    ok (pools, total_share)

  unfoldable pub withdraw_liquidity : Store → Env → MessageInfo → ℕ → ℕ → Answer
  withdraw_liquidity s env info sender amount = do
    let token = s.config.pair_info.liquidity_token
    fail_if (not (info.sender == token)) unauthorized
    (pools, total_share) ← lift (pool_info s.config)
    refunds ← get_share_in_assets pools amount total_share
    pool0 ← index pools 0
    pool1 ← index pools 1
    refund0 ← index refunds 0
    refund1 ← index refunds 1
    new_pool0 ← sub128 pool0.amount refund0.amount
    new_pool1 ← sub128 pool1.amount refund1.amount
    s' ← record_prices s env.block_time (new_pool0, new_pool1) (pool0.amount, pool1.amount)
    ok (s', send_to refund0 sender ∷ send_to refund1 sender ∷ cw20_burn token amount ∷ [])
