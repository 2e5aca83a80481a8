-- ===== src/Pair/Contract.antt =====
-- contracts/pair/src/contract.rs: creation, replies, migration and the dispatch of calls, with
-- packages/wyndex/src/pair/instantiate.rs.
pub mod Creation
use wynddex.Base.{
  ℕ, Bool, false, not, List, [], ◌∷◌, length, Option, none, some, Result, ok, err, ◌>>=◌, ◌>>◌,
  fail_if, ok_or, unwrap_or, ◌==◌, if◌then◌else◌,
}
use wynddex.Host.{Host}
use wynddex.Decimals.{Decimals}
use wynddex.Platform.{StdError, not_found, generic_err, Env, MessageInfo}
use wynddex.Asset.{AssetInfo, token, native}
use wynddex.Asset.Amounts.{AssetValidated, is_native_token, validate_asset, addr_opt_validate}
use wynddex.Pair.State.{
  PairError, std, lift, Store, FeeConfig, valid_fee_bps, StakeConfig, Querier, Answer, xyk,
  no_address, InstantiateMsg, MigrateMsg, update_freeze, ExecuteMsg, receive_tokens, provide,
  swap_native, update_fee_config, freeze, unsupported, Cw20HookMsg, swap_tokens, withdraw_shares,
  unauthorized, non_supported, pair_is_not_migrated, invalid_fee_bps, invalid_number_of_assets,
  liquidity_token_already_set, staking_already_set, unknown_reply,
}
use wynddex.Pair.Checks.{check_asset_infos, check_cw20_in_pool, migration_check}
use wynddex.Pair.Referral.{query_factory_config}
use wynddex.Pair.Swap.{check_if_frozen, swap}
use wynddex.Pair.Liquidity.{provide_liquidity, withdraw_liquidity}
use wynddex.Stake.Admin

-- The messages that create another contract; each asks for a reply under its own id.
pub data SubMsg : Type 0 where
  -- the admin, the code id, the symbols that the token's name is made of, and the minter
  create_token : ℕ → ℕ → List ℕ → ℕ → SubMsg
  -- the admin, the code id, and the message
  create_staking : ℕ → ℕ → Admin.InstantiateMsg → SubMsg

-- `INSTANTIATE_TOKEN_REPLY_ID` and `INSTANTIATE_STAKE_REPLY_ID`
abbrev pub reply_id : SubMsg → ℕ
reply_id (create_token a b c e) = 1
reply_id (create_staking a b c) = 2

module _ ⦃q : Querier⦄ where
  -- The symbols of `format_lp_token_name`; the name is made of their first letters.
  unfoldable pub token_symbols : List AssetInfo → Result StdError (List ℕ)
  token_symbols [] = ok []
  token_symbols (native denom ∷ infos) = token_symbols infos >>= λ rest. ok (denom ∷ rest)
  token_symbols (token contract_addr ∷ infos) = do
    symbol ← ok_or (q.query_token_symbol contract_addr) generic_err
    rest ← token_symbols infos
    ok (symbol ∷ rest)

  unfoldable pub create_lp_token : Env → ℕ → List AssetInfo → ℕ → Result StdError SubMsg
  create_lp_token env token_code_id asset_infos factory_addr = do
    token_name ← token_symbols asset_infos
    fc ← query_factory_config factory_addr
    ok (create_token fc.owner token_code_id token_name env.contract)

  -- `StakeConfig::into_init_msg`
  unfoldable pub into_init_msg : StakeConfig → ℕ → ℕ → Result StdError SubMsg
  into_init_msg cfg lp_token_address factory_addr = do
    fc ← query_factory_config factory_addr
    ok (
        create_staking fc.owner cfg.staking_code_id (record {
          cw20_contract = lp_token_address;
          tokens_per_power = cfg.tokens_per_power;
          min_bond = cfg.min_bond;
          unbonding_periods = cfg.unbonding_periods;
          admin = some factory_addr;
          max_distributions = cfg.max_distributions;
          unbonder = none;
          converter = cfg.converter;
        }))

module _ ⦃h : Host⦄ ⦃q : Querier⦄ where
  unfoldable pub instantiate : Env → InstantiateMsg → Result PairError (Store × SubMsg)
  instantiate env msg = do
    asset_infos ← check_asset_infos msg.asset_infos
    fail_if (not (length asset_infos == 2)) (invalid_number_of_assets 2 2)
    fail_if (not (valid_fee_bps msg.fee_config)) invalid_fee_bps
    factory_addr ← ok_or (h.addr_validate msg.factory_addr) (std generic_err)
    create ← lift (create_lp_token env msg.token_code_id asset_infos factory_addr)
    ok (
      record {
        config = record {
          pair_info = record {
            asset_infos = asset_infos;
            contract_addr = env.contract;
            liquidity_token = no_address;
            staking_addr = no_address;
            pair_type = xyk;
            fee_config = msg.fee_config;
          };
          factory_addr = factory_addr;
          block_time_last = 0;
          price0_cumulative_last = 0;
          price1_cumulative_last = 0;
          trading_starts = msg.trading_starts;
        };
        frozen = false;
        circuit_breaker = none;
        tmp_staking_config = some msg.staking_config;
        oracle = none;
      },
      create,
    )

  unfoldable pub instantiate_lp_token_reply : Store → ℕ → Result PairError (Store × List SubMsg)
  instantiate_lp_token_reply s contract_address = do
    fail_if (not (s.config.pair_info.liquidity_token == no_address)) liquidity_token_already_set
    liquidity_token ← ok_or (h.addr_validate contract_address) (std generic_err)
    staking_cfg ← ok_or s.tmp_staking_config (std not_found)
    create ← lift (into_init_msg staking_cfg contract_address s.config.factory_addr)
    ok (
      record s {
        config = record s.config {
          pair_info = record s.config.pair_info { liquidity_token = liquidity_token };
        };
      },
      create ∷ [],
    )

  unfoldable pub instantiate_staking_reply : Store → ℕ → Result PairError (Store × List SubMsg)
  instantiate_staking_reply s contract_address = do
    fail_if (not (s.config.pair_info.staking_addr == no_address)) staking_already_set
    staking_addr ← ok_or (h.addr_validate contract_address) (std generic_err)
    ok (
      record s {
        config = record s.config {
          pair_info = record s.config.pair_info { staking_addr = staking_addr };
        };
      },
      [],
    )

  -- `reply` with `handle_reply`: the id, and the address in the data, `none` if it cannot be parsed.
  unfoldable pub reply : Store → ℕ → Option ℕ → Result PairError (Store × List SubMsg)
  reply s msg_id none = err (std generic_err)
  reply s msg_id (some contract_address) =
      if msg_id == 1
      then instantiate_lp_token_reply s contract_address
      else (if msg_id == 2
          then instantiate_staking_reply s contract_address
          else err (unknown_reply msg_id))

  unfoldable pub migrate : Store → MigrateMsg → Result PairError Store
  migrate s (update_freeze frozen none) = ok (record s { frozen = frozen })
  migrate s (update_freeze frozen (some circuit_breaker)) = do
    breaker ← ok_or (h.addr_validate circuit_breaker) (std generic_err)
    ok (record s { frozen = frozen; circuit_breaker = some breaker })

unfoldable pub update_fees : Store → MessageInfo → FeeConfig → Answer
update_fees s info fee_config = do
  check_if_frozen s
  fail_if (not (info.sender == s.config.factory_addr)) unauthorized
  ok (
    record s {
      config = record s.config {
        pair_info = record s.config.pair_info { fee_config = fee_config };
      };
    },
    [],
  )

-- The branch of `execute` for `Freeze`.
unfoldable pub set_frozen : Store → MessageInfo → Bool → Answer
set_frozen s info frozen = do
  fail_if (not (info.sender == unwrap_or s.circuit_breaker no_address)) unauthorized
  ok (record s { frozen = frozen }, [])

module _ ⦃h : Host⦄ ⦃d : Decimals⦄ ⦃q : Querier⦄ where
  unfoldable pub receive_cw20 : Store → Env → MessageInfo → ℕ → ℕ → Option Cw20HookMsg → Answer
  receive_cw20 s env info cw20_sender amount none = err (std generic_err)
  receive_cw20 s env info cw20_sender amount
        (some (swap_tokens belief_price max_spread to referral_address referral_commission)) =
      do
        check_cw20_in_pool s.config.pair_info.asset_infos info.sender
        to_addr ← lift (addr_opt_validate to)
        referral ← lift (addr_opt_validate referral_address)
        sender ← ok_or (h.addr_validate cw20_sender) (std generic_err)
        swap s env info sender (record { info = token info.sender; amount = amount }) belief_price
            max_spread to_addr referral referral_commission
  receive_cw20 s env info cw20_sender amount (some withdraw_shares) = do
    sender ← ok_or (h.addr_validate cw20_sender) (std generic_err)
    withdraw_liquidity s env info sender amount

  -- The branch of `execute` for `Swap`.
  unfoldable pub execute_swap :
      Store
      → Env
      → MessageInfo
      → AssetValidated
      → Option ℕ
      → Option ℕ
      → Option ℕ
      → Option ℕ
      → Option ℕ
      → Answer
  execute_swap s env info offer belief_price max_spread to referral_address referral_commission = do
    offer_asset ← lift (validate_asset offer)
    fail_if (not (is_native_token offer_asset.info)) unauthorized
    to_addr ← lift (addr_opt_validate to)
    referral ← lift (addr_opt_validate referral_address)
    swap s env info info.sender offer_asset belief_price max_spread to_addr referral
        referral_commission

  unfoldable pub dispatch : Store → Env → MessageInfo → ExecuteMsg → Answer
  dispatch s env info (receive_tokens sender amount msg) = receive_cw20 s env info sender amount msg
  dispatch s env info (provide assets slippage receiver) =
      provide_liquidity s env info assets slippage receiver
  dispatch s env info (update_fee_config fee_config) = update_fees s info fee_config
  dispatch s env info
        (swap_native offer belief_price max_spread to referral_address referral_commission) =
      execute_swap s env info offer belief_price max_spread to referral_address referral_commission
  dispatch s env info (freeze frozen) = set_frozen s info frozen
  dispatch s env info unsupported = err non_supported

  unfoldable pub execute : Store → Env → MessageInfo → ExecuteMsg → Answer
  execute s env info msg = do
    to_migrate ← lift (migration_check s.config.factory_addr env.contract)
    fail_if to_migrate pair_is_not_migrated
    dispatch s env info msg
