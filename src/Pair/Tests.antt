-- ===== src/Pair/Tests.antt =====
-- A concrete pair for the examples: a native asset against a token.
mod Parts
mod Calls
use wynddex.Base.{ℕ, ◌<◌, true, false, List, [], ◌∷◌, some, none, Option}
use wynddex.Decimals.{decimal_unit}
use wynddex.Decimals.Concrete.{platform, exact}
use wynddex.Platform.{Env, MessageInfo}
use wynddex.Asset.{AssetInfo, native, token}
use wynddex.Asset.Amounts.{AssetValidated}
use wynddex.Oracle.{Oracle, initialize_oracle}
use wynddex.Pair.State.{
  Store, Config, PairInfo, FeeConfig, StakeConfig, xyk, FactoryConfig, Querier,
}

abbrev pub native_coin : AssetInfo
native_coin = native 5

abbrev pub cw20_coin : AssetInfo
cw20_coin = token 9

abbrev pub factory_config : FactoryConfig
factory_config = record {
  owner = 3;
  fee_address = some 4;
  max_referral_commission = 50000000000000000;
}

-- The balance of the native coin includes the 10000 that come with the call.
instance abbrev pub querier : Querier
querier = record {
  query_balance = λ info account. elim info [ native d ↦ some 1010000 | token t ↦ some 2000000 ];
  query_supply = λ t. some 1000000;
  query_token_symbol = λ t. some t;
  query_factory_config = λ a. some factory_config;
  pairs_to_migrate = λ f. some none;
}

abbrev pub stake_config : StakeConfig
stake_config = record {
  staking_code_id = 11;
  tokens_per_power = 1000;
  min_bond = 5000;
  unbonding_periods = 60 ∷ 30 ∷ [];
  max_distributions = 6;
  converter = none;
}

abbrev pub pair_store : Store
pair_store = record {
  config = record {
    pair_info = record {
      asset_infos = native_coin ∷ cw20_coin ∷ [];
      contract_addr = 6;
      liquidity_token = 7;
      staking_addr = 8;
      pair_type = xyk;
      fee_config = record { total_fee_bps = 30; protocol_fee_bps = 5000 };
    };
    factory_addr = 2;
    block_time_last = 60;
    price0_cumulative_last = 0;
    price1_cumulative_last = 0;
    trading_starts = 50;
  };
  frozen = false;
  circuit_breaker = some 12;
  tmp_staking_config = some stake_config;
  oracle = some (initialize_oracle 60000000000 decimal_unit);
}

abbrev pub env : Env
env = record { block_time = 200000000000; contract = 6 }

abbrev pub trader : MessageInfo
trader = record { sender = 1; funds = (5, 10000) ∷ [] }

abbrev pub offer : AssetValidated
offer = record { info = native_coin; amount = 10000 }

abbrev pub pools : List AssetValidated
pools =
    record { info = native_coin; amount = 1000000 }
    ∷ record { info = cw20_coin; amount = 2000000 }
    ∷ []
