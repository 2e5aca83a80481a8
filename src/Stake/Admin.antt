-- ===== src/Stake/Admin.antt =====
-- contracts/stake/src/contract.rs: creation and migration of the contract, the flows of rewards and
-- their funding, and the emergency flag.
pub mod Creation
pub mod Flags
pub mod Flows
use wynddex.Base.{
  ℕ, ◌+◌, Bool, true, false, not, List, [], ◌∷◌, length, map, Option, none, some, Result, ok, err,
  panic, ◌>>=◌, ◌>>◌, fail_if, ok_or, ltb, leb, ◌==◌, ◌&&◌, ◌||◌, if◌then◌else◌,
}
use wynddex.Num.{add64}
use wynddex.Map.{Map, lookup, insert, nat_key}
use wynddex.Asset.{AssetInfo, token, native, equal, asset_key, validate}
use wynddex.Host.{Host, Curves}
use wynddex.Stake.State.{
  Config, ConverterConfig, TokenInfo, TotalStake, Distribution, ContractError, std, not_found,
  curve, admin, unauthorized, invalid_asset, invalid_rewards, too_many_distributions,
  distribution_already_exists, past_starting_time, flag_already_set,
  cannot_distribute_if_unbond_all,
}
use wynddex.Stake.Store.{Store, Env, MessageInfo, Answer, Distributions, std_or_fail}
use wynddex.Stake.Transfers.{is_unbonder}

pub record InstantiateMsg : Type 0 where
  pub cw20_contract : ℕ
  pub tokens_per_power : ℕ
  pub min_bond : ℕ
  pub unbonding_periods : List ℕ
  pub admin : Option ℕ
  pub max_distributions : ℕ
  pub unbonder : Option ℕ
  pub converter : Option ConverterConfig

pub record MigrateMsg : Type 0 where
  pub unbonder : Option ℕ
  pub converter : Option ConverterConfig
  pub unbond_all : Bool

pub record FundingInfo : Type 0 where
  pub start_time : ℕ
  pub distribution_duration : ℕ
  pub amount : ℕ

-- `maybe_addr` and `addr_opt_validate`
unfoldable pub maybe_addr : ⦃h : Host⦄ → Option ℕ → Result ContractError (Option ℕ)
maybe_addr none = ok none
maybe_addr ⦃h⦄ (some raw) = do a ← std_or_fail (h.addr_validate raw); ok (some a)

unfoldable pub validate_converter :
    ⦃h : Host⦄ → Option ConverterConfig → Result ContractError (Option ConverterConfig)
validate_converter none = ok none
validate_converter ⦃h⦄ (some conv) = do
  contract ← std_or_fail (h.addr_validate conv.contract)
  pair_to ← std_or_fail (h.addr_validate conv.pair_to)
  ok (some (record { contract = contract; pair_to = pair_to }))

-- `sort_unstable` of the standard library on numbers.
abbrev pub insert_sorted : ℕ → List ℕ → List ℕ
insert_sorted x [] = x ∷ []
insert_sorted x (y ∷ ys) = if leb x y then x ∷ y ∷ ys else y ∷ insert_sorted x ys

unfoldable pub sort_unstable : List ℕ → List ℕ
sort_unstable [] = []
sort_unstable (x ∷ xs) = insert_sorted x (sort_unstable xs)

abbrev pub no_stake : TotalStake
no_stake = record { staked = 0; powered_stake = 0 }

-- `std::cmp::max`
abbrev pub max : ℕ → ℕ → ℕ
max a b = if ltb b a then a else b

-- The test of `execute_create_distribution_flow` on the periods: equal, in this order.
unfoldable pub same_periods : List (ℕ × ℕ) → List ℕ → Bool
same_periods [] [] = true
same_periods [] (_ ∷ _) = false
same_periods (_ ∷ _) [] = false
same_periods ((p, _) ∷ rewards) (q ∷ periods) = p == q && same_periods rewards periods

-- `rewards.windows(2).any(|w| w[0].1 > w[1].1)`
unfoldable pub any_decrease : List (ℕ × ℕ) → Bool
any_decrease [] = false
any_decrease (_ ∷ []) = false
any_decrease ((_, a) ∷ (p, b) ∷ rest) = ltb b a || any_decrease ((p, b) ∷ rest)

unfoldable pub is_staked_token : AssetInfo → ℕ → Bool
is_staked_token (token addr) cw20_contract = addr == cw20_contract
is_staked_token (native _) cw20_contract = false

-- `keys.contains(&asset)`
unfoldable pub contains_key : Distributions → AssetInfo → Bool
contains_key [] asset = false
contains_key ((a, _) ∷ ds) asset = equal a asset || contains_key ds asset

abbrev pub new_distribution : ℕ → List (ℕ × ℕ) → Distribution
new_distribution manager rewards = record {
  shares_per_point = 0;
  shares_leftover = 0;
  distributed_total = 0;
  withdrawable_total = 0;
  manager = manager;
  reward_multipliers = rewards;
}

module _ {C : Type 0} ⦃h : Host⦄ where
  -- The whole storage is new: maps are empty.
  unfoldable pub instantiate : MessageInfo → InstantiateMsg → Result ContractError (Store C)
  instantiate info msg = do
    stored ← maybe_addr msg.admin
    let periods = sort_unstable msg.unbonding_periods
    cw20_contract ← std_or_fail (h.addr_validate msg.cw20_contract)
    unbonder ← maybe_addr msg.unbonder
    converter ← validate_converter msg.converter
    ok (record {
      config = record {
        cw20_contract = cw20_contract;
        instantiator = info.sender;
        tokens_per_power = msg.tokens_per_power;
        min_bond = max msg.min_bond 1;
        unbonding_periods = periods;
        max_distributions = msg.max_distributions;
        unbonder = unbonder;
        converter = converter;
      };
      admin = stored;
      claims = [];
      reward_curve = [];
      total_staked = record { staked = 0; unbonding = 0 };
      total_per_period = map (λ p. (p, no_stake)) periods;
      stake = [];
      distribution = [];
      withdraw_adjustment = [];
      delegated = [];
      unbond_all = false;
    })

  -- `migrate`, past `ensure_from_older_version`.
  unfoldable pub migrate : MigrateMsg → Store C → Result ContractError (Store C)
  migrate msg s = do
    unbonder ← maybe_addr msg.unbonder
    converter ← validate_converter msg.converter
    ok (record s {
      config = record (s.config) { unbonder = unbonder; converter = converter };
      unbond_all = msg.unbond_all;
    })

  unfoldable pub execute_update_admin : MessageInfo → Option ℕ → Store C → Answer C
  execute_update_admin info new_admin s = do
    a ← maybe_addr new_admin
    updated ← ok_or (h.execute_update_admin s.admin info.sender a) admin
    ok (record s { admin = updated }, [])

  unfoldable pub execute_unbond_all : MessageInfo → Store C → Answer C
  execute_unbond_all info s = do
    fail_if (not (is_unbonder s.config.unbonder info.sender)) unauthorized
    fail_if s.unbond_all flag_already_set
    ok (record s { unbond_all = true }, [])

  unfoldable pub execute_stop_unbond_all : MessageInfo → Store C → Answer C
  execute_stop_unbond_all info s = do
    let allowed = is_unbonder s.config.unbonder info.sender || h.is_admin s.admin info.sender
    fail_if (not allowed) unauthorized
    fail_if (not s.unbond_all) flag_already_set
    ok (record s { unbond_all = false }, [])

module _ {C : Type 0} ⦃h : Host⦄ ⦃curves : Curves C⦄ where
  unfoldable pub update_reward_config :
      Store C → AssetInfo → ℕ → FundingInfo → Result ContractError (Store C)
  update_reward_config s asset sent_amount f = do
    previous ← ok_or (lookup asset s.reward_curve) (std not_found)
    end_time ← add64 f.start_time f.distribution_duration
    let schedule = curves.saturating_linear (f.start_time, f.amount) (end_time, 0)
    let (low, high) = curves.range schedule
    fail_if (not (low == 0) || ltb sent_amount high) invalid_rewards
    let new_curve = curves.combine previous schedule
    fail_if (not (curves.is_monotonic_decreasing new_curve)) curve
    ok (record s { reward_curve = insert asset new_curve s.reward_curve })

  unfoldable pub fund_each : List (ℕ × ℕ) → FundingInfo → Store C → Result ContractError (Store C)
  fund_each [] f s = ok s
  fund_each ((denom, amount) ∷ funds) f s = do
    asset ← std_or_fail (validate (native denom))
    s' ← update_reward_config s asset amount f
    fund_each funds f s'

  unfoldable pub execute_fund_distribution : Env → MessageInfo → FundingInfo → Store C → Answer C
  execute_fund_distribution env info f s = do
    fail_if s.unbond_all (cannot_distribute_if_unbond_all "funds")
    fail_if (ltb f.start_time (h.seconds env.block_time)) past_starting_time
    s' ← fund_each info.funds f s
    ok (s', [])

  unfoldable pub execute_create_distribution_flow :
      MessageInfo → ℕ → AssetInfo → List (ℕ × ℕ) → Store C → Answer C
  execute_create_distribution_flow info manager asset rewards s = do
    fail_if (not (h.is_admin s.admin info.sender)) admin
    asset ← std_or_fail (validate asset)
    manager ← std_or_fail (h.addr_validate manager)
    fail_if (is_staked_token asset s.config.cw20_contract) invalid_asset
    fail_if (not (same_periods rewards s.config.unbonding_periods)) invalid_rewards
    fail_if (any_decrease rewards) invalid_rewards
    fail_if (leb s.config.max_distributions (length s.distribution))
        (too_many_distributions s.config.max_distributions)
    fail_if (contains_key s.distribution asset) (distribution_already_exists asset)
    ok (
      record s {
        reward_curve = insert asset (curves.constant 0) s.reward_curve;
        distribution = insert asset (new_distribution manager rewards) s.distribution;
      },
      [],
    )
