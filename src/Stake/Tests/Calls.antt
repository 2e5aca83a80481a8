-- ===== src/Stake/Tests/Calls.antt =====
-- Calls of the whole contract on the concrete storage.
use wynddex.Base.{ℕ, ◌+◌, ◌≡◌, refl, arith, List, [], ◌∷◌, ok, true, some, none, Option}
use wynddex.Num.{
  add128, sub128, sum128, mul128, add64, to_i128, checked_add, checked_sub, as_i128, as_u128, ◌*ℤ◌,
  ◌-ℤ◌, ◌+ℤ◌,
}
use wynddex.Map.{insert, nat_key}
use wynddex.Asset.{AssetInfo, token, asset_key, validate}
use wynddex.Search.{search_by_key, binary_search_by, IsSortedBy}
use wynddex.Stake.State.{Msg, ContractError}
use wynddex.Stake.Store.{Store, MessageInfo}
use wynddex.Stake.Bonding.{
  bonded, total_stake, total_locked, total_unlocked, release_stake, free_unlocked_tokens,
  add_unlocked_tokens, add_locked_tokens,
}
use wynddex.Stake.Power.{
  calc_rewards_powers, calc_rewards_power, calc_power, add_powers, save_stake,
}
use wynddex.Stake.Totals.{update_total_stake, new_total_stake}
use wynddex.Stake.Rewards.{apply_points_correction, save_adjustment, update_rewards}
use wynddex.Stake.Staking.{
  execute_unbond, execute_mass_bond, bond_one, bond_each, remove_stake_without_total, finish_unbond,
  execute_migrate_stake, is_no_period, save_distributions, adjust_rewards,
}
use wynddex.Stake.Transfers.{execute_claim}
use wynddex.Stake.Admin.{
  InstantiateMsg, instantiate, maybe_addr, validate_converter, sort_unstable,
  execute_create_distribution_flow, execute_unbond_all, execute_stop_unbond_all, is_staked_token,
  same_periods, any_decrease, contains_key,
}
use wynddex.Stake.Admin.Creation.{instantiate-IsConsistent}
use wynddex.Stake.Admin.Flags.{execute_unbond_all-stop}
use wynddex.Stake.Admin.Flows.{execute_create_distribution_flow-limit, Flow}
use wynddex.Stake.Contract.{execute, unbond}
use wynddex.Stake.Contract.Halt.{execute-halted, NoMore}
use wynddex.Stake.Contract.Steps.{execute-IsConsistent, Reaches-IsConsistent, here, call}
use wynddex.Stake.Queries.{query_staked, staked_response, is_missing, StakedResponse}
use wynddex.Stake.Queries.Bonds.{query_staked-bonded}
use wynddex.Stake.Invariant.{IsConsistent}
use wynddex.Stake.Tests.{host, host-KeepsClaims, curves, bond0, store0, env0, from_staker, value}
use wynddex.Stake.Tests.Examples.{store0-IsConsistent}

abbrev no_balance : AssetInfo → Option ℕ
no_balance a = some 0

abbrev after0 : Store ℕ × List Msg
unfolding execute add128 sub128 sum128 mul128 add64 to_i128 checked_add checked_sub as_i128 as_u128
    ◌*ℤ◌ ◌-ℤ◌ ◌+ℤ◌ insert search_by_key binary_search_by execute_mass_bond bond_one bond_each
    execute_unbond remove_stake_without_total finish_unbond execute_migrate_stake is_no_period
    save_distributions adjust_rewards execute_claim calc_rewards_powers calc_rewards_power
    calc_power add_powers save_stake total_stake release_stake free_unlocked_tokens
    add_unlocked_tokens add_locked_tokens update_total_stake new_total_stake apply_points_correction
    save_adjustment update_rewards
after0 = value (execute no_balance env0 from_staker (unbond 40 10) store0) (store0, [])

execute-IsConsistent_example : IsConsistent after0.0
unfolding execute add128 sub128 sum128 mul128 add64 to_i128 checked_add checked_sub as_i128 as_u128
    ◌*ℤ◌ ◌-ℤ◌ ◌+ℤ◌ insert search_by_key binary_search_by execute_mass_bond bond_one bond_each
    execute_unbond remove_stake_without_total finish_unbond execute_migrate_stake is_no_period
    save_distributions adjust_rewards execute_claim calc_rewards_powers calc_rewards_power
    calc_power add_powers save_stake total_stake release_stake free_unlocked_tokens
    add_unlocked_tokens add_locked_tokens update_total_stake new_total_stake apply_points_correction
    save_adjustment update_rewards
execute-IsConsistent_example =
    execute-IsConsistent no_balance env0 from_staker (unbond 40 10) store0 host-KeepsClaims refl
      store0-IsConsistent refl

Reaches-IsConsistent_example : IsConsistent after0.0
unfolding execute add128 sub128 sum128 mul128 add64 to_i128 checked_add checked_sub as_i128 as_u128
    ◌*ℤ◌ ◌-ℤ◌ ◌+ℤ◌ insert search_by_key binary_search_by execute_mass_bond bond_one bond_each
    execute_unbond remove_stake_without_total finish_unbond execute_migrate_stake is_no_period
    save_distributions adjust_rewards execute_claim calc_rewards_powers calc_rewards_power
    calc_power add_powers save_stake total_stake release_stake free_unlocked_tokens
    add_unlocked_tokens add_locked_tokens update_total_stake new_total_stake apply_points_correction
    save_adjustment update_rewards
Reaches-IsConsistent_example = Reaches-IsConsistent host-KeepsClaims store0-IsConsistent (
    call no_balance env0 from_staker (unbond 40 10) store0 store0 after0.0 after0.1 (here store0)
      refl refl)

abbrev msg0 : InstantiateMsg
msg0 = record {
  cw20_contract = 7;
  tokens_per_power = 1;
  min_bond = 0;
  unbonding_periods = 20 ∷ 10 ∷ [];
  admin = some 9;
  max_distributions = 2;
  unbonder = none;
  converter = none;
}

abbrev created0 : Store ℕ
unfolding instantiate maybe_addr validate_converter sort_unstable
created0 = value (instantiate from_staker msg0) store0

instantiate-IsConsistent_example : IsConsistent created0 × IsSortedBy (λ p. p) (10 ∷ 20 ∷ [])
unfolding instantiate maybe_addr validate_converter sort_unstable
instantiate-IsConsistent_example =
    instantiate-IsConsistent from_staker msg0 (((λ e. ground (arith, e)), tt), (tt, tt)) refl

abbrev halted0 : Store ℕ
halted0 = record store0 { unbond_all = true }

abbrev emptied0 : Store ℕ × List Msg
unfolding execute add128 sub128 sum128 mul128 add64 to_i128 checked_add checked_sub as_i128 as_u128
    ◌*ℤ◌ ◌-ℤ◌ ◌+ℤ◌ insert search_by_key binary_search_by execute_mass_bond bond_one bond_each
    execute_unbond remove_stake_without_total finish_unbond execute_migrate_stake is_no_period
    save_distributions adjust_rewards execute_claim calc_rewards_powers calc_rewards_power
    calc_power add_powers save_stake total_stake release_stake free_unlocked_tokens
    add_unlocked_tokens add_locked_tokens update_total_stake new_total_stake apply_points_correction
    save_adjustment update_rewards
emptied0 = value (execute no_balance env0 from_staker (unbond 40 10) halted0) (halted0, [])

execute-halted_example : ◌≡◌ {A = Option ContractError} none none × NoMore halted0 emptied0.0
unfolding execute add128 sub128 sum128 mul128 add64 to_i128 checked_add checked_sub as_i128 as_u128
    ◌*ℤ◌ ◌-ℤ◌ ◌+ℤ◌ insert search_by_key binary_search_by execute_mass_bond bond_one bond_each
    execute_unbond remove_stake_without_total finish_unbond execute_migrate_stake is_no_period
    save_distributions adjust_rewards execute_claim calc_rewards_powers calc_rewards_power
    calc_power add_powers save_stake total_stake release_stake free_unlocked_tokens
    add_unlocked_tokens add_locked_tokens update_total_stake new_total_stake apply_points_correction
    save_adjustment update_rewards
execute-halted_example =
    execute-halted no_balance env0 from_staker (unbond 40 10) halted0 {r = emptied0}
      host-KeepsClaims
      (record {
        positive = store0-IsConsistent.positive;
        distinct = store0-IsConsistent.distinct;
        tracks = store0-IsConsistent.tracks;
        covered = store0-IsConsistent.covered;
        backed = store0-IsConsistent.backed;
      })
      refl refl

abbrev from_unbonder : MessageInfo
from_unbonder = record { sender = 9; funds = [] }

execute_unbond_all-stop_example :
    (true ≡ true)
    × (execute_stop_unbond_all from_unbonder (record store0 { unbond_all = true })
        ≡ ok (store0, []))
unfolding execute_unbond_all
execute_unbond_all-stop_example = execute_unbond_all-stop from_unbonder store0 refl

abbrev rates0 : List (ℕ × ℕ)
rates0 = (10, 1) ∷ (20, 3) ∷ []

abbrev flowing0 : Store ℕ × List Msg
unfolding execute_create_distribution_flow validate is_staked_token same_periods any_decrease
    contains_key insert
flowing0 =
    value (execute_create_distribution_flow from_unbonder 9 (token 60) rates0 store0) (store0, [])

execute_create_distribution_flow-limit_example :
    (a : AssetInfo) × (validate (token 60) ≡ some a)
    × (m : ℕ) × (host.addr_validate 9 ≡ some m)
    × (host.is_admin (some 9) 9 ≡ true)
    × Flow store0 a m rates0 flowing0
unfolding execute_create_distribution_flow validate is_staked_token same_periods any_decrease
    contains_key insert
execute_create_distribution_flow-limit_example =
    execute_create_distribution_flow-limit from_unbonder 9 (token 60) rates0 store0 refl

abbrev answer0 : StakedResponse
answer0 = record { stake = 100; total_locked = 0; unbonding_period = 10; cw20_contract = 7 }

query_staked-bonded_example :
    (answer0.stake ≡ bonded bond0)
    × (answer0.unbonding_period ≡ 10)
    × (answer0.total_locked + 100 ≡ bonded bond0)
unfolding query_staked staked_response total_stake total_locked total_unlocked sum128 search_by_key
    binary_search_by is_missing add128
query_staked-bonded_example = query_staked-bonded store0 env0 1 1 10 100 refl refl refl
