-- ===== src/Stake/Tests/Examples.antt =====
-- The handlers on the concrete storage.
use wynddex.Base.{ℕ, ◌+◌, ◌<◌, ◌≡◌, refl, arith, List, [], ◌∷◌}
use wynddex.Num.{
  add128, sub128, sum128, mul128, add64, to_i128, checked_add, checked_sub, as_i128, as_u128, ◌*ℤ◌,
  ◌-ℤ◌, ◌+ℤ◌,
}
use wynddex.Map.{insert, total, nat_key}
use wynddex.Host.{claimed}
use wynddex.Asset.{native, asset_key}
use wynddex.Search.{search_by_key, binary_search_by}
use wynddex.Stake.State.{Msg, cw20_transfer}
use wynddex.Stake.Store.{Store}
use wynddex.Stake.Bonding.{
  bonded, total_stake, release_stake, free_unlocked_tokens, add_unlocked_tokens, add_locked_tokens,
}
use wynddex.Stake.Power.{
  calc_rewards_powers, calc_rewards_power, calc_power, add_powers, save_stake, load_stake,
}
use wynddex.Stake.Totals.{update_total_stake, new_total_stake}
use wynddex.Stake.Totals.Tracking.{held}
use wynddex.Stake.Rewards.{apply_points_correction, save_adjustment, update_rewards}
use wynddex.Stake.Staking.{
  execute_unbond, execute_mass_bond, bond_one, bond_each, remove_stake_without_total, finish_unbond,
  execute_migrate_stake, is_no_period, save_distributions, adjust_rewards,
}
use wynddex.Stake.Staking.Adjust.{KeepsShares}
use wynddex.Stake.Staking.Bond.{staked_total}
use wynddex.Stake.Transfers.{execute_rebond, rebond, move_bond, arrive, execute_claim}
use wynddex.Stake.Transfers.Rebond.{execute_rebond-IsConsistent, execute_rebond-KeepsShares}
use wynddex.Stake.Invariant.{IsConsistent}
use wynddex.Stake.Invariant.Bonds.{execute_mass_bond-IsConsistent}
use wynddex.Stake.Invariant.Claims.{claims_of}
use wynddex.Stake.Invariant.Exits.{
  Exits, execute_unbond-IsConsistent, execute_claim-IsConsistent,
  execute_migrate_stake-IsConsistent,
}
use wynddex.Stake.Tests.{host, host-KeepsClaims, curves, flow0, store0, env0, from_staker, value}

pub store0-IsConsistent : IsConsistent store0
unfolding held total
store0-IsConsistent = record {
  positive = omega arith;
  distinct = (refl, tt);
  tracks = (((refl, refl), ((refl, refl), tt)), ground arith);
  covered = omega arith;
  backed = refl;
}

abbrev unbonded0 : Store ℕ × List Msg
unfolding add128 sub128 sum128 mul128 add64 to_i128 checked_add checked_sub as_i128 as_u128 ◌*ℤ◌
    ◌-ℤ◌ ◌+ℤ◌ insert search_by_key binary_search_by execute_mass_bond bond_one bond_each
    execute_unbond remove_stake_without_total finish_unbond execute_migrate_stake is_no_period
    save_distributions adjust_rewards execute_rebond rebond move_bond arrive execute_claim
    calc_rewards_powers calc_rewards_power calc_power add_powers save_stake total_stake
    release_stake free_unlocked_tokens add_unlocked_tokens add_locked_tokens update_total_stake
    new_total_stake apply_points_correction save_adjustment update_rewards
unbonded0 = value (execute_unbond env0 from_staker 40 10 store0) (store0, [])

execute_unbond-IsConsistent_example :
    Exits store0 unbonded0.0 40 40
    × (bonded (load_stake unbonded0.0.stake 1 10) + 40 ≡ bonded (load_stake store0.stake 1 10))
    × (claimed (claims_of unbonded0.0 1) ≡ claimed (claims_of store0 1) + 40)
    × (unbonded0.1 ≡ [])
unfolding add128 sub128 sum128 mul128 add64 to_i128 checked_add checked_sub as_i128 as_u128 ◌*ℤ◌
    ◌-ℤ◌ ◌+ℤ◌ insert search_by_key binary_search_by execute_mass_bond bond_one bond_each
    execute_unbond remove_stake_without_total finish_unbond execute_migrate_stake is_no_period
    save_distributions adjust_rewards execute_rebond rebond move_bond arrive execute_claim
    calc_rewards_powers calc_rewards_power calc_power add_powers save_stake total_stake
    release_stake free_unlocked_tokens add_unlocked_tokens add_locked_tokens update_total_stake
    new_total_stake apply_points_correction save_adjustment update_rewards
execute_unbond-IsConsistent_example =
    execute_unbond-IsConsistent env0 from_staker 1 40 10 store0 {r = unbonded0} host-KeepsClaims
      store0-IsConsistent refl

execute_migrate_stake-IsConsistent_example :
    Exits store0 (value (execute_migrate_stake env0 from_staker 40 10 store0) (store0, [])).0 40 0
unfolding add128 sub128 sum128 mul128 add64 to_i128 checked_add checked_sub as_i128 as_u128 ◌*ℤ◌
    ◌-ℤ◌ ◌+ℤ◌ insert search_by_key binary_search_by execute_mass_bond bond_one bond_each
    execute_unbond remove_stake_without_total finish_unbond execute_migrate_stake is_no_period
    save_distributions adjust_rewards execute_rebond rebond move_bond arrive execute_claim
    calc_rewards_powers calc_rewards_power calc_power add_powers save_stake total_stake
    release_stake free_unlocked_tokens add_unlocked_tokens add_locked_tokens update_total_stake
    new_total_stake apply_points_correction save_adjustment update_rewards
execute_migrate_stake-IsConsistent_example =
    execute_migrate_stake-IsConsistent env0 from_staker 40 10 store0 store0-IsConsistent refl

abbrev bonded0 : Store ℕ × List Msg
unfolding add128 sub128 sum128 mul128 add64 to_i128 checked_add checked_sub as_i128 as_u128 ◌*ℤ◌
    ◌-ℤ◌ ◌+ℤ◌ insert search_by_key binary_search_by execute_mass_bond bond_one bond_each
    execute_unbond remove_stake_without_total finish_unbond execute_migrate_stake is_no_period
    save_distributions adjust_rewards execute_rebond rebond move_bond arrive execute_claim
    calc_rewards_powers calc_rewards_power calc_power add_powers save_stake total_stake
    release_stake free_unlocked_tokens add_unlocked_tokens add_locked_tokens update_total_stake
    new_total_stake apply_points_correction save_adjustment update_rewards
bonded0 = value (execute_mass_bond 7 50 20 ((2, 30) ∷ (1, 10) ∷ []) store0) (store0, [])

execute_mass_bond-IsConsistent_example :
    IsConsistent bonded0.0
    × (bonded0.0.total_staked.staked ≡ 100 + 50)
    × (staked_total bonded0.0.total_per_period ≡ 100 + 40)
unfolding add128 sub128 sum128 mul128 add64 to_i128 checked_add checked_sub as_i128 as_u128 ◌*ℤ◌
    ◌-ℤ◌ ◌+ℤ◌ insert search_by_key binary_search_by execute_mass_bond bond_one bond_each
    execute_unbond remove_stake_without_total finish_unbond execute_migrate_stake is_no_period
    save_distributions adjust_rewards execute_rebond rebond move_bond arrive execute_claim
    calc_rewards_powers calc_rewards_power calc_power add_powers save_stake total_stake
    release_stake free_unlocked_tokens add_unlocked_tokens add_locked_tokens update_total_stake
    new_total_stake apply_points_correction save_adjustment update_rewards
execute_mass_bond-IsConsistent_example =
    execute_mass_bond-IsConsistent 7 50 20 ((2, 30) ∷ (1, 10) ∷ []) store0 store0-IsConsistent refl

abbrev rebonded0 : Store ℕ × List Msg
unfolding add128 sub128 sum128 mul128 add64 to_i128 checked_add checked_sub as_i128 as_u128 ◌*ℤ◌
    ◌-ℤ◌ ◌+ℤ◌ insert search_by_key binary_search_by execute_mass_bond bond_one bond_each
    execute_unbond remove_stake_without_total finish_unbond execute_migrate_stake is_no_period
    save_distributions adjust_rewards execute_rebond rebond move_bond arrive execute_claim
    calc_rewards_powers calc_rewards_power calc_power add_powers save_stake total_stake
    release_stake free_unlocked_tokens add_unlocked_tokens add_locked_tokens update_total_stake
    new_total_stake apply_points_correction save_adjustment update_rewards
rebonded0 = value (execute_rebond env0 from_staker 40 10 20 store0) (store0, [])

execute_rebond-IsConsistent_example :
    IsConsistent rebonded0.0
    × (rebonded0.0.total_staked ≡ store0.total_staked)
    × (staked_total rebonded0.0.total_per_period ≡ staked_total store0.total_per_period)
    × (bonded (load_stake rebonded0.0.stake 1 10) + 40 ≡ 100)
    × (bonded (load_stake rebonded0.0.stake 1 20) ≡ 0 + 40)
unfolding add128 sub128 sum128 mul128 add64 to_i128 checked_add checked_sub as_i128 as_u128 ◌*ℤ◌
    ◌-ℤ◌ ◌+ℤ◌ insert search_by_key binary_search_by execute_mass_bond bond_one bond_each
    execute_unbond remove_stake_without_total finish_unbond execute_migrate_stake is_no_period
    save_distributions adjust_rewards execute_rebond rebond move_bond arrive execute_claim
    calc_rewards_powers calc_rewards_power calc_power add_powers save_stake total_stake
    release_stake free_unlocked_tokens add_unlocked_tokens add_locked_tokens update_total_stake
    new_total_stake apply_points_correction save_adjustment update_rewards
execute_rebond-IsConsistent_example =
    execute_rebond-IsConsistent env0 from_staker 40 10 20 store0 store0-IsConsistent refl

execute_rebond-KeepsShares_example :
    KeepsShares store0.withdraw_adjustment rebonded0.0.withdraw_adjustment 1
      (native 50)
      flow0
      100
      140
unfolding add128 sub128 sum128 mul128 add64 to_i128 checked_add checked_sub as_i128 as_u128 ◌*ℤ◌
    ◌-ℤ◌ ◌+ℤ◌ insert search_by_key binary_search_by execute_mass_bond bond_one bond_each
    execute_unbond remove_stake_without_total finish_unbond execute_migrate_stake is_no_period
    save_distributions adjust_rewards execute_rebond rebond move_bond arrive execute_claim
    calc_rewards_powers calc_rewards_power calc_power add_powers save_stake total_stake
    release_stake free_unlocked_tokens add_unlocked_tokens add_locked_tokens update_total_stake
    new_total_stake apply_points_correction save_adjustment update_rewards
execute_rebond-KeepsShares_example =
    execute_rebond-KeepsShares env0 from_staker 40 10 20 store0 (native 50) flow0 100 140
      store0-IsConsistent.distinct refl refl refl refl (omega arith) (omega arith) (omega arith)

abbrev claimed0 : Store ℕ × List Msg
unfolding execute_claim insert
claimed0 = value (execute_claim env0 from_staker store0) (store0, [])

execute_claim-IsConsistent_example :
    (released : ℕ) × IsConsistent claimed0.0
    × (claimed0.0.total_staked.unbonding + released ≡ 3)
    × (0 < released)
    × (claimed0.1 ≡ cw20_transfer 7 1 released ∷ [])
unfolding execute_claim insert
execute_claim-IsConsistent_example =
    execute_claim-IsConsistent env0 from_staker store0 host-KeepsClaims store0-IsConsistent refl
