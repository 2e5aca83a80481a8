-- ===== src/Stake/Tests/Parts.antt =====
-- Bonds, totals, rewards and searches on concrete values.
use wynddex.Base.{
  unwrap_or, some, none, ◌⊎◌, ℕ, ◌+◌, ◌*◌, ◌<◌, ◌≡◌, refl, arith, List, [], ◌∷◌, ok, inr, map,
}
use wynddex.Num.{add128, sub128, sum128, mul128, to_i128, checked_sub, as_i128, as_u128, ◌+ℤ◌}
use wynddex.Map.{lookup, insert, total, nat_key}
use wynddex.Asset.{native, asset_key}
use wynddex.Search.{search_by_key, binary_search_by}
use wynddex.Stake.State.{BondingInfo, TotalStake, Distribution, Msg}
use wynddex.Stake.Store.{Store}
use wynddex.Stake.Bonding.{
  bonded, total_stake, release_stake, total_locked, total_unlocked, add_locked_tokens,
}
use wynddex.Stake.Bonding.Release.{release_stake_lem, total_locked-total_unlocked}
use wynddex.Stake.Bonding.Locking.{add_locked_tokens_lem, IsSortedByTime}
use wynddex.Stake.Power.{calc_rewards_power, calc_power, add_powers, save_stake}
use wynddex.Stake.Totals.{update_total_stake, new_total_stake}
use wynddex.Stake.Totals.Tracking.{held, TracksAll, save_stake-TracksAll}
use wynddex.Stake.Rewards.Authority.{execute_withdraw_rewards-authorized}
use wynddex.Stake.Rewards.{
  execute_withdraw_rewards, optional_address, withdraw_each, distribute, withdraw_one,
  withdrawable_rewards, save_adjustment, load_adjustment, shares_scale,
}
use wynddex.Stake.Rewards.Distribute.{distribute-conserves}
use wynddex.Stake.Rewards.Withdraw.{withdraw_one-pays, Paid}
use wynddex.Stake.Transfers.QuickUnbond.{new_total_stake-at_once, new_total_stake-small_bonds}
use wynddex.Stake.Tests.{from_staker, host, curves, config0, flow0, store0, value}

-- 10 tokens are free, 20 are locked until 100 and 30 until 300.
abbrev locked0 : BondingInfo
locked0 = record { stake = 10; locked_tokens = (100, 20) ∷ (300, 30) ∷ [] }

release_stake_lem_example :
    release_stake locked0 200 25 ≡ ok (5, record { stake = 5; locked_tokens = (300, 30) ∷ [] })
release_stake_lem_example = release_stake_lem locked0 200 25 (omega arith)

total_locked-total_unlocked_example : 30 + 30 ≡ 60
unfolding total_locked total_unlocked sum128 add128
total_locked-total_unlocked_example = total_locked-total_unlocked locked0 200 refl refl

abbrev added0 : BondingInfo
added0 = record { stake = 10; locked_tokens = (100, 20) ∷ (200, 5) ∷ (300, 30) ∷ [] }

add_locked_tokens_lem_example :
    IsSortedByTime added0 × (bonded added0 ≡ 60 + 5) × (added0.stake ≡ locked0.stake)
unfolding add_locked_tokens binary_search_by
add_locked_tokens_lem_example =
    add_locked_tokens_lem locked0 200 5 ((omega arith, tt), (tt, tt)) refl

abbrev totals0 : List (ℕ × TotalStake)
totals0 =
    (10, record { staked = 60; powered_stake = 60 })
    ∷ (20, record { staked = 0; powered_stake = 0 })
    ∷ []

save_stake-TracksAll_example :
    TracksAll config0 (save_stake store0.stake 1 10 locked0) totals0
    × (map (λ e. e.0) totals0 ≡ 10 ∷ 20 ∷ [])
unfolding held total save_stake update_total_stake new_total_stake search_by_key binary_search_by
    checked_sub sub128
save_stake-TracksAll_example =
    save_stake-TracksAll config0 store0.stake store0.total_per_period 1 10 locked0 (omega arith)
      (((refl, refl), ((refl, refl), tt)), ground arith) refl

abbrev t0 : TotalStake
t0 = record { staked = 100; powered_stake = 100 }

abbrev both0 : TotalStake
both0 = record { staked = 80; powered_stake = 80 }

abbrev at_once0 : TotalStake
at_once0 = record { staked = 94; powered_stake = 94 }

new_total_stake-at_once_example : (both0.staked ≡ 80) × (both0.powered_stake ≡ 80)
unfolding new_total_stake checked_sub sub128
new_total_stake-at_once_example =
    new_total_stake-at_once config0 t0 both0 (record { staked = 90; powered_stake = 90 }) both0 10
      10 (inr (omega arith)) (inr (omega arith)) (omega arith) refl refl refl

new_total_stake-small_bonds_example :
    (at_once0.staked ≡ 94) × (t0.powered_stake ≡ 100) × (at_once0.powered_stake + 6 ≡ 100)
unfolding new_total_stake checked_sub sub128
new_total_stake-small_bonds_example =
    new_total_stake-small_bonds config0 t0 at_once0 (record { staked = 97; powered_stake = 100 })
      (record { staked = 94; powered_stake = 100 }) 3 3 (omega arith) (omega arith) (omega arith)
      refl refl refl

abbrev spread0 : Distribution
unfolding distribute add128
spread0 = value (distribute flow0 100 1000) flow0

distribute-conserves_example :
    (spread0.shares_per_point * 100 + spread0.shares_leftover ≡ 0 * 100 + (1000 * shares_scale + 0))
    × (spread0.shares_leftover < 100)
    × (spread0.distributed_total ≡ 0 + 1000)
    × (spread0.withdrawable_total ≡ 0 + 1000)
unfolding distribute add128
distribute-conserves_example =
    distribute-conserves flow0 100 1000 (omega arith) (omega arith) (omega arith) refl

abbrev paying0 : Store ℕ
paying0 = record store0 { distribution = (native 50, spread0) ∷ [] }

abbrev withdrawn0 : Store ℕ × List Msg
unfolding withdraw_one withdrawable_rewards calc_rewards_power add_powers calc_power add128 sub128
    mul128 to_i128 as_i128 as_u128 ◌+ℤ◌ insert save_adjustment total_stake sum128
withdrawn0 = value (withdraw_one 1 3 paying0 [] (native 50) spread0) (paying0, [])

withdraw_one-pays_example :
    (reward : ℕ) × (withdrawable_rewards config0 paying0.stake 1 spread0
        (load_adjustment [] 1 (native 50))
      ≡ ok reward)
    × Paid 1 3 paying0 [] (native 50) spread0 reward withdrawn0
unfolding distribute withdraw_one withdrawable_rewards calc_rewards_power add_powers calc_power
    add128 sub128 mul128 to_i128 as_i128 as_u128 ◌+ℤ◌ insert save_adjustment total_stake sum128
withdraw_one-pays_example = withdraw_one-pays 1 3 paying0 [] (native 50) spread0 refl refl

abbrev collected0 : Store ℕ × List Msg
unfolding execute_withdraw_rewards optional_address withdraw_each withdraw_one withdrawable_rewards
    calc_rewards_power add_powers calc_power add128 sub128 mul128 to_i128 as_i128 as_u128 ◌+ℤ◌
    insert save_adjustment total_stake sum128 spread0
collected0 = value (execute_withdraw_rewards from_staker (some 1) none paying0) (paying0, [])

execute_withdraw_rewards-authorized_example :
    (a : ℕ) × (optional_address (some 1) 1 ≡ ok a)
    × ((a ≡ 1) ⊎ (unwrap_or (lookup a paying0.delegated) a ≡ 1))
    × ((◌≡◌ {A = ℕ} 2 a)
        ⊎ (load_adjustment collected0.0.withdraw_adjustment 2 (native 50)
            ≡ load_adjustment paying0.withdraw_adjustment 2 (native 50)))
unfolding execute_withdraw_rewards optional_address withdraw_each withdraw_one withdrawable_rewards
    calc_rewards_power add_powers calc_power add128 sub128 mul128 to_i128 as_i128 as_u128 ◌+ℤ◌
    insert save_adjustment total_stake sum128 spread0
execute_withdraw_rewards-authorized_example =
    execute_withdraw_rewards-authorized from_staker (some 1) none 2 (native 50) paying0
      {r = collected0} refl
