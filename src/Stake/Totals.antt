-- ===== src/Stake/Totals.antt =====
-- The totals of each unbonding period: `update_total_stake` of contracts/stake/src/contract.rs and
-- `load_total_of_period` of state.rs.
pub mod Tracking
use wynddex.Base.{
  ℕ, ◌+◌, ◌-◌, ◌≡◌, refl, arith, Bool, true, false, not, List, Result, ok, err, panic, ◌>>=◌,
  unwrap, ltb, leb, if◌then◌else◌, get_elem?, set,
}
use wynddex.Num.{add128, sub128, checked_add, checked_sub}
use wynddex.Search.{Position, found, not_found, search_by_key}
use wynddex.Stake.State.{
  Config, TotalStake, ContractError, std, overflow, no_unbonding_period_found,
}

-- The `match` on whether the stake was counted before and is counted now.
powered_change : Bool → Bool → ℕ → ℕ → ℕ → Result ContractError ℕ
powered_change false false powered old_stake new_stake = ok powered
powered_change false true powered old_stake new_stake = add128 powered new_stake
powered_change true false powered old_stake new_stake = sub128 powered old_stake
powered_change true true powered old_stake new_stake =
    if leb old_stake new_stake
    then add128 powered (new_stake - old_stake)
    else sub128 powered (old_stake - new_stake)

-- The change of one entry, from the full old and new stake of one staker.
unfoldable pub new_total_stake : Config → TotalStake → ℕ → ℕ → Result ContractError TotalStake
unfolding powered_change
new_total_stake cfg total old_stake new_stake = do
  staked ←
      if leb old_stake new_stake
      then checked_add (std overflow) total.staked (new_stake - old_stake)
      else checked_sub (std overflow) total.staked (old_stake - new_stake)
  powered ←
      powered_change (leb cfg.min_bond old_stake) (leb cfg.min_bond new_stake) total.powered_stake
        old_stake new_stake
  ok (record { staked = staked; powered_stake = powered })

unfoldable pub update_total_stake :
    Config → List (ℕ × TotalStake) → ℕ → ℕ → ℕ → Result ContractError (List (ℕ × TotalStake))
update_total_stake cfg totals period old_stake new_stake =
    elim (search_by_key (λ e. e.0) period totals) [
      | found total_idx ↦ do
        e ← unwrap (get_elem? totals total_idx)
        total ← new_total_stake cfg e.1 old_stake new_stake
        ok (set totals total_idx (e.0, total))
      | not_found _ ↦ err (no_unbonding_period_found period)
    ]

unfoldable pub load_total_of_period : List (ℕ × TotalStake) → ℕ → Result ContractError TotalStake
load_total_of_period totals period = elim (search_by_key (λ e. e.0) period totals) [
  | found idx ↦ do e ← unwrap (get_elem? totals idx); ok e.1
  | not_found _ ↦ err (no_unbonding_period_found period)
]

-- A stake as the powered total counts it.
abbrev pub powered : Config → ℕ → ℕ
powered cfg stake = if leb cfg.min_bond stake then stake else 0

-- Both totals change by what the staker's stake changes.
pub new_total_stake_lem :
    (cfg : Config) (total : TotalStake) (old new : ℕ) {t : TotalStake}
    → new_total_stake cfg total old new ≡ ok t
    → (t.staked + old ≡ total.staked + new)
      × (t.powered_stake + powered cfg old ≡ total.powered_stake + powered cfg new)
unfolding new_total_stake add128 sub128 checked_add checked_sub
new_total_stake_lem cfg total old new h = ground arith
