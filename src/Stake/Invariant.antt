-- ===== src/Stake/Invariant.antt =====
-- The invariant of the staking contract's storage, and that the handlers keep it.
pub mod Bonds
pub mod Claims
pub mod Exits
pub mod Kept
pub mod Others
pub mod Funds
use wynddex.Base.{ℕ, ◌≤◌, ◌<◌, ◌≡◌, List, sum_by}
use wynddex.Map.{total, HasDistinctKeys, nat_key, Map}
use wynddex.Asset.{asset_key}
use wynddex.Host.{Claim, claimed}
use wynddex.Stake.Store.{Store}
use wynddex.Stake.Totals.Tracking.{TracksAll}
use wynddex.Stake.Staking.Bond.{staked_total}

-- The totals by period are the sums of the stakers' bonds, the stored total of staked tokens covers
-- them, and the stored total of unbonding tokens is the sum of the open claims.
pub record IsConsistent {C : Type 0} (s : Store C) : Type 0 where
  pub positive : 0 < s.config.min_bond
  pub distinct : HasDistinctKeys s.distribution
  pub tracks : TracksAll s.config s.stake s.total_per_period
  pub covered : staked_total s.total_per_period ≤ s.total_staked.staked
  pub backed : total claimed s.claims ≡ s.total_staked.unbonding
