-- ===== src/Stake/Transfers/QuickUnbond.antt =====
-- Quick unbonding settles the totals of a period once for all stakers, with the sum of their bonds.
use wynddex.Base.{ℕ, ◌+◌, ◌≤◌, ◌<◌, ◌≡◌, ◌⊎◌, arith, ok}
use wynddex.Stake.State.{Config, TotalStake}
use wynddex.Stake.Totals.{new_total_stake, new_total_stake_lem}

-- Two bonds that are each empty or at least a positive `min_bond` are settled at once as they are
-- one by one, where all updates succeed.
pub new_total_stake-at_once :
    (cfg : Config) (t a b c : TotalStake) (x y : ℕ)
    → (x ≡ 0) ⊎ (cfg.min_bond ≤ x)
    → (y ≡ 0) ⊎ (cfg.min_bond ≤ y)
    → 0 < cfg.min_bond
    → new_total_stake cfg t (x + y) 0 ≡ ok a
    → new_total_stake cfg t x 0 ≡ ok b
    → new_total_stake cfg b y 0 ≡ ok c
    → (a.staked ≡ c.staked) × (a.powered_stake ≡ c.powered_stake)
new_total_stake-at_once cfg t a b c x y hx hy positive e f g = ground (
  arith,
  new_total_stake_lem cfg t (x + y) 0 e,
  new_total_stake_lem cfg t x 0 f,
  new_total_stake_lem cfg b y 0 g,
)

-- Two bonds that are each below `min_bond` but together at least that, where all updates succeed:
-- settled at once, their sum leaves the powered stake, of which they never were a part; one by
-- one, nothing leaves it. The staked total is the same.
pub new_total_stake-small_bonds :
    (cfg : Config) (t a b c : TotalStake) (x y : ℕ)
    → x < cfg.min_bond
    → y < cfg.min_bond
    → cfg.min_bond ≤ x + y
    → new_total_stake cfg t (x + y) 0 ≡ ok a
    → new_total_stake cfg t x 0 ≡ ok b
    → new_total_stake cfg b y 0 ≡ ok c
    → (a.staked ≡ c.staked)
      × (c.powered_stake ≡ t.powered_stake)
      × (a.powered_stake + (x + y) ≡ t.powered_stake)
new_total_stake-small_bonds cfg t a b c x y hx hy sum e f g = ground (
  arith,
  new_total_stake_lem cfg t (x + y) 0 e,
  new_total_stake_lem cfg t x 0 f,
  new_total_stake_lem cfg b y 0 g,
)
