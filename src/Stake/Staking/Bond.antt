-- ===== src/Stake/Staking/Bond.antt =====
-- What bonding and unbonding do to one staker, and that the totals and the rewards follow.
use wynddex.Base.{
  some, ℕ, ◌+◌, ◌≤◌, ◌<◌, ◌≡◌, sym, ap, ◌∙◌, subst, arith, List, ok, >>=-eq-ok, ok-injective,
  sum_by, sum_by-set, fail_if,
}
use wynddex.Num.{add128, i128_limit}
use wynddex.Map.{lookup, HasDistinctKeys}
use wynddex.Asset.{AssetInfo, asset_key}
use wynddex.Host.{Host}
use wynddex.Stake.State.{Config, BondingInfo, TotalStake, Distribution}
use wynddex.Stake.Bonding.{bonded, add_unlocked_tokens, release_stake, total_stake, unlocked_at}
use wynddex.Stake.Bonding.Release.{total_stake-eq-ok, release_stake-eq-ok}
use wynddex.Stake.Power.{load_stake, save_stake, calc_rewards_power, calc_rewards_powers}
use wynddex.Stake.Totals.{update_total_stake, new_total_stake_lem}
use wynddex.Stake.Totals.Tracking.{TracksAll, save_stake-TracksAll, update_total_stake-eq-ok}
use wynddex.Stake.Store.{Store, Adjustments}
use wynddex.Stake.Staking.{adjust_rewards, bond_one, remove_stake_without_total, is_no_period}
use wynddex.Stake.Staking.Adjust.{save_distributions_self, KeepsShares, adjust_rewards-entitlement}

-- The storage after the bond of a staker in a period has become `b`, and nothing else has happened.
pub record Change {C : Type 0} ⦃h : Host⦄ (s s' : Store C) (staker period : ℕ) (b : BondingInfo)
    : Type 0 where
  pub olds : List ℕ
  pub totals : List (ℕ × TotalStake)
  pub adjustments : Adjustments
  pub powers : calc_rewards_powers s.config s.stake staker s.distribution ≡ ok olds
  pub updated :
      update_total_stake s.config s.total_per_period period
        (bonded (load_stake s.stake staker period))
        (bonded b)
      ≡ ok totals
  pub adjusted :
      adjust_rewards s.config
        (save_stake s.stake staker period b)
        staker
        s.distribution
        olds
        s.withdraw_adjustment
      ≡ ok adjustments
  pub result : s' ≡ record s {
    stake = save_stake s.stake staker period b;
    total_per_period = totals;
    withdraw_adjustment = adjustments;
  }

-- The sizes that the code computes are those of the bonds.
pub updated_sizes :
    (cfg : Config) (totals : List (ℕ × TotalStake)) (period : ℕ) (before after : BondingInfo)
    {old new : ℕ} {totals' : List (ℕ × TotalStake)}
    → total_stake before ≡ ok old
    → total_stake after ≡ ok new
    → update_total_stake cfg totals period old new ≡ ok totals'
    → update_total_stake cfg totals period (bonded before) (bonded after) ≡ ok totals'
updated_sizes cfg totals period before after eo en e =
    rw (← (total_stake-eq-ok before eo).0, ← (total_stake-eq-ok after en).0) e

pub add_unlocked_tokens-eq-ok :
    (info : BondingInfo) (amount : ℕ) {n : ℕ} {b : BondingInfo}
    → add_unlocked_tokens info amount ≡ ok (n, b)
    → bonded b ≡ bonded info + amount
unfolding add_unlocked_tokens add128
add_unlocked_tokens-eq-ok info amount e = ground arith

module _ {C : Type 0} ⦃h : Host⦄ where
  -- A round of the bonding loop adds the amount to the staker's bond.
  pub bond_one-Change :
      (s : Store C) (period staker amount : ℕ) {s' : Store C}
      → bond_one s period staker amount ≡ ok s'
      → (b : BondingInfo) × Change s s' staker period b
        × (bonded b ≡ bonded (load_stake s.stake staker period) + amount)
  unfolding bond_one
  bond_one-Change s period staker amount e =
      let cfg = s.config in
      let info = load_stake s.stake staker period in
      let (olds, ep, e1) = >>=-eq-ok (calc_rewards_powers cfg s.stake staker s.distribution) _ e in
      let (old, eo, e2) = >>=-eq-ok (total_stake info) _ e1 in
      let ((n, b), eb, e3) = >>=-eq-ok (add_unlocked_tokens info amount) _ e2 in
      let (new, en, e4) = >>=-eq-ok (total_stake b) _ e3 in
      let (totals, et, e5) =
        >>=-eq-ok (update_total_stake cfg s.total_per_period period old new) _ e4 in
      let (adj, ea, done) =
        >>=-eq-ok
          (adjust_rewards cfg (save_stake s.stake staker period b) staker s.distribution olds
            s.withdraw_adjustment)
          _ e5 in
      (
        b,
        record {
          olds = olds;
          totals = totals;
          adjustments = adj;
          powers = ep;
          updated = updated_sizes cfg s.total_per_period period info b eo en et;
          adjusted = ea;
          result = sym (ok-injective done);
        },
        add_unlocked_tokens-eq-ok info amount eb,
      )

  -- Removing stake takes the amount from the staker's bond, and only from what is free.
  pub remove_stake_without_total-Change :
      (s : Store C) (now staker period amount : ℕ) {s' : Store C}
      → HasDistinctKeys s.distribution
      → remove_stake_without_total s now staker period amount ≡ ok s'
      → (b : BondingInfo) × Change s s' staker period b
        × (bonded b + amount ≡ bonded (load_stake s.stake staker period))
        × (amount ≤ unlocked_at (load_stake s.stake staker period) now)
  unfolding remove_stake_without_total
  remove_stake_without_total-Change s now staker period amount distinct e =
      let cfg = s.config in
      let info = load_stake s.stake staker period in
      let (_, eg, e0) = >>=-eq-ok (fail_if (is_no_period cfg period) _) _ e in
      let (olds, ep, e1) = >>=-eq-ok (calc_rewards_powers cfg s.stake staker s.distribution) _ e0 in
      let (old, eo, e2) = >>=-eq-ok (total_stake info) _ e1 in
      let ((n, b), eb, e3) = >>=-eq-ok (release_stake info now amount) _ e2 in
      let (new, en, e4) = >>=-eq-ok (total_stake b) _ e3 in
      let (totals, et, e5) =
        >>=-eq-ok (update_total_stake cfg s.total_per_period period old new) _ e4 in
      let (adj, ea, done) =
        >>=-eq-ok
          (adjust_rewards cfg (save_stake s.stake staker period b) staker s.distribution olds
            s.withdraw_adjustment)
          _ e5 in
      let sizes = release_stake-eq-ok info now amount eb in
      (
        b,
        record {
          olds = olds;
          totals = totals;
          adjustments = adj;
          powers = ep;
          updated = updated_sizes cfg s.total_per_period period info b eo en et;
          adjusted = ea;
          result =
              sym (ok-injective done)
              ∙ ap
                  (λ ds. record s {
                    stake = save_stake s.stake staker period b;
                    total_per_period = totals;
                    withdraw_adjustment = adj;
                    distribution = ds;
                  })
                  (save_distributions_self s.distribution distinct);
        },
        sizes.0,
        sizes.2,
      )

-- The sum over the periods.
abbrev pub staked_total : List (ℕ × TotalStake) → ℕ
staked_total totals = sum_by (λ e. e.1.staked) totals

-- An update changes the sum by the change of the stake.
pub update_total_stake-staked_total :
    (cfg : Config) (totals : List (ℕ × TotalStake)) (period old new : ℕ)
    {totals' : List (ℕ × TotalStake)}
    → update_total_stake cfg totals period old new ≡ ok totals'
    → staked_total totals' + old ≡ staked_total totals + new
update_total_stake-staked_total cfg totals period old new e =
    let (i, t, t', at, changed, done) = update_total_stake-eq-ok cfg totals period old new e in
    let moved = sum_by-set (λ e. e.1.staked) totals i (period, t') at in
    let entry = new_total_stake_lem cfg t old new changed in
    let sum' = ap staked_total done in omega (arith, moved, entry.0, sum')

module _ {C : Type 0} ⦃h : Host⦄ {s s' : Store C} {staker period : ℕ} {b : BondingInfo}
    (c : Change s s' staker period b) where
  -- The totals follow the change.
  pub Change-TracksAll :
      0 < s.config.min_bond
      → TracksAll s.config s.stake s.total_per_period
      → TracksAll s'.config s'.stake s'.total_per_period
  Change-TracksAll positive tracks =
      let kept =
        save_stake-TracksAll s.config s.stake s.total_per_period staker period b positive tracks
          c.updated in
      subst (λ t. TracksAll t.config t.stake t.total_per_period) (sym c.result) kept.0

  pub Change-staked_total :
      staked_total s'.total_per_period + bonded (load_stake s.stake staker period)
      ≡ staked_total s.total_per_period + bonded b
  Change-staked_total = omega (
    arith,
    update_total_stake-staked_total s.config s.total_per_period period _ _ c.updated,
    ap (λ x. staked_total x.total_per_period) c.result,
  )

  -- In every distribution the staker's shares are those from before.
  pub Change-KeepsShares :
      (asset : AssetInfo) (d : Distribution) (old new : ℕ)
      → HasDistinctKeys s.distribution
      → lookup asset s.distribution ≡ some d
      → calc_rewards_power s.config s.stake d staker ≡ ok old
      → calc_rewards_power s.config s'.stake d staker ≡ ok new
      → d.shares_per_point < i128_limit
      → old < i128_limit
      → new < i128_limit
      → KeepsShares s.withdraw_adjustment s'.withdraw_adjustment staker asset d old new
  Change-KeepsShares asset d old new distinct at before after small small_old small_new =
      subst (λ m. KeepsShares s.withdraw_adjustment m staker asset d old new)
        (sym (ap (λ x. x.withdraw_adjustment) c.result))
        (adjust_rewards-entitlement s.config s.stake (save_stake s.stake staker period b) staker
          asset d old new before
          (subst (λ m. calc_rewards_power s.config m d staker ≡ ok new) (ap (λ x. x.stake) c.result)
            after)
          small small_old small_new s.distribution c.olds s.withdraw_adjustment distinct c.powers
          c.adjusted at)
