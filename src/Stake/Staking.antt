-- ===== src/Stake/Staking.antt =====
-- contracts/stake/src/contract.rs: bonding, unbonding, rebonding and migrating stake.
pub mod Adjust
pub mod Bond
use wynddex.Base.{
  ℕ, ◌+◌, ◌-◌, ◌≡◌, refl, Bool, true, false, not, List, [], ◌∷◌, ◌++◌, Option, none, some, map,
  Result, ok, err, panic, ◌>>=◌, ◌>>◌, fail_if, ok_or, unwrap, unwrap_or, ltb, ◌==◌, if◌then◌else◌,
}
use wynddex.Num.{add128, sub128, sum128}
use wynddex.Map.{Map, lookup, insert, nat_key}
use wynddex.Search.{found, not_found, search_by_key}
use wynddex.Asset.{AssetInfo, asset_key}
use wynddex.Host.{Host, Claim}
use wynddex.Stake.State.{
  Config, BondingInfo, TokenInfo, Distribution, ContractError, std, overflow, unauthorized,
  same_unbonding_rebond, no_rebond_amount, nothing_to_claim, cw20_addresses_not_match,
  mass_delegate_too_much, no_unbonding_period_found, no_converter, cannot_rebond_if_unbond_all, Msg,
  cw20_transfer, convert,
}
use wynddex.Stake.Bonding.{
  add_unlocked_tokens, add_locked_tokens, release_stake, force_unlock_all, total_stake,
}
use wynddex.Stake.Power.{
  Stakes, load_stake, save_stake, periods_of, calc_rewards_power, calc_rewards_powers,
}
use wynddex.Stake.Totals.{update_total_stake}
use wynddex.Stake.Rewards.{update_rewards}
use wynddex.Stake.Store.{Store, Env, MessageInfo, Answer, Adjustments, Distributions, std_or_fail}

-- `cfg.unbonding_periods.binary_search(&period).is_err()`
unfoldable pub is_no_period : Config → ℕ → Bool
is_no_period cfg period = elim (search_by_key (λ p. p) period cfg.unbonding_periods) [
  | found _ ↦ false
  | not_found _ ↦ true
]

-- Saving the distributions of a list.
unfoldable pub save_distributions : Distributions → Distributions → Distributions
save_distributions [] m = m
save_distributions ((asset, d) ∷ ds) m = save_distributions ds (insert asset d m)

-- The loop that corrects a staker's rewards in each distribution, from the powers before.
unfoldable pub adjust_rewards :
    ⦃h : Host⦄
    → Config
    → Stakes
    → ℕ
    → Distributions
    → List ℕ
    → Adjustments
    → Result ContractError Adjustments
adjust_rewards cfg stakes staker [] olds m = ok m
adjust_rewards cfg stakes staker (_ ∷ _) [] m = ok m
adjust_rewards cfg stakes staker ((asset, d) ∷ ds) (old ∷ olds) m = do
  new ← calc_rewards_power cfg stakes d staker
  m' ← update_rewards m asset staker d old new
  adjust_rewards cfg stakes staker ds olds m'

-- `token_info.staked.saturating_sub(amount)`: subtraction that stops at 0
abbrev pub take_staked : TokenInfo → ℕ → TokenInfo
take_staked t amount = record t { staked = t.staked - amount }

module _ {C : Type 0} ⦃h : Host⦄ where
  -- One round of the loop of `execute_mass_bond`. The distributions are those of the storage.
  unfoldable pub bond_one : Store C → ℕ → ℕ → ℕ → Result ContractError (Store C)
  bond_one s period staker amount = do
    let cfg = s.config
    olds ← calc_rewards_powers cfg s.stake staker s.distribution
    let bonding_info = load_stake s.stake staker period
    old_stake ← total_stake bonding_info
    (_, bonded) ← add_unlocked_tokens bonding_info amount
    let stakes = save_stake s.stake staker period bonded
    new_stake ← total_stake bonded
    totals ← update_total_stake cfg s.total_per_period period old_stake new_stake
    adjustments ← adjust_rewards cfg stakes staker s.distribution olds s.withdraw_adjustment
    ok (record s { stake = stakes; total_per_period = totals; withdraw_adjustment = adjustments })

  unfoldable pub bond_each : Store C → ℕ → List (ℕ × ℕ) → Result ContractError (Store C)
  bond_each s period [] = ok s
  bond_each s period ((raw, amount) ∷ rest) = do
    staker ← std_or_fail (h.addr_validate raw)
    s' ← bond_one s period staker amount
    bond_each s' period rest

  unfoldable pub execute_mass_bond : ℕ → ℕ → ℕ → List (ℕ × ℕ) → Store C → Answer C
  execute_mass_bond sender_cw20_contract amount_sent period delegate_to s = do
    let cfg = s.config
    fail_if (not (cfg.cw20_contract == sender_cw20_contract))
        (cw20_addresses_not_match sender_cw20_contract cfg.cw20_contract)
    fail_if (is_no_period cfg period) (no_unbonding_period_found period)
    total ← sum128 (map (λ e. e.1) delegate_to)
    fail_if (ltb amount_sent total) (mass_delegate_too_much total amount_sent)
    s' ← bond_each s period delegate_to
    staked ← add128 s'.total_staked.staked amount_sent
    ok (
      record s' {
        distribution = save_distributions s'.distribution s'.distribution;
        total_staked = record (s'.total_staked) { staked = staked };
      },
      [],
    )

  -- `sender.to_string()`: a validated address is validated again.
  unfoldable pub execute_bond : ℕ → ℕ → ℕ → ℕ → Store C → Answer C
  execute_bond sender_cw20_contract amount period sender s =
      execute_mass_bond sender_cw20_contract amount period ((sender, amount) ∷ []) s

  unfoldable pub remove_stake_without_total :
      Store C → ℕ → ℕ → ℕ → ℕ → Result ContractError (Store C)
  remove_stake_without_total s now staker period amount = do
    let cfg = s.config
    fail_if (is_no_period cfg period) (no_unbonding_period_found period)
    olds ← calc_rewards_powers cfg s.stake staker s.distribution
    let bonding_info = load_stake s.stake staker period
    old_stake ← total_stake bonding_info
    (_, released) ← release_stake bonding_info now amount
    let stakes = save_stake s.stake staker period released
    new_stake ← total_stake released
    totals ← update_total_stake cfg s.total_per_period period old_stake new_stake
    adjustments ← adjust_rewards cfg stakes staker s.distribution olds s.withdraw_adjustment
    ok (record s {
      stake = stakes;
      total_per_period = totals;
      withdraw_adjustment = adjustments;
      distribution = save_distributions s.distribution s.distribution;
    })

  -- `execute_unbond` once the stake is removed: the total, and a transfer or a claim.
  unfoldable pub finish_unbond : Bool → Env → MessageInfo → ℕ → ℕ → Store C → Answer C
  finish_unbond unbond_all env info amount period s = do
    unbonding ← add128 s.total_staked.unbonding (if unbond_all then 0 else amount)
    let total : TokenInfo = record {
      staked = s.total_staked.staked - amount;
      unbonding = unbonding;
    }
    let claim : Answer C = do
      release_at ← unwrap (h.plus_seconds env.block_time period)
      let claims = h.create_claim (unwrap_or (lookup info.sender s.claims) []) amount release_at
      ok (record s { total_staked = total; claims = insert info.sender claims s.claims }, [])
    let direct : Answer C = ok (
      record s { total_staked = total },
      cw20_transfer s.config.cw20_contract info.sender amount ∷ [],
    )
    if unbond_all then direct else claim

  unfoldable pub execute_unbond : Env → MessageInfo → ℕ → ℕ → Store C → Answer C
  unfolding finish_unbond
  execute_unbond env info amount period s = do
    s' ← remove_stake_without_total s env.block_time info.sender period amount
    finish_unbond s.unbond_all env info amount period s'

  unfoldable pub execute_migrate_stake : Env → MessageInfo → ℕ → ℕ → Store C → Answer C
  execute_migrate_stake env info amount period s = do
    let cfg = s.config
    converter ← ok_or cfg.converter no_converter
    s' ← remove_stake_without_total s env.block_time info.sender period amount
    ok (
      record s' { total_staked = take_staked s'.total_staked amount },
      cw20_transfer cfg.cw20_contract converter.contract amount
          ∷ convert converter.contract info.sender amount period cfg.instantiator converter.pair_to
          ∷ [],
    )
