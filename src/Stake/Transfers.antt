-- ===== src/Stake/Transfers.antt =====
-- contracts/stake/src/contract.rs: rebonding between periods, quick unbonding by the unbonder, and
-- claims.
pub mod Rebond
pub mod QuickUnbond
use wynddex.Base.{
  ℕ, ◌+◌, ◌-◌, Bool, true, false, not, List, [], ◌∷◌, ◌++◌, Option, none, some, map, Result, ok,
  err, panic, ◌>>=◌, ◌>>◌, fail_if, unwrap, unwrap_or, ltb, ◌==◌, if◌then◌else◌,
}
use wynddex.Num.{add128, sub128, sum128}
use wynddex.Map.{Map, lookup, insert, nat_key}
use wynddex.Asset.{AssetInfo, asset_key}
use wynddex.Host.{Host, Claim}
use wynddex.Stake.State.{
  Config, BondingInfo, TokenInfo, TotalStake, Distribution, ContractError, unauthorized,
  same_unbonding_rebond, no_rebond_amount, nothing_to_claim, no_unbonding_period_found,
  cannot_rebond_if_unbond_all, Msg, cw20_transfer,
}
use wynddex.Stake.Bonding.{
  add_unlocked_tokens, add_locked_tokens, release_stake, force_unlock_all, total_stake,
}
use wynddex.Stake.Power.{Stakes, load_stake, save_stake, periods_of, calc_rewards_powers}
use wynddex.Stake.Totals.{update_total_stake}
use wynddex.Stake.Rewards.{update_rewards}
use wynddex.Stake.Store.{Store, Env, MessageInfo, Answer, Adjustments, Distributions, std_or_fail}
use wynddex.Stake.Staking.{is_no_period, save_distributions, adjust_rewards}

-- A move to a shorter period locks the tokens for the difference.
unfoldable pub arrive : ⦃h : Host⦄ → BondingInfo → ℕ → ℕ → ℕ → ℕ → Result ContractError BondingInfo
arrive ⦃h⦄ bonding_info now amount bond_from bond_to = do
  let locked : Result ContractError BondingInfo = do
    expires ← unwrap (h.plus_seconds now (bond_from - bond_to))
    add_locked_tokens bonding_info expires amount
  let unlocked : Result ContractError BondingInfo = do
    (_, b) ← add_unlocked_tokens bonding_info amount
    ok b
  if ltb bond_to bond_from then locked else unlocked

-- What one staker unbonds: the amounts by period, and their sum.
unfoldable pub release_each :
    ℕ → ℕ → Map ℕ BondingInfo → Map ℕ ℕ → ℕ → Stakes → Result ContractError (Map ℕ ℕ × ℕ × Stakes)
release_each now staker [] unbonded_by_period staker_unbonds stakes =
    ok (unbonded_by_period, staker_unbonds, stakes)
release_each now staker ((period, bonding_info) ∷ rest) unbonded_by_period staker_unbonds stakes =
    do
      old_stake ← total_stake bonding_info
      unbonded ← unwrap (lookup period unbonded_by_period)
      unbonded' ← add128 unbonded old_stake
      staker_unbonds' ← add128 staker_unbonds old_stake
      (_, unlocked) ← force_unlock_all bonding_info
      (_, released) ← release_stake unlocked now old_stake
      release_each now staker rest (insert period unbonded' unbonded_by_period) staker_unbonds'
          (save_stake stakes staker period released)

-- A staker without power in a distribution is skipped; the new power is 0.
unfoldable pub drop_rewards :
    ℕ → Distributions → List ℕ → Adjustments → Result ContractError Adjustments
drop_rewards staker [] olds m = ok m
drop_rewards staker (_ ∷ _) [] m = ok m
drop_rewards staker ((asset, d) ∷ ds) (old ∷ olds) m = do
  m' ← if old == 0 then ok m else update_rewards m asset staker d old 0
  drop_rewards staker ds olds m'

-- `update_total_stake` for each period, from what was unbonded in it to zero.
unfoldable pub settle_periods :
    Config → Map ℕ ℕ → List (ℕ × TotalStake) → Result ContractError (List (ℕ × TotalStake))
settle_periods cfg [] totals = ok totals
settle_periods cfg ((period, unbonded) ∷ rest) totals = do
  totals' ← update_total_stake cfg totals period unbonded 0
  settle_periods cfg rest totals'

-- The counters of quick unbonding, at zero for each period. The entries are in the order of the
-- periods, where the source has a `HashMap`.
unfoldable pub zero_counters : List ℕ → Map ℕ ℕ
zero_counters [] = []
zero_counters (p ∷ ps) = insert p 0 (zero_counters ps)

-- `cfg.unbonder == Some(sender)`
abbrev pub is_unbonder : Option ℕ → ℕ → Bool
is_unbonder none sender = false
is_unbonder (some a) sender = a == sender

-- `validate_addresses` of packages/wyndex/src/common.rs
unfoldable pub validate_addresses : ⦃h : Host⦄ → List ℕ → Result ContractError (List ℕ)
validate_addresses [] = ok []
validate_addresses ⦃h⦄ (raw ∷ rest) = do
  a ← std_or_fail (h.addr_validate raw)
  addresses ← validate_addresses rest
  ok (a ∷ addresses)

-- The two updates of `STAKE` in `execute_rebond`: the old and new sizes, and the new bonds.
unfoldable pub move_bond :
    ⦃h : Host⦄ → Stakes → ℕ → ℕ → ℕ → ℕ → ℕ → Result ContractError (ℕ × ℕ × ℕ × ℕ × Stakes)
unfolding arrive
move_bond stakes now staker amount bond_from bond_to = do
  -- reduce the `bond_from`
  let info_from = load_stake stakes staker bond_from
  old_stake_from ← total_stake info_from
  (_, left) ← release_stake info_from now amount
  let stakes' = save_stake stakes staker bond_from left
  new_stake_from ← total_stake left
  -- increase the `bond_to`
  let info_to = load_stake stakes' staker bond_to
  old_stake_to ← total_stake info_to
  arrived ← arrive info_to now amount bond_from bond_to
  new_stake_to ← total_stake arrived
  ok (
    old_stake_from,
    new_stake_from,
    old_stake_to,
    new_stake_to,
    save_stake stakes' staker bond_to arrived,
  )

module _ {C : Type 0} ⦃h : Host⦄ where
  -- `execute_rebond` past its guards.
  unfoldable pub rebond : Store C → ℕ → ℕ → ℕ → ℕ → ℕ → Answer C
  unfolding move_bond
  rebond s now staker amount bond_from bond_to = do
    let cfg = s.config
    olds ← calc_rewards_powers cfg s.stake staker s.distribution
    (old_from, new_from, old_to, new_to, stakes) ←
        move_bond s.stake now staker amount bond_from bond_to
    totals ← update_total_stake cfg s.total_per_period bond_from old_from new_from
    totals' ← update_total_stake cfg totals bond_to old_to new_to
    adjustments ← adjust_rewards cfg stakes staker s.distribution olds s.withdraw_adjustment
    ok (
      record s {
        stake = stakes;
        total_per_period = totals';
        withdraw_adjustment = adjustments;
        distribution = save_distributions s.distribution s.distribution;
      },
      [],
    )

  unfoldable pub execute_rebond : Env → MessageInfo → ℕ → ℕ → ℕ → Store C → Answer C
  unfolding rebond
  execute_rebond env info amount bond_from bond_to s = do
    fail_if s.unbond_all cannot_rebond_if_unbond_all
    fail_if (amount == 0) no_rebond_amount
    fail_if (bond_from == bond_to) same_unbonding_rebond
    fail_if (is_no_period s.config bond_from) (no_unbonding_period_found bond_from)
    fail_if (is_no_period s.config bond_to) (no_unbonding_period_found bond_to)
    rebond s env.block_time info.sender amount bond_from bond_to

  -- One staker of `execute_quick_unbond`: the counters, the claims removed so far and the messages.
  unfoldable pub quick_unbond_one :
      ℕ
      → ℕ
      → Map ℕ ℕ
      → ℕ
      → List Msg
      → Store C
      → Result ContractError (Map ℕ ℕ × ℕ × List Msg × Store C)
  quick_unbond_one now staker unbonded_by_period claimed_total msgs s = do
    let cfg = s.config
    olds ← calc_rewards_powers cfg s.stake staker s.distribution
    (unbonded, staker_unbonds, stakes) ←
        release_each now staker (periods_of s.stake staker) unbonded_by_period 0 s.stake
    adjustments ← drop_rewards staker s.distribution olds s.withdraw_adjustment
    open_claims ← sum128 (map (λ c. c.amount) (unwrap_or (lookup staker s.claims) []))
    claimed_total' ← add128 claimed_total open_claims
    amount ← add128 staker_unbonds open_claims
    ok (
      unbonded,
      claimed_total',
      (if amount == 0 then msgs else msgs ++ cw20_transfer cfg.cw20_contract staker amount ∷ []),
      record s {
        stake = stakes;
        withdraw_adjustment = adjustments;
        claims = insert staker [] s.claims;
      },
    )

  unfoldable pub quick_unbond_each :
      ℕ
      → List ℕ
      → Map ℕ ℕ
      → ℕ
      → List Msg
      → Store C
      → Result ContractError (Map ℕ ℕ × ℕ × List Msg × Store C)
  quick_unbond_each now [] unbonded_by_period claimed_total msgs s =
      ok (unbonded_by_period, claimed_total, msgs, s)
  quick_unbond_each now (staker ∷ stakers) unbonded_by_period claimed_total msgs s = do
    (unbonded, claimed, msgs', s') ←
        quick_unbond_one now staker unbonded_by_period claimed_total msgs s
    quick_unbond_each now stakers unbonded claimed msgs' s'

  unfoldable pub execute_quick_unbond : Env → MessageInfo → List ℕ → Store C → Answer C
  unfolding zero_counters
  execute_quick_unbond env info stakers s = do
    let cfg = s.config
    fail_if (not (is_unbonder cfg.unbonder info.sender)) unauthorized
    stakers ← validate_addresses stakers
    (unbonded, claimed_total, msgs, s') ←
        quick_unbond_each env.block_time stakers (zero_counters cfg.unbonding_periods) 0 [] s
    unbonded_total ← sum128 (map (λ e. e.1) unbonded)
    totals ← settle_periods cfg unbonded s'.total_per_period
    staked ← sub128 s'.total_staked.staked unbonded_total
    unbonding ← sub128 s'.total_staked.unbonding claimed_total
    ok (
      record s' {
        distribution = save_distributions s'.distribution s'.distribution;
        total_per_period = totals;
        total_staked = record { staked = staked; unbonding = unbonding };
      },
      msgs,
    )

  unfoldable pub execute_claim : Env → MessageInfo → Store C → Answer C
  execute_claim env info s = do
    let (release, left) = h.claim_tokens (unwrap_or (lookup info.sender s.claims) []) env.block_time
    fail_if (release == 0) nothing_to_claim
    ok (
      record s {
        claims = insert info.sender left s.claims;
        total_staked = record (s.total_staked) { unbonding = s.total_staked.unbonding - release };
      },
      cw20_transfer s.config.cw20_contract info.sender release ∷ [],
    )
