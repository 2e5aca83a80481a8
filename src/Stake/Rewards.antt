-- ===== src/Stake/Rewards.antt =====
-- contracts/stake/src/distribution.rs and `update_rewards` of contract.rs: rewards are counted in
-- shares, a staker's shares are the shares per point times the staker's power, plus a correction.
pub mod Entitlement
pub mod Distribute
pub mod Withdraw
pub mod Authority
use wynddex.Base.{
  ℕ, ◌+◌, ◌*◌, ◌/◌, ◌%◌, Bool, true, false, List, [], ◌∷◌, ◌++◌, Option, none, some, Result, ok,
  err, panic, ◌>>=◌, ◌>>◌, fail_if, not, unwrap_or, ok_or, ◌==◌, ◌&&◌, ◌||◌, if◌then◌else◌,
}
use wynddex.Num.{
  ℤ, pos, ◌+ℤ◌, ◌-ℤ◌, ◌*ℤ◌, as_i128, as_u128, to_i128, add128, sub128, mul128, u128_limit,
  u64_limit,
}
use wynddex.Map.{Map, lookup, insert, nat_key}
use wynddex.Asset.{AssetInfo, token, native, asset_key, into_msg}
use wynddex.Host.{Host, Curves}
use wynddex.Stake.State.{
  Config, TotalStake, Distribution, ContractError, unauthorized, cannot_distribute_if_unbond_all,
  no_distribution_flow, std, not_found, Msg, cw20_transfer, bank_send,
}
use wynddex.Stake.Power.{Stakes, calc_rewards_power, total_rewards_power}
use wynddex.Stake.Store.{
  Store, Env, MessageInfo, Answer, WithdrawAdjustment, no_adjustment, Adjustments, Distributions,
  std_or_fail,
}

abbrev pub load_adjustment : Adjustments → ℕ → AssetInfo → WithdrawAdjustment
load_adjustment m owner asset =
    unwrap_or (lookup asset (unwrap_or (lookup owner m) [])) no_adjustment

unfoldable pub save_adjustment : Adjustments → ℕ → AssetInfo → WithdrawAdjustment → Adjustments
save_adjustment m owner asset a = insert owner (insert asset a (unwrap_or (lookup owner m) [])) m

-- `diff` is the change of the points.
unfoldable pub apply_points_correction :
    Adjustments → ℕ → AssetInfo → ℕ → ℤ → Result ContractError Adjustments
apply_points_correction m addr asset shares_per_point diff = do
  let old = load_adjustment m addr asset
  moved ← to_i128 (as_i128 shares_per_point *ℤ diff)
  correction ← to_i128 (old.shares_correction -ℤ moved)
  ok (save_adjustment m addr asset (record old { shares_correction = correction }))

unfoldable pub update_rewards :
    Adjustments → AssetInfo → ℕ → Distribution → ℕ → ℕ → Result ContractError Adjustments
unfolding apply_points_correction
update_rewards m asset sender d old_power new_power = if old_power == new_power then ok m else do
  diff ← to_i128 (as_i128 new_power -ℤ as_i128 old_power)
  apply_points_correction m sender asset d.shares_per_point diff

-- `SHARES_SHIFT`: `x << 32` keeps the low 128 bits.
abbrev pub shares_scale : ℕ
shares_scale = 4294967296

shift_left : ℕ → ℕ
shift_left x = x * shares_scale % u128_limit

unfoldable pub withdrawable_rewards :
    ⦃h : Host⦄ → Config → Stakes → ℕ → Distribution → WithdrawAdjustment → Result ContractError ℕ
withdrawable_rewards cfg stakes owner d adjustment = do
  power ← calc_rewards_power cfg stakes d owner
  points ← mul128 d.shares_per_point power
  corrected ← to_i128 (as_i128 points +ℤ adjustment.shares_correction)
  sub128 (as_u128 corrected / shares_scale) adjustment.withdrawn_rewards

-- The body of the loop of `execute_distribute_rewards` for one distribution with an amount to
-- distribute over a total power that is not zero.
unfoldable pub distribute : Distribution → ℕ → ℕ → Result ContractError Distribution
unfolding shift_left
distribute d total_rewards amount = do
  points ← add128 (shift_left amount) d.shares_leftover
  shares ← add128 d.shares_per_point (points / total_rewards)
  distributed ← add128 d.distributed_total amount
  withdrawable ← add128 d.withdrawable_total amount
  ok (record d {
    shares_per_point = shares;
    shares_leftover = points % total_rewards % u64_limit;
    distributed_total = distributed;
    withdrawable_total = withdrawable;
  })

unfoldable pub native_denoms : Distributions → List ℕ
native_denoms [] = []
native_denoms ((token _, _) ∷ ds) = native_denoms ds
native_denoms ((native denom, _) ∷ ds) = denom ∷ native_denoms ds

contains : List ℕ → ℕ → Bool
contains [] a = false
contains (x ∷ xs) a = x == a || contains xs a

-- The first coin whose denomination is not in the list.
unfoldable pub unsupported_coin : List ℕ → List (ℕ × ℕ) → Option (ℕ × ℕ)
unfolding contains
unsupported_coin supported [] = none
unsupported_coin supported (c ∷ cs) =
    if contains supported c.0 then unsupported_coin supported cs else some c

-- An optional address in a message is validated if it is there.
unfoldable pub optional_address : ⦃h : Host⦄ → Option ℕ → ℕ → Result ContractError ℕ
optional_address none default = ok default
optional_address ⦃h⦄ (some raw) default = std_or_fail (h.addr_validate raw)

unfoldable pub reject_coin : Option (ℕ × ℕ) → Result ContractError (Unit {0})
reject_coin none = ok tt
reject_coin (some coin) = err (no_distribution_flow coin)

module _ {C : Type 0} ⦃h : Host⦄ ⦃curves : Curves C⦄ where
  -- One round of the loop over the distributions. `query_balance` is the contract's balance.
  unfoldable pub distribute_one :
      (AssetInfo → Option ℕ)
      → ℕ
      → Store C
      → AssetInfo
      → Distribution
      → Result ContractError (Store C)
  distribute_one query_balance now s asset d = do
    total_rewards ← total_rewards_power s.config s.total_per_period d
    let distribute_amount : Result ContractError (Store C) = do
      balance ← std_or_fail (query_balance asset)
      curve ← ok_or (lookup asset s.reward_curve) (std not_found)
      unassigned ← sub128 balance d.withdrawable_total
      amount ← sub128 unassigned (curves.value curve now)
      let spread : Result ContractError (Store C) = do
        d' ← distribute d total_rewards amount
        ok (record s { distribution = insert asset d' s.distribution })
      if amount == 0 then ok s else spread
    if total_rewards == 0 then ok s else distribute_amount

  unfoldable pub distribute_each :
      (AssetInfo → Option ℕ) → ℕ → Distributions → Store C → Result ContractError (Store C)
  distribute_each query_balance now [] s = ok s
  distribute_each query_balance now ((asset, d) ∷ ds) s = do
    s' ← distribute_one query_balance now s asset d
    distribute_each query_balance now ds s'

  unfoldable pub execute_distribute_rewards :
      (AssetInfo → Option ℕ) → Env → MessageInfo → Option ℕ → Store C → Answer C
  unfolding distribute_each unsupported_coin native_denoms optional_address reject_coin
  execute_distribute_rewards query_balance env info sender s = do
    fail_if s.unbond_all (cannot_distribute_if_unbond_all "rewards")
    _ ← optional_address sender info.sender
    reject_coin (unsupported_coin (native_denoms s.distribution) info.funds)
    s' ← distribute_each query_balance (h.seconds env.block_time) s.distribution s
    ok (s', [])

module _ {C : Type 0} ⦃h : Host⦄ where
  -- One round of the loop of `execute_withdraw_rewards`: the storage and the messages so far.
  unfoldable pub withdraw_one : ℕ → ℕ → Store C → List Msg → AssetInfo → Distribution → Answer C
  unfolding into_msg
  withdraw_one owner receiver s msgs asset d = do
    let adjustment = load_adjustment s.withdraw_adjustment owner asset
    reward ← withdrawable_rewards s.config s.stake owner d adjustment
    let pay : Answer C = do
      withdrawn ← add128 adjustment.withdrawn_rewards reward
      let adjusted = record adjustment { withdrawn_rewards = withdrawn }
      left ← sub128 d.withdrawable_total reward
      ok (
        record s {
          withdraw_adjustment = save_adjustment s.withdraw_adjustment owner asset adjusted;
          distribution = insert asset (record d { withdrawable_total = left }) s.distribution;
        },
        msgs ++ into_msg asset reward receiver ∷ [],
      )
    if reward == 0 then ok (s, msgs) else pay

  unfoldable pub withdraw_each : ℕ → ℕ → Distributions → Store C → List Msg → Answer C
  withdraw_each owner receiver [] s msgs = ok (s, msgs)
  withdraw_each owner receiver ((asset, d) ∷ ds) s msgs = do
    (s', msgs') ← withdraw_one owner receiver s msgs asset d
    withdraw_each owner receiver ds s' msgs'

  unfoldable pub execute_withdraw_rewards : MessageInfo → Option ℕ → Option ℕ → Store C → Answer C
  unfolding withdraw_each optional_address
  execute_withdraw_rewards info owner receiver s = do
    owner ← optional_address owner info.sender
    receiver ← optional_address receiver info.sender
    let delegated = unwrap_or (lookup owner s.delegated) owner
    fail_if (not (owner == info.sender || delegated == info.sender)) unauthorized
    withdraw_each owner receiver s.distribution s []

  unfoldable pub execute_delegate_withdrawal : MessageInfo → ℕ → Store C → Answer C
  execute_delegate_withdrawal info delegated s = do
    delegated ← std_or_fail (h.addr_validate delegated)
    ok (record s { delegated = insert info.sender delegated s.delegated }, [])
