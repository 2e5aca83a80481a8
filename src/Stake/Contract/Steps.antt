-- ===== src/Stake/Contract/Steps.antt =====
-- The contract as a state machine: a step is a message that is accepted, or a migration.
use wynddex.Base.{
  ℕ, ◌≡◌, subst, Bool, true, false, List, Option, ok, >>=-eq-ok, ok-injective, fail_if, unwrap_or,
  ltb, arith,
}
use wynddex.Asset.{AssetInfo, token, asset_key, validate}
use wynddex.Host.{Host, Curves, KeepsClaims}
use wynddex.Stake.State.{Msg}
use wynddex.Stake.Store.{Store, Env, MessageInfo, std_or_fail}
use wynddex.Stake.Staking.{execute_bond}
use wynddex.Stake.Admin.{MigrateMsg, migrate, maybe_addr, validate_converter, update_reward_config}
use wynddex.Stake.Contract.{
  ExecuteMsg, ReceiveMsg, execute, execute_receive, receive_msg, delegate, mass_delegate, fund,
  update_admin, create_distribution_flow, rebond, unbond, quick_unbond, unbond_all, stop_unbond_all,
  claim, receive, distribute_rewards, withdraw_rewards, delegate_withdrawal, fund_distribution,
  migrate_stake,
}
use wynddex.Stake.Invariant.{IsConsistent}
use wynddex.Stake.Invariant.Bonds.{execute_mass_bond-IsConsistent}
use wynddex.Stake.Invariant.Exits.{
  execute_migrate_stake-IsConsistent, execute_unbond-IsConsistent, execute_claim-IsConsistent,
}
use wynddex.Stake.Transfers.Rebond.{execute_rebond-IsConsistent}
use wynddex.Stake.Invariant.Kept.{Kept-IsConsistent}
use wynddex.Stake.Invariant.Others.{
  execute_withdraw_rewards-Kept, execute_delegate_withdrawal-Kept, execute_update_admin-Kept,
  execute_unbond_all-Kept, execute_stop_unbond_all-Kept,
}
use wynddex.Stake.Invariant.Funds.{
  execute_distribute_rewards-Kept, update_reward_config-Kept, execute_fund_distribution-Kept,
  execute_create_distribution_flow-Kept,
}

abbrev pub is_quick_unbond : ExecuteMsg → Bool
is_quick_unbond (quick_unbond _) = true
is_quick_unbond _ = false

module _ {C : Type 0} ⦃h : Host⦄ ⦃curves : Curves C⦄ where
  Sound : Store C × List Msg → Type 0
  Sound r = IsConsistent r.0

  -- What a token contract sends on: a bond for one or many, or funds for rewards.
  receive_msg-IsConsistent :
      (msg : ReceiveMsg) (env : Env) (info : MessageInfo) (sender amount : ℕ) (s : Store C)
      {r : Store C × List Msg}
      → IsConsistent s
      → receive_msg msg env info sender amount s ≡ ok r
      → Sound r
  unfolding receive_msg execute_bond Sound
  receive_msg-IsConsistent (delegate period other) env info sender amount s v e =
      let (_, _, e1) = >>=-eq-ok (fail_if s.unbond_all _) _ e in
      let (staker, _, e2) =
        >>=-eq-ok (std_or_fail (h.addr_validate (unwrap_or other sender))) _ e1 in
      (execute_mass_bond-IsConsistent info.sender amount period _ s v e2).0
  receive_msg-IsConsistent (mass_delegate period delegate_to) env info sender amount s v e =
      let (_, _, e1) = >>=-eq-ok (fail_if s.unbond_all _) _ e in
      (execute_mass_bond-IsConsistent info.sender amount period delegate_to s v e1).0
  receive_msg-IsConsistent (fund f) env info sender amount s v e =
      let (_, _, e1) = >>=-eq-ok (fail_if s.unbond_all _) _ e in
      let (_, _, e2) = >>=-eq-ok (fail_if (ltb f.start_time (h.seconds env.block_time)) _) _ e1 in
      let (asset, _, e3) = >>=-eq-ok (std_or_fail (validate (token info.sender))) _ e2 in
      let (t, et, e4) = >>=-eq-ok (update_reward_config s asset amount f) _ e3 in
      subst Sound (ok-injective e4)
        (Kept-IsConsistent (update_reward_config-Kept s asset amount f et) v)

  -- Every message that the contract accepts in a consistent storage, other than a quick
  -- unbonding, leaves it consistent, if the claims library counts the claims right.
  pub execute-IsConsistent :
      (query_balance : AssetInfo → Option ℕ) (env : Env) (info : MessageInfo) (msg : ExecuteMsg)
      (s : Store C) {r : Store C × List Msg}
      → KeepsClaims h
      → is_quick_unbond msg ≡ false
      → IsConsistent s
      → execute query_balance env info msg s ≡ ok r
      → IsConsistent r.0
  unfolding execute execute_receive Sound
  execute-IsConsistent q env info (update_admin a) s laws k v e =
      Kept-IsConsistent (execute_update_admin-Kept info a s e) v
  execute-IsConsistent q env info (create_distribution_flow m asset rewards) s laws k v e =
      Kept-IsConsistent (execute_create_distribution_flow-Kept info m asset rewards s e) v
  execute-IsConsistent q env info (rebond tokens from to) s laws k v e =
      (execute_rebond-IsConsistent env info tokens from to s v e).0
  execute-IsConsistent q env info (unbond amount period) s laws k v e =
      (execute_unbond-IsConsistent env info info.sender amount period s laws v e).0.0
  execute-IsConsistent q env info (quick_unbond stakers) s laws k v e = ground (arith, k)
  execute-IsConsistent q env info unbond_all s laws k v e =
      Kept-IsConsistent (execute_unbond_all-Kept info s e) v
  execute-IsConsistent q env info stop_unbond_all s laws k v e =
      Kept-IsConsistent (execute_stop_unbond_all-Kept info s e) v
  execute-IsConsistent q env info claim s laws k v e =
      (execute_claim-IsConsistent env info s laws v e).1
  execute-IsConsistent q env info (receive w) s laws k v e =
      receive_msg-IsConsistent w.msg env info w.sender w.amount s v e
  execute-IsConsistent q env info (distribute_rewards sender) s laws k v e =
      Kept-IsConsistent (execute_distribute_rewards-Kept q env info sender s e) v
  execute-IsConsistent q env info (withdraw_rewards owner receiver) s laws k v e =
      Kept-IsConsistent (execute_withdraw_rewards-Kept info owner receiver s e) v
  execute-IsConsistent q env info (delegate_withdrawal delegated) s laws k v e =
      Kept-IsConsistent (execute_delegate_withdrawal-Kept info delegated s e) v
  execute-IsConsistent q env info (fund_distribution f) s laws k v e =
      Kept-IsConsistent (execute_fund_distribution-Kept env info f s e) v
  execute-IsConsistent q env info (migrate_stake amount period) s laws k v e =
      (execute_migrate_stake-IsConsistent env info amount period s v e).0

  migrate-IsConsistent :
      (msg : MigrateMsg) (s : Store C) {t : Store C}
      → IsConsistent s
      → migrate msg s ≡ ok t
      → IsConsistent t
  unfolding migrate
  migrate-IsConsistent msg s v e =
      let (a, _, e1) = >>=-eq-ok (maybe_addr msg.unbonder) _ e in
      let (c, _, e2) = >>=-eq-ok (validate_converter msg.converter) _ e1 in
      subst IsConsistent (ok-injective e2) (record {
        positive = v.positive;
        distinct = v.distinct;
        tracks = v.tracks;
        covered = v.covered;
        backed = v.backed;
      })

  -- The storages that a sequence of steps reaches. A failed call changes nothing and is no step.
  pub data Reaches : Store C → Store C → Type 0 where
    here : (s : Store C) → Reaches s s
    call :
        (query_balance : AssetInfo → Option ℕ) (env : Env) (info : MessageInfo) (msg : ExecuteMsg)
        (s t u : Store C) (msgs : List Msg)
        → Reaches s t
        → is_quick_unbond msg ≡ false
        → execute query_balance env info msg t ≡ ok (u, msgs)
        → Reaches s u
    upgrade :
        (msg : MigrateMsg) (s t u : Store C) → Reaches s t → migrate msg t ≡ ok u → Reaches s u

  -- What a sequence of accepted messages other than quick unbonding, and of migrations, reaches from
  -- a consistent storage is consistent, if the claims library counts the claims right.
  pub Reaches-IsConsistent :
      {s t : Store C} → KeepsClaims h → IsConsistent s → Reaches s t → IsConsistent t
  Reaches-IsConsistent laws v (here s) = v
  Reaches-IsConsistent laws v (call q env info msg s t u msgs before k e) =
      execute-IsConsistent q env info msg t laws k (Reaches-IsConsistent laws v before) e
  Reaches-IsConsistent laws v (upgrade msg s t u before e) =
      migrate-IsConsistent msg t (Reaches-IsConsistent laws v before) e
