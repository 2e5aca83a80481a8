-- ===== src/Stake/Contract.antt =====
-- contracts/stake/src/contract.rs: the messages of the contract and their dispatch.
pub mod Steps
pub mod Halt
use wynddex.Base.{
  ℕ, Bool, List, [], Option, none, some, Result, ok, err, ◌>>=◌, ◌>>◌, fail_if, unwrap_or, ltb,
}
use wynddex.Asset.{AssetInfo, token, asset_key, validate}
use wynddex.Host.{Host, Curves}
use wynddex.Stake.State.{
  ContractError, cannot_delegate_if_unbond_all, cannot_distribute_if_unbond_all, past_starting_time,
}
use wynddex.Stake.Store.{Store, Env, MessageInfo, Answer, std_or_fail}
use wynddex.Stake.Rewards.{
  execute_distribute_rewards, execute_withdraw_rewards, execute_delegate_withdrawal,
}
use wynddex.Stake.Staking.{execute_bond, execute_mass_bond, execute_unbond, execute_migrate_stake}
use wynddex.Stake.Transfers.{execute_rebond, execute_quick_unbond, execute_claim}
use wynddex.Stake.Admin.{
  FundingInfo, update_reward_config, execute_fund_distribution, execute_create_distribution_flow,
  execute_unbond_all, execute_stop_unbond_all, execute_update_admin,
}

pub data ReceiveMsg : Type 0 where
  delegate : ℕ → Option ℕ → ReceiveMsg
  mass_delegate : ℕ → List (ℕ × ℕ) → ReceiveMsg
  fund : FundingInfo → ReceiveMsg

-- `Cw20ReceiveMsg`, with its message parsed.
pub record Cw20ReceiveMsg : Type 0 where
  pub sender : ℕ
  pub amount : ℕ
  pub msg : ReceiveMsg

pub data ExecuteMsg : Type 0 where
  update_admin : Option ℕ → ExecuteMsg
  create_distribution_flow : ℕ → AssetInfo → List (ℕ × ℕ) → ExecuteMsg
  rebond : ℕ → ℕ → ℕ → ExecuteMsg
  unbond : ℕ → ℕ → ExecuteMsg
  quick_unbond : List ℕ → ExecuteMsg
  unbond_all stop_unbond_all claim : ExecuteMsg
  receive : Cw20ReceiveMsg → ExecuteMsg
  distribute_rewards : Option ℕ → ExecuteMsg
  withdraw_rewards : Option ℕ → Option ℕ → ExecuteMsg
  delegate_withdrawal : ℕ → ExecuteMsg
  fund_distribution : FundingInfo → ExecuteMsg
  migrate_stake : ℕ → ℕ → ExecuteMsg

module _ {C : Type 0} ⦃h : Host⦄ ⦃curves : Curves C⦄ where
  unfoldable pub receive_msg : ReceiveMsg → Env → MessageInfo → ℕ → ℕ → Store C → Answer C
  receive_msg (delegate period delegate_as) env info sender amount s = do
    fail_if s.unbond_all cannot_delegate_if_unbond_all
    staker ← std_or_fail (h.addr_validate (unwrap_or delegate_as sender))
    execute_bond info.sender amount period staker s
  receive_msg (mass_delegate period delegate_to) env info sender amount s = do
    fail_if s.unbond_all cannot_delegate_if_unbond_all
    execute_mass_bond info.sender amount period delegate_to s
  receive_msg (fund f) env info sender amount s = do
    fail_if s.unbond_all (cannot_distribute_if_unbond_all "funds")
    fail_if (ltb f.start_time (h.seconds env.block_time)) past_starting_time
    asset ← std_or_fail (validate (token info.sender))
    s' ← update_reward_config s asset amount f
    ok (s', [])

  unfoldable pub execute_receive : Env → MessageInfo → Cw20ReceiveMsg → Store C → Answer C
  execute_receive env info wrapper s =
      receive_msg wrapper.msg env info wrapper.sender wrapper.amount s

  -- `query_balance` gives the balances of the contract.
  unfoldable pub execute :
      (AssetInfo → Option ℕ) → Env → MessageInfo → ExecuteMsg → Store C → Answer C
  execute query_balance env info (update_admin a) s = execute_update_admin info a s
  execute query_balance env info (create_distribution_flow manager asset rewards) s =
      execute_create_distribution_flow info manager asset rewards s
  execute query_balance env info (rebond tokens bond_from bond_to) s =
      execute_rebond env info tokens bond_from bond_to s
  execute query_balance env info (unbond amount period) s = execute_unbond env info amount period s
  execute query_balance env info (quick_unbond stakers) s = execute_quick_unbond env info stakers s
  execute query_balance env info unbond_all s = execute_unbond_all info s
  execute query_balance env info stop_unbond_all s = execute_stop_unbond_all info s
  execute query_balance env info claim s = execute_claim env info s
  execute query_balance env info (receive wrapper) s = execute_receive env info wrapper s
  execute query_balance env info (distribute_rewards sender) s =
      execute_distribute_rewards query_balance env info sender s
  execute query_balance env info (withdraw_rewards owner receiver) s =
      execute_withdraw_rewards info owner receiver s
  execute query_balance env info (delegate_withdrawal delegated) s =
      execute_delegate_withdrawal info delegated s
  execute query_balance env info (fund_distribution f) s = execute_fund_distribution env info f s
  execute query_balance env info (migrate_stake amount period) s =
      execute_migrate_stake env info amount period s
