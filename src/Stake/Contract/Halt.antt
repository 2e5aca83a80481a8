-- ===== src/Stake/Contract/Halt.antt =====
-- What the emergency flag stops, and that what it lets through adds nothing to the totals.
use wynddex.Base.{
  some-injective, ℕ, ◌≤◌, ◌≡◌, refl, sym, subst, Bool, true, false, not, List, [], ◌∷◌, map, Option,
  none, some, Result, ok, err, >>=-eq-ok, ok-injective, fail_if, unwrap_or, ap, ◌∙◌, ◌==◌,
  if◌then◌else◌, arith,
}
use wynddex.Num.{add128, sub128, sum128, sub128-eq-ok}
use wynddex.Map.{Map, lookup, nat_key}
use wynddex.Asset.{AssetInfo}
use wynddex.Host.{Host, Claim, Curves, KeepsClaims}
use wynddex.Stake.State.{
  ContractError, cannot_delegate_if_unbond_all, cannot_distribute_if_unbond_all,
  cannot_rebond_if_unbond_all, Msg,
}
use wynddex.Stake.Power.{periods_of, calc_rewards_powers}
use wynddex.Stake.Store.{Store, Env, MessageInfo}
use wynddex.Stake.Rewards.{execute_distribute_rewards}
use wynddex.Stake.Transfers.{
  execute_rebond, execute_claim, execute_quick_unbond, quick_unbond_each, quick_unbond_one,
  release_each, drop_rewards, settle_periods, zero_counters, validate_addresses, is_unbonder,
}
use wynddex.Stake.Admin.{execute_fund_distribution}
use wynddex.Stake.Contract.{
  ExecuteMsg, ReceiveMsg, execute, execute_receive, receive_msg, delegate, mass_delegate, fund,
  rebond, receive, distribute_rewards, fund_distribution, update_admin, create_distribution_flow,
  unbond, quick_unbond, unbond_all, stop_unbond_all, claim, withdraw_rewards, delegate_withdrawal,
  migrate_stake,
}
use wynddex.Stake.Invariant.{IsConsistent}
use wynddex.Stake.Invariant.Exits.{
  Exits, execute_unbond-IsConsistent, execute_migrate_stake-IsConsistent,
}
use wynddex.Stake.Invariant.Others.{
  execute_withdraw_rewards-Kept, execute_delegate_withdrawal-Kept, execute_update_admin-Kept,
  execute_unbond_all-Kept, execute_stop_unbond_all-Kept,
}
use wynddex.Stake.Invariant.Funds.{execute_create_distribution_flow-Kept}

abbrev pub receive_error : ReceiveMsg → ContractError
receive_error (delegate _ _) = cannot_delegate_if_unbond_all
receive_error (mass_delegate _ _) = cannot_delegate_if_unbond_all
receive_error (fund _) = cannot_distribute_if_unbond_all "funds"

-- The error for each kind of message that the flag stops: rebonding, tokens that are received (for
-- a bond or for rewards), and the distribution and the funding of rewards.
abbrev pub halted : ExecuteMsg → Option ContractError
halted (rebond _ _ _) = some cannot_rebond_if_unbond_all
halted (receive w) = some (receive_error w.msg)
halted (distribute_rewards _) = some (cannot_distribute_if_unbond_all "rewards")
halted (fund_distribution _) = some (cannot_distribute_if_unbond_all "funds")
halted _ = none

none_is_not : {A : Type 0} {x : A} {P : Type 0} → none ≡ some x → P
none_is_not e = ground (arith, e)

accepted :
    {A P : Type 0} {m : Result ContractError A} {a : A} {error : ContractError}
    → m ≡ ok a
    → m ≡ err error
    → P
accepted e k = cc (sym e ∙ k)

module _ {C : Type 0} ⦃h : Host⦄ ⦃curves : Curves C⦄ where
  receive_msg-halted :
      (msg : ReceiveMsg) (env : Env) (info : MessageInfo) (sender amount : ℕ) (s : Store C)
      → s.unbond_all ≡ true
      → receive_msg msg env info sender amount s ≡ err (receive_error msg)
  unfolding receive_msg
  receive_msg-halted (delegate _ _) env info sender amount s e = rw e refl
  receive_msg-halted (mass_delegate _ _) env info sender amount s e = rw e refl
  receive_msg-halted (fund _) env info sender amount s e = rw e refl

  -- Each of these messages is refused with its error.
  execute-refused :
      (query_balance : AssetInfo → Option ℕ) (env : Env) (info : MessageInfo) (msg : ExecuteMsg)
      (s : Store C) {error : ContractError}
      → s.unbond_all ≡ true
      → halted msg ≡ some error
      → execute query_balance env info msg s ≡ err error
  unfolding execute execute_receive execute_rebond execute_distribute_rewards
      execute_fund_distribution
  execute-refused q env info (rebond a b c) s e k = rw e (ap err (some-injective k))
  execute-refused q env info (receive w) s e k =
      receive_msg-halted w.msg env info w.sender w.amount s e ∙ ap err (some-injective k)
  execute-refused q env info (distribute_rewards a) s e k = rw e (ap err (some-injective k))
  execute-refused q env info (fund_distribution f) s e k = rw e (ap err (some-injective k))
  execute-refused q env info (update_admin a) s e k = none_is_not k
  execute-refused q env info (create_distribution_flow m a r) s e k = none_is_not k
  execute-refused q env info (unbond a p) s e k = none_is_not k
  execute-refused q env info (quick_unbond xs) s e k = none_is_not k
  execute-refused q env info unbond_all s e k = none_is_not k
  execute-refused q env info stop_unbond_all s e k = none_is_not k
  execute-refused q env info claim s e k = none_is_not k
  execute-refused q env info (withdraw_rewards a b) s e k = none_is_not k
  execute-refused q env info (delegate_withdrawal a) s e k = none_is_not k
  execute-refused q env info (migrate_stake a p) s e k = none_is_not k

  quick_unbond_each-total :
      (now : ℕ) (stakers : List ℕ) (unbonded : Map ℕ ℕ) (claimed : ℕ) (msgs : List Msg)
      (s : Store C) {r : Map ℕ ℕ × ℕ × List Msg × Store C}
      → quick_unbond_each now stakers unbonded claimed msgs s ≡ ok r
      → r.3.total_staked ≡ s.total_staked
  unfolding quick_unbond_each quick_unbond_one
  quick_unbond_each-total now [] unbonded claimed msgs s e =
      ap (λ (r : Map ℕ ℕ × ℕ × List Msg × Store C). r.3.total_staked) (sym (ok-injective e))
  quick_unbond_each-total now (staker ∷ stakers) unbonded claimed msgs s e =
      let (r, e_r, e1) = >>=-eq-ok (quick_unbond_one now staker unbonded claimed msgs s) _ e in
      let (olds, _, f1) =
        >>=-eq-ok (calc_rewards_powers s.config s.stake staker s.distribution) _ e_r in
      let (released, _, f2) =
        >>=-eq-ok (release_each now staker (periods_of s.stake staker) unbonded 0 s.stake) _ f1 in
      let (adjustments, _, f3) =
        >>=-eq-ok (drop_rewards staker s.distribution olds s.withdraw_adjustment) _ f2 in
      let (open_claims, _, f4) =
        >>=-eq-ok (sum128 (map (λ (c : Claim). c.amount) (unwrap_or (lookup staker s.claims) []))) _
          f3 in
      let (claimed', _, f5) = >>=-eq-ok (add128 claimed open_claims) _ f4 in
      let (amount, _, f6) = >>=-eq-ok (add128 released.1 open_claims) _ f5 in
      quick_unbond_each-total now stakers r.0 r.1 r.2 r.3 e1
      ∙ ap (λ (r : Map ℕ ℕ × ℕ × List Msg × Store C). r.3.total_staked) (sym (ok-injective f6))

  -- The stored totals of a storage are at most those of another.
  abbrev pub NoMore : Store C → Store C → Type 0
  NoMore s s' =
      (s'.total_staked.staked ≤ s.total_staked.staked)
      × (s'.total_staked.unbonding ≤ s.total_staked.unbonding)

  same-NoMore : (s s' : Store C) → s'.total_staked ≡ s.total_staked → NoMore s s'
  same-NoMore s s' e = (omega (arith, ap (λ x. x.staked) e), omega (arith, ap (λ x. x.unbonding) e))

  execute_quick_unbond-NoMore :
      (env : Env) (info : MessageInfo) (stakers : List ℕ) (s : Store C) {r : Store C × List Msg}
      → execute_quick_unbond env info stakers s ≡ ok r
      → NoMore s r.0
  unfolding execute_quick_unbond
  execute_quick_unbond-NoMore env info stakers s e =
      let cfg = s.config in
      let (_, _, e1) = >>=-eq-ok (fail_if (not (is_unbonder cfg.unbonder info.sender)) _) _ e in
      let (valid, _, e2) = >>=-eq-ok (validate_addresses stakers) _ e1 in
      let (q, e_q, e3) =
        >>=-eq-ok
          (quick_unbond_each env.block_time valid (zero_counters cfg.unbonding_periods) 0 [] s) _
          e2 in
      let (unbonded, _, e4) = >>=-eq-ok (sum128 (map (λ (x : ℕ × ℕ). x.1) q.0)) _ e3 in
      let (totals, _, e5) = >>=-eq-ok (settle_periods cfg q.0 q.3.total_per_period) _ e4 in
      let (staked, e_s, e6) = >>=-eq-ok (sub128 q.3.total_staked.staked unbonded) _ e5 in
      let (unbonding, e_u, e7) = >>=-eq-ok (sub128 q.3.total_staked.unbonding q.1) _ e6 in
      let same =
        quick_unbond_each-total env.block_time valid (zero_counters cfg.unbonding_periods) 0 [] s
          e_q in
      let less_staked = sub128-eq-ok q.3.total_staked.staked unbonded e_s in
      let less_unbonding = sub128-eq-ok q.3.total_staked.unbonding q.1 e_u in
      let (le, le') = same-NoMore s q.3 same in
      subst (λ (r : Store C × List Msg). NoMore s r.0) (ok-injective e7)
        (omega (arith, less_staked.0, le), omega (arith, less_unbonding.0, le'))

  claim-NoMore :
      (env : Env) (info : MessageInfo) (s : Store C) {r : Store C × List Msg}
      → execute_claim env info s ≡ ok r
      → NoMore s r.0
  unfolding execute_claim
  claim-NoMore env info s e =
      let released =
        (h.claim_tokens (unwrap_or (lookup info.sender s.claims) []) env.block_time).0 in
      let (_, _, done) = >>=-eq-ok (fail_if (released == 0) _) _ e in
      subst (λ (r : Store C × List Msg). NoMore s r.0) (ok-injective done)
        (omega arith, omega arith)

  unbond-NoMore :
      (flag : Bool) (s s' : Store C) (amount : ℕ)
      → flag ≡ true
      → Exits s s' amount (if flag then 0 else amount)
      → NoMore s s'
  unbond-NoMore true s s' amount e (_, staked, unbonding) = (omega arith, omega arith)
  unbond-NoMore false s s' amount e x = cc e

  -- While the emergency flag is set, a message that is accepted in a consistent storage is none that
  -- brings tokens for a bond or for rewards, rebonds, distributes or funds; and whatever it is,
  -- neither the staked nor the unbonding total grows, if the claims library counts the claims right.
  pub execute-halted :
      (query_balance : AssetInfo → Option ℕ) (env : Env) (info : MessageInfo) (msg : ExecuteMsg)
      (s : Store C) {r : Store C × List Msg}
      → KeepsClaims h
      → IsConsistent s
      → s.unbond_all ≡ true
      → execute query_balance env info msg s ≡ ok r
      → (halted msg ≡ none) × NoMore s r.0
  unfolding execute
  execute-halted q env info (rebond a b c) s laws v e k =
      accepted k (execute-refused q env info (rebond a b c) s e refl)
  execute-halted q env info (receive w) s laws v e k =
      accepted k (execute-refused q env info (receive w) s e refl)
  execute-halted q env info (distribute_rewards a) s laws v e k =
      accepted k (execute-refused q env info (distribute_rewards a) s e refl)
  execute-halted q env info (fund_distribution f) s laws v e k =
      accepted k (execute-refused q env info (fund_distribution f) s e refl)
  execute-halted q env info (update_admin a) s {r = r} laws v e k =
      (refl, same-NoMore s r.0 (execute_update_admin-Kept info a s k).same_total)
  execute-halted q env info (create_distribution_flow m a w) s {r = r} laws v e k =
      (refl, same-NoMore s r.0 (execute_create_distribution_flow-Kept info m a w s k).same_total)
  execute-halted q env info (unbond a p) s {r = r} laws v e k = (
    refl,
    unbond-NoMore s.unbond_all s r.0 a e
        (execute_unbond-IsConsistent env info info.sender a p s laws v k).0,
  )
  execute-halted q env info (quick_unbond xs) s laws v e k =
      (refl, execute_quick_unbond-NoMore env info xs s k)
  execute-halted q env info unbond_all s {r = r} laws v e k =
      (refl, same-NoMore s r.0 (execute_unbond_all-Kept info s k).same_total)
  execute-halted q env info stop_unbond_all s {r = r} laws v e k =
      (refl, same-NoMore s r.0 (execute_stop_unbond_all-Kept info s k).same_total)
  execute-halted q env info claim s {r = r} laws v e k = (refl, claim-NoMore env info s k)
  execute-halted q env info (withdraw_rewards a b) s {r = r} laws v e k =
      (refl, same-NoMore s r.0 (execute_withdraw_rewards-Kept info a b s k).same_total)
  execute-halted q env info (delegate_withdrawal a) s {r = r} laws v e k =
      (refl, same-NoMore s r.0 (execute_delegate_withdrawal-Kept info a s k).same_total)
  execute-halted q env info (migrate_stake a p) s laws v e k =
      let (_, staked, unbonding) = execute_migrate_stake-IsConsistent env info a p s v k in
      (refl, (omega arith, omega arith))
