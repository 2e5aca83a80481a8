-- ===== src/Pair/Invariant/Execute.antt =====
-- The calls of `execute`: which of them a frozen pair accepts, and who may change its terms.
use wynddex.Base.{
  ℕ, ◌<◌, ◌≡◌, refl, sym, ap, Bool, true, false, not, List, Option, none, some, ok, >>=-eq-ok,
  ok-injective, ok_or, fail_if, fail_if-eq-ok, unwrap_or, ◌==◌, inl, inr, ◌⊎◌,
}
use wynddex.Num.{u64_limit}
use wynddex.Host.{Host, KeepsTime}
use wynddex.Decimals.{Decimals, KeepsDecimals}
use wynddex.Platform.{Env, MessageInfo, Msg, generic_err}
use wynddex.Asset.{token}
use wynddex.Asset.Amounts.{AssetValidated, validate_asset, is_native_token, addr_opt_validate}
use wynddex.Pair.State.{
  Store, lift, std, Querier, FeeConfig, ExecuteMsg, receive_tokens, provide, swap_native,
  update_fee_config, freeze, unsupported, swap_tokens, withdraw_shares, unauthorized,
  contract_frozen, no_address, pair_is_not_migrated,
}
use wynddex.Pair.Checks.{check_cw20_in_pool, migration_check}
use wynddex.Pair.Swap.{check_if_frozen}
use wynddex.Pair.Contract.{execute, dispatch, receive_cw20, execute_swap, update_fees, set_frozen}
use wynddex.Pair.Invariant.{SameTerms, Recorded}
use wynddex.Pair.Invariant.Calls.{swap-Recorded}
use wynddex.Pair.Invariant.Provide.{provide_liquidity-Recorded}
use wynddex.Pair.Invariant.Withdraw.{withdraw_liquidity-Recorded, is_same}

-- The call that a frozen pair accepts from everyone.
abbrev pub is_withdrawal : ExecuteMsg → Bool
is_withdrawal (receive_tokens sender amount (some withdraw_shares)) = true
is_withdrawal _ = false

-- What a call may do to a pair: keep it, in the sense of a relation, where it is a withdrawal or the
-- pair is not frozen; or, from the factory to a pair that is not frozen, change the fees; or, from
-- the circuit breaker, set the flag.
abbrev pub AllowedBy : (Store → Store → Type 0) → Store → MessageInfo → ExecuteMsg → Store → Type 0
AllowedBy R s info msg s' =
    (R s s' × ((s.frozen ≡ false) ⊎ (is_withdrawal msg ≡ true)))
    ⊎ ((info.sender ≡ s.config.factory_addr)
        × (s.frozen ≡ false)
        × ((fees : FeeConfig) × (s' ≡ record s {
          config = record s.config { pair_info = record s.config.pair_info { fee_config = fees } };
        })))
    ⊎ ((info.sender ≡ unwrap_or s.circuit_breaker no_address)
        × ((flag : Bool) × (s' ≡ record s { frozen = flag })))

module _ ⦃h : Host⦄ ⦃d : Decimals⦄ ⦃q : Querier⦄ where
  swap_tokens-Allowed :
      (s : Store) (env : Env) (info : MessageInfo) (cw20_sender amount : ℕ)
      (belief_price max_spread to referral commission : Option ℕ) {r : Store × List Msg}
      → KeepsTime h
      → env.block_time < u64_limit
      → receive_cw20 s env info cw20_sender amount
          (some (swap_tokens belief_price max_spread to referral commission))
        ≡ ok r
      → Recorded env.block_time s r.0 × (s.frozen ≡ false)
  unfolding receive_cw20
  swap_tokens-Allowed s env info cw20_sender amount belief_price max_spread to referral commission
        time small e =
      let (u, e_u, e1) =
        >>=-eq-ok (check_cw20_in_pool s.config.pair_info.asset_infos info.sender) _ e in
      let (to', e_t, e2) = >>=-eq-ok (lift (addr_opt_validate to)) _ e1 in
      let (ref, e_r, e3) = >>=-eq-ok (lift (addr_opt_validate referral)) _ e2 in
      let (sender, e_s, e4) =
        >>=-eq-ok (ok_or (h.addr_validate cw20_sender) (std generic_err)) _ e3 in
      swap-Recorded time s env info sender (record { info = token info.sender; amount = amount })
        belief_price max_spread to' ref commission small e4

  execute_swap-Allowed :
      (s : Store) (env : Env) (info : MessageInfo) (offer : AssetValidated)
      (belief_price max_spread to referral commission : Option ℕ) {r : Store × List Msg}
      → KeepsTime h
      → env.block_time < u64_limit
      → execute_swap s env info offer belief_price max_spread to referral commission ≡ ok r
      → Recorded env.block_time s r.0 × (s.frozen ≡ false)
  unfolding execute_swap
  execute_swap-Allowed s env info offer belief_price max_spread to referral commission time small
        e =
      let (asset, e_a, e1) = >>=-eq-ok (lift (validate_asset offer)) _ e in
      let (u, e_u, e2) = >>=-eq-ok (fail_if (not (is_native_token asset.info)) unauthorized) _ e1 in
      let (to', e_t, e3) = >>=-eq-ok (lift (addr_opt_validate to)) _ e2 in
      let (ref, e_r, e4) = >>=-eq-ok (lift (addr_opt_validate referral)) _ e3 in
      swap-Recorded time s env info info.sender asset belief_price max_spread to' ref commission
        small e4

  update_fees-Allowed :
      (R : Store → Store → Type 0) (s : Store) (info : MessageInfo) (fees : FeeConfig)
      {r : Store × List Msg}
      → update_fees s info fees ≡ ok r
      → AllowedBy R s info (update_fee_config fees) r.0
  unfolding update_fees check_if_frozen
  update_fees-Allowed R s info fees e =
      let (u, e_u, e1) = >>=-eq-ok (fail_if s.frozen contract_frozen) _ e in
      let (v, e_v, e2) =
        >>=-eq-ok (fail_if (not (info.sender == s.config.factory_addr)) unauthorized) _ e1 in
      inr (
        inl (
          is_same info.sender s.config.factory_addr (fail_if-eq-ok _ unauthorized e_v),
          fail_if-eq-ok s.frozen contract_frozen e_u,
          (fees, ap (λ (r : Store × List Msg). r.0) (sym (ok-injective e2))),
        ))

  set_frozen-Allowed :
      (R : Store → Store → Type 0) (s : Store) (info : MessageInfo) (flag : Bool)
      {r : Store × List Msg}
      → set_frozen s info flag ≡ ok r
      → AllowedBy R s info (freeze flag) r.0
  unfolding set_frozen
  set_frozen-Allowed R s info flag e =
      let breaker = unwrap_or s.circuit_breaker no_address in
      let (v, e_v, e1) = >>=-eq-ok (fail_if (not (info.sender == breaker)) unauthorized) _ e in
      inr (
        inr (
          is_same info.sender breaker (fail_if-eq-ok _ unauthorized e_v),
          (flag, ap (λ (r : Store × List Msg). r.0) (sym (ok-injective e1))),
        ))

  dispatch-Allowed :
      (s : Store) (env : Env) (info : MessageInfo) (msg : ExecuteMsg) {r : Store × List Msg}
      → KeepsDecimals h d
      → KeepsTime h
      → env.block_time < u64_limit
      → dispatch s env info msg ≡ ok r
      → AllowedBy (Recorded env.block_time) s info msg r.0
  unfolding dispatch receive_cw20
  dispatch-Allowed s env info (receive_tokens sender amount none) keeps time small e = cc e
  dispatch-Allowed s env info (receive_tokens sender amount (some (swap_tokens b m t a c))) keeps
        time small e =
      let (kept, active) = swap_tokens-Allowed s env info sender amount b m t a c time small e in
      inl (kept, inl active)
  dispatch-Allowed s env info (receive_tokens sender amount (some withdraw_shares)) keeps time small
        e =
      let (account, e_a, e1) = >>=-eq-ok (ok_or (h.addr_validate sender) (std generic_err)) _ e in
      inl ((withdraw_liquidity-Recorded s env info account amount keeps time small e1).1, inr refl)
  dispatch-Allowed s env info (provide assets slippage receiver) keeps time small e =
      let (kept, active) =
        provide_liquidity-Recorded time s env info assets slippage receiver small e in
      inl (kept, inl active)
  dispatch-Allowed s env info (swap_native offer b m t a c) keeps time small e =
      let (kept, active) = execute_swap-Allowed s env info offer b m t a c time small e in
      inl (kept, inl active)
  dispatch-Allowed s env info (update_fee_config fees) keeps time small e =
      update_fees-Allowed (Recorded env.block_time) s info fees e
  dispatch-Allowed s env info (freeze flag) keeps time small e =
      set_frozen-Allowed (Recorded env.block_time) s info flag e
  dispatch-Allowed s env info unsupported keeps time small e = cc e

  execute-AllowedBy :
      (s : Store) (env : Env) (info : MessageInfo) (msg : ExecuteMsg) {r : Store × List Msg}
      → KeepsDecimals h d
      → KeepsTime h
      → env.block_time < u64_limit
      → execute s env info msg ≡ ok r
      → AllowedBy (Recorded env.block_time) s info msg r.0
  unfolding execute
  execute-AllowedBy s env info msg keeps time small e =
      let (old, e_o, e1) =
        >>=-eq-ok (lift (migration_check s.config.factory_addr env.contract)) _ e in
      let (u, e_u, e2) = >>=-eq-ok (fail_if old pair_is_not_migrated) _ e1 in
      dispatch-Allowed s env info msg keeps time small e2

  -- A call of a pair that succeeds, at a time that fits `u64` nanoseconds, is one of three: a
  -- swap, a deposit or a withdrawal, which keeps the assets, addresses, fees and flags of the
  -- pair, and is a withdrawal where the pair is frozen; a change of nothing but the fees, by the
  -- factory, of a pair that is not frozen; or a change of nothing but the frozen flag, by the
  -- circuit breaker.
  pub execute-SameTerms :
      (s : Store) (env : Env) (info : MessageInfo) (msg : ExecuteMsg) {r : Store × List Msg}
      → KeepsDecimals h d
      → KeepsTime h
      → env.block_time < u64_limit
      → execute s env info msg ≡ ok r
      → AllowedBy SameTerms s info msg r.0
  execute-SameTerms s env info msg keeps time small e =
      elim (execute-AllowedBy s env info msg keeps time small e) [
        | inl (kept, which) ↦ inl (kept.terms, which)
        | inr other ↦ inr other
      ]
