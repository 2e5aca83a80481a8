-- ===== src/Stake/Queries/Bonds.antt =====
-- What the queries about bonds answer.
use wynddex.Base.{
  unwrap_or, ok_or-eq-ok, sym, ap, ℕ, ◌+◌, ◌≡◌, refl, ◌∙◌, subst, ok, some, ok_or-eq-ok, >>=-eq-ok,
  ok-injective, fail_if,
}
use wynddex.Host.{Host}
use wynddex.Search.{search_by_key}
use wynddex.Stake.State.{BondingInfo}
use wynddex.Stake.Bonding.{bonded, total_stake, total_locked, total_unlocked}
use wynddex.Stake.Bonding.Release.{total_stake-eq-ok, total_locked-total_unlocked}
use wynddex.Stake.Power.{load_stake}
use wynddex.Stake.Store.{Store, Env, std_or_fail}
use wynddex.Stake.Queries.{StakedResponse, query_staked, staked_response, is_missing}

module _ (b : BondingInfo) (now period unlocked : ℕ) where
  -- The full size, the period, and the locked part that completes the unlocked one.
  abbrev pub Answers : StakedResponse → Type 0
  Answers r =
      (r.stake ≡ bonded b) × (r.unbonding_period ≡ period) × (r.total_locked + unlocked ≡ bonded b)

  staked_response-Answers :
      (cw20 : ℕ) {r : StakedResponse}
      → total_unlocked b now ≡ ok unlocked
      → staked_response b now period cw20 ≡ ok r
      → Answers r
  unfolding staked_response
  staked_response-Answers cw20 eu e =
      let (staked, es, e1) = >>=-eq-ok (total_stake b) _ e in
      let (locked, el, e2) = >>=-eq-ok (total_locked b now) _ e1 in
      subst Answers (ok-injective e2)
        ((total_stake-eq-ok b es).0, refl, total_locked-total_unlocked b now el eu)

module _ {C : Type 0} ⦃h : Host⦄ where
  -- The query of a bond of a valid address, where it answers, gives the full size of the stored
  -- bond in the period that was asked for, and a locked part that makes it up together with the
  -- unlocked part.
  pub query_staked-bonded :
      (s : Store C) (env : Env) (addr a period unlocked : ℕ) {r : StakedResponse}
      → h.addr_validate addr ≡ some a
      → total_unlocked (load_stake s.stake a period) env.block_time ≡ ok unlocked
      → query_staked s env addr period ≡ ok r
      → (r.stake ≡ bonded (load_stake s.stake a period))
        × (r.unbonding_period ≡ period)
        × (r.total_locked + unlocked ≡ bonded (load_stake s.stake a period))
  unfolding query_staked
  query_staked-bonded s env addr a period unlocked {r = r} ea eu e =
      let (b, eb, e1) = >>=-eq-ok (std_or_fail (h.addr_validate addr)) _ e in
      let (_, _, e2) =
        >>=-eq-ok (fail_if (is_missing (search_by_key (λ e. e.0) period s.total_per_period)) _) _
          e1 in
      let same : b ≡ a =
        ap (λ o. unwrap_or o 0) (sym (ok_or-eq-ok (h.addr_validate addr) _ eb) ∙ ea) in
      let cw20 = s.config.cw20_contract in
      let answered : staked_response (load_stake s.stake a period) env.block_time period cw20
          ≡ ok r =
        subst (λ x. staked_response (load_stake s.stake x period) env.block_time period cw20 ≡ ok r)
          same e2 in
      staked_response-Answers (load_stake s.stake a period) env.block_time period unlocked cw20 eu
        answered
