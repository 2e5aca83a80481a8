-- ===== src/Pair/Invariant/Withdraw.antt =====
-- A withdrawal: who may make it, and what it pays.
use wynddex.Base.{
  ℕ, ◌*◌, ◌<◌, ◌≤◌, ◌≡◌, sym, subst, ap, arith, false, not, List, [], ◌∷◌, some, get_elem?, ok,
  >>=-eq-ok, ok-injective, unwrap-eq-ok, map_err-eq-ok, fail_if, fail_if-eq-ok, ◌==◌,
}
use wynddex.Num.{u64_limit, sub128}
use wynddex.Host.{Host, KeepsTime}
use wynddex.Decimals.{Decimals, KeepsDecimals}
use wynddex.Platform.{Env, MessageInfo, Msg, cw20_burn}
use wynddex.Asset.Amounts.{AssetValidated, send_to}
use wynddex.Oracle.{index}
use wynddex.Pair.State.{Store, PairError, lift, std, Querier, unauthorized}
use wynddex.Pair.Checks.{get_share_in_assets}
use wynddex.Pair.Swap.{record_prices}
use wynddex.Pair.Liquidity.{withdraw_liquidity, pool_info}
use wynddex.Pair.Liquidity.Shares.{get_share_in_assets_lem}
use wynddex.Pair.Invariant.{SameTerms, Recorded, record_prices-Recorded}

pub is_same : (a b : ℕ) → not (a == b) ≡ false → a ≡ b
is_same a b e = ground arith

module _ ⦃h : Host⦄ ⦃d : Decimals⦄ ⦃q : Querier⦄ where
  -- The three messages of a withdrawal, against the pools that it read.
  abbrev pub IsPaid : Store → ℕ → ℕ → List Msg → Type 0
  IsPaid s sender amount msgs =
      (info : List AssetValidated × ℕ) × (pool0 : AssetValidated) × (pool1 : AssetValidated)
      × (refund0 : AssetValidated) × (refund1 : AssetValidated) × (pool_info s.config ≡ ok info)
      × (get_elem? info.0 0 ≡ some pool0)
      × (get_elem? info.0 1 ≡ some pool1)
      × (msgs
          ≡ send_to refund0 sender
            ∷ send_to refund1 sender
            ∷ cw20_burn s.config.pair_info.liquidity_token amount
            ∷ [])
      × (refund0.info ≡ pool0.info)
      × (refund0.amount * info.1 ≤ pool0.amount * amount)
      × (refund1.info ≡ pool1.info)
      × (refund1.amount * info.1 ≤ pool1.amount * amount)

  pub withdraw_liquidity-Recorded :
      (s : Store) (env : Env) (info : MessageInfo) (sender amount : ℕ) {r : Store × List Msg}
      → KeepsDecimals h d
      → KeepsTime h
      → env.block_time < u64_limit
      → withdraw_liquidity s env info sender amount ≡ ok r
      → (info.sender ≡ s.config.pair_info.liquidity_token)
        × Recorded env.block_time s r.0
        × IsPaid s sender amount r.1
  unfolding withdraw_liquidity index
  withdraw_liquidity-Recorded s env info sender amount {r = r} keeps time small e =
      let token = s.config.pair_info.liquidity_token in
      let (u, e_u, e1) = >>=-eq-ok (fail_if (not (info.sender == token)) unauthorized) _ e in
      let (pi, e_p, e2) = >>=-eq-ok (lift (pool_info s.config)) _ e1 in
      let (refunds, e_r, e3) = >>=-eq-ok (get_share_in_assets pi.0 amount pi.1) _ e2 in
      let (pool0, e_p0, e4) = >>=-eq-ok (index pi.0 0) _ e3 in
      let (pool1, e_p1, e5) = >>=-eq-ok (index pi.0 1) _ e4 in
      let (refund0, e_r0, e6) = >>=-eq-ok (index refunds 0) _ e5 in
      let (refund1, e_r1, e7) = >>=-eq-ok (index refunds 1) _ e6 in
      let (n0, e_n0, e8) = >>=-eq-ok (sub128 pool0.amount refund0.amount) _ e7 in
      let (n1, e_n1, e9) = >>=-eq-ok (sub128 pool1.amount refund1.amount) _ e8 in
      let (s', e_s, e10) =
        >>=-eq-ok (record_prices s env.block_time (n0, n1) (pool0.amount, pool1.amount)) _ e9 in
      let (_, each) = get_share_in_assets_lem pi.0 amount pi.1 keeps e_r in
      let found0 = unwrap-eq-ok {E = PairError} _ e_p0 in
      let found1 = unwrap-eq-ok {E = PairError} _ e_p1 in
      let (info0, le0) = each 0 pool0 refund0 found0 (unwrap-eq-ok {E = PairError} _ e_r0) in
      let (info1, le1) = each 1 pool1 refund1 found1 (unwrap-eq-ok {E = PairError} _ e_r1) in
      let kept =
        record_prices-Recorded s env.block_time (n0, n1) (pool0.amount, pool1.amount) time small
          e_s in
      (
        is_same info.sender token (fail_if-eq-ok _ unauthorized e_u),
        subst (λ (r : Store × List Msg). Recorded env.block_time s r.0) (ok-injective e10) kept,
        (
          pi,
          pool0,
          pool1,
          refund0,
          refund1,
          map_err-eq-ok std _ e_p,
          found0,
          found1,
          ap (λ (r : Store × List Msg). r.1) (sym (ok-injective e10)),
          info0,
          le0,
          info1,
          le1,
        ),
      )

  -- A withdrawal that succeeds came from the liquidity token, whether or not the pair is frozen; it
  -- pays, of each asset of the pair, at most the part of the pool that the burned shares are of all
  -- shares, burns these shares, and, at a time that fits `u64`, keeps the terms of the pair.
  pub withdraw_liquidity-pays :
      (s : Store) (env : Env) (info : MessageInfo) (sender amount : ℕ) {r : Store × List Msg}
      → KeepsDecimals h d
      → KeepsTime h
      → env.block_time < u64_limit
      → withdraw_liquidity s env info sender amount ≡ ok r
      → (info.sender ≡ s.config.pair_info.liquidity_token)
        × SameTerms s r.0
        × IsPaid s sender amount r.1
  withdraw_liquidity-pays s env info sender amount keeps time small e =
      let (from_token, kept, paid) =
        withdraw_liquidity-Recorded s env info sender amount keeps time small e in
      (from_token, kept.terms, paid)
