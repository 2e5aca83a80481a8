-- ===== src/Pair/Liquidity/Shares.antt =====
-- Shares against assets: what shares are worth, and that a deposit that is taken back gives no more
-- than was put in.
use wynddex.Base.{
  ℕ, zero, suc, ◌+◌, ◌*◌, ◌≤◌, ◌<◌, ◌≡◌, refl, sym, subst, ap, arith, List, [], ◌∷◌, some, Option,
  Result, ok, >>=-eq-ok, ok-injective, unwrap, unwrap-eq-ok, get_elem?, length, ◌==◌, if◌then◌else◌,
  Bool-cases, fail_if, fail_if-eq-ok, ne_of_test, some-injective, subst₂, inl, inr, leb,
}
use native.Mathlib.Nat.{mul-le-mul_right, mul-le-mul_left, le_of_mul-le-mul_right}
use wynddex.Host.{Host}
use wynddex.Decimals.{Decimals, KeepsDecimals, decimal_unit}
use wynddex.Decimals.Rounding.{div_bounds}
use wynddex.Platform.{Msg, Env, overflow}
use wynddex.Asset.Amounts.{AssetValidated}
use wynddex.Pair.State.{PairError, std, minimum_liquidity_amount_error, Querier}
use wynddex.Pair.Checks.{get_share_in_assets, refund}
use wynddex.Pair.Math.{assert_slippage_tolerance}
use wynddex.Num.{mul256, to_u128, checked_sub, mul256-eq-ok, to_u128-eq-ok, checked_sub-eq-ok}
use wynddex.Pair.Liquidity.{proportional_share, initial_share, minimum_liquidity_amount}

-- A refund is at most the share of a pool that a ratio names.
refund_bound :
    (pool amount total ratio r : ℕ)
    → ratio * total ≤ amount * decimal_unit
    → r * decimal_unit ≤ pool * ratio
    → r * total ≤ pool * amount
refund_bound pool amount total ratio r h0 h1 =
    let a = mul-le-mul_right total h1 in let b = mul-le-mul_left pool h0 in omega arith

-- The smaller of two shares.
least : (a b : ℕ) → ((if leb a b then a else b) ≤ a) × ((if leb a b then a else b) ≤ b)
least a b = (ground arith, ground arith)

taken_back :
    (refund deposit pool total share : ℕ)
    → 0 < total
    → share * pool ≤ deposit * total
    → refund * (total + share) ≤ (pool + deposit) * share
    → refund ≤ deposit
taken_back refund deposit pool total share pos_total minted le =
    le_of_mul-le-mul_right {k = total + share} (omega arith) (omega arith)

one_more :
    (ratio : ℕ) (p : AssetValidated) (amount : ℕ) (pools rest : List AssetValidated)
    → amount * decimal_unit ≤ p.amount * ratio
    → ((i : ℕ) (pool r : AssetValidated)
        → get_elem? pools i ≡ some pool
        → get_elem? rest i ≡ some r
        → (r.info ≡ pool.info) × (r.amount * decimal_unit ≤ pool.amount * ratio))
    → (i : ℕ) (pool r : AssetValidated) → get_elem? (p ∷ pools) i ≡ some pool
    → get_elem? (record { info = p.info; amount = amount } ∷ rest) i ≡ some r
    → (r.info ≡ pool.info) × (r.amount * decimal_unit ≤ pool.amount * ratio)
one_more ratio p amount pools rest le each zero pool r ep er =
    let here : p ≡ pool = some-injective ep in
    let there : record { info = p.info; amount = amount } ≡ r = some-injective er in
    subst₂
      (λ (a : AssetValidated) (b : AssetValidated).
        (b.info ≡ a.info) × (b.amount * decimal_unit ≤ a.amount * ratio))
      here there (refl, le)
one_more ratio p amount pools rest le each (suc i) pool r ep er = each i pool r ep er

module _ ⦃h : Host⦄ ⦃d : Decimals⦄ where
  refund_lem :
      (ratio : ℕ) (pools : List AssetValidated) {refunds : List AssetValidated}
      → KeepsDecimals h d
      → refund ratio pools ≡ ok refunds
      → (length refunds ≡ length pools)
        × ((i : ℕ) (pool r : AssetValidated)
            → get_elem? pools i ≡ some pool
            → get_elem? refunds i ≡ some r
            → (r.info ≡ pool.info) × (r.amount * decimal_unit ≤ pool.amount * ratio))
  unfolding refund
  refund_lem ratio [] keeps e = (ap length (sym (ok-injective e)), λ i pool r ep er. cc ep)
  refund_lem ratio (p ∷ pools) {refunds = refunds} keeps e =
      let (amount, e_a, e1) = >>=-eq-ok (unwrap (h.mul_decimal p.amount ratio)) _ e in
      let (rest, e_r, e2) = >>=-eq-ok (refund ratio pools) _ e1 in
      let (same_length, each) = refund_lem ratio pools keeps e_r in
      let is_amount = keeps.mul_decimals p.amount ratio (unwrap-eq-ok {E = PairError} _ e_a) in
      let (lo, hi) = div_bounds (p.amount * ratio) decimal_unit (omega arith) is_amount in
      subst
        (λ t.
          (length t ≡ suc (length pools))
          × ((i : ℕ) (pool r : AssetValidated)
              → get_elem? (p ∷ pools) i ≡ some pool
              → get_elem? t i ≡ some r
              → (r.info ≡ pool.info) × (r.amount * decimal_unit ≤ pool.amount * ratio)))
        (ok-injective e2) (ap suc same_length, one_more ratio p amount pools rest lo each)

  ratio_bound :
      (amount total_share ratio : ℕ)
      → KeepsDecimals h d
      → ◌≡◌ {A = Result PairError ℕ}
          (if total_share == 0 then ok 0 else unwrap (d.from_ratio amount total_share))
          (ok ratio)
      → ratio * total_share ≤ amount * decimal_unit
  ratio_bound amount total_share ratio keeps e = elim (Bool-cases (total_share == 0)) [
    | inl t ↦
        let none_left : 0 ≡ ratio = ok-injective (rw t at e) in
        omega (arith, ap (λ x. x * total_share) none_left)
    | inr f ↦
        let (pos_total, is_ratio) =
          keeps.from_ratios amount total_share (unwrap-eq-ok {E = PairError} _ (rw f at e)) in
        let (lo, hi) = div_bounds (amount * decimal_unit) total_share pos_total is_ratio in lo
  ]

  -- What some shares of a pool are worth: for each asset, the refund in relation to the pool is at
  -- most the shares in relation to their total.
  pub get_share_in_assets_lem :
      (pools : List AssetValidated) (amount total_share : ℕ) {refunds : List AssetValidated}
      → KeepsDecimals h d
      → get_share_in_assets pools amount total_share ≡ ok refunds
      → (length refunds ≡ length pools)
        × ((i : ℕ) (pool r : AssetValidated)
            → get_elem? pools i ≡ some pool
            → get_elem? refunds i ≡ some r
            → (r.info ≡ pool.info) × (r.amount * total_share ≤ pool.amount * amount))
  unfolding get_share_in_assets
  get_share_in_assets_lem pools amount total_share keeps e =
      let (ratio, e_r, e1) =
        >>=-eq-ok (if total_share == 0 then ok 0 else unwrap (d.from_ratio amount total_share)) _
          e in
      let (same_length, each) = refund_lem ratio pools keeps e1 in
      let bound = ratio_bound amount total_share ratio keeps e_r in
      (
        same_length,
        λ i pool r ep er.
            let (info, le) = each i pool r ep er in
            (info, refund_bound pool.amount amount total_share ratio r.amount bound le),
      )

module _ ⦃h : Host⦄ ⦃d : Decimals⦄ ⦃q : Querier⦄ where
  proportional_share_lem :
      (slippage : Option ℕ) (total_share : ℕ) (deposits pools : ℕ × ℕ) (messages : List Msg)
      {r : ℕ × List Msg}
      → KeepsDecimals h d
      → proportional_share slippage total_share deposits pools messages ≡ ok r
      → (r.0 * pools.0 ≤ deposits.0 * total_share)
        × (r.0 * pools.1 ≤ deposits.1 * total_share)
        × (r.1 ≡ messages)
  unfolding proportional_share
  proportional_share_lem slippage total_share (d0, d1) (p0, p1) messages {r = r} keeps e =
      let (u, e_u, e1) = >>=-eq-ok (assert_slippage_tolerance slippage (d0, d1) (p0, p1)) _ e in
      let (s0, e_0, e2) = >>=-eq-ok (unwrap (d.multiply_ratio d0 total_share p0)) _ e1 in
      let (s1, e_1, e3) = >>=-eq-ok (unwrap (d.multiply_ratio d1 total_share p1)) _ e2 in
      let (pos0, is_s0) =
        keeps.multiply_ratios d0 total_share p0 (unwrap-eq-ok {E = PairError} _ e_0) in
      let (pos1, is_s1) =
        keeps.multiply_ratios d1 total_share p1 (unwrap-eq-ok {E = PairError} _ e_1) in
      let (lo0, hi0) = div_bounds (d0 * total_share) p0 pos0 is_s0 in
      let (lo1, hi1) = div_bounds (d1 * total_share) p1 pos1 is_s1 in
      let (le0, le1) = least s0 s1 in
      let bound0 = mul-le-mul_right p0 le0 in
      let bound1 = mul-le-mul_right p1 le1 in
      subst
        (λ (t : ℕ × List Msg).
          (t.0 * p0 ≤ d0 * total_share) × (t.0 * p1 ≤ d1 * total_share) × (t.1 ≡ messages))
        (ok-injective e3) (omega arith, omega arith, refl)

  -- Where a deposit into a pair with shares and its withdrawal succeed, on the same pools: the shares
  -- that were minted give back, of each asset, at most what was deposited.
  pub proportional_share-get_share_in_assets :
      (slippage : Option ℕ) (total_share : ℕ) (deposit0 deposit1 : ℕ) (pool0 pool1 : AssetValidated)
      (messages : List Msg) {share : ℕ} {messages' : List Msg} {refund0 refund1 : AssetValidated}
      → KeepsDecimals h d
      → 0 < total_share
      → proportional_share slippage total_share
          (deposit0, deposit1)
          (pool0.amount, pool1.amount)
          messages
        ≡ ok (share, messages')
      → get_share_in_assets
          (record pool0 { amount = pool0.amount + deposit0 }
            ∷ record pool1 { amount = pool1.amount + deposit1 }
            ∷ [])
          share
          (total_share + share)
        ≡ ok (refund0 ∷ refund1 ∷ [])
      → (refund0.info ≡ pool0.info)
        × (refund0.amount ≤ deposit0)
        × (refund1.info ≡ pool1.info)
        × (refund1.amount ≤ deposit1)
  proportional_share-get_share_in_assets slippage total_share deposit0 deposit1 pool0 pool1 messages
        {share = share} {refund0 = refund0} {refund1 = refund1} keeps pos_total e_share e_refund =
      let (minted0, minted1, _) =
        proportional_share_lem slippage total_share (deposit0, deposit1)
          (pool0.amount, pool1.amount) messages keeps e_share in
      let (_, each) = get_share_in_assets_lem _ share (total_share + share) keeps e_refund in
      let (info0, le0) = each 0 _ refund0 refl refl in
      let (info1, le1) = each 1 _ refund1 refl refl in
      (
        info0,
        taken_back refund0.amount deposit0 pool0.amount total_share share pos_total minted0 le0,
        info1,
        taken_back refund1.amount deposit1 pool1.amount total_share share pos_total minted1 le1,
      )

  -- The share of a first deposit, where it is accepted, is positive, and with the minimum that stays
  -- with the pair it is at most the root of the product of the two amounts.
  pub initial_share-root :
      (liquidity_token : ℕ) (env : Env) (deposits : ℕ × ℕ) (messages : List Msg) {r : ℕ × List Msg}
      → KeepsDecimals h d
      → initial_share liquidity_token env deposits messages ≡ ok r
      → (0 < r.0)
        × ((r.0 + minimum_liquidity_amount) * (r.0 + minimum_liquidity_amount)
            ≤ deposits.0 * deposits.1)
  unfolding initial_share
  initial_share-root liquidity_token env (d0, d1) messages keeps e =
      let (product, e_p, e1) = >>=-eq-ok (mul256 d0 d1) _ e in
      let (root, e_r, e2) = >>=-eq-ok (to_u128 (std overflow) (d.isqrt product)) _ e1 in
      let (share, e_s, e3) =
        >>=-eq-ok (checked_sub minimum_liquidity_amount_error root minimum_liquidity_amount) _ e2 in
      let (u, e_u, e4) = >>=-eq-ok (fail_if (share == 0) minimum_liquidity_amount_error) _ e3 in
      let is_product = mul256-eq-ok {E = PairError} d0 d1 e_p in
      let is_root = to_u128-eq-ok (std overflow) (d.isqrt product) e_r in
      let (is_share, le) =
        checked_sub-eq-ok minimum_liquidity_amount_error root minimum_liquidity_amount e_s in
      let pos_share =
        ne_of_test share 0 (fail_if-eq-ok (share == 0) minimum_liquidity_amount_error e_u) in
      let squared = keeps.isqrts product in
      let whole : share + minimum_liquidity_amount ≡ d.isqrt product = omega arith in
      subst
        (λ (r : ℕ × List Msg).
          (0 < r.0)
          × ((r.0 + minimum_liquidity_amount) * (r.0 + minimum_liquidity_amount) ≤ d0 * d1))
        (ok-injective e4) (omega arith, subst₂ (λ w p. w * w ≤ p) (sym whole) is_product squared)
