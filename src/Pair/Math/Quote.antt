-- ===== src/Pair/Math/Quote.antt =====
-- The reverse simulation against the swap: the quoted offer gives at most what was asked for, before
-- the commission, and one unit more gives at least that.
use wynddex.Base.{
  ℕ, ◌+◌, ◌-◌, ◌*◌, ◌≤◌, ◌<◌, ◌≡◌, subst, subst₂, arith, ok, >>=-eq-ok, unwrap, unwrap-eq-ok,
}
use native.Mathlib.Nat.{mul-le-mul_right, lt_of_mul-lt-mul_right}
use wynddex.Num.{mul256, to_u128, checked_sub, mul256-eq-ok, to_u128-eq-ok, checked_sub-eq-ok}
use wynddex.Host.{Host}
use wynddex.Decimals.{Decimals, KeepsDecimals, decimal_unit}
use wynddex.Decimals.Rounding.{div_bounds}
use wynddex.Platform.{StdError, overflow}
use wynddex.Pair.Math.{gross_return, offer_for}
use wynddex.Pair.Math.Product.{gross_return-IsGross}

-- A pool that stays at least at `left` gives at most the rest.
at_most :
    (cp n ask left gross kept : ℕ)
    → left * n ≤ cp
    → cp * decimal_unit < kept * n + n
    → gross * decimal_unit ≤ ask * decimal_unit - kept
    → kept ≤ ask * decimal_unit
    → gross + left ≤ ask
at_most cp n ask left gross kept stays hi lo2 le =
    let under : left * decimal_unit < kept + 1 =
      lt_of_mul-lt-mul_right n (omega (arith, mul-le-mul_right decimal_unit stays)) in
    omega arith

-- A pool that leaves less than `left` gives at least the rest.
at_least :
    (cp n ask left gross kept : ℕ)
    → cp < left * n
    → kept * n ≤ cp * decimal_unit
    → left ≤ ask
    → ask * decimal_unit - kept < gross * decimal_unit + decimal_unit
    → ask ≤ gross + left
at_least cp n ask left gross kept leaves lo le hi2 =
    let under : kept < left * decimal_unit =
      lt_of_mul-lt-mul_right n (omega (arith, mul-le-mul_right decimal_unit leaves)) in
    omega arith

quote_bounds :
    (cp left quotient : ℕ)
    → quotient * left ≤ cp * 1
    → cp * 1 < quotient * left + left
    → (left * quotient ≤ cp) × (cp < left * (quotient + 1))
quote_bounds cp left quotient lo hi = (omega arith, omega arith)

module _ ⦃h : Host⦄ ⦃d : Decimals⦄ where
  offer_for-eq-ok :
      (offer_pool ask_pool before : ℕ) {offer : ℕ}
      → KeepsDecimals h d
      → offer_for offer_pool ask_pool before ≡ ok offer
      → (before ≤ ask_pool)
        × ((ask_pool - before) * (offer_pool + offer) ≤ offer_pool * ask_pool)
        × (offer_pool * ask_pool < (ask_pool - before) * (offer_pool + (offer + 1)))
  unfolding offer_for
  offer_for-eq-ok offer_pool ask_pool before {offer = offer} keeps e =
      let (cp, e_cp, e1) = >>=-eq-ok (mul256 offer_pool ask_pool) _ e in
      let (narrow, e_n, e2) = >>=-eq-ok (to_u128 overflow before) _ e1 in
      let (left, e_l, e3) = >>=-eq-ok (checked_sub overflow ask_pool narrow) _ e2 in
      let (quotient, e_q, e4) = >>=-eq-ok (unwrap (d.multiply_ratio256 cp 1 left)) _ e3 in
      let (more, e_m, e5) = >>=-eq-ok (checked_sub overflow quotient offer_pool) _ e4 in
      let is_cp = mul256-eq-ok {E = StdError} offer_pool ask_pool e_cp in
      let is_narrow = to_u128-eq-ok overflow before e_n in
      let (is_left, le_left) = checked_sub-eq-ok overflow ask_pool narrow e_l in
      let (is_more, le_more) = checked_sub-eq-ok overflow quotient offer_pool e_m in
      let is_offer = to_u128-eq-ok overflow more e5 in
      let (pos_left, is_quotient) =
        keeps.multiply_ratios256 cp 1 left (unwrap-eq-ok {E = StdError} _ e_q) in
      let (lo, hi) = div_bounds (cp * 1) left pos_left is_quotient in
      let same : quotient ≡ offer_pool + offer = omega arith in
      let there : left ≡ ask_pool - before = omega arith in
      let (below, above) = quote_bounds cp left quotient lo hi in
      (
        omega arith,
        subst₂ (λ l q. l * q ≤ offer_pool * ask_pool) there same
            (subst (λ t. left * quotient ≤ t) is_cp below),
        subst₂ (λ l q. offer_pool * ask_pool < l * q) there (omega arith)
            (subst (λ t. t < left * (quotient + 1)) is_cp above),
      )

  -- Where the reverse simulation and the swap answer: the quoted offer gives, with the commission, at
  -- most the amount before the commission that it was quoted for, and one unit more gives at least it.
  pub offer_for-gross_return :
      (offer_pool ask_pool before : ℕ) {offer gross more : ℕ}
      → KeepsDecimals h d
      → offer_for offer_pool ask_pool before ≡ ok offer
      → gross_return offer_pool ask_pool offer ≡ ok gross
      → gross_return offer_pool ask_pool (offer + 1) ≡ ok more
      → (gross ≤ before) × (before ≤ more)
  offer_for-gross_return offer_pool ask_pool before {offer = offer} {gross = gross} {more = more}
        keeps e e0 e1 =
      let (le, below, above) = offer_for-eq-ok offer_pool ask_pool before keeps e in
      let (kept, bounds) = gross_return-IsGross offer_pool ask_pool offer keeps e0 in
      let (lo, hi, lo2, hi2, le_kept) = bounds in
      let (kept1, bounds1) = gross_return-IsGross offer_pool ask_pool (offer + 1) keeps e1 in
      let (lo1, hi1, lo21, hi21, le_kept1) = bounds1 in
      let first =
        at_most (offer_pool * ask_pool) (offer_pool + offer) ask_pool (ask_pool - before) gross kept
          below hi lo2 le_kept in
      let second =
        at_least (offer_pool * ask_pool) (offer_pool + (offer + 1)) ask_pool (ask_pool - before)
          more kept1 above lo1 (omega arith) hi21 in
      (omega arith, omega arith)
