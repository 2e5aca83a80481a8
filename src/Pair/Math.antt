-- ===== src/Pair/Math.antt =====
-- contracts/pair/src/contract.rs: the arithmetic of the constant product pair.
pub mod Product
pub mod Quote
use wynddex.Base.{
  ℕ, ◌+◌, ◌-◌, ◌*◌, ◌%◌, Bool, ◌&&◌, ◌||◌, not, List, [], ◌∷◌, Option, none, some, Result, ok, err,
  ◌>>=◌, ◌>>◌, fail_if, ok_or, unwrap, unwrap_or, ltb, leb, ◌==◌, if◌then◌else◌,
}
use wynddex.Num.{mul256, add256, sub256, to_u128, checked_sub, u128_limit}
use wynddex.Host.{Host}
use wynddex.Decimals.{Decimals, decimal_unit}
use wynddex.Platform.{StdError, overflow, generic_err}
use wynddex.Asset.Amounts.{check_swap_parameters}
use wynddex.Pair.State.{Config, PairError, lift, allowed_spread_assertion, max_slippage_assertion}
use wynddex.Pair.Checks.{default_slippage, max_allowed_slippage}

module _ ⦃d : Decimals⦄ where
  unfoldable pub decimal2decimal256 : ℕ → Result StdError ℕ
  decimal2decimal256 dec_value = ok_or (d.from_atomics256 dec_value 18) generic_err

  -- The first part of `compute_swap`: what the curve gives, the commission included.
  unfoldable pub gross_return : ℕ → ℕ → ℕ → Result StdError ℕ
  gross_return offer_pool ask_pool offer_amount = do
    cp ← mul256 offer_pool ask_pool
    whole ← unwrap (d.from_ratio256 ask_pool 1)
    new_offer ← add256 offer_pool offer_amount
    kept ← unwrap (d.from_ratio256 cp new_offer)
    difference ← sub256 whole kept
    unwrap (d.mul_uint256 1 difference)

  -- The second part: the return amount, the spread and the commission.
  unfoldable pub settle_swap : ℕ → ℕ → ℕ → ℕ → ℕ → Result StdError (ℕ × ℕ × ℕ)
  settle_swap offer_pool ask_pool offer_amount commission_rate gross = do
    price ← unwrap (d.from_ratio256 ask_pool offer_pool)
    ideal ← unwrap (d.mul_uint256 offer_amount price)
    spread_amount ← sub256 ideal gross
    commission_amount ← unwrap (d.mul_uint256 gross commission_rate)
    return_amount ← sub256 gross commission_amount
    r ← to_u128 overflow return_amount
    s ← to_u128 overflow spread_amount
    c ← to_u128 overflow commission_amount
    ok (r, s, c)

  unfoldable pub compute_swap : ℕ → ℕ → ℕ → ℕ → Result StdError (ℕ × ℕ × ℕ)
  compute_swap offer_pool ask_pool offer_amount commission_rate = do
    check_swap_parameters (offer_pool ∷ ask_pool ∷ []) offer_amount
    rate ← decimal2decimal256 commission_rate
    gross ← gross_return offer_pool ask_pool offer_amount
    settle_swap offer_pool ask_pool offer_amount rate gross

  -- The ask amount before the commission is deducted, in `compute_offer_amount`.
  unfoldable pub before_commission : ℕ → ℕ → Result StdError ℕ
  before_commission ask_amount rate = do
    one_minus_commission ← sub256 decimal_unit rate
    inverse ← unwrap (d.div_decimal256 decimal_unit one_minus_commission)
    unwrap (d.mul_uint256 ask_amount inverse)

  -- The offer that leaves the product, in `compute_offer_amount`.
  unfoldable pub offer_for : ℕ → ℕ → ℕ → Result StdError ℕ
  offer_for offer_pool ask_pool before = do
    cp ← mul256 offer_pool ask_pool
    narrow ← to_u128 overflow before
    left ← checked_sub overflow ask_pool narrow
    quotient ← unwrap (d.multiply_ratio256 cp 1 left)
    more ← checked_sub overflow quotient offer_pool
    to_u128 overflow more

module _ ⦃h : Host⦄ ⦃d : Decimals⦄ where
  unfoldable pub compute_offer_amount : ℕ → ℕ → ℕ → ℕ → Result StdError (ℕ × ℕ × ℕ)
  compute_offer_amount offer_pool ask_pool ask_amount commission_rate = do
    check_swap_parameters (offer_pool ∷ ask_pool ∷ []) ask_amount
    rate ← decimal2decimal256 commission_rate
    before ← before_commission ask_amount rate
    offer_amount ← offer_for offer_pool ask_pool before
    price ← unwrap (d.from_ratio ask_pool offer_pool)
    ideal ← unwrap (h.mul_decimal offer_amount price)
    commission ← unwrap (d.mul_uint256 before rate)
    commission_amount ← to_u128 overflow commission
    ok (offer_amount, ideal - before, commission_amount)

  -- One of the two comparisons of `assert_slippage_tolerance`.
  unfoldable pub price_moves : ℕ → ℕ → ℕ → ℕ → ℕ → Result PairError Bool
  price_moves deposit other_deposit pool other_pool factor = do
    deposits ← unwrap (d.from_ratio256 deposit other_deposit)
    least ← unwrap (d.mul_decimal256 deposits factor)
    pools ← unwrap (d.from_ratio256 pool other_pool)
    ok (ltb pools least)

  unfoldable pub assert_slippage_tolerance : Option ℕ → ℕ × ℕ → ℕ × ℕ → Result PairError (Unit {0})
  assert_slippage_tolerance slippage_tolerance (deposit0, deposit1) (pool0, pool1) = do
    let tolerance = unwrap_or slippage_tolerance default_slippage
    fail_if (ltb max_allowed_slippage tolerance) allowed_spread_assertion
    tolerance256 ← lift (decimal2decimal256 tolerance)
    factor ← sub256 decimal_unit tolerance256
    first ← price_moves deposit0 deposit1 pool0 pool1 factor
    let other : Result PairError Bool = price_moves deposit1 deposit0 pool1 pool0 factor
    moves ← if first then ok first else other
    fail_if moves max_slippage_assertion

  -- A cumulative price some seconds later, in `accumulate_prices`.
  unfoldable pub cumulate : ℕ → ℕ → ℕ → ℕ → Result StdError ℕ
  cumulate last time_elapsed y x = do
    scaled ←
        (if ltb (time_elapsed * 1000000) u128_limit
          then ok (time_elapsed * 1000000)
          else err overflow)
    grown ← unwrap (d.multiply_ratio scaled y x)
    ok ((last + grown) % u128_limit)

  -- The new cumulative prices and their time, `none` where no time has passed.
  unfoldable pub accumulate_prices : ℕ → Config → ℕ → ℕ → Result StdError (Option (ℕ × ℕ × ℕ))
  accumulate_prices now config x y = do
    let block_time = h.seconds now
    let time_elapsed = block_time - config.block_time_last
    let pcl0 = config.price0_cumulative_last
    let pcl1 = config.price1_cumulative_last
    let grow : Result StdError (Option (ℕ × ℕ × ℕ)) = do
      new0 ← cumulate pcl0 time_elapsed y x
      new1 ← cumulate pcl1 time_elapsed x y
      ok (some (new0, new1, block_time))
    let moved : Result StdError (Option (ℕ × ℕ × ℕ)) =
        if not (x == 0) && not (y == 0) then grow else ok (some (pcl0, pcl1, block_time))
    if leb block_time config.block_time_last then ok none else moved

  unfoldable pub calculate_protocol_fee : ℕ → ℕ → Result PairError (Option ℕ)
  calculate_protocol_fee commission_amount protocol_commission_rate = do
    protocol_fee ← unwrap (h.mul_decimal commission_amount protocol_commission_rate)
    ok (if protocol_fee == 0 then none else some protocol_fee)
