-- ===== src/Oracle/Query.antt =====
-- `query_oracle_range` of packages/wyndex/src/oracle.rs: the average price between two samples, or
-- from a sample to the present.
use wynddex.Base.{ℕ, List, Option, none, some, Result, ok, ◌>>=◌, ok_or, get_elem?}
use wynddex.Num.{add64, sub64, mul64}
use wynddex.Host.{Host}
use wynddex.Decimals.{Decimals}
use wynddex.Asset.{AssetInfo}
use wynddex.Platform.{StdError, not_found, generic_err}
use wynddex.Oracle.{
  SamplePeriod, by_minute, by_half_hour, by_six_hour, Accumulator, Prices, Oracle, TwapResponse,
  minute, half_hour, six_hours, index, advance, average_price, calc_checkpoint, refresh_at,
}

-- The step, the time and the buffer of a sampling period.
abbrev pub period_of : Oracle → SamplePeriod → ℕ × ℕ × Prices
period_of o by_minute = (minute, o.updates.minutes, o.minute_prices)
period_of o by_half_hour = (half_hour, o.updates.half_hours, o.half_hour_prices)
period_of o by_six_hour = (six_hours, o.updates.six_hours_time, o.six_hour_prices)

module _ ⦃h : Host⦄ ⦃d : Decimals⦄ where
  -- The `match` on `end_index`: the elapsed time, and both accumulators at the end of the range.
  unfoldable pub range_end :
      Prices → Accumulator → ℕ → ℕ → ℕ → ℕ → Option ℕ → Result StdError (ℕ × ℕ × ℕ)
  range_end prices acc step last_update now start_index (some end_index) = do
    samples ← sub64 start_index end_index
    nanos ← mul64 step 1000000000
    elapsed ← mul64 nanos samples
    a ← index prices.twap_a_per_b end_index
    b ← index prices.twap_b_per_a end_index
    ok (elapsed, a, b)
  range_end prices acc step last_update now start_index none = do
    nanos ← mul64 step 1000000000
    back ← mul64 nanos start_index
    upto ← add64 back now
    last_nanos ← mul64 last_update 1000000000
    elapsed ← sub64 upto last_nanos
    since_acc ← sub64 now acc.snapshot
    (a, b) ← advance acc since_acc
    ok (elapsed, a, b)

  unfoldable pub query_oracle_range :
      Option Oracle
      → ℕ
      → List AssetInfo
      → SamplePeriod
      → ℕ
      → Option ℕ
      → Result StdError TwapResponse
  query_oracle_range stored now asset_infos sample_period start_index end_index = do
    o ← ok_or stored not_found
    let (step, last_update, stored_prices) = period_of o sample_period
    let acc = o.updates.accumulator
    checkpoint ← calc_checkpoint last_update now step
    (time, prices) ← refresh_at last_update stored_prices acc step checkpoint
    old_a ← ok_or (get_elem? prices.twap_a_per_b start_index) generic_err
    old_b ← index prices.twap_b_per_a start_index
    (elapsed, new_a, new_b) ← range_end prices acc step last_update now start_index end_index
    a_per_b ← average_price new_a old_a elapsed
    b_per_a ← average_price new_b old_b elapsed
    a ← index asset_infos 0
    b ← index asset_infos 1
    ok (record { a = a; b = b; a_per_b = a_per_b; b_per_a = b_per_a })

  -- `query_oracle_accumulator`
  unfoldable pub query_oracle_accumulator : Option Oracle → Result StdError Accumulator
  query_oracle_accumulator stored = ok_or stored not_found >>= λ o. ok o.updates.accumulator
