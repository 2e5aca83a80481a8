-- ===== src/Oracle.antt =====
-- packages/wyndex/src/oracle.rs: the time-weighted prices of a pair: a running accumulator, and for
-- three sampling periods a buffer of its values at the last checkpoints, newest first.
pub mod Checkpoints
pub mod Buffers
pub mod History
pub mod Freshness
pub mod Query
mod Tests
use wynddex.Base.{
  ℕ, zero, suc, ◌+◌, ◌-◌, ◌*◌, ◌%◌, Bool, List, [], ◌∷◌, ◌++◌, map, Option, none, some, Result, ok,
  err, panic, ◌>>=◌, ◌>>◌, fail_if, ok_or, unwrap, ltb, leb, ◌==◌, if◌then◌else◌, length, get_elem?,
}
use wynddex.Num.{mul256, add256, sub256, div, narrow128, add64, sub64, mul64, add_usize}
use wynddex.Host.{Host}
use wynddex.Decimals.{Decimals}
use wynddex.Asset.{AssetInfo}
use wynddex.Platform.{StdError, not_found, generic_err}

abbrev pub minute : ℕ
minute = 60

abbrev pub half_hour : ℕ
half_hour = 1800

abbrev pub six_hours : ℕ
six_hours = 21600

abbrev pub buffer_depth : ℕ
buffer_depth = 32

pub data SamplePeriod : Type 0 where
  by_minute by_half_hour by_six_hour : SamplePeriod

-- A `Twap` is the atomics of its decimal; a snapshot is in nanoseconds.
pub record Accumulator : Type 0 where
  pub snapshot : ℕ
  pub last_price : ℕ
  pub twap_a_per_b : ℕ
  pub twap_b_per_a : ℕ

pub record LastUpdates : Type 0 where
  pub accumulator : Accumulator
  pub minutes : ℕ
  pub half_hours : ℕ
  pub six_hours_time : ℕ

pub record Prices : Type 0 where
  pub twap_a_per_b : List ℕ
  pub twap_b_per_a : List ℕ

-- The four items of the storage, which `initialize_oracle` saves together.
pub record Oracle : Type 0 where
  pub updates : LastUpdates
  pub minute_prices : Prices
  pub half_hour_prices : Prices
  pub six_hour_prices : Prices

pub record TwapResponse : Type 0 where
  pub a : AssetInfo
  pub b : AssetInfo
  pub a_per_b : ℕ
  pub b_per_a : ℕ

-- `Accumulator::new`
abbrev pub new_accumulator : ℕ → ℕ → Accumulator
new_accumulator now price = record {
  snapshot = now;
  last_price = price;
  twap_a_per_b = 0;
  twap_b_per_a = 0;
}

abbrev pub take : List ℕ → ℕ → List ℕ
take xs zero = []
take [] (suc n) = []
take (x ∷ xs) (suc n) = x ∷ take xs n

module _ {E : Type 0} where
  -- `xs[0..n]`
  unfoldable pub slice : List ℕ → ℕ → Result E (List ℕ)
  slice xs n = if leb n (length xs) then ok (take xs n) else panic

  -- `xs[i]`
  unfoldable pub index {ℓ} : {A : Type ℓ} → List A → ℕ → Result E A
  index xs i = unwrap (get_elem? xs i)

  -- `diff_nanos`
  unfoldable pub diff_nanos : ℕ → ℕ → Result E ℕ
  diff_nanos older later = sub64 later older

module _ {E : Type 0} ⦃d : Decimals⦄ where
  -- `Twap::accumulate_nanos`
  unfoldable pub accumulate_nanos : ℕ → ℕ → ℕ → Result E ℕ
  accumulate_nanos twap last_price elapsed = do
    numerator ← mul256 last_price elapsed
    increment ← unwrap (d.from_atomics256 numerator 27)
    add256 twap increment

  -- `Twap::average_price`
  unfoldable pub average_price : ℕ → ℕ → ℕ → Result E ℕ
  average_price twap earlier elapsed = do
    difference ← sub256 twap earlier
    atomics ← div difference elapsed
    narrow ← narrow128 atomics
    unwrap (d.from_atomics narrow 9)

  -- Both accumulators of a record, some time after its snapshot.
  unfoldable pub advance : Accumulator → ℕ → Result E (ℕ × ℕ)
  advance acc elapsed = do
    a ← accumulate_nanos acc.twap_a_per_b acc.last_price elapsed
    inverse ← unwrap (d.inv acc.last_price)
    b ← accumulate_nanos acc.twap_b_per_a inverse elapsed
    ok (a, b)

  -- `Accumulator::update`
  unfoldable pub update : Accumulator → ℕ → ℕ → Result E Accumulator
  update acc now price = do
    let later : Result E Accumulator = do
      elapsed ← diff_nanos acc.snapshot now
      (a, b) ← advance acc elapsed
      ok (record { snapshot = now; last_price = price; twap_a_per_b = a; twap_b_per_a = b })
    let same : Result E Accumulator = ok (record acc { last_price = price })
    if ltb now acc.snapshot then panic else (if now == acc.snapshot then same else later)

module _ {E : Type 0} ⦃h : Host⦄ where
  -- `calc_checkpoint`
  unfoldable pub calc_checkpoint : ℕ → ℕ → ℕ → Result E (Option ℕ)
  calc_checkpoint last_update now step = do
    since ← sub64 (h.seconds now) last_update
    steps ← div since step
    let moved : Result E (Option ℕ) = do
      span ← mul64 steps step
      checkpoint ← add64 last_update span
      ok (some checkpoint)
    if steps == 0 then ok none else moved

module _ {E : Type 0} ⦃h : Host⦄ ⦃d : Decimals⦄ where
  -- The values of one index of the buffers, some steps after a time.
  unfoldable pub sample : Accumulator → ℕ → ℕ → ℕ → Result E (ℕ × ℕ)
  sample acc step last_timestamp steps = do
    offset ← mul64 steps step
    seconds ← add64 last_timestamp offset
    time ← unwrap (h.from_seconds seconds)
    elapsed ← diff_nanos acc.snapshot time
    advance acc elapsed

  -- The loop of `Prices::accumulate`: as many indices as there are steps, the newest first.
  unfoldable pub samples : Accumulator → ℕ → ℕ → ℕ → Result E (List (ℕ × ℕ))
  samples acc step last_timestamp zero = ok []
  samples acc step last_timestamp (suc steps) = do
    value ← sample acc step last_timestamp (suc steps)
    values ← samples acc step last_timestamp steps
    ok (value ∷ values)

  -- How many indices are written, and the time that they are counted from.
  unfoldable pub written : ℕ → ℕ → ℕ → ℕ → Result E (ℕ × ℕ)
  written new_checkpoints last_update latest_checkpoint step = do
    let all : Result E (ℕ × ℕ) = do
      span ← mul64 step buffer_depth
      oldest_time ← sub64 latest_checkpoint span
      ok (buffer_depth, oldest_time)
    if ltb new_checkpoints buffer_depth then ok (new_checkpoints, last_update) else all

  -- The part of `Prices::accumulate` that writes: the loop writes the indices in front of the `rest`
  -- that are copied.
  unfoldable pub fill : Prices → ℕ → Accumulator → ℕ → ℕ × ℕ → Result E Prices
  fill self rest acc step (last_copied, last_timestamp) = do
    kept_a ← slice self.twap_a_per_b rest
    kept_b ← slice self.twap_b_per_a rest
    values ← samples acc step last_timestamp last_copied
    ok (record {
      twap_a_per_b = map (λ v. v.0) values ++ kept_a;
      twap_b_per_a = map (λ v. v.1) values ++ kept_b;
    })

  -- `Prices::accumulate`
  unfoldable pub accumulate : Prices → ℕ → ℕ → Accumulator → ℕ → Result E Prices
  accumulate self last_update latest_checkpoint acc step = do
    since ← sub64 latest_checkpoint last_update
    all_checkpoints ← div since step
    let new_checkpoints = all_checkpoints % 4294967296
    size ← add_usize (length self.twap_a_per_b) new_checkpoints
    let len = if ltb size buffer_depth then size else buffer_depth
    range ← written new_checkpoints last_update latest_checkpoint step
    fill self (len - range.0) acc step range

  unfoldable pub refresh_at : ℕ → Prices → Accumulator → ℕ → Option ℕ → Result E (ℕ × Prices)
  refresh_at last_update prices acc step none = ok (last_update, prices)
  refresh_at last_update prices acc step (some latest) = do
    new_prices ← accumulate prices last_update latest acc step
    ok (latest, new_prices)

  -- One of the three blocks of `store_oracle_price`: the time of a buffer and the buffer.
  unfoldable pub refresh : ℕ → Prices → ℕ → Accumulator → ℕ → Result E (ℕ × Prices)
  refresh last_update prices now acc step = do
    checkpoint ← calc_checkpoint last_update now step
    refresh_at last_update prices acc step checkpoint

  -- `store_oracle_price`, once the items are loaded
  unfoldable pub store_price : Oracle → ℕ → ℕ → Result E Oracle
  store_price o now price = do
    let acc = o.updates.accumulator
    let moved : Result E Oracle = do
      (minutes, by_minute') ← refresh o.updates.minutes o.minute_prices now acc minute
      (half_hours, by_half_hour') ←
          refresh o.updates.half_hours o.half_hour_prices now acc half_hour
      (six_hours', by_six_hour') ←
          refresh o.updates.six_hours_time o.six_hour_prices now acc six_hours
      acc' ← update acc now price
      ok (record {
        updates = record {
          accumulator = acc';
          minutes = minutes;
          half_hours = half_hours;
          six_hours_time = six_hours';
        };
        minute_prices = by_minute';
        half_hour_prices = by_half_hour';
        six_hour_prices = by_six_hour';
      })
    let same : Oracle = record o {
      updates = record o.updates { accumulator = record acc { last_price = price } };
    }
    if now == acc.snapshot then ok same else moved

module _ ⦃h : Host⦄ where
  -- `initialize_oracle`
  unfoldable pub initialize_oracle : ℕ → ℕ → Oracle
  initialize_oracle now price = record {
    updates = record {
      accumulator = new_accumulator now price;
      minutes = h.seconds now;
      half_hours = h.seconds now;
      six_hours_time = h.seconds now;
    };
    minute_prices = record { twap_a_per_b = []; twap_b_per_a = [] };
    half_hour_prices = record { twap_a_per_b = []; twap_b_per_a = [] };
    six_hour_prices = record { twap_a_per_b = []; twap_b_per_a = [] };
  }

module _ ⦃h : Host⦄ ⦃d : Decimals⦄ where
  unfoldable pub store_oracle_price : Option Oracle → ℕ → ℕ → Result StdError Oracle
  store_oracle_price stored now price = ok_or stored not_found >>= λ o. store_price o now price
