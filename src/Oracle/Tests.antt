-- ===== src/Oracle/Tests.antt =====
-- The oracle on concrete values: a price of one from second 60, then of two.
use wynddex.Base.{Option, ℕ, ◌+◌, ◌-◌, ◌*◌, ◌/◌, ◌≤◌, ◌≡◌, refl, arith, [], ◌∷◌, some, ok, value}
use wynddex.Num.{mul256, add256, mul64, add64, sub64, div, add_usize}
use wynddex.Decimals.{decimal_unit}
use wynddex.Decimals.Concrete.{platform, exact, platform-KeepsTime}
use wynddex.Platform.{StdError}
use wynddex.Oracle.{
  Accumulator, Prices, Oracle, accumulate, accumulate_nanos, advance, calc_checkpoint,
  initialize_oracle, store_price, refresh, refresh_at, written, fill, samples, sample, slice,
  update, diff_nanos,
}
use wynddex.Oracle.Checkpoints.{calc_checkpoint-total, calc_checkpoint_lem, IsCheckpoint}
use wynddex.Oracle.History.{accumulate-Records, Records}
use wynddex.Oracle.Freshness.{store_price-IsFresh, initialize_oracle-IsFresh, IsFresh}

calc_checkpoint_lem_example : IsCheckpoint 60 200000000000 60 (some 180)
unfolding calc_checkpoint sub64 div mul64 add64
calc_checkpoint_lem_example = calc_checkpoint_lem {E = StdError} 60 200000000000 60 refl

calc_checkpoint-total_example :
    (c : Option ℕ) × (calc_checkpoint {E = StdError} 60 200000000000 60 ≡ ok c)
    × IsCheckpoint 60 200000000000 60 c
calc_checkpoint-total_example =
    calc_checkpoint-total {E = StdError} 60 200000000000 60 platform-KeepsTime (omega arith)
      (omega arith) (ground arith)

abbrev started : Oracle
started = initialize_oracle 60000000000 decimal_unit

abbrev stored : Oracle
stored = value {E = StdError} (store_price started 200000000000 (2 * decimal_unit)) started

initialize_oracle-IsFresh_example : IsFresh started
initialize_oracle-IsFresh_example =
    initialize_oracle-IsFresh 60000000000 decimal_unit platform-KeepsTime

store_price-IsFresh_example :
    IsFresh stored
    × (stored.updates.accumulator.snapshot ≡ 200000000000)
    × (stored.updates.accumulator.last_price ≡ 2000000000000000000)
unfolding initialize_oracle store_price refresh refresh_at calc_checkpoint accumulate written fill
    samples sample slice update advance accumulate_nanos diff_nanos mul256 add256 sub64 div mul64
    add64 add_usize
store_price-IsFresh_example =
    store_price-IsFresh {E = StdError} started 200000000000 2000000000000000000 platform-KeepsTime
      (omega arith) initialize_oracle-IsFresh_example refl

-- An accumulator of the price one from second zero, and a buffer of one entry at second 60.
abbrev steady : Accumulator
steady = record { snapshot = 0; last_price = decimal_unit; twap_a_per_b = 0; twap_b_per_a = 0 }

-- The atomics of the seconds.
abbrev past : ℕ → ℕ
past t = 0 + decimal_unit * (t * 1000000000 - 0) / 1000000000

abbrev one_entry : Prices
one_entry = record { twap_a_per_b = past 60 ∷ []; twap_b_per_a = past 60 ∷ [] }

abbrev three_entries : Prices
three_entries = value {E = StdError} (accumulate one_entry 60 180 steady 60) one_entry

steady-past :
    (t : ℕ) (v : ℕ × ℕ)
    → 0 ≤ t * 1000000000
    → advance {E = StdError} steady (t * 1000000000 - 0) ≡ ok v
    → (v.0 ≡ past t) × (v.1 ≡ past t)
unfolding advance accumulate_nanos mul256 add256
steady-past t v le e = ground arith

accumulate-Records_example :
    Records past three_entries.twap_a_per_b 180 60 × Records past three_entries.twap_b_per_a 180 60
unfolding accumulate written fill samples sample slice advance accumulate_nanos diff_nanos mul256
    add256 sub64 div mul64 add64 add_usize
accumulate-Records_example =
    accumulate-Records {E = StdError} one_entry 60 180 steady 60 2 past past platform-KeepsTime refl
      (omega arith) steady-past (refl, tt) (refl, tt) refl
