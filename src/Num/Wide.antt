-- ===== src/Num/Wide.antt =====
-- `Uint256` and the atomics of `Decimal256`: natural numbers below 2^256. The operators panic where the
-- result does not fit.
use wynddex.Base.{
  ℕ, ◌+◌, ◌-◌, ◌*◌, ◌/◌, ◌≤◌, ◌<◌, ◌≡◌, arith, ltb, leb, ◌==◌, if◌then◌else◌, Result, ok, err,
  panic,
}

-- 2^256
abbrev pub u256_limit : ℕ
u256_limit = 115792089237316195423570985008687907853269984665640564039457584007913129639936

module _ {E : Type 0} where
  unfoldable pub add256 : ℕ → ℕ → Result E ℕ
  add256 a b = if ltb (a + b) u256_limit then ok (a + b) else panic

  unfoldable pub sub256 : ℕ → ℕ → Result E ℕ
  sub256 a b = if leb b a then ok (a - b) else panic

  unfoldable pub mul256 : ℕ → ℕ → Result E ℕ
  mul256 a b = if ltb (a * b) u256_limit then ok (a * b) else panic

  -- `a / b` on any width
  unfoldable pub div : ℕ → ℕ → Result E ℕ
  div a b = if b == 0 then panic else ok (a / b)

  -- `Uint128::try_from`, with the error that `?` converts to
  unfoldable pub to_u128 : E → ℕ → Result E ℕ
  to_u128 e a = if ltb a 340282366920938463463374607431768211456 then ok a else err e

  -- `a * b` on `u64`
  unfoldable pub mul64 : ℕ → ℕ → Result E ℕ
  mul64 a b = if ltb (a * b) 18446744073709551616 then ok (a * b) else panic

  -- `a - b` on `u64`
  unfoldable pub sub64 : ℕ → ℕ → Result E ℕ
  sub64 a b = if leb b a then ok (a - b) else panic

  -- `Uint128::try_from(a).unwrap()`
  unfoldable pub narrow128 : ℕ → Result E ℕ
  narrow128 a = if ltb a 340282366920938463463374607431768211456 then ok a else panic

  -- `a + b` on `usize`, which has 32 bits on the platform's target
  unfoldable pub add_usize : ℕ → ℕ → Result E ℕ
  add_usize a b = if ltb (a + b) 4294967296 then ok (a + b) else panic

  pub sub64-eq-ok : (a b : ℕ) {c : ℕ} → sub64 a b ≡ ok c → (c ≡ a - b) × (b ≤ a)
  unfolding sub64
  sub64-eq-ok a b h = ground arith

  pub narrow128-eq-ok : (a : ℕ) {c : ℕ} → narrow128 a ≡ ok c → c ≡ a
  unfolding narrow128
  narrow128-eq-ok a h = ground arith

  pub add256-eq-ok : (a b : ℕ) {c : ℕ} → add256 a b ≡ ok c → c ≡ a + b
  unfolding add256
  add256-eq-ok a b h = ground arith

  pub sub256-eq-ok : (a b : ℕ) {c : ℕ} → sub256 a b ≡ ok c → (c ≡ a - b) × (b ≤ a)
  unfolding sub256
  sub256-eq-ok a b h = ground arith

  pub mul256-eq-ok : (a b : ℕ) {c : ℕ} → mul256 a b ≡ ok c → c ≡ a * b
  unfolding mul256
  mul256-eq-ok a b h = ground arith

  pub div-eq-ok : (a b : ℕ) {c : ℕ} → div a b ≡ ok c → (c ≡ a / b) × (0 < b)
  unfolding div
  div-eq-ok a b h = ground arith

  pub to_u128-eq-ok : (e : E) (a : ℕ) {c : ℕ} → to_u128 e a ≡ ok c → c ≡ a
  unfolding to_u128
  to_u128-eq-ok e a h = ground arith

  pub mul64-eq-ok : (a b : ℕ) {c : ℕ} → mul64 a b ≡ ok c → c ≡ a * b
  unfolding mul64
  mul64-eq-ok a b h = ground arith

  pub add_usize-eq-ok : (a b : ℕ) {c : ℕ} → add_usize a b ≡ ok c → c ≡ a + b
  unfolding add_usize
  add_usize-eq-ok a b h = ground arith
