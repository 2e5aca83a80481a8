-- ===== src/Decimals.antt =====
-- `cosmwasm_std::Decimal` and `Decimal256`, which the repository only uses. A decimal is its number of
-- atomics (10^-18). The operations are arguments of the model; what they document, rounding down
-- included, is a hypothesis of the theorems that rely on it.
pub mod Rounding
pub mod Concrete
use wynddex.Base.{ℕ, ◌*◌, ◌/◌, ◌^◌, ◌≤◌, ◌<◌, ◌≡◌, Option, some}
use wynddex.Host.{Host}

-- One, in atomics.
abbrev pub decimal_unit : ℕ
decimal_unit = 1000000000000000000

-- `none` is a panic, or the failure that the function's documentation names.
pub record Decimals : Type 0 where
  -- `Decimal::from_ratio` and `Decimal256::from_ratio`
  pub from_ratio : ℕ → ℕ → Option ℕ
  pub from_ratio256 : ℕ → ℕ → Option ℕ
  -- `Decimal::inv`, `none` at zero
  pub inv : ℕ → Option ℕ
  -- `Decimal::from_atomics` and `Decimal256::from_atomics`: the atomics and their decimal places
  pub from_atomics : ℕ → ℕ → Option ℕ
  pub from_atomics256 : ℕ → ℕ → Option ℕ
  -- `Uint256 * Decimal256`
  pub mul_uint256 : ℕ → ℕ → Option ℕ
  -- `Decimal256 * Decimal256` and `Decimal256 / Decimal256`
  pub mul_decimal256 : ℕ → ℕ → Option ℕ
  pub div_decimal256 : ℕ → ℕ → Option ℕ
  -- `Uint128::multiply_ratio` and `Uint256::multiply_ratio`
  pub multiply_ratio : ℕ → ℕ → ℕ → Option ℕ
  pub multiply_ratio256 : ℕ → ℕ → ℕ → Option ℕ
  -- `Uint256::isqrt`
  pub isqrt : ℕ → ℕ

-- What the operations document: the exact quotient, rounded down.
pub record KeepsDecimals (h : Host) (d : Decimals) : Type 0 where
  pub mul_decimals : (a x : ℕ) {r : ℕ} → h.mul_decimal a x ≡ some r → r ≡ a * x / decimal_unit
  pub from_ratios :
      (a b : ℕ) {r : ℕ} → d.from_ratio a b ≡ some r → (0 < b) × (r ≡ a * decimal_unit / b)
  pub from_ratios256 :
      (a b : ℕ) {r : ℕ} → d.from_ratio256 a b ≡ some r → (0 < b) × (r ≡ a * decimal_unit / b)
  pub mul_uints256 : (a x : ℕ) {r : ℕ} → d.mul_uint256 a x ≡ some r → r ≡ a * x / decimal_unit
  pub mul_decimals256 : (x y : ℕ) {r : ℕ} → d.mul_decimal256 x y ≡ some r → r ≡ x * y / decimal_unit
  pub div_decimals256 :
      (x y : ℕ) {r : ℕ} → d.div_decimal256 x y ≡ some r → (0 < y) × (r ≡ x * decimal_unit / y)
  pub multiply_ratios :
      (a n m : ℕ) {r : ℕ} → d.multiply_ratio a n m ≡ some r → (0 < m) × (r ≡ a * n / m)
  pub multiply_ratios256 :
      (a n m : ℕ) {r : ℕ} → d.multiply_ratio256 a n m ≡ some r → (0 < m) × (r ≡ a * n / m)
  pub isqrts : (n : ℕ) → d.isqrt n * d.isqrt n ≤ n
