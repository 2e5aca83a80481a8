-- ===== src/Num.antt =====
-- Machine integers. `Uint128` and `u128` are natural numbers below 2^128, and every operator panics
-- where the result does not fit (the release profile sets `overflow-checks`); `i128` is a ℤ.
mod Int
mod Wide
unfoldable pub use Int.*
unfoldable pub use Wide.*
use wynddex.Base.{
  ℕ, suc, ◌+◌, ◌-◌, ◌*◌, ◌%◌, ◌≤◌, ◌<◌, ◌≡◌, refl, List, [], ◌∷◌, arith, ltb, leb, if◌then◌else◌,
  Result, ok, err, panic, ◌>>=◌, Bool, true, false, sum_by,
}

-- 2^128, 2^127 and 2^64
abbrev pub u128_limit : ℕ
u128_limit = 340282366920938463463374607431768211456

abbrev pub i128_limit : ℕ
i128_limit = 170141183460469231731687303715884105728

abbrev pub u64_limit : ℕ
u64_limit = 18446744073709551616

module _ {E : Type 0} where
  -- `a + b`
  unfoldable pub add128 : ℕ → ℕ → Result E ℕ
  add128 a b = if ltb (a + b) u128_limit then ok (a + b) else panic

  -- `a - b`
  unfoldable pub sub128 : ℕ → ℕ → Result E ℕ
  sub128 a b = if leb b a then ok (a - b) else panic

  -- `a * b`
  unfoldable pub mul128 : ℕ → ℕ → Result E ℕ
  mul128 a b = if ltb (a * b) u128_limit then ok (a * b) else panic

  -- `a + b` on `u64`
  unfoldable pub add64 : ℕ → ℕ → Result E ℕ
  add64 a b = if ltb (a + b) u64_limit then ok (a + b) else panic

  -- `a.checked_add(b)?` and `a.checked_sub(b)?`, with the error that `?` converts to
  unfoldable pub checked_add : E → ℕ → ℕ → Result E ℕ
  checked_add e a b = if ltb (a + b) u128_limit then ok (a + b) else err e

  unfoldable pub checked_sub : E → ℕ → ℕ → Result E ℕ
  checked_sub e a b = if leb b a then ok (a - b) else err e

  -- `iter.sum::<Uint128>()`
  unfoldable pub sum128 : List ℕ → Result E ℕ
  sum128 [] = ok 0
  sum128 (x ∷ xs) = sum128 xs >>= add128 x

  -- a checked result of `i128`
  unfoldable pub to_i128 : ℤ → Result E ℤ
  to_i128 z = if fits_i128 z then ok z else panic

  pub add128-eq-ok : (a b : ℕ) {c : ℕ} → add128 a b ≡ ok c → (c ≡ a + b) × (c < u128_limit)
  unfolding add128
  add128-eq-ok a b h = ground arith

  pub sub128-eq-ok : (a b : ℕ) {c : ℕ} → sub128 a b ≡ ok c → (c ≡ a - b) × (b ≤ a)
  unfolding sub128
  sub128-eq-ok a b h = ground arith

  pub mul128-eq-ok : (a b : ℕ) {c : ℕ} → mul128 a b ≡ ok c → (c ≡ a * b) × (c < u128_limit)
  unfolding mul128
  mul128-eq-ok a b h = ground arith

  pub add64-eq-ok : (a b : ℕ) {c : ℕ} → add64 a b ≡ ok c → c ≡ a + b
  unfolding add64
  add64-eq-ok a b h = ground arith

  pub checked_add-eq-ok :
      (e : E) (a b : ℕ) {c : ℕ} → checked_add e a b ≡ ok c → (c ≡ a + b) × (c < u128_limit)
  unfolding checked_add
  checked_add-eq-ok e a b h = ground arith

  pub checked_sub-eq-ok :
      (e : E) (a b : ℕ) {c : ℕ} → checked_sub e a b ≡ ok c → (c ≡ a - b) × (b ≤ a)
  unfolding checked_sub
  checked_sub-eq-ok e a b h = ground arith

  -- A sum panics exactly when it does not fit.
  pub sum128_lem :
      (xs : List ℕ)
      → sum128 xs ≡ (if ltb (sum_by (λ x. x) xs) u128_limit then ok (sum_by (λ x. x) xs) else panic)
  unfolding sum128 add128
  sum128_lem [] = refl
  sum128_lem (x ∷ xs) = rw (sum128_lem xs) (ground arith)
