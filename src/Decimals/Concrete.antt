-- ===== src/Decimals/Concrete.antt =====
-- A concrete platform and concrete decimals, for the examples: every address is valid, and the
-- operations on decimals round down and fail only where a divisor is zero.
use wynddex.Base.{
  ℕ, zero, suc, ◌+◌, ◌-◌, ◌*◌, ◌/◌, ◌^◌, ◌≤◌, ◌≡◌, arith, true, false, Option, none, some, leb, ltb,
  ◌==◌, if◌then◌else◌, refl,
}
use wynddex.Host.{Host, KeepsTime}
use wynddex.Decimals.{Decimals, KeepsDecimals, decimal_unit}

instance abbrev pub platform : Host
platform = record {
  addr_validate = λ a. some a;
  is_ibc = λ d. false;
  is_lowercase = λ d. true;
  mul_decimal = λ a x. some (a * x / decimal_unit);
  plus_seconds = λ t s. some (t + s * 1000000000);
  seconds = λ t. t / 1000000000;
  from_seconds =
      λ s. if ltb (s * 1000000000) 18446744073709551616 then some (s * 1000000000) else none;
  create_claim = λ cs amount at. cs;
  claim_tokens = λ cs now. (0, cs);
  is_admin = λ a sender. false;
  execute_update_admin = λ old sender new. none;
}

abbrev pub quotient : ℕ → ℕ → Option ℕ
quotient a b = if b == 0 then none else some (a / b)

-- The largest root below a power of two, bit by bit.
abbrev pub root : ℕ → ℕ → ℕ → ℕ
root zero n r = r
root (suc k) n r = elim (leb ((r + 2 ^ k) * (r + 2 ^ k)) n) [
  | true ↦ root k n (r + 2 ^ k)
  | false ↦ root k n r
]

abbrev pub scale : ℕ → ℕ → ℕ
scale atomics places =
    if leb places 18 then atomics * 10 ^ (18 - places) else atomics / 10 ^ (places - 18)

instance abbrev pub exact : Decimals
exact = record {
  from_ratio = λ a b. quotient (a * decimal_unit) b;
  from_ratio256 = λ a b. quotient (a * decimal_unit) b;
  inv = λ x. quotient (decimal_unit * decimal_unit) x;
  from_atomics = λ a n. some (scale a n);
  from_atomics256 = λ a n. some (scale a n);
  mul_uint256 = λ a x. some (a * x / decimal_unit);
  mul_decimal256 = λ x y. some (x * y / decimal_unit);
  div_decimal256 = λ x y. quotient (x * decimal_unit) y;
  multiply_ratio = λ a n m. quotient (a * n) m;
  multiply_ratio256 = λ a n m. quotient (a * n) m;
  isqrt = λ n. root 40 n 0;
}

root_lem : (k n r : ℕ) → r * r ≤ n → root k n r * root k n r ≤ n
root_lem zero n r h = h
root_lem (suc k) n r h = ground (arith, root_lem k n (r + 2 ^ k), root_lem k n r h)

quotient-some : (a b : ℕ) {r : ℕ} → quotient a b ≡ some r → (0 ≤ b) × (r ≡ a / b)
quotient-some a b h = ground arith

pub exact-KeepsDecimals : KeepsDecimals platform exact
exact-KeepsDecimals = record {
  mul_decimals = λ a x e. ground arith;
  from_ratios = λ a b e. ground arith;
  from_ratios256 = λ a b e. ground arith;
  mul_uints256 = λ a x e. ground arith;
  mul_decimals256 = λ x y e. ground arith;
  div_decimals256 = λ x y e. ground arith;
  multiply_ratios = λ a n m e. ground arith;
  multiply_ratios256 = λ a n m e. ground arith;
  isqrts = λ n. root_lem 40 n 0 (ground arith);
}

pub platform-KeepsTime : KeepsTime platform
platform-KeepsTime = record {
  whole_seconds = λ t. refl;
  from_whole_seconds = λ s h. ground arith;
  from_seconds_only = λ s e. ground arith;
}
