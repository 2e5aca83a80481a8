-- ===== src/Decimals/Rounding.antt =====
-- Quotients that are rounded down.
use wynddex.Base.{ℕ, ◌+◌, ◌*◌, ◌/◌, ◌≤◌, ◌<◌, ◌≡◌, arith}
use native.Mathlib.Nat.{div-mul-le_self, lt-div-mul-add}

-- A rounded quotient is at most the exact one and less than one below it.
pub div_bounds : (a b : ℕ) {q : ℕ} → 0 < b → q ≡ a / b → (q * b ≤ a) × (a < q * b + b)
div_bounds a b pos_b e =
    (ground (arith, div-mul-le_self a b), ground (arith, lt-div-mul-add {a = a} {b = b} pos_b))
