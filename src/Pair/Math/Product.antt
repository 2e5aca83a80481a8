-- ===== src/Pair/Math/Product.antt =====
-- The product of the pools: what `compute_swap` takes out leaves it where it was, up to the rounding
-- of one quotient.
use wynddex.Base.{
  ℕ, ◌+◌, ◌-◌, ◌*◌, ◌≤◌, ◌<◌, ◌≡◌, ◌⊎◌, refl, sym, ◌∙◌, subst₂, ap, arith, ok, >>=-eq-ok,
  ok-injective, unwrap, unwrap-eq-ok, ◌∷◌, [],
}
use native.Mathlib.Nat.{mul-le-mul_right}
use wynddex.Num.{
  mul256, add256, sub256, to_u128, mul256-eq-ok, add256-eq-ok, sub256-eq-ok, to_u128-eq-ok,
}
use wynddex.Host.{Host}
use wynddex.Decimals.{Decimals, KeepsDecimals, decimal_unit}
use wynddex.Decimals.Rounding.{div_bounds}
use wynddex.Platform.{StdError, overflow}
use wynddex.Asset.Amounts.{check_swap_parameters}
use wynddex.Pair.Math.{gross_return, settle_swap, compute_swap, decimal2decimal256}

-- What is left in the pool is at least what the product wants, less one part in the unit.
product_left :
    (cp n whole kept gross ask : ℕ)
    → kept * n ≤ cp * decimal_unit
    → cp * decimal_unit < kept * n + n
    → gross * decimal_unit ≤ whole - kept
    → kept ≤ whole
    → whole ≡ ask * decimal_unit
    → (gross ≤ ask) × (cp * decimal_unit < (ask - gross) * n * decimal_unit + n)
product_left cp n whole kept gross ask lo hi le_gross le_kept is_whole =
    let small : gross ≤ ask = omega arith in
    let under : kept ≤ (ask - gross) * decimal_unit = omega arith in
    let product : kept * n ≤ (ask - gross) * decimal_unit * n = mul-le-mul_right n under in
    (small, omega arith)

whole_product :
    (cp left n : ℕ) → cp * decimal_unit < left * decimal_unit + n → (decimal_unit < n) ⊎ (cp ≤ left)
whole_product cp left n h = omega arith

module _ ⦃h : Host⦄ ⦃d : Decimals⦄ where
  -- The two rounded quotients of the gross return: what stays in the pool, in atomics, and the return.
  abbrev pub IsGross : ℕ → ℕ → ℕ → ℕ → ℕ → Type 0
  IsGross cp n ask gross kept =
      (kept * n ≤ cp * decimal_unit)
      × (cp * decimal_unit < kept * n + n)
      × (gross * decimal_unit ≤ ask * decimal_unit - kept)
      × (ask * decimal_unit - kept < gross * decimal_unit + decimal_unit)
      × (kept ≤ ask * decimal_unit)

  pub gross_return-IsGross :
      (offer_pool ask_pool offer_amount : ℕ) {gross : ℕ}
      → KeepsDecimals h d
      → gross_return offer_pool ask_pool offer_amount ≡ ok gross
      → (kept : ℕ) × IsGross (offer_pool * ask_pool) (offer_pool + offer_amount) ask_pool gross kept
  unfolding gross_return
  gross_return-IsGross offer_pool ask_pool offer_amount {gross = gross} keeps e =
      let (cp, e_cp, e1) = >>=-eq-ok (mul256 offer_pool ask_pool) _ e in
      let (whole, e_w, e2) = >>=-eq-ok (unwrap (d.from_ratio256 ask_pool 1)) _ e1 in
      let (n, e_n, e3) = >>=-eq-ok (add256 offer_pool offer_amount) _ e2 in
      let (kept, e_k, e4) = >>=-eq-ok (unwrap (d.from_ratio256 cp n)) _ e3 in
      let (difference, e_d, e5) = >>=-eq-ok (sub256 whole kept) _ e4 in
      let is_cp = mul256-eq-ok {E = StdError} offer_pool ask_pool e_cp in
      let is_n = add256-eq-ok {E = StdError} offer_pool offer_amount e_n in
      let (pos_n, is_kept) = keeps.from_ratios256 cp n (unwrap-eq-ok {E = StdError} _ e_k) in
      let (pos_1, is_whole) = keeps.from_ratios256 ask_pool 1 (unwrap-eq-ok {E = StdError} _ e_w) in
      let is_gross = keeps.mul_uints256 1 difference (unwrap-eq-ok {E = StdError} _ e5) in
      let (is_difference, le) = sub256-eq-ok {E = StdError} whole kept e_d in
      let (lo, hi) = div_bounds (cp * decimal_unit) n pos_n is_kept in
      let (lo1, hi1) = div_bounds (ask_pool * decimal_unit) 1 pos_1 is_whole in
      let (lo2, hi2) = div_bounds (1 * difference) decimal_unit (omega arith) is_gross in
      (
        kept,
        subst₂ (λ cp n. IsGross cp n ask_pool gross kept) is_cp is_n
            (lo, hi, omega arith, omega arith, omega arith),
      )

  -- The gross return against the rounded quotient that stays in the pool.
  pub gross_return_lem :
      (offer_pool ask_pool offer_amount : ℕ) {gross : ℕ}
      → KeepsDecimals h d
      → gross_return offer_pool ask_pool offer_amount ≡ ok gross
      → (gross ≤ ask_pool)
        × (offer_pool * ask_pool * decimal_unit
            < (ask_pool - gross) * (offer_pool + offer_amount) * decimal_unit
              + (offer_pool + offer_amount))
  gross_return_lem offer_pool ask_pool offer_amount {gross = gross} keeps e =
      let (kept, bounds) = gross_return-IsGross offer_pool ask_pool offer_amount keeps e in
      let (lo, hi, lo2, hi2, le) = bounds in
      product_left (offer_pool * ask_pool) (offer_pool + offer_amount) (ask_pool * decimal_unit)
        kept gross ask_pool lo hi lo2 le refl

  settle_swap-sum :
      (offer_pool ask_pool offer_amount rate gross : ℕ) {r : ℕ × ℕ × ℕ}
      → settle_swap offer_pool ask_pool offer_amount rate gross ≡ ok r
      → r.0 + r.2 ≡ gross
  unfolding settle_swap
  settle_swap-sum offer_pool ask_pool offer_amount rate gross {r = r} e =
      let (price, e_p, e1) = >>=-eq-ok (unwrap (d.from_ratio256 ask_pool offer_pool)) _ e in
      let (ideal, e_i, e2) = >>=-eq-ok (unwrap (d.mul_uint256 offer_amount price)) _ e1 in
      let (spread, e_s, e3) = >>=-eq-ok (sub256 ideal gross) _ e2 in
      let (commission, e_c, e4) = >>=-eq-ok (unwrap (d.mul_uint256 gross rate)) _ e3 in
      let (back, e_b, e5) = >>=-eq-ok (sub256 gross commission) _ e4 in
      let (r0, e_r0, e6) = >>=-eq-ok (to_u128 overflow back) _ e5 in
      let (r1, e_r1, e7) = >>=-eq-ok (to_u128 overflow spread) _ e6 in
      let (r2, e_r2, e8) = >>=-eq-ok (to_u128 overflow commission) _ e7 in
      let (is_back, le) = sub256-eq-ok {E = StdError} gross commission e_b in
      let is_r0 = to_u128-eq-ok overflow back e_r0 in
      let is_r2 = to_u128-eq-ok overflow commission e_r2 in
      let first : r.0 ≡ r0 = ap (λ (t : ℕ × ℕ × ℕ). t.0) (sym (ok-injective e8)) in
      let third : r.2 ≡ r2 = ap (λ (t : ℕ × ℕ × ℕ). t.2) (sym (ok-injective e8)) in omega arith

  pub compute_swap-eq-ok :
      (offer_pool ask_pool offer_amount commission_rate : ℕ) {r : ℕ × ℕ × ℕ}
      → compute_swap offer_pool ask_pool offer_amount commission_rate ≡ ok r
      → gross_return offer_pool ask_pool offer_amount ≡ ok (r.0 + r.2)
  unfolding compute_swap
  compute_swap-eq-ok offer_pool ask_pool offer_amount commission_rate e =
      let (u, e_u, e1) =
        >>=-eq-ok (check_swap_parameters (offer_pool ∷ ask_pool ∷ []) offer_amount) _ e in
      let (rate, e_r, e2) = >>=-eq-ok (decimal2decimal256 commission_rate) _ e1 in
      let (gross, e_g, e3) = >>=-eq-ok (gross_return offer_pool ask_pool offer_amount) _ e2 in
      e_g ∙ ap (λ t. ok t) (sym (settle_swap-sum offer_pool ask_pool offer_amount rate gross e3))

  -- A swap that `compute_swap` answers leaves the product of the pools, the commission not counted as
  -- left in the pool, at more than what it was less one part in 10^18 of the new offer pool; so the
  -- product does not fall where the new offer pool is at most 10^18.
  pub compute_swap-product :
      (offer_pool ask_pool offer_amount commission_rate : ℕ) {r : ℕ × ℕ × ℕ}
      → KeepsDecimals h d
      → compute_swap offer_pool ask_pool offer_amount commission_rate ≡ ok r
      → (r.0 + r.2 ≤ ask_pool)
        × (offer_pool * ask_pool * decimal_unit
            < (ask_pool - (r.0 + r.2)) * (offer_pool + offer_amount) * decimal_unit
              + (offer_pool + offer_amount))
        × ((decimal_unit < offer_pool + offer_amount)
            ⊎ (offer_pool * ask_pool ≤ (ask_pool - (r.0 + r.2)) * (offer_pool + offer_amount)))
  compute_swap-product offer_pool ask_pool offer_amount commission_rate {r = r} keeps e =
      let (le, lt) =
        gross_return_lem offer_pool ask_pool offer_amount keeps
          (compute_swap-eq-ok offer_pool ask_pool offer_amount commission_rate e) in
      (le, lt, whole_product _ _ (offer_pool + offer_amount) lt)
