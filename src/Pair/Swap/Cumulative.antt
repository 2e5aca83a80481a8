-- ===== src/Pair/Swap/Cumulative.antt =====
-- The cumulative prices of a pair, `accumulate_prices` of contracts/pair/src/contract.rs, as a swap, a
-- deposit and a withdrawal save them.
use wynddex.Base.{
  ℕ, ◌+◌, ◌-◌, ◌*◌, ◌%◌, ◌≤◌, ◌<◌, ◌≡◌, refl, sym, subst, arith, false, not, ◌&&◌, Option, ok, err,
  >>=-eq-ok, ok-injective, unwrap, unwrap-eq-ok, map_err-eq-ok, leb, ltb, ◌==◌, if◌then◌else◌,
  Bool-cases, inl, inr, ◌⊎◌,
}
use wynddex.Num.{u128_limit}
use wynddex.Host.{Host}
use wynddex.Decimals.{Decimals, KeepsDecimals}
use wynddex.Decimals.Rounding.{div_bounds}
use wynddex.Platform.{StdError, overflow}
use wynddex.Pair.State.{Store, Config, lift, std}
use wynddex.Pair.Math.{accumulate_prices, cumulate}
use wynddex.Pair.Swap.{save_prices, cumulative_prices}

-- A cumulative price that has grown, with wrap-around at 128 bits, by the price `other / own` in
-- millionths for each second, rounded down.
abbrev pub Grown : ℕ → ℕ → ℕ → ℕ → ℕ → Type 0
Grown last next elapsed own other =
    (g : ℕ) × (next ≡ (last + g) % u128_limit)
    × (g * own ≤ elapsed * 1000000 * other)
    × (elapsed * 1000000 * other < g * own + own)

-- What becomes of the configuration, from pools of `x` and `y`.
abbrev pub IsAdvanced : ℕ → ℕ → ℕ → Config → Config → Type 0
IsAdvanced now x y c c' =
    ((now ≤ c.block_time_last) × (c' ≡ c))
    ⊎ ((c.block_time_last < now)
        × (c'.block_time_last ≡ now)
        × ((((x ≡ 0) ⊎ (y ≡ 0))
              × (c'.price0_cumulative_last ≡ c.price0_cumulative_last)
              × (c'.price1_cumulative_last ≡ c.price1_cumulative_last))
            ⊎ (Grown c.price0_cumulative_last c'.price0_cumulative_last (now - c.block_time_last) x
                  y
                × Grown c.price1_cumulative_last c'.price1_cumulative_last (now - c.block_time_last)
                    y x)))

an_empty_pool : (x y : ℕ) → (not (x == 0) && not (y == 0)) ≡ false → (x ≡ 0) ⊎ (y ≡ 0)
an_empty_pool x y e = ground arith

module _ ⦃h : Host⦄ ⦃d : Decimals⦄ where
  cumulate-Grown :
      (last elapsed own other : ℕ) {next : ℕ}
      → KeepsDecimals h d
      → cumulate last elapsed other own ≡ ok next
      → Grown last next elapsed own other
  unfolding cumulate
  cumulate-Grown last elapsed own other keeps e =
      let (scaled, e_s, e1) =
        >>=-eq-ok
          (if ltb (elapsed * 1000000) u128_limit then ok (elapsed * 1000000) else err overflow) _
          e in
      let (g, e_g, e2) = >>=-eq-ok (unwrap (d.multiply_ratio scaled other own)) _ e1 in
      let (pos_own, is_g) =
        keeps.multiply_ratios scaled other own (unwrap-eq-ok {E = StdError} _ e_g) in
      let is_scaled : scaled ≡ elapsed * 1000000 = ground arith in
      let (lo, hi) = div_bounds (scaled * other) own pos_own is_g in
      (
        g,
        sym (ok-injective e2),
        subst (λ n. g * own ≤ n * other) is_scaled lo,
        subst (λ n. n * other < g * own + own) is_scaled hi,
      )

  accumulate_prices-IsAdvanced :
      (s : Store) (now x y : ℕ) (prices : Option (ℕ × ℕ × ℕ))
      → KeepsDecimals h d
      → accumulate_prices now s.config x y ≡ ok prices
      → IsAdvanced (h.seconds now) x y s.config (save_prices s prices).config
  unfolding accumulate_prices
  accumulate_prices-IsAdvanced s now x y prices keeps e =
      let c = s.config in
      let elapsed = h.seconds now - c.block_time_last in
      let advanced =
        λ (p : Option (ℕ × ℕ × ℕ)). IsAdvanced (h.seconds now) x y c (save_prices s p).config in
      elim (Bool-cases (leb (h.seconds now) c.block_time_last)) [
        | inl t ↦ subst advanced (ok-injective (rw t at e)) (inl (ground (arith, t), refl))
        | inr f ↦
            let lt : c.block_time_last < h.seconds now = ground (arith, f) in
            elim (Bool-cases (not (x == 0) && not (y == 0))) [
              | inl t ↦
                  let (new0, e_0, e1) =
                    >>=-eq-ok (cumulate c.price0_cumulative_last elapsed y x) _
                      (rw t at (rw f at e)) in
                  let (new1, e_1, e2) =
                    >>=-eq-ok (cumulate c.price1_cumulative_last elapsed x y) _ e1 in
                  subst advanced (ok-injective e2) (
                    inr (
                      lt,
                      refl,
                      inr (
                        cumulate-Grown c.price0_cumulative_last elapsed x y keeps e_0,
                        cumulate-Grown c.price1_cumulative_last elapsed y x keeps e_1,
                      ),
                    ))
              | inr g ↦
                  subst advanced (ok-injective (rw g at (rw f at e)))
                    (inr (lt, refl, inl (an_empty_pool x y g, refl, refl)))
            ]
      ]

  -- The cumulative prices that are saved: where the present is not after the stored time, nothing
  -- changes. Where it is, the present becomes the stored time, and if a pool is empty, the prices
  -- stay. Otherwise each price grows, with wrap-around at 128 bits, by the amount of the other pool
  -- for one of its own, in millionths and rounded down, times the seconds that have passed.
  pub cumulative_prices-IsAdvanced :
      (s : Store) (now x y : ℕ) {s' : Store}
      → KeepsDecimals h d
      → cumulative_prices s now x y ≡ ok s'
      → IsAdvanced (h.seconds now) x y s.config s'.config
  unfolding cumulative_prices
  cumulative_prices-IsAdvanced s now x y keeps e =
      let (prices, e_p, e1) = >>=-eq-ok (lift (accumulate_prices now s.config x y)) _ e in
      subst (λ (t : Store). IsAdvanced (h.seconds now) x y s.config t.config) (ok-injective e1)
        (accumulate_prices-IsAdvanced s now x y prices keeps (map_err-eq-ok std _ e_p))
