-- ===== src/Oracle/Freshness.antt =====
-- The invariant of the stored prices: buffers of equal and bounded length, and times that are less
-- than one step behind the accumulator.
use wynddex.Base.{
  ℕ, ◌+◌, ◌-◌, ◌*◌, ◌≤◌, ◌<◌, ◌≡◌, refl, sym, ◌∙◌, subst, ap, arith, some, none, Option, ok,
  >>=-eq-ok, ok-injective, Bool-cases, false, ==_iff, inl, inr, length, ltb, ◌==◌,
}
use native.Mathlib.Nat.{div-mul-le_self}
use wynddex.Num.{u64_limit, sub64}
use wynddex.Host.{Host, KeepsTime}
use wynddex.Decimals.{Decimals}
use wynddex.Oracle.{
  Accumulator, Prices, Oracle, accumulate, take, buffer_depth, calc_checkpoint, refresh, refresh_at,
  store_price, initialize_oracle, update, advance, diff_nanos, minute, half_hour, six_hours,
}
use wynddex.Oracle.Checkpoints.{IsCurrent, IsCheckpoint, calc_checkpoint_lem}
use wynddex.Oracle.Buffers.{IsFilled, accumulate-eq-ok, samples-length, length-front, length-take}

abbrev pub IsBuffer : Prices → Type 0
IsBuffer p =
    (length p.twap_b_per_a ≡ length p.twap_a_per_b) × (length p.twap_a_per_b ≤ buffer_depth)

module _ ⦃h : Host⦄ where
  abbrev pub IsPeriod : ℕ → ℕ → Prices → ℕ → Type 0
  IsPeriod now time p step = IsBuffer p × IsCurrent now time step

  -- The three periods, at the time of the accumulator.
  abbrev pub IsFresh : Oracle → Type 0
  IsFresh o =
      IsPeriod o.updates.accumulator.snapshot o.updates.minutes o.minute_prices minute
      × IsPeriod o.updates.accumulator.snapshot o.updates.half_hours o.half_hour_prices half_hour
      × IsPeriod o.updates.accumulator.snapshot o.updates.six_hours_time o.six_hour_prices six_hours

  -- Whole steps in a time that fits `u64` nanoseconds are few.
  few_steps :
      (now last k step c : ℕ)
      → KeepsTime h
      → now < u64_limit
      → 60 ≤ step
      → c ≡ last + k * step
      → c ≤ h.seconds now
      → k < 4294967296
  few_steps now last k step c time small large e le =
      let whole = time.whole_seconds now in
      let bound = div-mul-le_self now 1000000000 in
      let more : step ≡ 60 + (step - 60) = omega arith in
      let product : k * 60 ≤ k * step = omega (arith, ap (λ t. k * t) more) in omega (arith)

module _ {E : Type 0} ⦃h : Host⦄ ⦃d : Decimals⦄ where
  filled-IsBuffer :
      (p : Prices) (rest : ℕ) (acc : Accumulator) (step : ℕ) (range : ℕ × ℕ) {q : Prices}
      → IsFilled E p rest acc step range q
      → range.0 + rest ≤ buffer_depth
      → IsBuffer q
  filled-IsBuffer p rest acc step range (values, es, le_a, le_b, is_a, is_b) le =
      let n = samples-length acc step range.1 range.0 es in
      let a = ap (λ t. length t) is_a ∙ length-front (λ v. v.0) (take p.twap_a_per_b rest) values in
      let b = ap (λ t. length t) is_b ∙ length-front (λ v. v.1) (take p.twap_b_per_a rest) values in
      let take_a = length-take p.twap_a_per_b rest le_a in
      let take_b = length-take p.twap_b_per_a rest le_b in (omega arith, omega arith)

  refresh_at-IsPeriod :
      (last : ℕ) (p : Prices) (now : ℕ) (acc : Accumulator) (step : ℕ) (c : Option ℕ)
      {r : ℕ × Prices}
      → KeepsTime h
      → now < u64_limit
      → 60 ≤ step
      → IsBuffer p
      → IsCheckpoint last now step c
      → refresh_at {E = E} last p acc step c ≡ ok r
      → IsPeriod now r.0 r.1 step
  unfolding refresh_at
  refresh_at-IsPeriod last p now acc step none {r = r} time small large buffer current e =
      subst (λ (r : ℕ × Prices). IsPeriod now r.0 r.1 step) (ok-injective e) (buffer, current)
  refresh_at-IsPeriod last p now acc step (some c) {r = r} time small large buffer (current, moved)
        e =
      let (k, is_c, pos_k) = moved in
      let (q, e_q, e1) = >>=-eq-ok (accumulate p last c acc step) _ e in
      let few = few_steps now last k step c time small large is_c current.0 in
      let (range, rest, filled, lands, which, le) =
        accumulate-eq-ok p last c acc step k e_q is_c few in
      let whole = filled-IsBuffer p rest acc step range filled le in
      subst (λ (r : ℕ × Prices). IsPeriod now r.0 r.1 step) (ok-injective e1) (whole, current)

  refresh-IsPeriod :
      (last : ℕ) (p : Prices) (now : ℕ) (acc : Accumulator) (step : ℕ) {r : ℕ × Prices}
      → KeepsTime h
      → now < u64_limit
      → 60 ≤ step
      → IsBuffer p
      → refresh {E = E} last p now acc step ≡ ok r
      → IsPeriod now r.0 r.1 step
  unfolding refresh
  refresh-IsPeriod last p now acc step time small large buffer e =
      let (c, e_c, e1) = >>=-eq-ok (calc_checkpoint last now step) _ e in
      refresh_at-IsPeriod last p now acc step c time small large buffer
        (calc_checkpoint_lem last now step e_c) e1

  -- An update leaves the accumulator at the present.
  pub update-snapshot :
      (acc : Accumulator) (now price : ℕ) {acc' : Accumulator}
      → update {E = E} acc now price ≡ ok acc'
      → (acc'.snapshot ≡ now) × (acc'.last_price ≡ price) × (acc.snapshot ≤ now)
  unfolding update diff_nanos
  update-snapshot acc now price e = elim (Bool-cases (ltb now acc.snapshot)) [
    | inl t ↦ cc (rw t at e)
    | inr f ↦ elim (Bool-cases (now == acc.snapshot)) [
      | inl same ↦
          let is = ok-injective (rw same at (rw f at e)) in
          let at_now = (==_iff now acc.snapshot).0 same in
          (
            ap (λ (a : Accumulator). a.snapshot) (sym is) ∙ sym at_now,
            ap (λ (a : Accumulator). a.last_price) (sym is),
            ground (arith, f),
          )
      | inr later ↦
          let (elapsed, e_e, e1) = >>=-eq-ok (sub64 now acc.snapshot) _ (rw later at (rw f at e)) in
          let (twaps, e_t, e2) = >>=-eq-ok (advance acc elapsed) _ e1 in
          let is = ok-injective e2 in
          (
            ap (λ (a : Accumulator). a.snapshot) (sym is),
            ap (λ (a : Accumulator). a.last_price) (sym is),
            ground (arith, f),
          )
    ]
  ]

  moved-IsFresh :
      (o : Oracle) (now price : ℕ) {o' : Oracle}
      → KeepsTime h
      → now < u64_limit
      → IsFresh o
      → (now == o.updates.accumulator.snapshot) ≡ false
      → store_price {E = E} o now price ≡ ok o'
      → IsFresh o'
        × (o'.updates.accumulator.snapshot ≡ now)
        × (o'.updates.accumulator.last_price ≡ price)
  unfolding store_price
  moved-IsFresh o now price time small (m, hh, s) differs e =
      let acc = o.updates.accumulator in
      let (m', e_m, e1) =
        >>=-eq-ok (refresh o.updates.minutes o.minute_prices now acc minute) _ (rw differs at e) in
      let (h', e_h, e2) =
        >>=-eq-ok (refresh o.updates.half_hours o.half_hour_prices now acc half_hour) _ e1 in
      let (s', e_s, e3) =
        >>=-eq-ok (refresh o.updates.six_hours_time o.six_hour_prices now acc six_hours) _ e2 in
      let (acc', e_a, e4) = >>=-eq-ok (update acc now price) _ e3 in
      let (at_now, at_price, _) = update-snapshot acc now price e_a in
      let fresh_m = refresh-IsPeriod _ _ now acc minute time small (omega arith) m.0 e_m in
      let fresh_h = refresh-IsPeriod _ _ now acc half_hour time small (omega arith) hh.0 e_h in
      let fresh_s = refresh-IsPeriod _ _ now acc six_hours time small (omega arith) s.0 e_s in
      let fresh =
        subst
          (λ t.
            IsPeriod t m'.0 m'.1 minute
            × IsPeriod t h'.0 h'.1 half_hour
            × IsPeriod t s'.0 s'.1 six_hours)
          (sym at_now) (fresh_m, fresh_h, fresh_s) in
      subst
        (λ (o' : Oracle).
          IsFresh o'
          × (o'.updates.accumulator.snapshot ≡ now)
          × (o'.updates.accumulator.last_price ≡ price))
        (ok-injective e4) (fresh, at_now, at_price)

  -- Storing a price at a time that fits `u64` nanoseconds, where it succeeds, keeps the invariant of
  -- the oracle (buffers of equal length and at most 32 entries, each time at most one step behind the
  -- accumulator), leaves the accumulator at the present and makes the price the last one.
  pub store_price-IsFresh :
      (o : Oracle) (now price : ℕ) {o' : Oracle}
      → KeepsTime h
      → now < u64_limit
      → IsFresh o
      → store_price {E = E} o now price ≡ ok o'
      → IsFresh o'
        × (o'.updates.accumulator.snapshot ≡ now)
        × (o'.updates.accumulator.last_price ≡ price)
  unfolding store_price
  store_price-IsFresh o now price time small fresh e =
      elim (Bool-cases (now == o.updates.accumulator.snapshot)) [
        | inl same ↦
            let at_now = (==_iff now o.updates.accumulator.snapshot).0 same in
            subst
              (λ (o' : Oracle).
                IsFresh o'
                × (o'.updates.accumulator.snapshot ≡ now)
                × (o'.updates.accumulator.last_price ≡ price))
              (ok-injective (rw same at e)) (fresh, sym at_now, refl)
        | inr differs ↦ moved-IsFresh o now price time small fresh differs e
      ]

module _ ⦃h : Host⦄ where
  -- The oracle that `initialize_oracle` saves satisfies the invariant.
  pub initialize_oracle-IsFresh :
      (now price : ℕ) → KeepsTime h → IsFresh (initialize_oracle now price)
  unfolding initialize_oracle
  initialize_oracle-IsFresh now price time =
      let one : (step : ℕ)
          → 0 < step
          → (h.seconds now ≤ h.seconds now) × (h.seconds now < h.seconds now + step) =
        λ step pos_step. (omega arith, omega arith) in
      let empty : (0 ≡ 0) × (0 ≤ buffer_depth) = (refl, omega arith) in
      (
        (empty, one minute (omega arith)),
        (empty, one half_hour (omega arith)),
        (empty, one six_hours (omega arith)),
      )
