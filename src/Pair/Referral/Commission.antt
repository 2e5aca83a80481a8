-- ===== src/Pair/Referral/Commission.antt =====
-- The commission of a referral: what is taken is part of the offer and within the maximum, and taking
-- it gives back the offer that it was added to.
use wynddex.Base.{
  ℕ, ◌+◌, ◌-◌, ◌*◌, ◌≤◌, ◌<◌, ◌≡◌, refl, sym, ◌∙◌, subst, subst₂, ap, arith, Option, some, true,
  false, ok, >>=-eq-ok, ok-injective, unwrap, unwrap-eq-ok, unwrap_or, fail_if, fail_if-eq-ok, ltb,
  Bool-cases, inl, inr,
}
use native.Mathlib.Nat.{mul-le-mul_left, mul-le-mul_right}
use wynddex.Num.{sub128, add128, sub256, sub128-eq-ok, add128-eq-ok, sub256-eq-ok, narrow128-eq-ok}
use wynddex.Host.{Host}
use wynddex.Decimals.{Decimals, KeepsDecimals, decimal_unit}
use wynddex.Decimals.Rounding.{div_bounds}
use wynddex.Asset.Amounts.{AssetValidated}
use wynddex.Pair.State.{PairError, FactoryConfig, Querier, referral_commission_too_high}
use wynddex.Pair.Referral.{
  is_no_commission, query_factory_config, take_referral, commission_on, add_referral,
}

module _ ⦃h : Host⦄ where
  -- The branch that takes a commission.
  abbrev IsTaken : FactoryConfig → ℕ → AssetValidated → AssetValidated × ℕ → Type 0
  IsTaken fc commission offer r =
      (commission ≤ fc.max_referral_commission)
      × (r.0.info ≡ offer.info)
      × (r.0.amount + r.1 ≡ offer.amount)
      × (h.mul_decimal offer.amount commission ≡ some r.1)

  IsTaken-eq-ok :
      (fc : FactoryConfig) (referral_commission : Option ℕ) (offer : AssetValidated)
      {r : AssetValidated × ℕ}
      → is_no_commission referral_commission ≡ false
      → take_referral fc referral_commission offer ≡ ok r
      → IsTaken fc (unwrap_or referral_commission fc.max_referral_commission) offer r
  unfolding take_referral
  IsTaken-eq-ok fc referral_commission offer some_commission e =
      let c = unwrap_or referral_commission fc.max_referral_commission in
      let (u, e_u, e1) =
        >>=-eq-ok (fail_if (ltb fc.max_referral_commission c) referral_commission_too_high) _
          (rw some_commission at e) in
      let (amount, e_a, e2) = >>=-eq-ok (unwrap (h.mul_decimal offer.amount c)) _ e1 in
      let (left, e_l, e3) = >>=-eq-ok (sub128 offer.amount amount) _ e2 in
      let within = fail_if-eq-ok _ referral_commission_too_high e_u in
      let (is_left, le) = sub128-eq-ok {E = PairError} offer.amount amount e_l in
      subst (IsTaken fc c offer) (ok-injective e3)
        (ground (arith, within), refl, omega arith, unwrap-eq-ok {E = PairError} _ e_a)

  -- Taking a referral's commission, where it succeeds, splits the offer, of the same asset, into what
  -- is left and a commission of at most the maximal rate of the factory.
  pub take_referral_lem :
      (d : Decimals) (fc : FactoryConfig) (referral_commission : Option ℕ) (offer : AssetValidated)
      {r : AssetValidated × ℕ}
      → KeepsDecimals h d
      → take_referral fc referral_commission offer ≡ ok r
      → (r.0.info ≡ offer.info)
        × (r.0.amount + r.1 ≡ offer.amount)
        × (r.1 * decimal_unit ≤ offer.amount * fc.max_referral_commission)
  unfolding take_referral
  take_referral_lem d fc referral_commission offer {r = r} keeps e =
      elim (Bool-cases (is_no_commission referral_commission)) [
        | inl t ↦
            subst
              (λ (r : AssetValidated × ℕ).
                (r.0.info ≡ offer.info)
                × (r.0.amount + r.1 ≡ offer.amount)
                × (r.1 * decimal_unit ≤ offer.amount * fc.max_referral_commission))
              (ok-injective (rw t at e)) (refl, omega arith, omega arith)
        | inr f ↦
            let (within, info, total, product) = IsTaken-eq-ok fc referral_commission offer f e in
            let (lo, hi) =
              div_bounds _ decimal_unit (omega arith) (keeps.mul_decimals _ _ product) in
            let more = mul-le-mul_left offer.amount within in (info, total, omega arith)
      ]

-- The commission that is added is the one that is taken from the sum.
same_commission :
    (amount c commission taken : ℕ)
    → commission < decimal_unit
    → c * (decimal_unit - commission) ≤ amount * commission
    → amount * commission < (c + 1) * (decimal_unit - commission)
    → taken * decimal_unit ≤ (amount + c) * commission
    → (amount + c) * commission < taken * decimal_unit + decimal_unit
    → taken ≡ c
same_commission amount c commission taken below lo hi lo1 hi1 =
    let split : (decimal_unit - commission) + commission ≡ decimal_unit = omega arith in
    let whole : c * (decimal_unit - commission) + c * commission ≡ c * decimal_unit =
      omega (arith, ap (λ t. c * t) split) in
    omega arith

-- The nested roundings of the commission are one.
commission_exact :
    (amount commission offered scaled rest quotient whole : ℕ)
    → offered ≡ amount * decimal_unit
    → scaled * decimal_unit ≤ offered * commission
    → offered * commission < scaled * decimal_unit + decimal_unit
    → quotient * rest ≤ scaled * decimal_unit
    → scaled * decimal_unit < quotient * rest + rest
    → whole * decimal_unit ≤ quotient
    → quotient + 1 ≤ whole * decimal_unit + decimal_unit
    → (whole * rest ≤ amount * commission) × (amount * commission < (whole + 1) * rest)
commission_exact amount commission offered scaled rest quotient whole is_offered lo1 hi1 lo2 hi2 lo3
      hi3 =
    let product : offered * commission ≡ amount * decimal_unit * commission =
      ap (λ t. t * commission) is_offered in
    let is_scaled : scaled ≡ amount * commission = omega arith in
    let below = mul-le-mul_right rest lo3 in
    let above = mul-le-mul_right rest hi3 in (omega arith, omega arith)

module _ ⦃q : Querier⦄ ⦃d : Decimals⦄ where
  commission_on-eq-ok :
      (h : Host) (amount commission : ℕ) {c : ℕ}
      → KeepsDecimals h d
      → commission_on amount commission ≡ ok c
      → (commission < decimal_unit)
        × (c * (decimal_unit - commission) ≤ amount * commission)
        × (amount * commission < (c + 1) * (decimal_unit - commission))
  unfolding commission_on
  commission_on-eq-ok h amount commission {c = c} keeps e =
      let (offered, e_o, e1) = >>=-eq-ok (unwrap (d.from_ratio256 amount 1)) _ e in
      let (scaled, e_s, e2) = >>=-eq-ok (unwrap (d.mul_decimal256 offered commission)) _ e1 in
      let (rest, e_r, e3) = >>=-eq-ok (sub256 decimal_unit commission) _ e2 in
      let (quotient, e_q, e4) = >>=-eq-ok (unwrap (d.div_decimal256 scaled rest)) _ e3 in
      let (whole, e_w, e5) = >>=-eq-ok (unwrap (d.mul_uint256 1 quotient)) _ e4 in
      let (pos1, is_offered) = keeps.from_ratios256 amount 1 (unwrap-eq-ok {E = PairError} _ e_o) in
      let is_scaled =
        keeps.mul_decimals256 offered commission (unwrap-eq-ok {E = PairError} _ e_s) in
      let (is_rest, le) = sub256-eq-ok {E = PairError} decimal_unit commission e_r in
      let (pos_rest, is_quotient) =
        keeps.div_decimals256 scaled rest (unwrap-eq-ok {E = PairError} _ e_q) in
      let is_whole = keeps.mul_uints256 1 quotient (unwrap-eq-ok {E = PairError} _ e_w) in
      let is_c = narrow128-eq-ok {E = PairError} whole e5 in
      let (lo0, hi0) = div_bounds (amount * decimal_unit) 1 pos1 is_offered in
      let (lo1, hi1) = div_bounds (offered * commission) decimal_unit (omega arith) is_scaled in
      let (lo2, hi2) = div_bounds (scaled * decimal_unit) rest pos_rest is_quotient in
      let (lo3, hi3) = div_bounds (1 * quotient) decimal_unit (omega arith) is_whole in
      let exact =
        commission_exact amount commission offered scaled rest quotient whole (omega arith) lo1 hi1
          lo2 hi2 (omega arith) (omega arith) in
      subst₂
        (λ t u.
          (commission < decimal_unit)
          × (u * t ≤ amount * commission)
          × (amount * commission < (u + 1) * t))
        is_rest (sym is_c) (omega arith, exact.0, exact.1)

module _ ⦃h : Host⦄ ⦃d : Decimals⦄ ⦃q : Querier⦄ where
  added-eq-ok :
      (factory : ℕ) (referral_commission : Option ℕ) (offer : AssetValidated) (fc : FactoryConfig)
      {r : AssetValidated × ℕ}
      → is_no_commission referral_commission ≡ false
      → query_factory_config factory ≡ ok fc
      → add_referral factory true referral_commission offer ≡ ok r
      → (r.0.info ≡ offer.info)
        × (r.0.amount ≡ offer.amount + r.1)
        × (commission_on offer.amount (unwrap_or referral_commission fc.max_referral_commission)
            ≡ ok r.1)
  unfolding add_referral
  added-eq-ok factory referral_commission offer fc {r = r} some_commission e_fc e =
      let c = unwrap_or referral_commission fc.max_referral_commission in
      let (u, e_u, e1) =
        >>=-eq-ok (fail_if (ltb fc.max_referral_commission c) referral_commission_too_high) _
          (rw e_fc at (rw some_commission at e)) in
      let (amount, e_a, e2) = >>=-eq-ok (commission_on offer.amount c) _ e1 in
      let (more, e_m, e3) = >>=-eq-ok (add128 offer.amount amount) _ e2 in
      let (is_more, small) = add128-eq-ok {E = PairError} offer.amount amount e_m in
      subst
        (λ (r : AssetValidated × ℕ).
          (r.0.info ≡ offer.info)
          × (r.0.amount ≡ offer.amount + r.1)
          × (commission_on offer.amount c ≡ ok r.1))
        (ok-injective e3) (refl, is_more, e_a)

  -- Where both succeed under one configuration of the factory, taking the commission of a referral
  -- from an offer that it was added to gives back that offer, and the commission that was added.
  pub take_referral-add_referral :
      (factory : ℕ) (referral_commission : Option ℕ) (offer : AssetValidated) (fc : FactoryConfig)
      {added taken : AssetValidated × ℕ}
      → KeepsDecimals h d
      → query_factory_config factory ≡ ok fc
      → add_referral factory true referral_commission offer ≡ ok added
      → take_referral fc referral_commission added.0 ≡ ok taken
      → (taken.0.info ≡ offer.info) × (taken.0.amount ≡ offer.amount) × (taken.1 ≡ added.1)
  unfolding add_referral take_referral
  take_referral-add_referral factory referral_commission offer fc {added = added} {taken = taken}
        keeps e_fc e0 e1 =
      elim (Bool-cases (is_no_commission referral_commission)) [
        | inl t ↦
            let first = ok-injective (rw t at e0) in
            let second = ok-injective (rw t at e1) in
            (
              ap (λ (t : AssetValidated × ℕ). t.0.info) (sym second)
                  ∙ ap (λ (t : AssetValidated × ℕ). t.0.info) (sym first),
              ap (λ (t : AssetValidated × ℕ). t.0.amount) (sym second)
                  ∙ ap (λ (t : AssetValidated × ℕ). t.0.amount) (sym first),
              ap (λ (t : AssetValidated × ℕ). t.1) (sym second)
                  ∙ ap (λ (t : AssetValidated × ℕ). t.1) first,
            )
        | inr f ↦
            let c = unwrap_or referral_commission fc.max_referral_commission in
            let (info0, total0, on) = added-eq-ok factory referral_commission offer fc f e_fc e0 in
            let (within, info1, total1, product) =
              IsTaken-eq-ok fc referral_commission added.0 f e1 in
            let (below, lo, hi) = commission_on-eq-ok h offer.amount c keeps on in
            let is_taken = keeps.mul_decimals added.0.amount c product in
            let (lo1, hi1) = div_bounds (added.0.amount * c) decimal_unit (omega arith) is_taken in
            let on_sum : added.0.amount * c ≡ (offer.amount + added.1) * c =
              ap (λ t. t * c) total0 in
            let same =
              same_commission offer.amount added.1 c taken.1 below lo hi (omega arith)
                (omega arith) in
            (info1 ∙ info0, omega arith, same)
      ]
