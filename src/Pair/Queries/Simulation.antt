-- ===== src/Pair/Queries/Simulation.antt =====
-- The simulation against the swap.
use wynddex.Base.{
  ℕ, ◌≡◌, refl, sym, ◌∙◌, subst, subst₂, ap, List, Option, some, ok, >>=-eq-ok, ok-injective,
  unwrap-eq-ok, some-injective, get_elem?, Bool-cases, inl, inr,
}
use wynddex.Host.{Host}
use wynddex.Decimals.{Decimals}
use wynddex.Platform.{StdError, Env}
use wynddex.Asset.{AssetInfo, equal}
use wynddex.Asset.Amounts.{AssetValidated}
use wynddex.Oracle.{index}
use wynddex.Pair.State.{Store, PairError, Querier, FactoryConfig, total_fee_rate}
use wynddex.Pair.Math.{compute_swap}
use wynddex.Pair.Swap.{
  SwapResult, do_swap, order_pools, finish_swap, new_pools, protocol_fee, record_prices,
}
use wynddex.Pair.Queries.{simulate, split_pools, SimulationResponse}
use wynddex.Pair.Invariant.Calls.{do_swap-eq-ok}

-- The pools that both order.
split-order :
    (info : AssetInfo) (pool0 pool1 : AssetValidated) {a b : AssetValidated × AssetValidated}
    → split_pools info pool0 pool1 ≡ ok a
    → order_pools info pool0 pool1 ≡ ok b
    → a ≡ b
unfolding split_pools order_pools
split-order info pool0 pool1 e0 e1 = elim (Bool-cases (equal info pool0.info)) [
  | inl t ↦ sym (ok-injective (rw t at e0)) ∙ ok-injective (rw t at e1)
  | inr f ↦ elim (Bool-cases (equal info pool1.info)) [
    | inl t ↦ sym (ok-injective (rw t at (rw f at e0))) ∙ ok-injective (rw t at (rw f at e1))
    | inr g ↦ cc (rw g at (rw f at e0))
  ]
]

module _ ⦃h : Host⦄ ⦃d : Decimals⦄ where
  finish_swap-amounts :
      (s : Store) (env : Env) (fc : FactoryConfig) (pool0 pool1 : AssetValidated)
      (ask_info : AssetInfo) (offer_amount : ℕ) (amounts : ℕ × ℕ × ℕ) {r : Store × SwapResult}
      → finish_swap s env fc pool0 pool1 ask_info offer_amount amounts ≡ ok r
      → (r.1.return_asset.amount ≡ amounts.0)
        × (r.1.spread_amount ≡ amounts.1)
        × (r.1.commission_amount ≡ amounts.2)
  unfolding finish_swap
  finish_swap-amounts s env fc pool0 pool1 ask_info offer_amount (a, b, c) e =
      let (fee, e_f, e1) =
        >>=-eq-ok (protocol_fee fc s.config.pair_info.fee_config ask_info c) _ e in
      let (pools, e_p, e2) = >>=-eq-ok (new_pools pool0 pool1 ask_info offer_amount a fee.0) _ e1 in
      let (s', e_s, e3) =
        >>=-eq-ok (record_prices s env.block_time pools (pool0.amount, pool1.amount)) _ e2 in
      subst
        (λ (r : Store × SwapResult).
          (r.1.return_asset.amount ≡ a) × (r.1.spread_amount ≡ b) × (r.1.commission_amount ≡ c))
        (ok-injective e3) (refl, refl, refl)

module _ ⦃h : Host⦄ ⦃d : Decimals⦄ ⦃q : Querier⦄ where
  -- The amounts that a simulation answers, through the pools of its offer.
  simulate-eq-ok :
      (s : Store) (pools : List AssetValidated) (offer : AssetValidated) (referral_amount : ℕ)
      {sim : SimulationResponse}
      → simulate s.config pools offer referral_amount ≡ ok sim
      → (pool0 : AssetValidated) × (pool1 : AssetValidated) × (ordered : AssetValidated
          × AssetValidated)
        × (rate : ℕ) × (get_elem? pools 0 ≡ some pool0)
        × (get_elem? pools 1 ≡ some pool1)
        × (split_pools offer.info pool0 pool1 ≡ ok ordered)
        × (d.from_ratio s.config.pair_info.fee_config.total_fee_bps 10000 ≡ some rate)
        × (compute_swap ordered.0.amount ordered.1.amount offer.amount rate
            ≡ ok (sim.return_amount, sim.spread_amount, sim.commission_amount))
  unfolding simulate index total_fee_rate
  simulate-eq-ok s pools offer referral_amount {sim = sim} e =
      let (pool0, e_0, e1) = >>=-eq-ok (index pools 0) _ e in
      let (pool1, e_1, e2) = >>=-eq-ok (index pools 1) _ e1 in
      let (ordered, e_o, e3) = >>=-eq-ok (split_pools offer.info pool0 pool1) _ e2 in
      let (rate, e_r, e4) = >>=-eq-ok (total_fee_rate s.config.pair_info.fee_config) _ e3 in
      let (amounts, e_a, e5) =
        >>=-eq-ok (compute_swap ordered.0.amount ordered.1.amount offer.amount rate) _ e4 in
      (
        pool0,
        pool1,
        ordered,
        rate,
        unwrap-eq-ok {E = StdError} _ e_0,
        unwrap-eq-ok {E = StdError} _ e_1,
        e_o,
        unwrap-eq-ok {E = StdError} _ e_r,
        e_a
            ∙ ap
                (λ (t : SimulationResponse).
                  ok (t.return_amount, t.spread_amount, t.commission_amount))
                (ok-injective e5),
      )

  -- Where a simulation and a swap of the same offer on the same pools both succeed, they give the same
  -- return amount, spread and commission.
  pub simulate-do_swap :
      (s : Store) (env : Env) (fc : FactoryConfig) (pools : List AssetValidated)
      (offer : AssetValidated) (referral_amount : ℕ) (belief_price max_spread : Option ℕ)
      {sim : SimulationResponse} {r : Store × SwapResult}
      → simulate s.config pools offer referral_amount ≡ ok sim
      → do_swap s env fc pools offer belief_price max_spread ≡ ok r
      → (r.1.return_asset.amount ≡ sim.return_amount)
        × (r.1.spread_amount ≡ sim.spread_amount)
        × (r.1.commission_amount ≡ sim.commission_amount)
  unfolding index
  simulate-do_swap s env fc pools offer referral_amount belief_price max_spread {sim = sim} e0 e1 =
      let (a0, a1, sides, rate, f0, f1, split, is_rate, e_sim) =
        simulate-eq-ok s pools offer referral_amount e0 in
      let (b0, b1, sides', rate', amounts, is_rate', g0, g1, order, e_a, e_f) =
        do_swap-eq-ok s env fc pools offer belief_price max_spread e1 in
      let same0 : a0 ≡ b0 = some-injective (sym f0 ∙ unwrap-eq-ok {E = PairError} _ g0) in
      let same1 : a1 ≡ b1 = some-injective (sym f1 ∙ unwrap-eq-ok {E = PairError} _ g1) in
      let same_rate : rate ≡ rate' = some-injective (sym is_rate ∙ is_rate') in
      let sides_are : sides ≡ sides' =
        split-order offer.info b0 b1
          (subst₂ (λ x y. split_pools offer.info x y ≡ ok sides) same0 same1 split) order in
      let both =
        subst₂
          (λ (x : AssetValidated × AssetValidated) y.
            compute_swap x.0.amount x.1.amount offer.amount y
            ≡ ok (sim.return_amount, sim.spread_amount, sim.commission_amount))
          sides_are same_rate e_sim in
      let is_amounts : amounts ≡ (sim.return_amount, sim.spread_amount, sim.commission_amount) =
        ok-injective (sym e_a ∙ both) in
      let (r0, r1, r2) =
        finish_swap-amounts s env fc b0 b1 sides'.1.info offer.amount amounts e_f in
      (
        r0 ∙ ap (λ (t : ℕ × ℕ × ℕ). t.0) is_amounts,
        r1 ∙ ap (λ (t : ℕ × ℕ × ℕ). t.1) is_amounts,
        r2 ∙ ap (λ (t : ℕ × ℕ × ℕ). t.2) is_amounts,
      )
