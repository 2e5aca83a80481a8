-- ===== src/Pair/Invariant.antt =====
-- What a swap, a deposit and a withdrawal leave as it was: the terms of the pair; and what they keep:
-- the freshness of the oracle and the order of times.
pub mod Calls
pub mod Provide
pub mod Withdraw
pub mod Execute
use wynddex.Base.{
  ℕ, ◌+◌, ◌-◌, ◌*◌, ◌≤◌, ◌<◌, ◌≡◌, refl, sym, ◌∙◌, subst, ap, arith, Bool, true, false, not, ◌&&◌,
  List, [], ◌∷◌, Option, none, some, some-injective, Result, ok, ◌>>=◌, >>=-eq-ok, ok-injective,
  unwrap, ok_or, ok_or-eq-ok, map_err-eq-ok, fail_if, leb, ltb, ◌==◌, if◌then◌else◌, Bool-cases,
  inl, inr, ◌⊎◌,
}
use wynddex.Num.{u64_limit}
use wynddex.Host.{Host, KeepsTime}
use wynddex.Decimals.{Decimals}
use wynddex.Platform.{StdError, not_found, Env, MessageInfo}
use wynddex.Asset.Amounts.{AssetValidated}
use wynddex.Oracle.{Oracle, store_oracle_price, store_price, initialize_oracle}
use wynddex.Oracle.Freshness.{IsFresh, store_price-IsFresh, initialize_oracle-IsFresh}
use wynddex.Pair.State.{Store, Config, PairError, lift, std, Querier}
use wynddex.Pair.Math.{accumulate_prices, cumulate}
use wynddex.Pair.Swap.{save_prices, cumulative_prices, record_prices}
use wynddex.Pair.Liquidity.{start_or_record}

-- The same assets, addresses, fees and flags, and cumulative prices of a time that does not move back.
pub record SameTerms (s s' : Store) : Type 0 where
  pub same_info : s'.config.pair_info ≡ s.config.pair_info
  pub same_factory : s'.config.factory_addr ≡ s.config.factory_addr
  pub same_start : s'.config.trading_starts ≡ s.config.trading_starts
  pub same_frozen : s'.frozen ≡ s.frozen
  pub same_breaker : s'.circuit_breaker ≡ s.circuit_breaker
  pub later : s.config.block_time_last ≤ s'.config.block_time_last

SameTerms-refl : (s : Store) → SameTerms s s
SameTerms-refl s = record {
  same_info = refl;
  same_factory = refl;
  same_start = refl;
  same_frozen = refl;
  same_breaker = refl;
  later = omega arith;
}

SameTerms-trans : {s t u : Store} → SameTerms s t → SameTerms t u → SameTerms s u
SameTerms-trans k l = record {
  same_info = l.same_info ∙ k.same_info;
  same_factory = l.same_factory ∙ k.same_factory;
  same_start = l.same_start ∙ k.same_start;
  same_frozen = l.same_frozen ∙ k.same_frozen;
  same_breaker = l.same_breaker ∙ k.same_breaker;
  later = let a = k.later in let b = l.later in omega arith;
}

module _ ⦃h : Host⦄ where
  -- An oracle that is not started yet is fresh.
  abbrev pub IsFreshOracle : Option Oracle → Type 0
  IsFreshOracle none = Unit
  IsFreshOracle (some o) = IsFresh o

  -- The oracle is started, fresh, and has recorded a price at this time.
  abbrev pub IsFreshAt : ℕ → Option Oracle → Type 0
  IsFreshAt now oracle =
      (o : Oracle) × (oracle ≡ some o) × IsFresh o × (o.updates.accumulator.snapshot ≡ now)

  -- The same terms, and from a fresh oracle one that is fresh at this time.
  pub record Recorded (now : ℕ) (s s' : Store) : Type 0 where
    pub terms : SameTerms s s'
    pub fresh_now : IsFreshOracle s.oracle → IsFreshAt now s'.oracle

  -- The same terms, a time that does not move back, and a fresh oracle that stays fresh.
  pub record Kept (s s' : Store) : Type 0 where
    pub terms : SameTerms s s'
    pub fresh : IsFreshOracle s.oracle → IsFreshOracle s'.oracle

  pub Kept-refl : (s : Store) → Kept s s
  Kept-refl s = record { terms = SameTerms-refl s; fresh = λ f. f }

  pub Kept-trans : {s t u : Store} → Kept s t → Kept t u → Kept s u
  Kept-trans k l = record {
    terms = SameTerms-trans k.terms l.terms;
    fresh = λ f. l.fresh (k.fresh f);
  }

  pub Recorded-Kept : {now : ℕ} {s s' : Store} → Recorded now s s' → Kept s s'
  Recorded-Kept c = record {
    terms = c.terms;
    fresh = λ f. let (o, is, fresh, _) = c.fresh_now f in subst IsFreshOracle (sym is) fresh;
  }

  pub Kept-Recorded : {now : ℕ} {s t u : Store} → Kept s t → Recorded now t u → Recorded now s u
  Kept-Recorded k c = record {
    terms = SameTerms-trans k.terms c.terms;
    fresh_now = λ f. c.fresh_now (k.fresh f);
  }

  -- A new oracle, then cumulative prices that leave it alone.
  Recorded-oracle :
      (now : ℕ) (s : Store) (o : Oracle) {s' : Store}
      → (IsFreshOracle s.oracle → IsFresh o × (o.updates.accumulator.snapshot ≡ now))
      → SameTerms s s' × (s'.oracle ≡ some o)
      → Recorded now s s'
  Recorded-oracle now s o f (terms, is) = record {
    terms = terms;
    fresh_now = λ fresh. (o, is, (f fresh).0, (f fresh).1);
  }

module _ ⦃h : Host⦄ ⦃d : Decimals⦄ where
  -- The cumulative prices get the present as their time, and only where it is later.
  accumulate_prices-time :
      (now : ℕ) (config : Config) (x y : ℕ) {r : ℕ × ℕ × ℕ}
      → accumulate_prices now config x y ≡ ok (some r)
      → (r.2 ≡ h.seconds now) × (config.block_time_last < h.seconds now)
  unfolding accumulate_prices
  accumulate_prices-time now config x y {r = r} e =
      elim (Bool-cases (leb (h.seconds now) config.block_time_last)) [
        | inl t ↦ cc (ok-injective (rw t at e))
        | inr f ↦
            let lt : config.block_time_last < h.seconds now = ground (arith, f) in
            let elapsed = h.seconds now - config.block_time_last in
            elim (Bool-cases (not (x == 0) && not (y == 0))) [
              | inl t ↦
                  let (new0, e_0, e1) =
                    >>=-eq-ok (cumulate config.price0_cumulative_last elapsed y x) _
                      (rw t at (rw f at e)) in
                  let (new1, e_1, e2) =
                    >>=-eq-ok (cumulate config.price1_cumulative_last elapsed x y) _ e1 in
                  (ap (λ (t : ℕ × ℕ × ℕ). t.2) (sym (some-injective (ok-injective e2))), lt)
              | inr g ↦
                  let same = some-injective (ok-injective (rw g at (rw f at e))) in
                  (ap (λ (t : ℕ × ℕ × ℕ). t.2) (sym same), lt)
            ]
      ]

  save_prices-SameTerms :
      (s : Store) (now x y : ℕ) (prices : Option (ℕ × ℕ × ℕ))
      → accumulate_prices now s.config x y ≡ ok prices
      → SameTerms s (save_prices s prices) × ((save_prices s prices).oracle ≡ s.oracle)
  save_prices-SameTerms s now x y none e = (SameTerms-refl s, refl)
  save_prices-SameTerms s now x y (some r) e =
      let (is_now, lt) = accumulate_prices-time now s.config x y e in
      (
        record {
          same_info = refl;
          same_factory = refl;
          same_start = refl;
          same_frozen = refl;
          same_breaker = refl;
          later = omega arith;
        },
        refl,
      )

  -- The cumulative prices with any oracle in the storage.
  cumulative_prices-SameTerms :
      (s : Store) (oracle : Option Oracle) (now x y : ℕ) {s' : Store}
      → cumulative_prices (record s { oracle = oracle }) now x y ≡ ok s'
      → SameTerms s s' × (s'.oracle ≡ oracle)
  unfolding cumulative_prices
  cumulative_prices-SameTerms s oracle now x y {s' = s'} e =
      let t = record s { oracle = oracle } in
      let (prices, e_p, e1) = >>=-eq-ok (lift (accumulate_prices now s.config x y)) _ e in
      let (k, same) =
        subst (λ u. SameTerms t u × (u.oracle ≡ oracle)) (ok-injective e1)
          (save_prices-SameTerms t now x y prices (map_err-eq-ok std _ e_p)) in
      (
        record {
          same_info = k.same_info;
          same_factory = k.same_factory;
          same_start = k.same_start;
          same_frozen = k.same_frozen;
          same_breaker = k.same_breaker;
          later = k.later;
        },
        same,
      )

  store_oracle_price-IsFresh :
      (stored : Option Oracle) (now price : ℕ) {o : Oracle}
      → KeepsTime h
      → now < u64_limit
      → store_oracle_price stored now price ≡ ok o
      → IsFreshOracle stored
      → IsFresh o × (o.updates.accumulator.snapshot ≡ now)
  unfolding store_oracle_price
  store_oracle_price-IsFresh none now price time small e fresh = cc e
  store_oracle_price-IsFresh (some o) now price time small e fresh =
      let (kept, at_now, _) = store_price-IsFresh o now price time small fresh e in (kept, at_now)

  pub record_prices-Recorded :
      (s : Store) (now : ℕ) (new old : ℕ × ℕ) {s' : Store}
      → KeepsTime h
      → now < u64_limit
      → record_prices s now new old ≡ ok s'
      → Recorded now s s'
  unfolding record_prices
  record_prices-Recorded s now (a, b) (x, y) time small e =
      let (price, e_p, e1) = >>=-eq-ok (unwrap (d.from_ratio a b)) _ e in
      let (o, e_o, e2) = >>=-eq-ok (lift (store_oracle_price s.oracle now price)) _ e1 in
      Recorded-oracle now s o
        (store_oracle_price-IsFresh s.oracle now price time small (map_err-eq-ok std _ e_o))
        (cumulative_prices-SameTerms s (some o) now x y e2)

module _ ⦃h : Host⦄ ⦃d : Decimals⦄ ⦃q : Querier⦄ where
  started : (now price : ℕ) → (initialize_oracle now price).updates.accumulator.snapshot ≡ now
  unfolding initialize_oracle
  started now price = refl

  pub start_or_record-Recorded :
      (s : Store) (now total_share : ℕ) (new old : ℕ × ℕ) {s' : Store}
      → KeepsTime h
      → now < u64_limit
      → start_or_record s now total_share new old ≡ ok s'
      → Recorded now s s'
  unfolding start_or_record
  start_or_record-Recorded s now total_share (a, b) (x, y) time small e =
      elim (Bool-cases (total_share == 0)) [
        | inl t ↦
            let (price, e_p, e1) = >>=-eq-ok (unwrap (d.from_ratio a b)) _ (rw t at e) in
            let o = initialize_oracle now price in
            Recorded-oracle now s o
              (λ f. (initialize_oracle-IsFresh now price time, started now price))
              (cumulative_prices-SameTerms s (some o) now x y e1)
        | inr f ↦ record_prices-Recorded s now (a, b) (x, y) time small (rw f at e)
      ]
