-- ===== src/Stake/Admin/Creation.antt =====
-- What a new contract stores: the periods in order, and totals and claims that are consistent.
use wynddex.Base.{
  ℕ, ◌≤◌, ◌≡◌, ◌≢◌, refl, sym, subst, arith, List, [], ◌∷◌, map, ok, >>=-eq-ok, ok-injective, All,
  Distinct,
}
use wynddex.Map.{total}
use wynddex.Host.{Host}
use wynddex.Search.{IsSortedBy}
use wynddex.Stake.State.{Config, TotalStake}
use wynddex.Stake.Store.{Store, MessageInfo, std_or_fail}
use wynddex.Stake.Totals.Tracking.{held, Tracks}
use wynddex.Stake.Staking.Bond.{staked_total}
use wynddex.Stake.Admin.{
  InstantiateMsg, instantiate, maybe_addr, validate_converter, insert_sorted, sort_unstable,
  no_stake, max,
}
use wynddex.Stake.Invariant.{IsConsistent}

module _ (P : ℕ → Type 0) where
  All-insert_sorted : (x : ℕ) (xs : List ℕ) → P x → All P xs → All P (insert_sorted x xs)
  All-insert_sorted x [] p ps = (p, tt)
  All-insert_sorted x (y ∷ ys) p ps = ground (arith, All-insert_sorted x ys)

  All-sort_unstable : (xs : List ℕ) → All P xs → All P (sort_unstable xs)
  unfolding sort_unstable
  All-sort_unstable [] ps = tt
  All-sort_unstable (x ∷ xs) ps =
      All-insert_sorted x (sort_unstable xs) ps.0 (All-sort_unstable xs ps.1)

All-le : (x y : ℕ) (xs : List ℕ) → x ≤ y → All (λ z. y ≤ z) xs → All (λ z. x ≤ z) xs
All-le x y [] h a = tt
All-le x y (z ∷ zs) h a = (omega (arith, a.0), All-le x y zs h a.1)

insert_sorted-IsSortedBy :
    (x : ℕ) (xs : List ℕ) → IsSortedBy (λ p. p) xs → IsSortedBy (λ p. p) (insert_sorted x xs)
insert_sorted-IsSortedBy x [] s = (tt, tt)
insert_sorted-IsSortedBy x (y ∷ ys) s =
    ground
      (arith, insert_sorted-IsSortedBy x ys, All-le x y ys, All-insert_sorted (λ z. y ≤ z) x ys)

sort_unstable-IsSortedBy : (xs : List ℕ) → IsSortedBy (λ p. p) (sort_unstable xs)
unfolding sort_unstable
sort_unstable-IsSortedBy [] = tt
sort_unstable-IsSortedBy (x ∷ xs) =
    insert_sorted-IsSortedBy x (sort_unstable xs) (sort_unstable-IsSortedBy xs)

All-swap : (x : ℕ) (xs : List ℕ) → All (λ y. x ≢ y) xs → All (λ y. y ≢ x) xs
All-swap x [] a = tt
All-swap x (y ∷ ys) a = (λ e. a.0 (sym e), All-swap x ys a.1)

insert_sorted-Distinct :
    (x : ℕ) (xs : List ℕ)
    → All (λ y. x ≢ y) xs
    → Distinct (λ p. p) xs
    → Distinct (λ p. p) (insert_sorted x xs)
insert_sorted-Distinct x [] a d = (tt, tt)
insert_sorted-Distinct x (y ∷ ys) a d =
    let ne : y ≢ x = λ e. a.0 (sym e) in
    ground (arith, insert_sorted-Distinct x ys, All-insert_sorted (λ z. y ≢ z) x ys ne)

sort_unstable-Distinct : (xs : List ℕ) → Distinct (λ p. p) xs → Distinct (λ p. p) (sort_unstable xs)
unfolding sort_unstable
sort_unstable-Distinct [] d = tt
sort_unstable-Distinct (x ∷ xs) d =
    insert_sorted-Distinct x (sort_unstable xs) (All-sort_unstable (λ y. x ≢ y) xs d.0)
      (sort_unstable-Distinct xs d.1)

abbrev no_stakes : List ℕ → List (ℕ × TotalStake)
no_stakes = map (λ p. (p, no_stake))

no_stakes-Distinct : (ps : List ℕ) → Distinct (λ p. p) ps → Distinct (λ e. e.0) (no_stakes ps)
no_stakes-Distinct [] d = tt
no_stakes-Distinct (p ∷ ps) d = (others ps d.0, no_stakes-Distinct ps d.1)
  where
    others : (qs : List ℕ) → All (λ q. p ≢ q) qs → All (λ e. p ≢ e.0) (no_stakes qs)
    others [] a = tt
    others (q ∷ qs) a = (a.0, others qs a.1)

no_stakes-Tracks : (cfg : Config) (ps : List ℕ) → All (Tracks cfg []) (no_stakes ps)
unfolding held total
no_stakes-Tracks cfg [] = tt
no_stakes-Tracks cfg (p ∷ ps) = ((refl, refl), no_stakes-Tracks cfg ps)

no_stakes-staked_total : (ps : List ℕ) → staked_total (no_stakes ps) ≡ 0
no_stakes-staked_total [] = refl
no_stakes-staked_total (p ∷ ps) = omega (arith, no_stakes-staked_total ps)

module _ {C : Type 0} ⦃h : Host⦄ where
  Created : Store C → Type 0
  Created s = IsConsistent s × IsSortedBy (λ p. p) s.config.unbonding_periods

  -- A contract that is created with unbonding periods that are all different is consistent, and has
  -- its periods in order.
  pub instantiate-IsConsistent :
      (info : MessageInfo) (msg : InstantiateMsg) {s : Store C}
      → Distinct (λ p. p) msg.unbonding_periods
      → instantiate info msg ≡ ok s
      → IsConsistent s × IsSortedBy (λ p. p) s.config.unbonding_periods
  unfolding instantiate total Created
  instantiate-IsConsistent info msg different e =
      let ps = sort_unstable msg.unbonding_periods in
      let (a, _, e1) = >>=-eq-ok (maybe_addr msg.admin) _ e in
      let (token, _, e2) = >>=-eq-ok (std_or_fail (h.addr_validate msg.cw20_contract)) _ e1 in
      let (b, _, e3) = >>=-eq-ok (maybe_addr msg.unbonder) _ e2 in
      let (c, _, e4) = >>=-eq-ok (validate_converter msg.converter) _ e3 in
      let cfg : Config = record {
        cw20_contract = token;
        instantiator = info.sender;
        tokens_per_power = msg.tokens_per_power;
        min_bond = max msg.min_bond 1;
        unbonding_periods = ps;
        max_distributions = msg.max_distributions;
        unbonder = b;
        converter = c;
      } in
      subst Created (ok-injective e4) (
        record {
          positive = ground arith;
          distinct = tt;
          tracks = (
            no_stakes-Tracks cfg ps,
            no_stakes-Distinct ps (sort_unstable-Distinct msg.unbonding_periods different),
          );
          covered = omega (arith, no_stakes-staked_total ps);
          backed = refl;
        },
        sort_unstable-IsSortedBy msg.unbonding_periods,
      )
