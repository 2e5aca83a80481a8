-- ===== src/Stake/Invariant/Bonds.antt =====
-- Bonding keeps the invariant: each delegate's bond grows by the amount that the message names.
use wynddex.Base.{
  ℕ, ◌+◌, ◌≤◌, ◌<◌, ◌≡◌, refl, sym, ap, ◌∙◌, subst, arith, List, [], ◌∷◌, false, ok, >>=-eq-ok,
  ok-injective, map, sum_by, fail_if, fail_if-eq-ok, ltb, ◌==◌, not,
}
use wynddex.Num.{add128, add128-eq-ok, sum128, sum128_lem}
use wynddex.Map
use wynddex.Map.{HasDistinctKeys, nat_key}
use wynddex.Asset.{asset_key}
use wynddex.Host.{Host, claimed}
use wynddex.Stake.State.{ContractError, Msg}
use wynddex.Stake.Bonding.{amounts, sum_by-amounts}
use wynddex.Stake.Totals.Tracking.{TracksAll}
use wynddex.Stake.Store.{Store, std_or_fail}
use wynddex.Stake.Staking.{bond_one, bond_each, execute_mass_bond, is_no_period}
use wynddex.Stake.Staking.Adjust.{save_distributions_self}
use wynddex.Stake.Staking.Bond.{
  bond_one-Change, Change-TracksAll, Change-staked_total, staked_total,
}
use wynddex.Stake.Invariant.{IsConsistent}

abbrev named : List (ℕ × ℕ) → ℕ
named = sum_by (λ e. e.1)

-- What the loop leaves alone, what it keeps, and by how much the totals grow.
record Bonds {C : Type 0} (s s' : Store C) (amount : ℕ) : Type 0 where
  same_config : s'.config ≡ s.config
  same_distribution : s'.distribution ≡ s.distribution
  same_total : s'.total_staked ≡ s.total_staked
  same_claims : s'.claims ≡ s.claims
  tracks : TracksAll s'.config s'.stake s'.total_per_period
  grown : staked_total s'.total_per_period ≡ staked_total s.total_per_period + amount

named-le-sum :
    (sent total : ℕ) (xs : List (ℕ × ℕ))
    → sum128 {E = ContractError} (amounts xs) ≡ ok total
    → ltb sent total ≡ false
    → named xs ≤ sent
named-le-sum sent total xs e h =
    ground (arith, sum128_lem {E = ContractError} (amounts xs), sum_by-amounts xs)

module _ {C : Type 0} ⦃h : Host⦄ where
  bond_one-Bonds :
      (s : Store C) (period staker amount : ℕ) {s' : Store C}
      → 0 < s.config.min_bond
      → TracksAll s.config s.stake s.total_per_period
      → bond_one s period staker amount ≡ ok s'
      → Bonds s s' amount
  bond_one-Bonds s period staker amount positive tracks e =
      let (b, c, size) = bond_one-Change s period staker amount e in
      record {
        same_config = ap (λ x. x.config) c.result;
        same_distribution = ap (λ x. x.distribution) c.result;
        same_total = ap (λ x. x.total_staked) c.result;
        same_claims = ap (λ x. x.claims) c.result;
        tracks = Change-TracksAll c positive tracks;
        grown = omega (arith, Change-staked_total c, size);
      }

  bond_each-Bonds :
      (s : Store C) (period : ℕ) (delegate_to : List (ℕ × ℕ)) {s' : Store C}
      → 0 < s.config.min_bond
      → TracksAll s.config s.stake s.total_per_period
      → bond_each s period delegate_to ≡ ok s'
      → Bonds s s' (named delegate_to)
  unfolding bond_each
  bond_each-Bonds s period [] positive tracks e =
      subst (λ t. Bonds s t 0) (ok-injective e)
        (record {
          same_config = refl;
          same_distribution = refl;
          same_total = refl;
          same_claims = refl;
          tracks = tracks;
          grown = omega arith;
        })
  bond_each-Bonds s period ((raw, amount) ∷ rest) positive tracks e =
      let (staker, ev, e1) = >>=-eq-ok (std_or_fail (h.addr_validate raw)) _ e in
      let (t, et, e2) = >>=-eq-ok (bond_one s period staker amount) _ e1 in
      let first = bond_one-Bonds s period staker amount positive tracks et in
      let positive' : 0 < t.config.min_bond = rw (first.same_config) positive in
      let others = bond_each-Bonds t period rest positive' first.tracks e2 in
      record {
        same_config = others.same_config ∙ first.same_config;
        same_distribution = others.same_distribution ∙ first.same_distribution;
        same_total = others.same_total ∙ first.same_total;
        same_claims = others.same_claims ∙ first.same_claims;
        tracks = others.tracks;
        grown = omega (arith, first.grown, others.grown);
      }

  -- What accepting a bond promises.
  abbrev Accepted : Store C → ℕ → List (ℕ × ℕ) → Store C → Type 0
  Accepted s amount_sent delegate_to t =
      IsConsistent t
      × (t.total_staked.staked ≡ s.total_staked.staked + amount_sent)
      × (staked_total t.total_per_period
          ≡ staked_total s.total_per_period + sum_by (λ e. e.1) delegate_to)

  -- A bond that is accepted in a consistent storage keeps the invariant, and the staked total
  -- grows by the amount that was sent while the bonds grow by the amounts that the delegations
  -- name.
  pub execute_mass_bond-IsConsistent :
      (cw20 amount_sent period : ℕ) (delegate_to : List (ℕ × ℕ)) (s : Store C)
      {r : Store C × List Msg}
      → IsConsistent s
      → execute_mass_bond cw20 amount_sent period delegate_to s ≡ ok r
      → IsConsistent r.0
        × (r.0.total_staked.staked ≡ s.total_staked.staked + amount_sent)
        × (staked_total r.0.total_per_period
            ≡ staked_total s.total_per_period + sum_by (λ e. e.1) delegate_to)
  unfolding execute_mass_bond
  execute_mass_bond-IsConsistent cw20 amount_sent period delegate_to s v e =
      let cfg = s.config in
      let (_, _, e1) = >>=-eq-ok (fail_if (not (cfg.cw20_contract == cw20)) _) _ e in
      let (_, _, e2) = >>=-eq-ok (fail_if (is_no_period cfg period) _) _ e1 in
      let (total, sum_ok, e3) = >>=-eq-ok (sum128 (map (λ e. e.1) delegate_to)) _ e2 in
      let (_, enough, e4) = >>=-eq-ok (fail_if (ltb amount_sent total) _) _ e3 in
      let (t, et, e5) = >>=-eq-ok (bond_each s period delegate_to) _ e4 in
      let (staked, es, done) = >>=-eq-ok (add128 t.total_staked.staked amount_sent) _ e5 in
      let loop = bond_each-Bonds s period delegate_to v.positive v.tracks et in
      let staked_eq = add128-eq-ok t.total_staked.staked amount_sent es in
      let kept : HasDistinctKeys t.distribution = rw (loop.same_distribution) v.distinct in
      let same_total = ap (λ x. x.staked) loop.same_total in
      subst (λ r. Accepted s amount_sent delegate_to r.0) (ok-injective done)
        (
          record {
            positive = rw (loop.same_config) v.positive;
            distinct = rw (save_distributions_self t.distribution kept) kept;
            tracks = loop.tracks;
            covered = omega (
              arith,
              loop.grown,
              v.covered,
              staked_eq.0,
              same_total,
              named-le-sum amount_sent total delegate_to sum_ok (fail_if-eq-ok _ _ enough),
            );
            backed =
                ap (Map.total claimed) loop.same_claims
                ∙ v.backed
                ∙ sym (ap (λ x. x.unbonding) loop.same_total);
          },
          omega (arith, staked_eq.0, same_total),
          loop.grown,
        )
