-- ===== src/Stake/Staking/Adjust.antt =====
-- The loop that corrects a staker's rewards after a change of the stake: in no distribution does
-- anybody gain or lose shares by it.
use wynddex.Base.{
  ℕ, ◌*◌, ◌<◌, ◌≡◌, ◌≢◌, refl, sym, ap, ◌∙◌, arith, List, [], ◌∷◌, some, none, ok, >>=-eq-ok,
  ok-injective, inl, inr, Bool-cases,
}
use wynddex.Num.{i128_limit, pos, ◌+ℤ◌}
use wynddex.Map.{lookup, insert-same, HasDistinctKeys, HasDistinctKeys-Agrees, Agrees}
use wynddex.Asset.{AssetInfo, asset_key, equal, equal_iff}
use wynddex.Host.{Host}
use wynddex.Stake.State.{Config, Distribution}
use wynddex.Stake.Store.{Adjustments, Distributions}
use wynddex.Stake.Power.{Stakes, calc_rewards_power, calc_rewards_powers}
use wynddex.Stake.Rewards.{load_adjustment, update_rewards}
use wynddex.Stake.Rewards.Entitlement.{
  entitlement, update_rewards-entitlement, update_rewards-other,
}
use wynddex.Stake.Staking.{adjust_rewards, save_distributions}

save_distributions-Agrees : (xs m : Distributions) → Agrees xs m → save_distributions xs m ≡ m
unfolding save_distributions
save_distributions-Agrees [] m a = refl
save_distributions-Agrees ((asset, d) ∷ xs) m a =
    rw (insert-same asset d m a.0) (save_distributions-Agrees xs m a.1)

-- Saving the distributions that are stored changes nothing.
pub save_distributions_self :
    (ds : Distributions) → HasDistinctKeys ds → save_distributions ds ds ≡ ds
save_distributions_self ds distinct =
    save_distributions-Agrees ds ds (HasDistinctKeys-Agrees ds distinct)

-- Another account is not touched, whatever the powers.
pub adjust_rewards-other_owner :
    ⦃h : Host⦄ (cfg : Config) (stakes : Stakes) (staker a : ℕ) (ds : Distributions) (olds : List ℕ)
    (m : Adjustments) (asset : AssetInfo) {m' : Adjustments}
    → staker ≢ a
    → adjust_rewards cfg stakes staker ds olds m ≡ ok m'
    → load_adjustment m' a asset ≡ load_adjustment m a asset
unfolding adjust_rewards
adjust_rewards-other_owner cfg stakes staker a [] olds m asset ne e =
    ap (λ n. load_adjustment n a asset) (sym (ok-injective e))
adjust_rewards-other_owner cfg stakes staker a (x ∷ ds) [] m asset ne e =
    ap (λ n. load_adjustment n a asset) (sym (ok-injective e))
adjust_rewards-other_owner cfg stakes staker a ((other, d) ∷ ds) (old ∷ olds) m asset ne e =
    let (new, ep, rest) = >>=-eq-ok (calc_rewards_power cfg stakes d staker) _ e in
    let (n, en, loop) = >>=-eq-ok (update_rewards m other staker d old new) _ rest in
    adjust_rewards-other_owner cfg stakes staker a ds olds n asset ne loop
    ∙ update_rewards-other m other staker d old new a asset (inl ne) en

-- Nor is an asset without a distribution in the list.
adjust_rewards-other_asset :
    ⦃h : Host⦄ (cfg : Config) (stakes : Stakes) (staker : ℕ) (ds : Distributions) (olds : List ℕ)
    (m : Adjustments) (asset : AssetInfo) {m' : Adjustments}
    → lookup asset ds ≡ none
    → adjust_rewards cfg stakes staker ds olds m ≡ ok m'
    → load_adjustment m' staker asset ≡ load_adjustment m staker asset
unfolding adjust_rewards
adjust_rewards-other_asset cfg stakes staker [] olds m asset miss e =
    ap (λ n. load_adjustment n staker asset) (sym (ok-injective e))
adjust_rewards-other_asset cfg stakes staker (x ∷ ds) [] m asset miss e =
    ap (λ n. load_adjustment n staker asset) (sym (ok-injective e))
adjust_rewards-other_asset cfg stakes staker ((other, d) ∷ ds) (old ∷ olds) m asset miss e =
    let (new, ep, rest) = >>=-eq-ok (calc_rewards_power cfg stakes d staker) _ e in
    let (n, en, loop) = >>=-eq-ok (update_rewards m other staker d old new) _ rest in
    let ne : other ≢ asset = λ k. ground (arith, equal_iff other asset) in
    let tail : lookup asset ds ≡ none = ground arith in
    adjust_rewards-other_asset cfg stakes staker ds olds n asset tail loop
    ∙ update_rewards-other m other staker d old new staker asset (inr ne) en

-- The shares by the new power are those by the old one, and what was withdrawn is kept.
abbrev pub KeepsShares : Adjustments → Adjustments → ℕ → AssetInfo → Distribution → ℕ → ℕ → Type 0
KeepsShares m m' staker asset d old new =
    (entitlement m' staker asset d new ≡ entitlement m staker asset d old)
    × ((load_adjustment m' staker asset).withdrawn_rewards
        ≡ (load_adjustment m staker asset).withdrawn_rewards)

KeepsShares-shift :
    (m n m' : Adjustments) (staker : ℕ) (asset : AssetInfo) (d : Distribution) (old new : ℕ)
    → load_adjustment n staker asset ≡ load_adjustment m staker asset
    → KeepsShares n m' staker asset d old new
    → KeepsShares m m' staker asset d old new
KeepsShares-shift m n m' staker asset d old new same k = (
  k.0 ∙ ap (λ a. pos (d.shares_per_point * old) +ℤ a.shares_correction) same,
  k.1 ∙ ap (λ a. a.withdrawn_rewards) same,
)

KeepsShares-extend :
    (m n m' : Adjustments) (staker : ℕ) (asset : AssetInfo) (d : Distribution) (old new : ℕ)
    → load_adjustment m' staker asset ≡ load_adjustment n staker asset
    → KeepsShares m n staker asset d old new
    → KeepsShares m m' staker asset d old new
KeepsShares-extend m n m' staker asset d old new same k = (
  ap (λ a. pos (d.shares_per_point * new) +ℤ a.shares_correction) same ∙ k.0,
  ap (λ a. a.withdrawn_rewards) same ∙ k.1,
)

module _ ⦃h : Host⦄ (cfg : Config) (before after : Stakes) (staker : ℕ) where
  powers-cons :
      (asset : AssetInfo) (d : Distribution) (ds : Distributions) (olds : List ℕ)
      → calc_rewards_powers cfg before staker ((asset, d) ∷ ds) ≡ ok olds
      → (p : ℕ) × (ps : List ℕ) × (olds ≡ p ∷ ps)
        × (calc_rewards_power cfg before d staker ≡ ok p)
        × (calc_rewards_powers cfg before staker ds ≡ ok ps)
  unfolding calc_rewards_powers
  powers-cons asset d ds olds e =
      let (p, ep, rest) = >>=-eq-ok (calc_rewards_power cfg before d staker) _ e in
      let (ps, eps, done) = >>=-eq-ok (calc_rewards_powers cfg before staker ds) _ rest in
      (p, ps, sym (ok-injective done), ep, eps)

  module _ (asset : AssetInfo) (d : Distribution) (old new : ℕ)
      (before_power : calc_rewards_power cfg before d staker ≡ ok old)
      (after_power : calc_rewards_power cfg after d staker ≡ ok new)
      (small_shares : d.shares_per_point < i128_limit) (small_old : old < i128_limit)
      (small_new : new < i128_limit) where
    -- The round of the loop for the asset itself.
    adjust-hit :
        (other : AssetInfo) (d0 : Distribution) (m : Adjustments) (old0 new0 : ℕ) {n : Adjustments}
        → other ≡ asset
        → d0 ≡ d
        → calc_rewards_power cfg before d0 staker ≡ ok old0
        → calc_rewards_power cfg after d0 staker ≡ ok new0
        → update_rewards m other staker d0 old0 new0 ≡ ok n
        → KeepsShares m n staker asset d old new
    adjust-hit other d0 m old0 new0 {n = n} same_asset same_d e0 e1 updated =
        let same_old : old0 ≡ old =
          ok-injective
            (sym e0 ∙ ap (λ x. calc_rewards_power cfg before x staker) same_d ∙ before_power) in
        let same_new : new0 ≡ new =
          ok-injective
            (sym e1 ∙ ap (λ x. calc_rewards_power cfg after x staker) same_d ∙ after_power) in
        let updated' : update_rewards m asset staker d old new ≡ ok n = cc in
        update_rewards-entitlement m asset staker d old new small_shares small_old small_new
          updated'

    -- In every distribution the staker's shares by the new power are those by the old power, and
    -- what was withdrawn is kept.
    pub adjust_rewards-entitlement :
        (ds : Distributions) (olds : List ℕ) (m : Adjustments) {m' : Adjustments}
        → HasDistinctKeys ds
        → calc_rewards_powers cfg before staker ds ≡ ok olds
        → adjust_rewards cfg after staker ds olds m ≡ ok m'
        → lookup asset ds ≡ some d
        → KeepsShares m m' staker asset d old new
    unfolding adjust_rewards
    adjust_rewards-entitlement [] olds m dk ec e at = absurd (cc)
    adjust_rewards-entitlement ((other, d0) ∷ ds) [] m dk ec e at =
        let (p, ps, bad, _, _) = powers-cons other d0 ds [] ec in absurd (cc)
    adjust_rewards-entitlement ((other, d0) ∷ ds) (old0 ∷ olds) m {m' = m'} dk ec e at =
        let (p, ps, same, ep, eps) = powers-cons other d0 ds (old0 ∷ olds) ec in
        let (new0, en, rest) = >>=-eq-ok (calc_rewards_power cfg after d0 staker) _ e in
        let (n, eu, loop) = >>=-eq-ok (update_rewards m other staker d0 old0 new0) _ rest in
        let first : p ≡ old0 = cc in
        let others : ps ≡ olds = cc in
        elim (Bool-cases (equal other asset)) [
          | inl hit ↦
              let same_asset = (equal_iff other asset).0 hit in
              let gone : lookup asset ds ≡ none = rw (← same_asset) dk.0 in
              let found_d : d0 ≡ d = ground arith in
              KeepsShares-extend m n m' staker asset d old new
                (adjust_rewards-other_asset cfg after staker ds olds n asset gone loop)
                (adjust-hit other d0 m old0 new0 same_asset found_d (ep ∙ ap ok first) en eu)
          | inr miss ↦
              let ne : other ≢ asset = λ k. ground (arith, equal_iff other asset) in
              let there : lookup asset ds ≡ some d = ground arith in
              KeepsShares-shift m n m' staker asset d old new
                (update_rewards-other m other staker d0 old0 new0 staker asset (inr ne) eu)
                (adjust_rewards-entitlement ds olds n dk.1 (eps ∙ ap ok others) loop there)
        ]
