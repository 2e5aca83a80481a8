-- ===== src/Stake/Invariant/Kept.antt =====
-- A storage whose stakes, claims and stored totals are those of another.
use wynddex.Base.{ℕ, ◌≡◌, refl, ◌∙◌, Bool, true, false, List, Option, ok, Result, if◌then◌else◌}
use wynddex.Map.{Map, HasDistinctKeys, insert, insert-HasDistinctKeys, nat_key}
use wynddex.Asset.{AssetInfo, asset_key}
use wynddex.Stake.State.{Distribution, Msg, ContractError}
use wynddex.Stake.Store.{Store, Adjustments}
use wynddex.Stake.Invariant.{IsConsistent}

-- What the invariant is about is the same, and no distribution is listed twice.
pub record Kept {C : Type 0} (s s' : Store C) : Type 0 where
  pub same_config : s'.config ≡ s.config
  pub same_stake : s'.stake ≡ s.stake
  pub same_totals : s'.total_per_period ≡ s.total_per_period
  pub same_total : s'.total_staked ≡ s.total_staked
  pub same_claims : s'.claims ≡ s.claims
  pub distinct : HasDistinctKeys s.distribution → HasDistinctKeys s'.distribution

-- A property of the result of an `if` holds if both branches have it.
pub if-ok :
    {A : Type 0} (P : A → Type 0) (c : Bool) (x y : Result ContractError A) {r : A}
    → (if c then x else y) ≡ ok r
    → (x ≡ ok r → P r)
    → (y ≡ ok r → P r)
    → P r
if-ok P true x y e f g = f e
if-ok P false x y e f g = g e

module _ {C : Type 0} where
  pub Kept-IsConsistent : {s s' : Store C} → Kept s s' → IsConsistent s → IsConsistent s'
  Kept-IsConsistent k v = record {
    positive = rw (k.same_config) v.positive;
    distinct = k.distinct v.distinct;
    tracks = rw (k.same_config, k.same_stake, k.same_totals) v.tracks;
    covered = rw (k.same_totals, k.same_total) v.covered;
    backed = rw (k.same_claims, k.same_total) v.backed;
  }

  pub Kept-refl : (s : Store C) → Kept s s
  Kept-refl s = record {
    same_config = refl;
    same_stake = refl;
    same_totals = refl;
    same_total = refl;
    same_claims = refl;
    distinct = λ d. d;
  }

  pub Kept-trans : {s t u : Store C} → Kept s t → Kept t u → Kept s u
  Kept-trans k l = record {
    same_config = l.same_config ∙ k.same_config;
    same_stake = l.same_stake ∙ k.same_stake;
    same_totals = l.same_totals ∙ k.same_totals;
    same_total = l.same_total ∙ k.same_total;
    same_claims = l.same_claims ∙ k.same_claims;
    distinct = λ d. l.distinct (k.distinct d);
  }

  -- A write of a distribution, with any adjustments and curves.
  pub Kept-insert :
      (s : Store C) (m : Adjustments) (c : Map AssetInfo C) (asset : AssetInfo) (d : Distribution)
      → Kept s (record s {
        withdraw_adjustment = m;
        reward_curve = c;
        distribution = insert asset d s.distribution;
      })
  Kept-insert s m c asset d = record {
    same_config = refl;
    same_stake = refl;
    same_totals = refl;
    same_total = refl;
    same_claims = refl;
    distinct = insert-HasDistinctKeys asset d s.distribution;
  }

  -- A write of what the invariant is not about.
  pub Kept-with :
      (s : Store C) (a : Option ℕ) (c : Map AssetInfo C) (delegated : Map ℕ ℕ) (flag : Bool)
      → Kept s (record s { admin = a; reward_curve = c; delegated = delegated; unbond_all = flag })
  Kept-with s a c delegated flag = record {
    same_config = refl;
    same_stake = refl;
    same_totals = refl;
    same_total = refl;
    same_claims = refl;
    distinct = λ d. d;
  }

  unfoldable pub KeptAnswer : Store C → Store C × List Msg → Type 0
  KeptAnswer s r = Kept s r.0
