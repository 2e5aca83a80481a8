-- ===== src/Stake/Rewards/Entitlement.antt =====
-- A change of a staker's power moves no rewards: the shares per point times the power, plus the
-- correction, stay the same for the staker, and nobody else's correction changes.
use wynddex.Base.{
  ℕ, ◌*◌, ◌<◌, ◌≡◌, ◌≢◌, refl, sym, ap, ◌∙◌, arith, [], ok, >>=-eq-ok, ok-injective, Bool-cases,
  inl, inr, ◌==◌, unwrap_or, ==_iff, ◌⊎◌,
}
use native.Mathlib.Decide.{ℕ_discrete}
use wynddex.Num.{
  ℤ, pos, ◌+ℤ◌, ◌-ℤ◌, ◌*ℤ◌, as_i128, to_i128, as_i128-of_small, rebalance, i128_limit,
}
use wynddex.Map.{lookup, insert, lookup-insert, lookup-insert_self, nat_key}
use wynddex.Asset.{AssetInfo, asset_key, equal_iff}
use wynddex.Stake.State.{Distribution, ContractError}
use wynddex.Stake.Store.{Adjustments, WithdrawAdjustment, no_adjustment}
use wynddex.Stake.Rewards.{
  load_adjustment, save_adjustment, update_rewards, apply_points_correction,
}

pub load-save_adjustment_self :
    (m : Adjustments) (owner : ℕ) (asset : AssetInfo) (a : WithdrawAdjustment)
    → load_adjustment (save_adjustment m owner asset a) owner asset ≡ a
unfolding save_adjustment
load-save_adjustment_self m owner asset a =
    let row = unwrap_or (lookup owner m) [] in
    ap (λ r. unwrap_or (lookup asset (unwrap_or r [])) no_adjustment)
      (lookup-insert_self owner (insert asset a row) m)
    ∙ ap (λ r. unwrap_or r no_adjustment) (lookup-insert_self asset a row)

pub load-save_adjustment_asset :
    (m : Adjustments) (owner : ℕ) (asset other : AssetInfo) (a : WithdrawAdjustment)
    → asset ≢ other
    → load_adjustment (save_adjustment m owner asset a) owner other ≡ load_adjustment m owner other
unfolding save_adjustment
load-save_adjustment_asset m owner asset other a ne =
    let row = unwrap_or (lookup owner m) [] in
    let miss : lookup other (insert asset a row) ≡ lookup other row =
      rw (lookup-insert asset other a row) (ground (arith, equal_iff asset other)) in
    ap (λ r. unwrap_or (lookup other (unwrap_or r [])) no_adjustment)
      (lookup-insert_self owner (insert asset a row) m)
    ∙ ap (λ r. unwrap_or r no_adjustment) miss

pub load-save_adjustment_owner :
    (m : Adjustments) (owner staker : ℕ) (asset other : AssetInfo) (a : WithdrawAdjustment)
    → owner ≢ staker
    → load_adjustment (save_adjustment m owner asset a) staker other
      ≡ load_adjustment m staker other
unfolding save_adjustment
load-save_adjustment_owner m owner staker asset other a ne =
    let row = unwrap_or (lookup owner m) [] in
    let miss : lookup staker (insert owner (insert asset a row) m) ≡ lookup staker m =
      rw (lookup-insert owner staker (insert asset a row) m) (ground arith) in
    ap (λ r. unwrap_or (lookup other (unwrap_or r [])) no_adjustment) miss

-- A save changes nothing for another owner or another asset.
saved_elsewhere :
    (m : Adjustments) (owner a : ℕ) (asset other : AssetInfo) (w : WithdrawAdjustment)
    → (owner ≢ a) ⊎ (asset ≢ other)
    → load_adjustment (save_adjustment m owner asset w) a other ≡ load_adjustment m a other
saved_elsewhere m owner a asset other w (inl ne) =
    load-save_adjustment_owner m owner a asset other w ne
saved_elsewhere m owner a asset other w (inr ne) = elim (ℕ_discrete owner a) [
  | yes same ↦ rw (← same) (load-save_adjustment_asset m owner asset other w ne)
  | no apart ↦ load-save_adjustment_owner m owner a asset other w apart
]

-- The shares of a staker with this power.
abbrev pub entitlement : Adjustments → ℕ → AssetInfo → Distribution → ℕ → ℤ
entitlement m owner asset d power =
    pos (d.shares_per_point * power) +ℤ (load_adjustment m owner asset).shares_correction

to_i128-eq-ok : (z : ℤ) {y : ℤ} → to_i128 {E = ContractError} z ≡ ok y → y ≡ z
unfolding to_i128
to_i128-eq-ok z h = ground arith

-- A correction that succeeds is saved, with the withdrawn rewards as they were.
apply_points_correction-eq-ok :
    (m : Adjustments) (owner : ℕ) (asset : AssetInfo) (shares : ℕ) (diff : ℤ) {m' : Adjustments}
    → apply_points_correction m owner asset shares diff ≡ ok m'
    → let old = load_adjustment m owner asset in
      m'
      ≡ save_adjustment m owner asset
          (record old { shares_correction = old.shares_correction -ℤ as_i128 shares *ℤ diff })
unfolding apply_points_correction
apply_points_correction-eq-ok m owner asset shares diff h =
    let old = load_adjustment m owner asset in
    let (moved, em, rest) = >>=-eq-ok (to_i128 (as_i128 shares *ℤ diff)) _ h in
    let (c, ec, done) = >>=-eq-ok (to_i128 (old.shares_correction -ℤ moved)) _ rest in
    let moved_eq = to_i128-eq-ok _ em in
    let c_eq = to_i128-eq-ok _ ec in
    sym (ok-injective done)
    ∙ ap (λ z. save_adjustment m owner asset (record old { shares_correction = z }))
        (c_eq ∙ ap (λ z. old.shares_correction -ℤ z) moved_eq)

-- The new correction, where the power changes.
abbrev corrected : Adjustments → ℕ → AssetInfo → Distribution → ℕ → ℕ → WithdrawAdjustment
corrected m owner asset d old new =
    let a = load_adjustment m owner asset in
    record a {
      shares_correction =
          a.shares_correction -ℤ as_i128 d.shares_per_point *ℤ (as_i128 new -ℤ as_i128 old);
    }

pub update_rewards-eq-ok :
    (m : Adjustments) (asset : AssetInfo) (owner : ℕ) (d : Distribution) (old new : ℕ)
    {m' : Adjustments}
    → update_rewards m asset owner d old new ≡ ok m'
    → ((old ≡ new) × (m' ≡ m))
      ⊎ (m' ≡ save_adjustment m owner asset (corrected m owner asset d old new))
unfolding update_rewards
update_rewards-eq-ok m asset owner d old new h = elim (Bool-cases (old == new)) [
  | inl same ↦ inl ((==_iff old new).0 same, sym (ok-injective (rw (same, update_rewards) at h)))
  | inr other ↦
      let (diff, ed, rest) =
        >>=-eq-ok (to_i128 (as_i128 new -ℤ as_i128 old)) _ (rw (other, update_rewards) at h) in
      let a = load_adjustment m owner asset in
      inr (
        apply_points_correction-eq-ok m owner asset d.shares_per_point diff rest
        ∙ ap
            (λ z. save_adjustment m owner asset (record a {
              shares_correction = a.shares_correction -ℤ as_i128 d.shares_per_point *ℤ z;
            }))
            (to_i128-eq-ok _ ed))
]

corrected-entitlement :
    (m : Adjustments) (asset : AssetInfo) (owner : ℕ) (d : Distribution) (old new : ℕ)
    → d.shares_per_point < i128_limit
    → old < i128_limit
    → new < i128_limit
    → pos (d.shares_per_point * new) +ℤ (corrected m owner asset d old new).shares_correction
      ≡ entitlement m owner asset d old
corrected-entitlement m asset owner d old new small_p small_old small_new =
    let c = (load_adjustment m owner asset).shares_correction in
    rw
      (
        as_i128-of_small d.shares_per_point small_p,
        as_i128-of_small old small_old,
        as_i128-of_small new small_new,
      )
      (rebalance d.shares_per_point old new c)

-- An update of the rewards leaves the staker's shares as they were, with what was withdrawn.
pub update_rewards-entitlement :
    (m : Adjustments) (asset : AssetInfo) (owner : ℕ) (d : Distribution) (old new : ℕ)
    {m' : Adjustments}
    → d.shares_per_point < i128_limit
    → old < i128_limit
    → new < i128_limit
    → update_rewards m asset owner d old new ≡ ok m'
    → (entitlement m' owner asset d new ≡ entitlement m owner asset d old)
      × ((load_adjustment m' owner asset).withdrawn_rewards
          ≡ (load_adjustment m owner asset).withdrawn_rewards)
update_rewards-entitlement m asset owner d old new small_p small_old small_new h =
    elim (update_rewards-eq-ok m asset owner d old new h) [
      | inl (same, kept) ↦
          (rw (kept, same) refl, ap (λ n. (load_adjustment n owner asset).withdrawn_rewards) kept)
      | inr saved ↦
          let loaded =
            ap (λ n. load_adjustment n owner asset) saved
            ∙ load-save_adjustment_self m owner asset (corrected m owner asset d old new) in
          (
            ap (λ a. pos (d.shares_per_point * new) +ℤ a.shares_correction) loaded
                ∙ corrected-entitlement m asset owner d old new small_p small_old small_new,
            ap (λ a. a.withdrawn_rewards) loaded,
          )
    ]

-- It leaves the other assets of the staker alone, and everything of other stakers.
pub update_rewards-other :
    (m : Adjustments) (asset : AssetInfo) (owner : ℕ) (d : Distribution) (old new : ℕ) (a : ℕ)
    (other : AssetInfo) {m' : Adjustments}
    → (owner ≢ a) ⊎ (asset ≢ other)
    → update_rewards m asset owner d old new ≡ ok m'
    → load_adjustment m' a other ≡ load_adjustment m a other
update_rewards-other m asset owner d old new a other away h =
    elim (update_rewards-eq-ok m asset owner d old new h) [
      | inl (same, kept) ↦ ap (λ n. load_adjustment n a other) kept
      | inr saved ↦
          ap (λ n. load_adjustment n a other) saved
          ∙ saved_elsewhere m owner a asset other (corrected m owner asset d old new) away
    ]
