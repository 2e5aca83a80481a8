-- ===== src/Stake/Totals/Tracking.antt =====
-- The stored totals are the sums of what the stakers hold: `staked` of all their bonds in the
-- period, `powered_stake` of those of at least `min_bond`.
use wynddex.Base.{
  ℕ, ◌+◌, ◌≡◌, ◌≢◌, refl, arith, ap, sym, ◌∙◌, subst, List, some, All, Distinct, All-set-Distinct,
  All-get_elem?, map-set, Distinct-set, get_elem?, set, ok, unwrap, >>=-eq-ok, unwrap-eq-ok,
  ok-injective, Option-cases, inl, inr, unwrap_or, ◌<◌, map,
}
use wynddex.Map.{
  Map, lookup, insert, total, measure, total-insert, lookup-insert, lookup-insert_self, nat_key,
}
use wynddex.Search.{Position-cases, search_by_key}
use wynddex.Search.Sorted.{search_by_key-found}
use wynddex.Stake.State.{Config, BondingInfo, TotalStake}
use wynddex.Stake.Bonding.{no_bond, bonded}
use wynddex.Stake.Power.{Stakes, load_stake, save_stake, periods_of}
use wynddex.Stake.Totals.{update_total_stake, new_total_stake, new_total_stake_lem, powered}

module _ (g : BondingInfo → ℕ) where
  -- A measure of all the bonds of one period.
  unfoldable pub held : ℕ → Stakes → ℕ
  held period = total (λ m. measure g (lookup period m))

  -- A bond that is not stored counts for nothing.
  measure-load :
      (m : Stakes) (staker period : ℕ)
      → g no_bond ≡ 0
      → measure (λ m. measure g (lookup period m)) (lookup staker m)
        ≡ g (load_stake m staker period)
  measure-load m staker period z = elim (Option-cases (lookup staker m)) [
    | inl e ↦ rw e (sym z)
    | inr (n, e) ↦ rw e (measure-or n)
  ]
    where
      measure-or :
          (n : Map ℕ BondingInfo)
          → measure g (lookup period n) ≡ g (unwrap_or (lookup period n) no_bond)
      measure-or n = elim (Option-cases (lookup period n)) [
        | inl e ↦ rw e (sym z)
        | inr (b, e) ↦ rw e refl
      ]

  -- Saving a bond changes the sum of its period by the change of the bond.
  pub held-save_stake :
      (m : Stakes) (staker period : ℕ) (b : BondingInfo)
      → g no_bond ≡ 0
      → held period (save_stake m staker period b) + g (load_stake m staker period)
        ≡ held period m + g b
  unfolding held save_stake
  held-save_stake m staker period b z =
      let row = insert period b (periods_of m staker) in
      omega (
        arith,
        total-insert (λ n. measure g (lookup period n)) staker row m,
        ap (measure g) (lookup-insert_self period b (periods_of m staker)),
        measure-load m staker period z,
      )

  measure-row :
      (m : Stakes) (staker other : ℕ)
      → measure (λ n. measure g (lookup other n)) (lookup staker m)
        ≡ measure g (lookup other (periods_of m staker))
  measure-row m staker other = elim (Option-cases (lookup staker m)) [
    | inl e ↦ rw e refl
    | inr (n, e) ↦ rw e refl
  ]

  other-row :
      (m : Stakes) (staker period other : ℕ) (b : BondingInfo)
      → period ≢ other
      → lookup other (insert period b (periods_of m staker)) ≡ lookup other (periods_of m staker)
  other-row m staker period other b ne =
      rw (lookup-insert period other b (periods_of m staker)) (ground arith)

  -- and leaves the sums of the other periods alone.
  pub held-save_stake_ne :
      (m : Stakes) (staker period other : ℕ) (b : BondingInfo)
      → period ≢ other
      → held other (save_stake m staker period b) ≡ held other m
  unfolding held save_stake
  held-save_stake_ne m staker period other b ne =
      let row = insert period b (periods_of m staker) in
      omega (
        arith,
        total-insert (λ n. measure g (lookup other n)) staker row m,
        ap (measure g) (other-row m staker period other b ne),
        measure-row m staker other,
      )

-- An entry of the totals tells what the stakers hold in its period.
abbrev pub Tracks : Config → Stakes → ℕ × TotalStake → Type 0
Tracks cfg m (period, t) =
    (t.staked ≡ held bonded period m)
    × (t.powered_stake ≡ held (λ b. powered cfg (bonded b)) period m)

abbrev pub TracksAll : Config → Stakes → List (ℕ × TotalStake) → Type 0
TracksAll cfg m totals = All (Tracks cfg m) totals × Distinct (λ e. e.0) totals

Tracks-other :
    (cfg : Config) (m : Stakes) (staker period : ℕ) (b : BondingInfo) (e : ℕ × TotalStake)
    → e.0 ≢ period
    → Tracks cfg m e
    → Tracks cfg (save_stake m staker period b) e
Tracks-other cfg m staker period b (other, t) ne tracks =
    let ne' : period ≢ other = λ k. ne (sym k) in
    (
      tracks.0 ∙ sym (held-save_stake_ne bonded m staker period other b ne'),
      tracks.1 ∙ sym (held-save_stake_ne (λ b. powered cfg (bonded b)) m staker period other b ne'),
    )

Tracks-changed :
    (cfg : Config) (m : Stakes) (staker period : ℕ) (b : BondingInfo) (t : TotalStake)
    {t' : TotalStake}
    → 0 < cfg.min_bond
    → Tracks cfg m (period, t)
    → new_total_stake cfg t (bonded (load_stake m staker period)) (bonded b) ≡ ok t'
    → Tracks cfg (save_stake m staker period b) (period, t')
Tracks-changed cfg m staker period b t positive tracks e =
    let changed = new_total_stake_lem cfg t (bonded (load_stake m staker period)) (bonded b) e in
    let zero_powered : powered cfg 0 ≡ 0 = ground arith in
    (
      omega (arith, held-save_stake bonded m staker period b refl, changed.0, tracks.0),
      omega (
        arith,
        held-save_stake (λ b. powered cfg (bonded b)) m staker period b zero_powered,
        changed.1,
        tracks.1,
      ),
    )

-- An update that succeeds writes one entry, of the given period.
pub update_total_stake-eq-ok :
    (cfg : Config) (totals : List (ℕ × TotalStake)) (period old new : ℕ)
    {totals' : List (ℕ × TotalStake)}
    → update_total_stake cfg totals period old new ≡ ok totals'
    → (i : ℕ) × (t : TotalStake) × (t' : TotalStake) × (get_elem? totals i ≡ some (period, t))
      × (new_total_stake cfg t old new ≡ ok t')
      × (totals' ≡ set totals i (period, t'))
unfolding update_total_stake
update_total_stake-eq-ok cfg totals period old new h =
    elim (Position-cases (search_by_key (λ e. e.0) period totals)) [
      | inr (i, miss) ↦ let bad = rw (miss, update_total_stake) at h in absurd (cc)
      | inl (i, hit) ↦
          let (x, at, same) = search_by_key-found (λ e. e.0) period totals i hit in
          let (e, there, rest) =
            >>=-eq-ok (unwrap (get_elem? totals i)) _ (rw (hit, update_total_stake) at h) in
          let (t', changed, done) = >>=-eq-ok (new_total_stake cfg e.1 old new) _ rest in
          let key : e.0 ≡ period = ground arith in
          let entry : get_elem? totals i ≡ some (period, e.1) =
            unwrap-eq-ok (get_elem? totals i) there ∙ ap (λ k. some (k, e.1)) key in
          (i, e.1, t', entry, changed, sym (ok-injective done) ∙ ap (λ k. set totals i (k, t')) key)
    ]

-- While `min_bond` is positive, the totals that are the sums of the bonds stay so when a bond is
-- saved and its period is updated by the bond's old and new size; the periods are kept.
pub save_stake-TracksAll :
    (cfg : Config) (m : Stakes) (totals : List (ℕ × TotalStake)) (staker period : ℕ)
    (b : BondingInfo) {totals' : List (ℕ × TotalStake)}
    → 0 < cfg.min_bond
    → TracksAll cfg m totals
    → update_total_stake cfg totals period (bonded (load_stake m staker period)) (bonded b)
      ≡ ok totals'
    → TracksAll cfg (save_stake m staker period b) totals'
      × (map (λ e. e.0) totals' ≡ map (λ e. e.0) totals)
save_stake-TracksAll cfg m totals staker period b positive tracks e =
    let (i, t, t', at, changed, done) = update_total_stake-eq-ok cfg totals period _ _ e in
    let entry = All-get_elem? (Tracks cfg m) totals i tracks.0 at in
    let m' = save_stake m staker period b in
    let kept = map-set (λ e. e.0) totals i (period, t') at refl in
    let followed =
      All-set-Distinct (λ e. e.0) (Tracks cfg m) (Tracks cfg m') totals i (period, t') tracks.1 at
        (Tracks-other cfg m staker period b)
        (Tracks-changed cfg m staker period b t positive entry changed) tracks.0 in
    let distinct = Distinct-set (λ e. e.0) totals i (period, t') tracks.1 at refl in
    (
      (
        subst (All (Tracks cfg m')) (sym done) followed,
        subst (Distinct (λ e. e.0)) (sym done) distinct,
      ),
      ap (map λ e. e.0) done ∙ kept,
    )
