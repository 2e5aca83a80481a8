-- ===== src/Stake/Transfers/Rebond.antt =====
-- Rebonding moves an amount from one period of the sender's stake to another: no total of the
-- contract changes, and nobody's rewards do.
use wynddex.Base.{
  ℕ, ◌+◌, ◌-◌, ◌<◌, ◌≡◌, ◌≢◌, refl, sym, ap, ◌∙◌, subst, subst₂, arith, List, some, ok, >>=-eq-ok,
  ok-injective, fail_if, fail_if-eq-ok, ne_of_test, unwrap, ltb, ◌==◌, Bool-cases, inl, inr,
}
use wynddex.Num.{i128_limit}
use wynddex.Map.{lookup, HasDistinctKeys}
use wynddex.Asset.{AssetInfo, asset_key}
use wynddex.Host.{Host}
use wynddex.Stake.State.{BondingInfo, TotalStake, Distribution, Msg}
use wynddex.Stake.Bonding.{bonded, add_unlocked_tokens, release_stake, total_stake}
use wynddex.Stake.Bonding.Release.{release_stake-eq-ok, total_stake-eq-ok}
use wynddex.Stake.Bonding.Locking.{add_locked_tokens-bonded}
use wynddex.Stake.Power.{Stakes, load_stake, save_stake, calc_rewards_power, calc_rewards_powers}
use wynddex.Stake.Power.Loads.{load-save_stake_self, load-save_stake_period}
use wynddex.Stake.Totals.{update_total_stake}
use wynddex.Stake.Totals.Tracking.{TracksAll, save_stake-TracksAll}
use wynddex.Stake.Store.{Store, Env, MessageInfo, Adjustments}
use wynddex.Stake.Staking.{is_no_period, adjust_rewards}
use wynddex.Stake.Staking.Adjust.{save_distributions_self, KeepsShares, adjust_rewards-entitlement}
use wynddex.Stake.Staking.Bond.{
  add_unlocked_tokens-eq-ok, update_total_stake-staked_total, staked_total,
}
use wynddex.Stake.Invariant.{IsConsistent}
use wynddex.Stake.Transfers.{arrive, move_bond, rebond, execute_rebond}

-- Both ways of arriving add the amount.
arrive-eq-ok :
    ⦃h : Host⦄ (info : BondingInfo) (now amount from to : ℕ) {b : BondingInfo}
    → arrive info now amount from to ≡ ok b
    → bonded b ≡ bonded info + amount
unfolding arrive
arrive-eq-ok ⦃h⦄ info now amount from to {b = b} e = elim (Bool-cases (ltb to from)) [
  | inl locked ↦
      let (expires, _, added) =
        >>=-eq-ok (unwrap (h.plus_seconds now (from - to))) _ (rw (locked, arrive) at e) in
      add_locked_tokens-bonded info expires amount added
  | inr unlocked ↦
      let ((n, c), added, done) =
        >>=-eq-ok (add_unlocked_tokens info amount) _ (rw (unlocked, arrive) at e) in
      ap bonded (sym (ok-injective done)) ∙ add_unlocked_tokens-eq-ok info amount added
]

-- What the two updates of the bonds do.
record MovedBond (stakes : Stakes) (staker from to amount : ℕ) (sizes : ℕ × ℕ × ℕ × ℕ × Stakes)
    : Type 0 where
  left : BondingInfo
  arrived : BondingInfo
  old_from : sizes.0 ≡ bonded (load_stake stakes staker from)
  new_from : sizes.1 ≡ bonded left
  old_to : sizes.2 ≡ bonded (load_stake (save_stake stakes staker from left) staker to)
  new_to : sizes.3 ≡ bonded arrived
  left_size : bonded left + amount ≡ bonded (load_stake stakes staker from)
  arrived_size :
      bonded arrived ≡ bonded (load_stake (save_stake stakes staker from left) staker to) + amount
  saved : sizes.4 ≡ save_stake (save_stake stakes staker from left) staker to arrived

move_bond-MovedBond :
    ⦃h : Host⦄ (stakes : Stakes) (now staker amount from to : ℕ) {sizes : ℕ × ℕ × ℕ × ℕ × Stakes}
    → move_bond stakes now staker amount from to ≡ ok sizes
    → MovedBond stakes staker from to amount sizes
unfolding move_bond
move_bond-MovedBond stakes now staker amount from to e =
    let info_from = load_stake stakes staker from in
    let (old_from, eof, e1) = >>=-eq-ok (total_stake info_from) _ e in
    let ((_, left), el, e2) = >>=-eq-ok (release_stake info_from now amount) _ e1 in
    let (new_from, enf, e3) = >>=-eq-ok (total_stake left) _ e2 in
    let info_to = load_stake (save_stake stakes staker from left) staker to in
    let (old_to, eot, e4) = >>=-eq-ok (total_stake info_to) _ e3 in
    let (arrived, ea, e5) = >>=-eq-ok (arrive info_to now amount from to) _ e4 in
    let (new_to, ent, done) = >>=-eq-ok (total_stake arrived) _ e5 in
    subst (MovedBond stakes staker from to amount) (ok-injective done) (record {
      left = left;
      arrived = arrived;
      old_from = (total_stake-eq-ok info_from eof).0;
      new_from = (total_stake-eq-ok left enf).0;
      old_to = (total_stake-eq-ok info_to eot).0;
      new_to = (total_stake-eq-ok arrived ent).0;
      left_size = (release_stake-eq-ok info_from now amount el).0;
      arrived_size = arrive-eq-ok info_to now amount from to ea;
      saved = refl;
    })

-- The storage after a rebond.
record Moved {C : Type 0} ⦃h : Host⦄ (s s' : Store C) (staker from to amount : ℕ) : Type 0 where
  sizes : ℕ × ℕ × ℕ × ℕ × Stakes
  bonds : MovedBond s.stake staker from to amount sizes
  olds : List ℕ
  totals : List (ℕ × TotalStake)
  totals' : List (ℕ × TotalStake)
  adjustments : Adjustments
  powers : calc_rewards_powers s.config s.stake staker s.distribution ≡ ok olds
  updated_from : update_total_stake s.config s.total_per_period from sizes.0 sizes.1 ≡ ok totals
  updated_to : update_total_stake s.config totals to sizes.2 sizes.3 ≡ ok totals'
  adjusted :
      adjust_rewards s.config sizes.4 staker s.distribution olds s.withdraw_adjustment
      ≡ ok adjustments
  result :
      s'
      ≡ record s { stake = sizes.4; total_per_period = totals'; withdraw_adjustment = adjustments }

module _ {C : Type 0} ⦃h : Host⦄ where
  rebond-Moved :
      (s : Store C) (now staker amount from to : ℕ) {r : Store C × List Msg}
      → HasDistinctKeys s.distribution
      → rebond s now staker amount from to ≡ ok r
      → Moved s r.0 staker from to amount
  unfolding rebond
  rebond-Moved s now staker amount from to distinct e =
      let cfg = s.config in
      let (olds, ep, e1) = >>=-eq-ok (calc_rewards_powers cfg s.stake staker s.distribution) _ e in
      let (sizes, em, e2) = >>=-eq-ok (move_bond s.stake now staker amount from to) _ e1 in
      let (totals, et, e3) =
        >>=-eq-ok (update_total_stake cfg s.total_per_period from sizes.0 sizes.1) _ e2 in
      let (totals', et', e4) = >>=-eq-ok (update_total_stake cfg totals to sizes.2 sizes.3) _ e3 in
      let (adj, ead, done) =
        >>=-eq-ok (adjust_rewards cfg sizes.4 staker s.distribution olds s.withdraw_adjustment) _
          e4 in
      record {
        sizes = sizes;
        bonds = move_bond-MovedBond s.stake now staker amount from to em;
        olds = olds;
        totals = totals;
        totals' = totals';
        adjustments = adj;
        powers = ep;
        updated_from = et;
        updated_to = et';
        adjusted = ead;
        result =
            ap (λ r. r.0) (sym (ok-injective done))
            ∙ ap
                (λ ds. record s {
                  stake = sizes.4;
                  total_per_period = totals';
                  withdraw_adjustment = adj;
                  distribution = ds;
                })
                (save_distributions_self s.distribution distinct);
      }

  execute_rebond-Moved :
      (env : Env) (info : MessageInfo) (amount from to : ℕ) (s : Store C) {r : Store C × List Msg}
      → HasDistinctKeys s.distribution
      → execute_rebond env info amount from to s ≡ ok r
      → (from ≢ to) × Moved s r.0 info.sender from to amount
  unfolding execute_rebond
  execute_rebond-Moved env info amount from to s distinct e =
      let (_, _, e1) = >>=-eq-ok (fail_if s.unbond_all _) _ e in
      let (_, _, e2) = >>=-eq-ok (fail_if (amount == 0) _) _ e1 in
      let (_, differ, e3) = >>=-eq-ok (fail_if (from == to) _) _ e2 in
      let (_, _, e4) = >>=-eq-ok (fail_if (is_no_period s.config from) _) _ e3 in
      let (_, _, e5) = >>=-eq-ok (fail_if (is_no_period s.config to) _) _ e4 in
      (
        ne_of_test from to (fail_if-eq-ok (from == to) _ differ),
        rebond-Moved s env.block_time info.sender amount from to distinct e5,
      )

  -- The promise of a rebond.
  abbrev pub Rebonded : Store C → Store C → ℕ → ℕ → ℕ → ℕ → Type 0
  Rebonded s t staker amount from to =
      IsConsistent t
      × (t.total_staked ≡ s.total_staked)
      × (staked_total t.total_per_period ≡ staked_total s.total_per_period)
      × (bonded (load_stake t.stake staker from) + amount ≡ bonded (load_stake s.stake staker from))
      × (bonded (load_stake t.stake staker to) ≡ bonded (load_stake s.stake staker to) + amount)

  rebond-Rebonded :
      (staker amount from to : ℕ) (s : Store C) {s' : Store C}
      → IsConsistent s
      → from ≢ to
      → Moved s s' staker from to amount
      → Rebonded s s' staker amount from to
  rebond-Rebonded staker amount from to s v apart m =
      let k = m.bonds in
      let stakes = save_stake s.stake staker from k.left in
      let first =
        save_stake-TracksAll s.config s.stake s.total_per_period staker from k.left v.positive
          v.tracks
          (subst₂ (λ x y. update_total_stake s.config s.total_per_period from x y ≡ ok m.totals)
            k.old_from k.new_from m.updated_from) in
      let second =
        save_stake-TracksAll s.config stakes m.totals staker to k.arrived v.positive first.0 (
          subst₂ (λ x y. update_total_stake s.config m.totals to x y ≡ ok m.totals') k.old_to
            k.new_to m.updated_to) in
      let fell =
        update_total_stake-staked_total s.config s.total_per_period from _ _ m.updated_from in
      let grew = update_total_stake-staked_total s.config m.totals to _ _ m.updated_to in
      let there = ap bonded (load-save_stake_period s.stake staker from to k.left apart) in
      let same_sum : staked_total m.totals' ≡ staked_total s.total_per_period = omega (
        arith, fell, grew, there, k.old_from, k.new_from, k.old_to, k.new_to, k.left_size,
        k.arrived_size,
      ) in
      let from_load =
        ap (λ x. load_stake x staker from) k.saved
        ∙ load-save_stake_period stakes staker to from k.arrived (λ q. apart (sym q))
        ∙ load-save_stake_self s.stake staker from k.left in
      let to_load =
        ap (λ x. load_stake x staker to) k.saved
        ∙ load-save_stake_self stakes staker to k.arrived in
      subst (λ t. Rebonded s t staker amount from to) (sym m.result)
        (
          record {
            positive = v.positive;
            distinct = v.distinct;
            tracks = subst (λ x. TracksAll s.config x m.totals') (sym k.saved) second.0;
            covered = omega (arith, same_sum, v.covered);
            backed = v.backed;
          },
          refl,
          same_sum,
          ap (λ b. bonded b + amount) from_load ∙ k.left_size,
          ap bonded to_load ∙ k.arrived_size ∙ ap (λ n. n + amount) there,
        )

  -- A rebonding that is accepted in a consistent storage moves exactly the amount from the one
  -- bond of the sender to the other, keeps the invariant, and changes neither the staked total
  -- nor the sum over the periods.
  pub execute_rebond-IsConsistent :
      (env : Env) (info : MessageInfo) (amount from to : ℕ) (s : Store C) {r : Store C × List Msg}
      → IsConsistent s
      → execute_rebond env info amount from to s ≡ ok r
      → IsConsistent r.0
        × (r.0.total_staked ≡ s.total_staked)
        × (staked_total r.0.total_per_period ≡ staked_total s.total_per_period)
        × (bonded (load_stake r.0.stake info.sender from) + amount
            ≡ bonded (load_stake s.stake info.sender from))
        × (bonded (load_stake r.0.stake info.sender to)
            ≡ bonded (load_stake s.stake info.sender to) + amount)
  execute_rebond-IsConsistent env info amount from to s {r = r} v e =
      let (apart, m) = execute_rebond-Moved env info amount from to s v.distinct e in
      rebond-Rebonded info.sender amount from to s v apart m

  -- A rebonding that is accepted moves no rewards: in every stored distribution the sender's
  -- shares by the new power are those by the old one, and what was withdrawn is kept, while no
  -- distribution is listed twice and the shares per point and both powers are below 2^127.
  pub execute_rebond-KeepsShares :
      (env : Env) (info : MessageInfo) (amount from to : ℕ) (s : Store C) {r : Store C × List Msg}
      (asset : AssetInfo) (d : Distribution) (old new : ℕ)
      → HasDistinctKeys s.distribution
      → execute_rebond env info amount from to s ≡ ok r
      → lookup asset s.distribution ≡ some d
      → calc_rewards_power s.config s.stake d info.sender ≡ ok old
      → calc_rewards_power s.config r.0.stake d info.sender ≡ ok new
      → d.shares_per_point < i128_limit
      → old < i128_limit
      → new < i128_limit
      → KeepsShares s.withdraw_adjustment r.0.withdraw_adjustment info.sender asset d old new
  execute_rebond-KeepsShares env info amount from to s asset d old new distinct e at before after sp
        so sn =
      let staker = info.sender in
      let (apart, m) = execute_rebond-Moved env info amount from to s distinct e in
      subst (λ n. KeepsShares s.withdraw_adjustment n staker asset d old new)
        (sym (ap (λ x. x.withdraw_adjustment) m.result))
        (adjust_rewards-entitlement s.config s.stake m.sizes.4 staker asset d old new before
          (subst (λ n. calc_rewards_power s.config n d staker ≡ ok new) (ap (λ x. x.stake) m.result)
            after)
          sp so sn s.distribution m.olds s.withdraw_adjustment distinct m.powers m.adjusted at)
