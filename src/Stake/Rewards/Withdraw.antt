-- ===== src/Stake/Rewards/Withdraw.antt =====
-- Withdrawing: one round of the loop pays what is withdrawable, in one message, and takes it from the
-- distribution; right after it nothing is withdrawable.
use wynddex.Base.{
  ℕ, ◌+◌, ◌/◌, ◌≡◌, refl, ap, ◌∙◌, subst, arith, List, [], ◌∷◌, ◌++◌, some, Result, ok, ◌>>=◌,
  >>=-eq-ok, ok-injective, Bool, true, false, inl, inr, ◌⊎◌, ◌==◌, if◌then◌else◌,
}
use wynddex.Num.{
  ◌+ℤ◌, as_i128, as_u128, to_i128, add128, sub128, mul128, add128-eq-ok, sub128-eq-ok,
}
use wynddex.Host.{Host}
use wynddex.Asset.{AssetInfo, asset_key, into_msg}
use wynddex.Map.{lookup, nat_key, lookup-insert_self}
use wynddex.Stake.State.{Config, Distribution, Msg, ContractError}
use wynddex.Stake.Power.{Stakes, calc_rewards_power}
use wynddex.Stake.Store.{Store, WithdrawAdjustment}
use wynddex.Stake.Rewards.{withdraw_one, withdrawable_rewards, load_adjustment, shares_scale}
use wynddex.Stake.Rewards.Entitlement.{load-save_adjustment_self}

then_ok :
    {A B : Type 0} {m : Result ContractError A} (f : A → Result ContractError B) {a : A}
    {r : Result ContractError B}
    → m ≡ ok a
    → f a ≡ r
    → m >>= f ≡ r
then_ok f e e1 = ap (λ m. m >>= f) e ∙ e1

used_up :
    (x w reward w' : ℕ)
    → sub128 {E = ContractError} x w ≡ ok reward
    → w' ≡ w + reward
    → sub128 {E = ContractError} x w' ≡ ok 0
unfolding sub128
used_up x w reward w' e e1 = ground arith

module _ ⦃h : Host⦄ where
  -- The withdrawable total of the distribution does not count, and what was withdrawn does.
  withdrawable_rewards-after :
      (cfg : Config) (stakes : Stakes) (owner : ℕ) (d : Distribution) (a : WithdrawAdjustment)
      (left w' : ℕ) {reward : ℕ}
      → withdrawable_rewards cfg stakes owner d a ≡ ok reward
      → w' ≡ a.withdrawn_rewards + reward
      → withdrawable_rewards cfg stakes owner
          (record d { withdrawable_total = left })
          (record a { withdrawn_rewards = w' })
        ≡ ok 0
  unfolding withdrawable_rewards calc_rewards_power
  withdrawable_rewards-after cfg stakes owner d a left w' {reward = reward} e e1 =
      let (power, ep, f1) = >>=-eq-ok (calc_rewards_power cfg stakes d owner) _ e in
      let (points, em, f2) = >>=-eq-ok (mul128 d.shares_per_point power) _ f1 in
      let (z, ez, f3) = >>=-eq-ok (to_i128 (as_i128 points +ℤ a.shares_correction)) _ f2 in
      then_ok _ ep (
        then_ok _ em
          (then_ok _ ez (used_up (as_u128 z / shares_scale) a.withdrawn_rewards reward w' f3 e1)))

if-cases :
    {A : Type 0} (c : Bool) (x y : A) {z : A}
    → (if c then x else y) ≡ z
    → ((c ≡ true) × (x ≡ z)) ⊎ ((c ≡ false) × (y ≡ z))
if-cases true x y e = inl (refl, e)
if-cases false x y e = inr (refl, e)

zero_of_test : (n : ℕ) → n == 0 ≡ true → n ≡ 0
zero_of_test n e = ground arith

module _ {C : Type 0} ⦃h : Host⦄ (owner receiver : ℕ) (s : Store C) (msgs : List Msg)
    (asset : AssetInfo) (d : Distribution) where
  -- What one round does with a reward: nothing if it is zero; else one message, and what was
  -- withdrawable is not any more.
  abbrev pub Paid : ℕ → Store C × List Msg → Type 0
  Paid reward r =
      (d' : Distribution) × (lookup asset r.0.distribution ≡ some d')
      × (d'.withdrawable_total + reward ≡ d.withdrawable_total)
      × (r.1 ≡ (if reward == 0 then msgs else msgs ++ into_msg asset reward receiver ∷ []))
      × (withdrawable_rewards r.0.config r.0.stake owner d'
            (load_adjustment r.0.withdraw_adjustment owner asset)
          ≡ ok 0)

  -- A round of withdrawing for a stored distribution that succeeds pays the withdrawable
  -- reward, in one message unless it is zero; the distribution's withdrawable total falls by
  -- exactly the reward, and in the storage after it the owner can withdraw nothing more of this
  -- asset.
  pub withdraw_one-pays :
      {r : Store C × List Msg}
      → lookup asset s.distribution ≡ some d
      → withdraw_one owner receiver s msgs asset d ≡ ok r
      → (reward : ℕ) × (withdrawable_rewards s.config s.stake owner d
            (load_adjustment s.withdraw_adjustment owner asset)
          ≡ ok reward)
        × Paid reward r
  unfolding withdraw_one
  withdraw_one-pays {r = r} at e =
      let a = load_adjustment s.withdraw_adjustment owner asset in
      let (reward, er, e1) = >>=-eq-ok (withdrawable_rewards s.config s.stake owner d a) _ e in
      let pays : Paid reward r = elim (if-cases (reward == 0) _ _ e1) [
        | inl (z, f) ↦ subst (Paid reward) (ok-injective f) (
          d,
          at,
          omega (arith, zero_of_test reward z),
          rw z refl,
          er ∙ ap ok (zero_of_test reward z),
        )
        | inr (z, f) ↦
            let (w', ew, f1) = >>=-eq-ok (add128 a.withdrawn_rewards reward) _ f in
            let (left, el, f2) = >>=-eq-ok (sub128 d.withdrawable_total reward) _ f1 in
            let added = add128-eq-ok a.withdrawn_rewards reward ew in
            let taken = sub128-eq-ok d.withdrawable_total reward el in
            let d' = record d { withdrawable_total = left } in
            let a' = record a { withdrawn_rewards = w' } in
            subst (Paid reward) (ok-injective f2) (
              d',
              lookup-insert_self asset d' s.distribution,
              omega (arith, taken.0, taken.1),
              rw z refl,
              ap (withdrawable_rewards s.config s.stake owner d')
                    (load-save_adjustment_self s.withdraw_adjustment owner asset a')
                  ∙ withdrawable_rewards-after s.config s.stake owner d a left w' er added.0,
            )
      ] in
      (reward, er, pays)
