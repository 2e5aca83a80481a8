-- ===== src/Stake/Rewards/Authority.antt =====
-- Who may withdraw rewards, and whose.
use wynddex.Base.{
  ℕ, ◌≡◌, ◌≢◌, sym, ◌∙◌, ap, arith, false, not, List, [], ◌∷◌, Option, ok, >>=-eq-ok, ok-injective,
  fail_if, fail_if-eq-ok, ◌==◌, ◌||◌, unwrap_or, ◌⊎◌, inl, inr, ==_iff,
}
use native.Mathlib.Decide.{ℕ_discrete}
use wynddex.Num.{add128, sub128}
use wynddex.Map.{lookup, nat_key}
use wynddex.Asset.{AssetInfo, asset_key}
use wynddex.Host.{Host}
use wynddex.Stake.State.{Distribution, Msg}
use wynddex.Stake.Store.{Store, MessageInfo, Distributions}
use wynddex.Stake.Rewards.{
  execute_withdraw_rewards, optional_address, withdraw_one, withdraw_each, withdrawable_rewards,
  load_adjustment,
}
use wynddex.Stake.Rewards.Entitlement.{load-save_adjustment_owner}
use wynddex.Stake.Invariant.Kept.{if-ok}

either : (a b c : ℕ) → not (a == c || b == c) ≡ false → (a ≡ c) ⊎ (b ≡ c)
either a b c e = ground (arith, ==_iff a c, ==_iff b c)

module _ {C : Type 0} ⦃h : Host⦄ where
  -- What an account has withdrawn of an asset, and its correction, are as they were.
  Untouched : ℕ → AssetInfo → Store C → Store C → Type 0
  Untouched b asset s s' =
      load_adjustment s'.withdraw_adjustment b asset ≡ load_adjustment s.withdraw_adjustment b asset

  withdraw_one-Untouched :
      (owner receiver b : ℕ) (other : AssetInfo) (s : Store C) (msgs : List Msg) (asset : AssetInfo)
      (d : Distribution) {r : Store C × List Msg}
      → owner ≢ b
      → withdraw_one owner receiver s msgs asset d ≡ ok r
      → Untouched b other s r.0
  unfolding withdraw_one Untouched
  withdraw_one-Untouched owner receiver b other s msgs asset d {r = r} ne e =
      let adjustment = load_adjustment s.withdraw_adjustment owner asset in
      let (reward, _, e1) =
        >>=-eq-ok (withdrawable_rewards s.config s.stake owner d adjustment) _ e in
      if-ok (λ (r : Store C × List Msg). Untouched b other s r.0) (reward == 0) _ _ e1
        (λ done.
          ap (λ (r : Store C × List Msg). load_adjustment r.0.withdraw_adjustment b other)
            (sym (ok-injective done)))
        (λ pay.
          let (withdrawn, _, e2) = >>=-eq-ok (add128 adjustment.withdrawn_rewards reward) _ pay in
          let (left, _, done) = >>=-eq-ok (sub128 d.withdrawable_total reward) _ e2 in
          ap (λ (r : Store C × List Msg). load_adjustment r.0.withdraw_adjustment b other)
            (sym (ok-injective done))
          ∙ load-save_adjustment_owner s.withdraw_adjustment owner b asset other
              (record adjustment { withdrawn_rewards = withdrawn }) ne)

  withdraw_each-Untouched :
      (owner receiver b : ℕ) (other : AssetInfo) (ds : Distributions) (s : Store C)
      (msgs : List Msg) {r : Store C × List Msg}
      → owner ≢ b
      → withdraw_each owner receiver ds s msgs ≡ ok r
      → Untouched b other s r.0
  unfolding withdraw_each Untouched
  withdraw_each-Untouched owner receiver b other [] s msgs ne e =
      ap (λ (r : Store C × List Msg). load_adjustment r.0.withdraw_adjustment b other)
        (sym (ok-injective e))
  withdraw_each-Untouched owner receiver b other ((asset, d) ∷ ds) s msgs ne e =
      let (t, e_t, e1) = >>=-eq-ok (withdraw_one owner receiver s msgs asset d) _ e in
      withdraw_each-Untouched owner receiver b other ds t.0 t.1 ne e1
      ∙ withdraw_one-Untouched owner receiver b other s msgs asset d ne e_t

  -- A withdrawal that is accepted is for one account: the one that the message names, or the sender
  -- where it names none. The sender is that account, or the one to which it has delegated
  -- withdrawals. What any other account `b` has withdrawn of any asset stays.
  pub execute_withdraw_rewards-authorized :
      (info : MessageInfo) (owner receiver : Option ℕ) (b : ℕ) (asset : AssetInfo) (s : Store C)
      {r : Store C × List Msg}
      → execute_withdraw_rewards info owner receiver s ≡ ok r
      → (a : ℕ) × (optional_address owner info.sender ≡ ok a)
        × ((a ≡ info.sender) ⊎ (unwrap_or (lookup a s.delegated) a ≡ info.sender))
        × ((b ≡ a)
            ⊎ (load_adjustment r.0.withdraw_adjustment b asset
                ≡ load_adjustment s.withdraw_adjustment b asset))
  unfolding execute_withdraw_rewards Untouched
  execute_withdraw_rewards-authorized info owner receiver b asset s e =
      let (a, ea, e1) = >>=-eq-ok (optional_address owner info.sender) _ e in
      let (to, _, e2) = >>=-eq-ok (optional_address receiver info.sender) _ e1 in
      let delegated = unwrap_or (lookup a s.delegated) a in
      let (_, allowed, e3) =
        >>=-eq-ok (fail_if (not (a == info.sender || delegated == info.sender)) _) _ e2 in
      (
        a,
        ea,
        either a delegated info.sender (fail_if-eq-ok _ _ allowed),
        elim (ℕ_discrete a b) [
          | yes same ↦ inl (sym same)
          | no ne ↦ inr (withdraw_each-Untouched a to b asset s.distribution s [] ne e3)
        ],
      )
