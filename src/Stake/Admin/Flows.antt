-- ===== src/Stake/Admin/Flows.antt =====
-- A new flow of rewards: it is new, it fits in the limit, and it never distributes the staked token.
use wynddex.Base.{
  ℕ, suc, ◌≤◌, ◌≡◌, ◌≢◌, refl, subst, arith, Bool, true, false, not, List, [], ◌∷◌, length, none,
  some, ok, >>=-eq-ok, ok-injective, fail_if, fail_if-eq-ok, ok_or-eq-ok, leb,
}
use wynddex.Map.{lookup, length-insert, lookup-insert_self}
use wynddex.Asset.{AssetInfo, token, native, asset_key, validate}
use wynddex.Host.{Host, Curves}
use wynddex.Stake.State.{Msg}
use wynddex.Stake.Store.{Store, MessageInfo, Distributions, std_or_fail}
use wynddex.Stake.Admin.{
  execute_create_distribution_flow, contains_key, is_staked_token, same_periods, any_decrease,
  new_distribution,
}

contains_key-lookup :
    (ds : Distributions) (asset : AssetInfo)
    → contains_key ds asset ≡ false
    → lookup asset ds ≡ none
unfolding contains_key
contains_key-lookup [] asset e = refl
contains_key-lookup ((a, d) ∷ ds) asset e = ground (arith, contains_key-lookup ds asset)

not_staked :
    (asset : AssetInfo) (cw20 : ℕ) → is_staked_token asset cw20 ≡ false → asset ≢ token cw20
unfolding is_staked_token
not_staked (token a) cw20 e same = ground (arith, e, same)
not_staked (native a) cw20 e same = ground (arith, same)

true_of_not : {b : Bool} → not b ≡ false → b ≡ true
true_of_not {b = true} e = refl
true_of_not {b = false} e = ground (arith, e)

room_for_one : {n m limit : ℕ} → m ≡ suc n → leb limit n ≡ false → m ≤ limit
room_for_one e h = ground arith

module _ {C : Type 0} ⦃h : Host⦄ ⦃curves : Curves C⦄ where
  abbrev pub Flow : Store C → AssetInfo → ℕ → List (ℕ × ℕ) → Store C × List Msg → Type 0
  Flow s asset manager rewards r =
      (lookup asset s.distribution ≡ none)
      × (lookup asset r.0.distribution ≡ some (new_distribution manager rewards))
      × (length r.0.distribution ≡ suc (length s.distribution))
      × (length r.0.distribution ≤ s.config.max_distributions)
      × (asset ≢ token s.config.cw20_contract)
      × (same_periods rewards s.config.unbonding_periods ≡ true)

  -- An accepted flow is for a valid asset that had none and that is not the staked token; it starts
  -- with no shares and nothing to withdraw, its rewards name the contract's periods, and the number
  -- of distributions grows by one and stays in the configured limit.
  pub execute_create_distribution_flow-limit :
      (info : MessageInfo) (manager : ℕ) (asset : AssetInfo) (rewards : List (ℕ × ℕ)) (s : Store C)
      {r : Store C × List Msg}
      → execute_create_distribution_flow info manager asset rewards s ≡ ok r
      → (a : AssetInfo) × (validate asset ≡ some a)
        × (m : ℕ) × (h.addr_validate manager ≡ some m)
        × (h.is_admin s.admin info.sender ≡ true)
        × Flow s a m rewards r
  unfolding execute_create_distribution_flow
  execute_create_distribution_flow-limit info manager asset rewards s {r = r} e =
      let (_, is_admin, e1) = >>=-eq-ok (fail_if (not (h.is_admin s.admin info.sender)) _) _ e in
      let (a, ea, e2) = >>=-eq-ok (std_or_fail (validate asset)) _ e1 in
      let (m, em, e3) = >>=-eq-ok (std_or_fail (h.addr_validate manager)) _ e2 in
      let (_, other, e4) = >>=-eq-ok (fail_if (is_staked_token a s.config.cw20_contract) _) _ e3 in
      let (_, same, e5) =
        >>=-eq-ok (fail_if (not (same_periods rewards s.config.unbonding_periods)) _) _ e4 in
      let (_, _, e6) = >>=-eq-ok (fail_if (any_decrease rewards) _) _ e5 in
      let full = leb s.config.max_distributions (length s.distribution) in
      let (_, room, e7) = >>=-eq-ok (fail_if full _) _ e6 in
      let (_, fresh, e8) = >>=-eq-ok (fail_if (contains_key s.distribution a) _) _ e7 in
      let new = contains_key-lookup s.distribution a (fail_if-eq-ok _ _ fresh) in
      let d = new_distribution m rewards in
      let counted = length-insert a d s.distribution new in
      (
        a,
        ok_or-eq-ok (validate asset) _ ea,
        m,
        ok_or-eq-ok (h.addr_validate manager) _ em,
        true_of_not (fail_if-eq-ok _ _ is_admin),
        subst (Flow s a m rewards) (ok-injective e8) (
          new,
          lookup-insert_self a d s.distribution,
          counted,
          room_for_one counted (fail_if-eq-ok _ _ room),
          not_staked a s.config.cw20_contract (fail_if-eq-ok _ _ other),
          true_of_not (fail_if-eq-ok _ _ same),
        ),
      )
