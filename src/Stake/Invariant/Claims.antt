-- ===== src/Stake/Invariant/Claims.antt =====
-- The claims that an unbonding files: they are the sender's, and they sum up to the amount.
use wynddex.Base.{
  ℕ, ◌+◌, ◌≡◌, refl, ap, ◌∙◌, subst, arith, Bool, true, false, List, [], ◌∷◌, ok, >>=-eq-ok,
  ok-injective, unwrap, unwrap_or, Option-cases, Bool-cases, inl, inr, if◌then◌else◌, ◌==◌, ==_iff,
}
use wynddex.Num.{add128}
use wynddex.Map.{total, measure, lookup, insert, lookup-insert, total-insert, nat_key}
use wynddex.Host.{Host, Claim, claimed, KeepsClaims}
use wynddex.Stake.State.{Msg, cw20_transfer}
use wynddex.Stake.Store.{Store, Env, MessageInfo}
use wynddex.Stake.Staking.{finish_unbond}

abbrev pub claims_of : {C : Type 0} → Store C → ℕ → List Claim
claims_of s a = unwrap_or (lookup a s.claims) []

-- Saving the claims of one account changes the sum of all claims by the change of the account's.
pub claims-insert :
    {C : Type 0} (s : Store C) (a : ℕ) (cs : List Claim)
    → total claimed (insert a cs s.claims) + claimed (claims_of s a)
      ≡ total claimed s.claims + claimed cs
claims-insert s a cs = elim (Option-cases (lookup a s.claims)) [
  | inl e ↦ omega (
    arith,
    total-insert claimed a cs s.claims,
    ap (measure claimed) e,
    ap (λ o. claimed (unwrap_or o [])) e,
  )
  | inr (old, e) ↦ omega (
    arith,
    total-insert claimed a cs s.claims,
    ap (measure claimed) e,
    ap (λ o. claimed (unwrap_or o [])) e,
  )
]

module _ {C : Type 0} ⦃h : Host⦄ where
  -- The claims of an account after a save for the sender.
  claimed-insert :
      (s : Store C) (sender a amount : ℕ) (cs : List Claim)
      → claimed cs ≡ claimed (claims_of s sender) + amount
      → claimed (unwrap_or (lookup a (insert sender cs s.claims)) [])
        ≡ claimed (claims_of s a) + (if sender == a then amount else 0)
  claimed-insert s sender a amount cs e = elim (Bool-cases (sender == a)) [
    | inl t ↦
        let same = (==_iff sender a).0 t in
        let at_a = ap (λ o. claimed (unwrap_or o [])) (lookup-insert sender a cs s.claims) in
        rw t (at_a ∙ rw t (e ∙ ap (λ x. claimed (claims_of s x) + amount) same))
    | inr f ↦
        let at_a = ap (λ o. claimed (unwrap_or o [])) (lookup-insert sender a cs s.claims) in
        rw f (at_a ∙ rw f (omega arith))
  ]

  -- What the end of an unbonding does to the claims of an account and to the bonds, and what it
  -- sends.
  abbrev pub Settles : Bool → MessageInfo → ℕ → ℕ → Store C → Store C × List Msg → Type 0
  Settles flag info a amount t r =
      (claimed (claims_of r.0 a)
        ≡ claimed (claims_of t a) + (if flag then 0 else (if info.sender == a then amount else 0)))
      × (r.0.stake ≡ t.stake)
      × (r.1 ≡ (if flag then cw20_transfer t.config.cw20_contract info.sender amount ∷ [] else []))

  pub finish_unbond-Settles :
      (flag : Bool) (env : Env) (info : MessageInfo) (a amount period : ℕ) (t : Store C)
      {r : Store C × List Msg}
      → KeepsClaims h
      → finish_unbond flag env info amount period t ≡ ok r
      → Settles flag info a amount t r
  unfolding finish_unbond
  finish_unbond-Settles true env info a amount period t laws e =
      let (n, eu, done) = >>=-eq-ok (add128 t.total_staked.unbonding 0) _ e in
      subst (Settles true info a amount t) (ok-injective done) (omega arith, refl, refl)
  finish_unbond-Settles false env info a amount period t laws e =
      let (n, eu, e2) = >>=-eq-ok (add128 t.total_staked.unbonding amount) _ e in
      let (at, ea, done) = >>=-eq-ok (unwrap (h.plus_seconds env.block_time period)) _ e2 in
      let cs = h.create_claim (claims_of t info.sender) amount at in
      subst (Settles false info a amount t) (ok-injective done) (
        claimed-insert t info.sender a amount cs (laws.creates (claims_of t info.sender) amount at),
        refl,
        refl,
      )
