-- ===== src/Stake/Invariant/Exits.antt =====
-- Unbonding, migrating and claiming keep the invariant, and the stored totals change by exactly the
-- amounts: the saturating subtractions of the code never stop at zero.
use wynddex.Base.{
  ℕ, ◌+◌, ◌-◌, ◌<◌, ◌≡◌, sym, ap, ◌∙◌, subst, arith, Bool, true, false, List, [], ◌∷◌, ok,
  >>=-eq-ok, ok-injective, unwrap, unwrap_or, ok_or, fail_if, fail_if-eq-ok, if◌then◌else◌, ◌==◌,
}
use wynddex.Num.{add128, add128-eq-ok}
use wynddex.Map.{Map, total, lookup, insert, nat_key}
use wynddex.Host.{Host, Claim, claimed, KeepsClaims}
use wynddex.Stake.State.{Config, Msg, cw20_transfer}
use wynddex.Stake.Bonding.{bonded}
use wynddex.Stake.Power.{load_stake}
use wynddex.Stake.Power.Loads.{load-save_stake_self}
use wynddex.Stake.Store.{Store, Env, MessageInfo}
use wynddex.Stake.Staking.{
  remove_stake_without_total, finish_unbond, execute_unbond, execute_migrate_stake,
}
use wynddex.Stake.Transfers.{execute_claim}
use wynddex.Stake.Staking.Bond.{
  remove_stake_without_total-Change, Change-TracksAll, Change-staked_total, staked_total,
}
use wynddex.Stake.Invariant.{IsConsistent}
use wynddex.Stake.Invariant.Claims.{claims_of, claims-insert, finish_unbond-Settles}

-- What the removal of stake leaves alone, and by how much the totals fall.
record Removed {C : Type 0} (s s' : Store C) (amount : ℕ) : Type 0 where
  same_config : s'.config ≡ s.config
  same_distribution : s'.distribution ≡ s.distribution
  same_total : s'.total_staked ≡ s.total_staked
  same_claims : s'.claims ≡ s.claims
  consistent : IsConsistent s'
  fallen : staked_total s'.total_per_period + amount ≡ staked_total s.total_per_period

module _ {C : Type 0} ⦃h : Host⦄ where
  remove_stake-Removed :
      (s : Store C) (now staker period amount : ℕ) {s' : Store C}
      → IsConsistent s
      → remove_stake_without_total s now staker period amount ≡ ok s'
      → Removed s s' amount
  remove_stake-Removed s now staker period amount {s' = s'} v e =
      let (b, c, size, free) =
        remove_stake_without_total-Change s now staker period amount v.distinct e in
      let same_total = ap (λ x. x.total_staked) c.result in
      let fallen : staked_total s'.total_per_period + amount ≡ staked_total s.total_per_period =
        omega (arith, Change-staked_total c, size) in
      record {
        same_config = ap (λ x. x.config) c.result;
        same_distribution = ap (λ x. x.distribution) c.result;
        same_total = same_total;
        same_claims = ap (λ x. x.claims) c.result;
        consistent = record {
          positive = rw (ap (λ x. x.config) c.result) v.positive;
          distinct = rw (ap (λ x. x.distribution) c.result) v.distinct;
          tracks = Change-TracksAll c v.positive v.tracks;
          covered = omega (arith, fallen, v.covered, ap (λ x. x.staked) same_total);
          backed =
              ap (λ x. total claimed x.claims) c.result
              ∙ v.backed
              ∙ sym (ap (λ x. x.unbonding) same_total);
        };
        fallen = fallen;
      }

  -- What an exit promises: the invariant, and the totals before and after.
  abbrev pub Exits : Store C → Store C → ℕ → ℕ → Type 0
  Exits s t amount unbonding =
      IsConsistent t
      × (t.total_staked.staked + amount ≡ s.total_staked.staked)
      × (t.total_staked.unbonding ≡ s.total_staked.unbonding + unbonding)

  -- The storage once the stored totals are written, with the claims that they count.
  Removed-Exits :
      (s t : Store C) (amount unbonding n : ℕ) (cs : Map ℕ (List Claim))
      → IsConsistent s
      → Removed s t amount
      → total claimed cs ≡ n
      → n ≡ s.total_staked.unbonding + unbonding
      → Exits s
          (record t {
            claims = cs;
            total_staked = record { staked = t.total_staked.staked - amount; unbonding = n };
          })
          amount
          unbonding
  Removed-Exits s t amount unbonding n cs v c counted grown =
      let k = c.consistent in
      let staked_eq = ap (λ x. x.staked) c.same_total in
      (
        record {
          positive = k.positive;
          distinct = k.distinct;
          tracks = k.tracks;
          covered = omega (arith, c.fallen, v.covered, staked_eq);
          backed = counted;
        },
        omega (arith, c.fallen, v.covered, staked_eq),
        grown,
      )

  -- A migration of stake that is accepted in a consistent storage keeps the invariant; the
  -- staked total falls by exactly the amount, and the unbonding total stays.
  pub execute_migrate_stake-IsConsistent :
      (env : Env) (info : MessageInfo) (amount period : ℕ) (s : Store C) {r : Store C × List Msg}
      → IsConsistent s
      → execute_migrate_stake env info amount period s ≡ ok r
      → Exits s r.0 amount 0
  unfolding execute_migrate_stake
  execute_migrate_stake-IsConsistent env info amount period s v e =
      let (conv, ec, e1) = >>=-eq-ok (ok_or s.config.converter _) _ e in
      let (t, et, done) =
        >>=-eq-ok (remove_stake_without_total s env.block_time info.sender period amount) _ e1 in
      let c = remove_stake-Removed s env.block_time info.sender period amount v et in
      subst (λ r. Exits s r.0 amount 0) (ok-injective done)
        (Removed-Exits s t amount 0 t.total_staked.unbonding t.claims v c c.consistent.backed
          (omega (arith, ap (λ x. x.unbonding) c.same_total)))

  finish_unbond-Exits :
      (flag : Bool) (env : Env) (info : MessageInfo) (amount period : ℕ) (s t : Store C)
      {r : Store C × List Msg}
      → KeepsClaims h
      → IsConsistent s
      → Removed s t amount
      → finish_unbond flag env info amount period t ≡ ok r
      → Exits s r.0 amount (if flag then 0 else amount)
  unfolding finish_unbond
  finish_unbond-Exits true env info amount period s t laws v c e =
      let (n, eu, done) = >>=-eq-ok (add128 t.total_staked.unbonding 0) _ e in
      let added = add128-eq-ok t.total_staked.unbonding 0 eu in
      let unbonding_eq = ap (λ x. x.unbonding) c.same_total in
      subst (λ r. Exits s r.0 amount 0) (ok-injective done)
        (Removed-Exits s t amount 0 n t.claims v c (omega (arith, c.consistent.backed, added.0))
          (omega (arith, added.0, unbonding_eq)))
  finish_unbond-Exits false env info amount period s t laws v c e =
      let (n, eu, e2) = >>=-eq-ok (add128 t.total_staked.unbonding amount) _ e in
      let added = add128-eq-ok t.total_staked.unbonding amount eu in
      let unbonding_eq = ap (λ x. x.unbonding) c.same_total in
      let (at, ea, done) = >>=-eq-ok (unwrap (h.plus_seconds env.block_time period)) _ e2 in
      let cs = h.create_claim (claims_of t info.sender) amount at in
      let counted : total claimed (insert info.sender cs t.claims) ≡ n = omega (
        arith,
        claims-insert t info.sender cs,
        laws.creates (claims_of t info.sender) amount at,
        c.consistent.backed,
        added.0,
      ) in
      subst (λ r. Exits s r.0 amount amount) (ok-injective done)
        (Removed-Exits s t amount amount n (insert info.sender cs t.claims) v c counted
          (omega (arith, added.0, unbonding_eq)))

  -- What an unbonding leaves of the bond of its period is less by the amount.
  remove_stake-bonded :
      (s : Store C) (now staker period amount : ℕ) {s' : Store C}
      → IsConsistent s
      → remove_stake_without_total s now staker period amount ≡ ok s'
      → bonded (load_stake s'.stake staker period) + amount
        ≡ bonded (load_stake s.stake staker period)
  remove_stake-bonded s now staker period amount v e =
      let (b, c, size, free) =
        remove_stake_without_total-Change s now staker period amount v.distinct e in
      let left =
        ap (λ (x : Store C). bonded (load_stake x.stake staker period)) c.result
        ∙ ap bonded (load-save_stake_self s.stake staker period b) in
      omega (arith, left, size)

  -- An unbonding that is accepted keeps the invariant of the storage, if the claims library
  -- counts the claims right. The sender's bond in the period and the staked total fall by exactly
  -- the amount. Unless the emergency flag is set, the unbonding total and the sender's claims grow
  -- by it and nothing is sent; if it is set, both stay, and the amount is sent to the sender in one
  -- message. The claims of any other account sum up to what they did.
  pub execute_unbond-IsConsistent :
      (env : Env) (info : MessageInfo) (a amount period : ℕ) (s : Store C) {r : Store C × List Msg}
      → KeepsClaims h
      → IsConsistent s
      → execute_unbond env info amount period s ≡ ok r
      → Exits s r.0 amount (if s.unbond_all then 0 else amount)
        × (bonded (load_stake r.0.stake info.sender period) + amount
            ≡ bonded (load_stake s.stake info.sender period))
        × (claimed (claims_of r.0 a)
            ≡ claimed (claims_of s a)
              + (if s.unbond_all then 0 else (if info.sender == a then amount else 0)))
        × (r.1 ≡ (
            if s.unbond_all
            then cw20_transfer s.config.cw20_contract info.sender amount ∷ []
            else []))
  unfolding execute_unbond
  execute_unbond-IsConsistent env info a amount period s laws v e =
      let (t, et, e1) =
        >>=-eq-ok (remove_stake_without_total s env.block_time info.sender period amount) _ e in
      let c = remove_stake-Removed s env.block_time info.sender period amount v et in
      let left = remove_stake-bonded s env.block_time info.sender period amount v et in
      let (claims, stakes, msgs) =
        finish_unbond-Settles s.unbond_all env info a amount period t laws e1 in
      (
        finish_unbond-Exits s.unbond_all env info amount period s t laws v c e1,
        rw stakes left,
        claims
            ∙ ap
                (λ (m : Map ℕ (List Claim)).
                  claimed (unwrap_or (lookup a m) [])
                  + (if s.unbond_all then 0 else (if info.sender == a then amount else 0)))
                c.same_claims,
        msgs
            ∙ ap
                (λ (x : Config).
                  if s.unbond_all
                  then cw20_transfer x.cw20_contract info.sender amount ∷ []
                  else [])
                c.same_config,
      )

  -- A claim that is accepted in a consistent storage keeps the invariant, if the claims library
  -- counts the claims right: what is released is not zero, leaves the unbonding total, exactly,
  -- and is sent to the claimer in one message.
  pub execute_claim-IsConsistent :
      (env : Env) (info : MessageInfo) (s : Store C) {r : Store C × List Msg}
      → KeepsClaims h
      → IsConsistent s
      → execute_claim env info s ≡ ok r
      → (released : ℕ) × IsConsistent r.0
        × (r.0.total_staked.unbonding + released ≡ s.total_staked.unbonding)
        × (0 < released)
        × (r.1 ≡ cw20_transfer s.config.cw20_contract info.sender released ∷ [])
  unfolding execute_claim
  execute_claim-IsConsistent env info s {r = r} laws v e =
      let released = (h.claim_tokens (claims_of s info.sender) env.block_time).0 in
      let left = (h.claim_tokens (claims_of s info.sender) env.block_time).1 in
      let (_, some_released, done) = >>=-eq-ok (fail_if (released == 0) _) _ e in
      let result = sym (ok-injective done) in
      let law = laws.releases (claims_of s info.sender) env.block_time in
      let inserted = claims-insert s info.sender left in
      let nonzero = fail_if-eq-ok (released == 0) _ some_released in
      (
        released,
        subst (λ r. IsConsistent r.0) (ok-injective done)
            (record {
              positive = v.positive;
              distinct = v.distinct;
              tracks = v.tracks;
              covered = v.covered;
              backed = omega (arith, inserted, law, v.backed);
            }),
        omega (arith, ap (λ r. r.0.total_staked.unbonding) result, inserted, law, v.backed),
        ground (arith, nonzero),
        ap (λ r. r.1) result,
      )
