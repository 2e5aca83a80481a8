-- ===== src/Oracle/Checkpoints.antt =====
-- The times of the buffers: `calc_checkpoint` gives the last whole step before the present.
use wynddex.Base.{
  ℕ, ◌+◌, ◌-◌, ◌*◌, ◌/◌, lt→ltb, ◌≤◌, ◌<◌, ◌≡◌, refl, sym, ◌∙◌, subst, ap, arith, Option, none,
  some, Result, ok, ◌>>=◌, >>=-eq-ok, ok-injective, ◌==◌, Bool-cases, ==_iff, ne_of_test, inl, inr,
}
use native.Mathlib.Nat.{div-mul-le_self}
use wynddex.Num.{
  u64_limit, div, add64, sub64, mul64, div-eq-ok, sub64-eq-ok, mul64-eq-ok, add64-eq-ok,
}
use wynddex.Host.{Host, KeepsTime}
use wynddex.Decimals.Rounding.{div_bounds}
use wynddex.Oracle.{calc_checkpoint}

module _ ⦃h : Host⦄ where
  -- A buffer's time is at most one step behind the present.
  abbrev pub IsCurrent : ℕ → ℕ → ℕ → Type 0
  IsCurrent now time step = (time ≤ h.seconds now) × (h.seconds now < time + step)

  -- What `calc_checkpoint` answers at a time that is `steps` whole steps and a rest later.
  abbrev pub IsCheckpoint : ℕ → ℕ → ℕ → Option ℕ → Type 0
  IsCheckpoint last now step none = IsCurrent now last step
  IsCheckpoint last now step (some c) =
      IsCurrent now c step × ((k : ℕ) × (c ≡ last + k * step) × (0 < k))

  steps_cases :
      (last now step since k : ℕ)
      → since ≡ h.seconds now - last
      → last ≤ h.seconds now
      → k * step ≤ since
      → since < k * step + step
      → IsCurrent now (last + k * step) step
  steps_cases last now step since k e le lo hi = (omega arith, omega arith)

  stay :
      (last now step steps : ℕ)
      → steps ≡ 0
      → IsCurrent now (last + steps * step) step
      → IsCurrent now last step
  stay last now step steps z (lo, hi) =
      let gone : steps * step ≡ 0 = ground (arith, ap (λ t. t * step) z) in
      (omega (arith, gone), omega (arith, gone))

module _ ⦃h : Host⦄ where
  last_step_fits :
      (now last since step : ℕ)
      → KeepsTime h
      → now < u64_limit
      → 0 < step
      → since ≡ h.seconds now - last
      → last ≤ h.seconds now
      → last + since / step * step < u64_limit
  last_step_fits now last since step time small pos_step e le =
      let whole = time.whole_seconds now in
      let below = div-mul-le_self now 1000000000 in
      let part = div-mul-le_self since step in omega arith

module _ {E : Type 0} ⦃h : Host⦄ where
  moved_ok :
      (last steps step : ℕ) {r : Option ℕ}
      → ◌≡◌ {A = Result E (Option ℕ)}
          (mul64 steps step >>= λ span. add64 last span >>= λ c. ok (some c))
          (ok r)
      → r ≡ some (last + steps * step)
  moved_ok last steps step e =
      let (span, es, e1) = >>=-eq-ok (mul64 steps step) _ e in
      let (c, ec, e2) = >>=-eq-ok (add64 last span) _ e1 in
      let eq : c ≡ last + steps * step =
        ground (arith, mul64-eq-ok {E = E} steps step es, add64-eq-ok {E = E} last span ec) in
      sym (ok-injective e2) ∙ ap (λ t. some t) eq

  -- Where it answers, the checkpoint is the stored time moved by a whole number of steps, at least
  -- one, to at most one step behind the present; no checkpoint is given exactly where the stored
  -- time is that already.
  pub calc_checkpoint_lem :
      (last now step : ℕ) {c : Option ℕ}
      → calc_checkpoint {E = E} last now step ≡ ok c
      → IsCheckpoint last now step c
  unfolding calc_checkpoint
  calc_checkpoint_lem last now step {c = c} e =
      let (since, e_since, e1) = >>=-eq-ok (sub64 (h.seconds now) last) _ e in
      let (steps, e_steps, e2) = >>=-eq-ok (div since step) _ e1 in
      let (same, le) = sub64-eq-ok {E = E} (h.seconds now) last e_since in
      let (quotient, pos_step) = div-eq-ok {E = E} since step e_steps in
      let (lo, hi) = div_bounds since step pos_step quotient in
      let current = steps_cases last now step since steps same le lo hi in
      elim (Bool-cases (steps == 0)) [
        | inl t ↦
            let here : c ≡ none = sym (ok-injective (rw t at e2)) in
            subst (IsCheckpoint last now step) (sym here)
              (stay last now step steps ((==_iff steps 0).0 t) current)
        | inr f ↦
            let there = moved_ok last steps step (rw f at e2) in
            subst (IsCheckpoint last now step) (sym there)
              (current, (steps, refl, ground (arith, ne_of_test steps 0 f)))
      ]

  sub64-ok : (b a : ℕ) → b ≤ a → sub64 {E = E} a b ≡ ok (a - b)
  unfolding sub64
  sub64-ok b a le = ground arith

  div-ok : (a b : ℕ) → 0 < b → div {E = E} a b ≡ ok (a / b)
  unfolding div
  div-ok a b pos_b = ground arith

  answer_moved :
      (last steps step : ℕ)
      → last + steps * step < u64_limit
      → ◌≡◌ {A = Result E (Option ℕ)}
          (mul64 steps step >>= λ span. add64 last span >>= λ c. ok (some c))
          (ok (some (last + steps * step)))
  unfolding mul64 add64
  answer_moved last steps step small =
      let span_fits = lt→ltb (steps * step) u64_limit (omega arith) in
      let sum_fits = lt→ltb (last + steps * step) u64_limit small in rw span_fits (rw sum_fits refl)

  -- At a time that fits `u64` nanoseconds and is not before the stored one, `calc_checkpoint` answers,
  -- for every positive step: none of its operations panics.
  pub calc_checkpoint-total :
      (last now step : ℕ)
      → KeepsTime h
      → now < u64_limit
      → 0 < step
      → last ≤ h.seconds now
      → (c : Option ℕ) × (calc_checkpoint {E = E} last now step ≡ ok c)
        × IsCheckpoint last now step c
  unfolding calc_checkpoint
  calc_checkpoint-total last now step time small pos_step le =
      let since = h.seconds now - last in
      let e_since = sub64-ok last (h.seconds now) le in
      let e_steps = div-ok since step pos_step in
      let fits = last_step_fits now last since step time small pos_step refl le in
      elim (Bool-cases (since / step == 0)) [
        | inl t ↦
            let answers : calc_checkpoint {E = E} last now step ≡ ok none =
              rw e_since (rw e_steps (rw t refl)) in
            (none, answers, calc_checkpoint_lem last now step answers)
        | inr f ↦
            let answers : calc_checkpoint {E = E} last now step
                ≡ ok (some (last + since / step * step)) =
              rw e_since (rw e_steps (rw f (answer_moved last (since / step) step fits))) in
            (some _, answers, calc_checkpoint_lem last now step answers)
      ]
