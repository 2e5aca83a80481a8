-- ===== src/Oracle/History.antt =====
-- The buffers as records of the past: an entry is what the accumulator was at its checkpoint.
use wynddex.Base.{
  refl, ℕ, zero, suc, ◌+◌, ◌-◌, ◌*◌, ◌≤◌, ◌<◌, ◌≡◌, sym, ◌∙◌, subst, ap, arith, some, List, [], ◌∷◌,
  ◌++◌, map, ok, >>=-eq-ok, unwrap, unwrap-eq-ok, some-injective, inl, inr, ◌⊎◌, length, get_elem?,
}
use wynddex.Num.{mul64, add64, sub64, mul64-eq-ok, add64-eq-ok, sub64-eq-ok}
use wynddex.Host.{Host, KeepsTime}
use wynddex.Decimals.{Decimals}
use wynddex.Oracle.{
  Accumulator, Prices, accumulate, advance, samples, sample, take, diff_nanos, buffer_depth,
}
use wynddex.Oracle.Buffers.{
  accumulate-eq-ok, samples-get_elem?, samples-length, get_elem?-front, get_elem?-back,
}

-- Each entry is the value of `past` at its checkpoint, counted back from the time of the buffer.
abbrev pub Records : (ℕ → ℕ) → List ℕ → ℕ → ℕ → Type 0
Records past [] time step = Unit
Records past (x ∷ xs) time step = (x ≡ past time) × Records past xs (time - step) step

-- The same, by index.
abbrev RecordsAt : (ℕ → ℕ) → List ℕ → ℕ → ℕ → Type 0
RecordsAt past xs time step = (i x : ℕ) → get_elem? xs i ≡ some x → x ≡ past (time - i * step)

count_on : (time i step : ℕ) → time - step - i * step ≡ time - suc i * step
count_on time i step = omega arith

by_index :
    (past : ℕ → ℕ) (xs : List ℕ) (time step : ℕ)
    → Records past xs time step
    → RecordsAt past xs time step
by_index past [] time step r i x e = cc e
by_index past (y ∷ xs) time step (here, rest) zero x e =
    sym (some-injective e) ∙ here ∙ ap past (omega arith)
by_index past (y ∷ xs) time step (here, rest) (suc i) x e =
    by_index past xs (time - step) step rest i x e ∙ ap past (count_on time i step)

all_indices :
    (past : ℕ → ℕ) (xs : List ℕ) (time step : ℕ)
    → RecordsAt past xs time step
    → Records past xs time step
all_indices past [] time step r = tt
all_indices past (y ∷ xs) time step r = (
  r 0 y refl ∙ ap past (omega arith),
  all_indices past xs (time - step) step
      (λ i x e. r (suc i) x e ∙ ap past (sym (count_on time i step))),
)

module _ ⦃d : Decimals⦄ where
  -- What the accumulator is extended to at later seconds is the given past.
  abbrev pub Extends : Type 0 → Accumulator → (ℕ × ℕ → ℕ) → (ℕ → ℕ) → Type 0
  Extends E acc side past =
      (t : ℕ) (v : ℕ × ℕ)
      → acc.snapshot ≤ t * 1000000000
      → advance {E = E} acc (t * 1000000000 - acc.snapshot) ≡ ok v
      → side v ≡ past t

-- An index is one of the first `n` or some places after them.
split : (i n : ℕ) → (i < n) ⊎ ((j : ℕ) × (i ≡ n + j))
split i zero = inr (i, omega arith)
split zero (suc n) = inl (omega arith)
split (suc i) (suc n) = elim (split i n) [
  | inl lt ↦ inl (omega arith)
  | inr (j, e) ↦ inr (j, omega arith)
]

-- Counting back from the end of a range is counting on from its start.
count_back :
    (at n i step latest : ℕ)
    → i < n
    → at + n * step ≡ latest
    → at + (n - i) * step ≡ latest - i * step
count_back at n i step latest lt e =
    let parts : (n - i) + i ≡ n = omega arith in omega (arith, ap (λ t. t * step) parts)

count_kept :
    (last k j step latest : ℕ)
    → latest ≡ last + k * step
    → last - j * step ≡ latest - (k + j) * step
count_kept last k j step latest e = omega arith

get_elem?-take-some :
    (xs : List ℕ) (n j : ℕ) {x : ℕ}
    → get_elem? (take xs n) j ≡ some x
    → (get_elem? xs j ≡ some x) × (j < n)
get_elem?-take-some xs zero j e = cc
get_elem?-take-some [] (suc n) j e = cc
get_elem?-take-some (x ∷ xs) (suc n) zero e = (e, omega arith)
get_elem?-take-some (x ∷ xs) (suc n) (suc j) e =
    let (found, lt) = get_elem?-take-some xs n j e in (found, omega arith)

module _ {E : Type 0} ⦃h : Host⦄ ⦃d : Decimals⦄ where
  sample-eq-ok :
      (acc : Accumulator) (step at steps : ℕ) {v : ℕ × ℕ}
      → KeepsTime h
      → sample {E = E} acc step at steps ≡ ok v
      → (acc.snapshot ≤ (at + steps * step) * 1000000000)
        × (advance {E = E} acc ((at + steps * step) * 1000000000 - acc.snapshot) ≡ ok v)
  unfolding sample diff_nanos
  sample-eq-ok acc step at steps {v = v} k e =
      let (offset, e_o, e1) = >>=-eq-ok (mul64 steps step) _ e in
      let (seconds, e_s, e2) = >>=-eq-ok (add64 at offset) _ e1 in
      let (time, e_t, e3) = >>=-eq-ok (unwrap (h.from_seconds seconds)) _ e2 in
      let (elapsed, e_e, e4) = >>=-eq-ok (sub64 time acc.snapshot) _ e3 in
      let is_time = k.from_seconds_only seconds (unwrap-eq-ok {E = E} _ e_t) in
      let (is_elapsed, le) = sub64-eq-ok {E = E} time acc.snapshot e_e in
      let is_offset = mul64-eq-ok {E = E} steps step e_o in
      let is_seconds = add64-eq-ok {E = E} at offset e_s in
      let same : elapsed ≡ (at + steps * step) * 1000000000 - acc.snapshot = omega arith in
      (omega arith, subst (λ t. advance {E = E} acc t ≡ ok v) same e4)

  filled_records :
      (side : ℕ × ℕ → ℕ) (past : ℕ → ℕ) (xs : List ℕ) (values : List (ℕ × ℕ)) (acc : Accumulator)
      (step last latest k rest : ℕ) (range : ℕ × ℕ)
      → KeepsTime h
      → Extends E acc side past
      → RecordsAt past xs last step
      → samples {E = E} acc step range.1 range.0 ≡ ok values
      → latest ≡ last + k * step
      → range.1 + range.0 * step ≡ latest
      → (range.0 ≡ k) ⊎ (range.0 ≡ buffer_depth)
      → range.0 + rest ≤ buffer_depth
      → RecordsAt past (map side values ++ take xs rest) latest step
  filled_records side past xs values acc step last latest k rest range time ext old es eq lands
        which le i x found =
      elim (split i range.0) [
        | inl lt ↦
            let (v, at_i, sampled) = samples-get_elem? acc step range.1 range.0 i es lt in
            let (later, advanced) = sample-eq-ok acc step range.1 (range.0 - i) time sampled in
            let here = get_elem?-front side (take xs rest) values i at_i in
            let value : x ≡ side v = some-injective (sym found ∙ here) in
            value
            ∙ ext _ v later advanced
            ∙ ap past (count_back range.1 range.0 i step latest lt lands)
        | inr (j, is_j) ↦
            let place : i ≡ length values + j =
              is_j ∙ ap (λ t. t + j) (sym (samples-length acc step range.1 range.0 es)) in
            let in_kept =
              sym (get_elem?-back side (take xs rest) values j)
              ∙ ap (get_elem? (map side values ++ take xs rest)) (sym place)
              ∙ found in
            let (in_old, lt) = get_elem?-take-some xs rest j in_kept in
            elim which [
              | inl is_k ↦
                  let back : last - j * step ≡ latest - i * step =
                    count_kept last k j step latest eq
                    ∙ ap (λ t. latest - t * step) (sym (is_j ∙ ap (λ t. t + j) is_k)) in
                  old j x in_old ∙ ap past back
              | inr full ↦ omega arith
            ]
      ]

  -- An update of a buffer over less than 2^32 new checkpoints keeps it a record of the past, on both
  -- sides, where the accumulator extends to that past, whatever the number of checkpoints: what is
  -- sampled and what is moved are the values at the checkpoints counted back from the latest one.
  pub accumulate-Records :
      (p : Prices) (last latest : ℕ) (acc : Accumulator) (step k : ℕ) {q : Prices}
      (past_a past_b : ℕ → ℕ)
      → KeepsTime h
      → latest ≡ last + k * step
      → k < 4294967296
      → ((t : ℕ) (v : ℕ × ℕ)
          → acc.snapshot ≤ t * 1000000000
          → advance {E = E} acc (t * 1000000000 - acc.snapshot) ≡ ok v
          → (v.0 ≡ past_a t) × (v.1 ≡ past_b t))
      → Records past_a p.twap_a_per_b last step
      → Records past_b p.twap_b_per_a last step
      → accumulate {E = E} p last latest acc step ≡ ok q
      → Records past_a q.twap_a_per_b latest step × Records past_b q.twap_b_per_a latest step
  accumulate-Records p last latest acc step k {q = q} past_a past_b time eq small ext old_a old_b
        e =
      let (range, rest, filled, lands, which, le) =
        accumulate-eq-ok p last latest acc step k e eq small in
      let (values, es, le_a, le_b, is_a, is_b) = filled in
      let new_a =
        filled_records (λ v. v.0) past_a p.twap_a_per_b values acc step last latest k rest range
          time (λ t v le e. (ext t v le e).0) (by_index past_a p.twap_a_per_b last step old_a) es eq
          lands which le in
      let new_b =
        filled_records (λ v. v.1) past_b p.twap_b_per_a values acc step last latest k rest range
          time (λ t v le e. (ext t v le e).1) (by_index past_b p.twap_b_per_a last step old_b) es eq
          lands which le in
      (
        subst (λ t. Records past_a t latest step) (sym is_a)
            (all_indices past_a _ latest step new_a),
        subst (λ t. Records past_b t latest step) (sym is_b)
            (all_indices past_b _ latest step new_b),
      )
