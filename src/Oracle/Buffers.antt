-- ===== src/Oracle/Buffers.antt =====
-- The buffers of samples: how long they are, what they hold after an update, and the invariant that
-- storing a price keeps.
use wynddex.Base.{
  ℕ, zero, suc, ◌+◌, ◌-◌, ◌*◌, ◌/◌, ◌%◌, ◌≤◌, ◌<◌, ◌≡◌, refl, sym, ◌∙◌, subst, ap, arith, some,
  List, [], ◌∷◌, ◌++◌, map, ok, >>=-eq-ok, ok-injective, if◌then◌else◌, Bool-cases, ltb, inl, inr,
  ◌⊎◌, length, get_elem?,
}
use wynddex.Num.{mul64, sub64, div, add_usize, mul64-eq-ok, sub64-eq-ok, div-eq-ok, add_usize-eq-ok}
use native.Mathlib.Nat.{mul-div_cancel, mod-eq_of_lt}
use wynddex.Host.{Host}
use wynddex.Decimals.{Decimals}
use wynddex.Oracle.{
  Accumulator, Prices, accumulate, samples, sample, slice, fill, take, written, buffer_depth,
}

pub length-take : (xs : List ℕ) (n : ℕ) → n ≤ length xs → length (take xs n) ≡ n
length-take xs zero h = refl
length-take [] (suc n) h = omega arith
length-take (x ∷ xs) (suc n) h = omega (arith, length-take xs n (omega arith))

-- The entries of samples put in front of a list.
module _ (f : ℕ × ℕ → ℕ) (kept : List ℕ) where
  pub length-front : (vs : List (ℕ × ℕ)) → length (map f vs ++ kept) ≡ length vs + length kept
  length-front [] = omega arith
  length-front (v ∷ vs) = omega (arith, length-front vs)

  pub get_elem?-front :
      (vs : List (ℕ × ℕ)) (i : ℕ) {v : ℕ × ℕ}
      → get_elem? vs i ≡ some v
      → get_elem? (map f vs ++ kept) i ≡ some (f v)
  get_elem?-front [] i e = cc
  get_elem?-front (v ∷ vs) zero e = cc
  get_elem?-front (v ∷ vs) (suc i) e = get_elem?-front vs i e

  pub get_elem?-back :
      (vs : List (ℕ × ℕ)) (j : ℕ) → get_elem? (map f vs ++ kept) (length vs + j) ≡ get_elem? kept j
  get_elem?-back [] j = ap (get_elem? kept) (omega arith)
  get_elem?-back (v ∷ vs) j =
      let step : suc (length vs) + j ≡ suc (length vs + j) = omega arith in
      ap (get_elem? (map f (v ∷ vs) ++ kept)) step ∙ get_elem?-back vs j

pub get_elem?-take : (xs : List ℕ) (n j : ℕ) → j < n → get_elem? (take xs n) j ≡ get_elem? xs j
get_elem?-take xs zero j h = ground arith
get_elem?-take [] (suc n) j h = refl
get_elem?-take (x ∷ xs) (suc n) zero h = refl
get_elem?-take (x ∷ xs) (suc n) (suc j) h = get_elem?-take xs n j (omega arith)

count_new :
    (last latest step k since all : ℕ)
    → latest ≡ last + k * step
    → since ≡ latest - last
    → all ≡ since / step
    → 0 < step
    → k < 4294967296
    → all % 4294967296 ≡ k
count_new last latest step k since all eq is_since is_all pos_step small =
    let whole : since ≡ k * step = omega arith in
    let here : all ≡ k = is_all ∙ ap (λ t. t / step) whole ∙ mul-div_cancel k pos_step in
    ap (λ t. t % 4294967296) here ∙ mod-eq_of_lt small

fits :
    (size old new n : ℕ)
    → n ≤ buffer_depth
    → n ≤ new
    → size ≡ old + new
    → n + ((if ltb size buffer_depth then size else buffer_depth) - n) ≤ buffer_depth
fits size old new n le_depth le_new e = ground arith

land_short :
    {n at new last latest : ℕ} (step : ℕ)
    → n ≡ new
    → at ≡ last
    → latest ≡ last + new * step
    → at + n * step ≡ latest
land_short step e0 e1 eq = omega (arith, ap (λ t. t * step) e0)

land_full :
    {n at oldest span latest : ℕ} (step : ℕ)
    → n ≡ buffer_depth
    → at ≡ oldest
    → span ≡ step * buffer_depth
    → oldest ≡ latest - span
    → span ≤ latest
    → at + n * step ≡ latest
land_full step e0 e1 es eo le = omega (arith, ap (λ t. t * step) e0)

module _ {E : Type 0} where
  pub slice-eq-ok :
      (xs : List ℕ) (n : ℕ) {r : List ℕ}
      → slice {E = E} xs n ≡ ok r
      → (r ≡ take xs n) × (n ≤ length xs)
  unfolding slice
  slice-eq-ok xs n e = ground arith

-- What an update of a buffer gives: samples up to the latest checkpoint in front of the first
-- entries of the old buffer.
module _ ⦃h : Host⦄ ⦃d : Decimals⦄ where
  abbrev pub IsFilled : Type 0 → Prices → ℕ → Accumulator → ℕ → ℕ × ℕ → Prices → Type 0
  IsFilled E p rest acc step range q =
      (values : List (ℕ × ℕ)) × (samples {E = E} acc step range.1 range.0 ≡ ok values)
      × (rest ≤ length p.twap_a_per_b)
      × (rest ≤ length p.twap_b_per_a)
      × (q.twap_a_per_b ≡ map (λ v. v.0) values ++ take p.twap_a_per_b rest)
      × (q.twap_b_per_a ≡ map (λ v. v.1) values ++ take p.twap_b_per_a rest)

  -- An update over `k` new checkpoints fills up to the depth of the buffer.
  abbrev pub IsAccumulated : Type 0 → Prices → ℕ → ℕ → Accumulator → ℕ → Prices → Type 0
  IsAccumulated E p k latest acc step q =
      (range : ℕ × ℕ) × (rest : ℕ) × IsFilled E p rest acc step range q
      × (range.1 + range.0 * step ≡ latest)
      × ((range.0 ≡ k) ⊎ (range.0 ≡ buffer_depth))
      × (range.0 + rest ≤ buffer_depth)

module _ {E : Type 0} ⦃h : Host⦄ ⦃d : Decimals⦄ where
  -- One value for each step.
  pub samples-length :
      (acc : Accumulator) (step at steps : ℕ) {vs : List (ℕ × ℕ)}
      → samples {E = E} acc step at steps ≡ ok vs
      → length vs ≡ steps
  unfolding samples
  samples-length acc step at zero e = ap (λ t. length t) (sym (ok-injective e))
  samples-length acc step at (suc steps) e =
      let (v, ev, e1) = >>=-eq-ok (sample acc step at (suc steps)) _ e in
      let (vs, evs, e2) = >>=-eq-ok (samples acc step at steps) _ e1 in
      ap (λ t. length t) (sym (ok-injective e2))
      ∙ ap (λ t. suc t) (samples-length acc step at steps evs)

  pub samples-get_elem? :
      (acc : Accumulator) (step at steps i : ℕ) {vs : List (ℕ × ℕ)}
      → samples {E = E} acc step at steps ≡ ok vs
      → i < steps
      → (v : ℕ × ℕ) × (get_elem? vs i ≡ some v) × (sample {E = E} acc step at (steps - i) ≡ ok v)
  unfolding samples
  samples-get_elem? acc step at zero i e h = ground arith
  samples-get_elem? acc step at (suc steps) zero e h =
      let (v, ev, e1) = >>=-eq-ok (sample acc step at (suc steps)) _ e in
      let (vs, evs, e2) = >>=-eq-ok (samples acc step at steps) _ e1 in
      let whole : suc steps - 0 ≡ suc steps = omega arith in
      (v, ap (λ t. get_elem? t 0) (sym (ok-injective e2)), ap (sample acc step at) whole ∙ ev)
  samples-get_elem? acc step at (suc steps) (suc i) e h =
      let (v, ev, e1) = >>=-eq-ok (sample acc step at (suc steps)) _ e in
      let (vs, evs, e2) = >>=-eq-ok (samples acc step at steps) _ e1 in
      let (w, found, taken) = samples-get_elem? acc step at steps i evs (omega arith) in
      let less : suc steps - suc i ≡ steps - i = omega arith in
      (
        w,
        ap (λ t. get_elem? t (suc i)) (sym (ok-injective e2)) ∙ found,
        ap (sample acc step at) less ∙ taken,
      )

  -- What is written: as many steps as there are new checkpoints, up to the depth of the buffer,
  -- counted from a time that leads to the latest checkpoint.
  written-eq-ok :
      (new last latest step : ℕ) {r : ℕ × ℕ}
      → written {E = E} new last latest step ≡ ok r
      → latest ≡ last + new * step
      → (r.0 ≤ buffer_depth)
        × (r.0 ≤ new)
        × ((r.0 ≡ new) ⊎ (r.0 ≡ buffer_depth))
        × (r.1 + r.0 * step ≡ latest)
  unfolding written
  written-eq-ok new last latest step {r = r} e eq = elim (Bool-cases (ltb new buffer_depth)) [
    | inl t ↦
        let same : r ≡ (new, last) = sym (ok-injective (rw t at e)) in
        let r0 = ap (λ (x : ℕ × ℕ). x.0) same in
        let r1 = ap (λ (x : ℕ × ℕ). x.1) same in
        (ground (arith, t, r0), ground (arith, r0), inl r0, land_short step r0 r1 eq)
    | inr f ↦
        let (span, es, e1) = >>=-eq-ok (mul64 step buffer_depth) _ (rw f at e) in
        let (oldest, eo, e2) = >>=-eq-ok (sub64 latest span) _ e1 in
        let same : r ≡ (buffer_depth, oldest) = sym (ok-injective e2) in
        let r0 = ap (λ (x : ℕ × ℕ). x.0) same in
        let r1 = ap (λ (x : ℕ × ℕ). x.1) same in
        let span_is = mul64-eq-ok {E = E} step buffer_depth es in
        let (oldest_is, le) = sub64-eq-ok {E = E} latest span eo in
        (
          ground (arith, r0),
          ground (arith, r0, f),
          inr r0,
          land_full step r0 r1 span_is oldest_is le,
        )
  ]

  fill-eq-ok :
      (p : Prices) (rest : ℕ) (acc : Accumulator) (step : ℕ) (range : ℕ × ℕ) {q : Prices}
      → fill {E = E} p rest acc step range ≡ ok q
      → IsFilled E p rest acc step range q
  unfolding fill
  fill-eq-ok p rest acc step range {q = q} e =
      let (kept_a, e_a, e1) = >>=-eq-ok (slice p.twap_a_per_b rest) _ e in
      let (kept_b, e_b, e2) = >>=-eq-ok (slice p.twap_b_per_a rest) _ e1 in
      let (values, e_v, e3) = >>=-eq-ok (samples acc step range.1 range.0) _ e2 in
      let (is_a, le_a) = slice-eq-ok {E = E} p.twap_a_per_b rest e_a in
      let (is_b, le_b) = slice-eq-ok {E = E} p.twap_b_per_a rest e_b in
      (
        values,
        e_v,
        le_a,
        le_b,
        ap (λ (r : Prices). r.twap_a_per_b) (sym (ok-injective e3))
            ∙ ap (λ t. map (λ v. v.0) values ++ t) is_a,
        ap (λ (r : Prices). r.twap_b_per_a) (sym (ok-injective e3))
            ∙ ap (λ t. map (λ v. v.1) values ++ t) is_b,
      )

  pub accumulate-eq-ok :
      (p : Prices) (last latest : ℕ) (acc : Accumulator) (step k : ℕ) {q : Prices}
      → accumulate {E = E} p last latest acc step ≡ ok q
      → latest ≡ last + k * step
      → k < 4294967296
      → IsAccumulated E p k latest acc step q
  unfolding accumulate
  accumulate-eq-ok p last latest acc step k {q = q} e eq small =
      let (since, e_since, e1) = >>=-eq-ok (sub64 latest last) _ e in
      let (all, e_all, e2) = >>=-eq-ok (div since step) _ e1 in
      let new = all % 4294967296 in
      let (size, e_size, e3) = >>=-eq-ok (add_usize (length p.twap_a_per_b) new) _ e2 in
      let len = if ltb size buffer_depth then size else buffer_depth in
      let (range, e_range, e4) = >>=-eq-ok (written new last latest step) _ e3 in
      let (is_since, le) = sub64-eq-ok {E = E} latest last e_since in
      let (is_all, pos_step) = div-eq-ok {E = E} since step e_all in
      let counted : new ≡ k =
        count_new last latest step k since all eq is_since is_all pos_step small in
      let (le_depth, le_new, which, lands) =
        written-eq-ok new last latest step e_range
          (subst (λ t. latest ≡ last + t * step) (sym counted) eq) in
      (
        range,
        len - range.0,
        fill-eq-ok p (len - range.0) acc step range e4,
        lands,
        subst (λ t. (range.0 ≡ t) ⊎ (range.0 ≡ buffer_depth)) counted which,
        fits size (length p.twap_a_per_b) new range.0 le_depth le_new
            (add_usize-eq-ok {E = E} _ new e_size),
      )
