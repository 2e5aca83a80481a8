-- ===== src/Stake/Bonding/Locking.antt =====
-- Locking tokens: the entry is put by a binary search on pairs of a time and an amount. An equal
-- pair is merged, after which the list need not be sorted by pairs; it stays sorted by time.
use Prim.Native.Nat.{Ordering}
use wynddex.Base.{
  ℕ, ◌+◌, ◌≤◌, ◌≡◌, refl, ap, arith, true, List, leb, some, ok, get_elem?, set, insert_at, sum_by,
  sum_by-set, sum_by-insert_at, inl, inr, subst, ok-injective, >>=-eq-ok, unwrap,
}
use wynddex.Num.{add128}
use wynddex.Search.{
  Position-cases, not_found, binary_search_by, binary_search_by_sides, binary_search_by-found,
  IsSortedBy, probe_at,
}
use wynddex.Search.Sorted.{
  probe_at_inside, probe_at_lt-inside, get_elem?-lt-length, IsSortedBy-get_elem?,
  IsSortedBy-insert_at, IsSortedBy-set,
}
use wynddex.Stake.State.{BondingInfo}
use wynddex.Stake.Bonding.{compare_entry, add_locked_tokens, add_to_entry, bonded}

abbrev pub IsSortedByTime : BondingInfo → Type 0
IsSortedByTime b = IsSortedBy (λ e. e.0) b.locked_tokens

-- The comparison of pairs tells the order of the times.
compare_entry-lt : (e d : ℕ × ℕ) → compare_entry e d ≡ Ordering.lt → e.0 ≤ d.0
compare_entry-lt (t, v) (u, w) h = ground arith

compare_entry-gt : (e d : ℕ × ℕ) → compare_entry e d ≡ Ordering.gt → d.0 ≤ e.0
compare_entry-gt (t, v) (u, w) h = ground arith

module _ (xs : List (ℕ × ℕ)) (d : ℕ × ℕ) (sorted : IsSortedBy (λ e. e.0) xs) where
  abbrev probe : ℕ → Ordering
  probe = probe_at (λ e. compare_entry e d) xs

  tells_low :
      (j k : ℕ) {x : ℕ × ℕ}
      → get_elem? xs j ≡ some x
      → probe k ≡ Ordering.lt
      → j ≤ k
      → leb x.0 d.0 ≡ true
  tells_low j k {x = x} ex h le =
      let inside = probe_at_lt-inside (λ e. compare_entry e d) xs k h in
      let (y, ey, same) = probe_at_inside (λ e. compare_entry e d) xs k inside in
      let up = IsSortedBy-get_elem? (λ e. e.0) xs j k sorted le ex ey in
      let low = compare_entry-lt y d (ground arith) in ground arith

  tells_high :
      (j k : ℕ) {x : ℕ × ℕ}
      → get_elem? xs j ≡ some x
      → probe k ≡ Ordering.gt
      → k ≤ j
      → leb d.0 x.0 ≡ true
  tells_high j k {x = x} ex h le =
      let bound = get_elem?-lt-length xs j ex in
      let (y, ey, same) = probe_at_inside (λ e. compare_entry e d) xs k (omega arith) in
      let up = IsSortedBy-get_elem? (λ e. e.0) xs k j sorted le ey ex in
      let high = compare_entry-gt y d (ground arith) in ground arith

  insertion-IsSortedByTime :
      (i : ℕ)
      → binary_search_by (λ e. compare_entry e d) xs ≡ not_found i
      → IsSortedBy (λ e. e.0) (insert_at xs i d)
  insertion-IsSortedByTime i e =
      IsSortedBy-insert_at (λ e. e.0) xs i d sorted
        λ j x ex.
          let sides =
            binary_search_by_sides (λ e. compare_entry e d) xs i j (leb x.0 d.0) (leb d.0 x.0)
              (λ k. (tells_low j k ex, tells_high j k ex)) (get_elem?-lt-length xs j ex) e in
          (λ lt. ground (arith, sides.0 lt), λ le. ground (arith, sides.1 le))

-- What locking promises of the new bond.
abbrev Locks : BondingInfo → ℕ → BondingInfo → Type 0
Locks b amount c = IsSortedByTime c × (bonded c ≡ bonded b + amount) × (c.stake ≡ b.stake)

merge-Locks :
    (b : BondingInfo) (i amount : ℕ) (x : ℕ × ℕ)
    → IsSortedByTime b
    → get_elem? b.locked_tokens i ≡ some x
    → Locks b amount (record b { locked_tokens = set b.locked_tokens i (x.0, x.1 + amount) })
merge-Locks b i amount x sorted at = (
  IsSortedBy-set (λ e. e.0) b.locked_tokens i (x.0, x.1 + amount) sorted at refl,
  omega (arith, sum_by-set (λ e. e.1) b.locked_tokens i (x.0, x.1 + amount) at),
  refl,
)

add_to_entry-eq-ok :
    (xs : List (ℕ × ℕ)) (i amount : ℕ) (x : ℕ × ℕ) {ys : List (ℕ × ℕ)}
    → get_elem? xs i ≡ some x
    → add_to_entry xs i amount ≡ ok ys
    → ys ≡ set xs i (x.0, x.1 + amount)
unfolding add_to_entry add128
add_to_entry-eq-ok xs i amount (t, v) at e = let e' = rw (at, unwrap) at e in ground arith

-- Locking that succeeds on entries sorted by their time adds the amount to the bond, leaves the
-- free stake alone, and keeps the entries sorted by their time.
pub add_locked_tokens_lem :
    (b : BondingInfo) (expires amount : ℕ) {c : BondingInfo}
    → IsSortedByTime b
    → add_locked_tokens b expires amount ≡ ok c
    → IsSortedByTime c × (bonded c ≡ bonded b + amount) × (c.stake ≡ b.stake)
unfolding add_locked_tokens
add_locked_tokens_lem b expires amount {c = c} sorted e =
    let xs = b.locked_tokens in
    let d : ℕ × ℕ = (expires, amount) in
    elim (Position-cases (binary_search_by (λ e. compare_entry e d) xs)) [
      | inl (i, hit) ↦
          let (x, at, same) = binary_search_by-found (λ e. compare_entry e d) xs i hit in
          let (ys, added, done) =
            >>=-eq-ok (add_to_entry xs i amount) _ (rw (hit, add_locked_tokens) at e) in
          let ys_eq = add_to_entry-eq-ok xs i amount x at added in
          subst (Locks b amount) (ground arith) (merge-Locks b i amount x sorted at)
      | inr (i, miss) ↦ subst (Locks b amount) (ok-injective (rw (miss, add_locked_tokens) at e)) (
        insertion-IsSortedByTime xs d sorted i miss,
        omega (arith, sum_by-insert_at (λ e. e.1) xs i d),
        refl,
      )
    ]

-- Locking adds the amount to the bond, whatever the order of its entries.
pub add_locked_tokens-bonded :
    (b : BondingInfo) (expires amount : ℕ) {c : BondingInfo}
    → add_locked_tokens b expires amount ≡ ok c
    → bonded c ≡ bonded b + amount
unfolding add_locked_tokens
add_locked_tokens-bonded b expires amount e =
    let xs = b.locked_tokens in
    let d : ℕ × ℕ = (expires, amount) in
    elim (Position-cases (binary_search_by (λ e. compare_entry e d) xs)) [
      | inl (i, hit) ↦
          let (x, at, same) = binary_search_by-found (λ e. compare_entry e d) xs i hit in
          let (ys, added, done) =
            >>=-eq-ok (add_to_entry xs i amount) _ (rw (hit, add_locked_tokens) at e) in
          let ys_eq = add_to_entry-eq-ok xs i amount x at added in
          subst (λ c. bonded c ≡ bonded b + amount) (ok-injective done)
            (omega (
              arith,
              ap (sum_by (λ e. e.1)) ys_eq,
              sum_by-set (λ e. e.1) xs i (x.0, x.1 + amount) at,
            ))
      | inr (i, miss) ↦
          subst (λ c. bonded c ≡ bonded b + amount)
            (ok-injective (rw (miss, add_locked_tokens) at e))
            (omega (arith, sum_by-insert_at (λ e. e.1) xs i d))
    ]
