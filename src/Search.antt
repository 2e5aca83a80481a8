-- ===== src/Search.antt =====
-- `slice::binary_search_by` of the Rust standard library: the halving loop over a range of indices,
-- whose length bounds the number of its rounds.
pub mod Sorted
use Prim.Native.Nat.{Ordering, compare}
use wynddex.Base.{
  ℕ, zero, suc, ◌+◌, ◌-◌, ◌/◌, ◌≤◌, ◌<◌, ◌≡◌, ◌≢◌, some, List, [], ◌∷◌, arith, length, get_elem?,
  refl, All, All-get_elem?, subst, insert_at, set, Bool, true, ◌⊎◌, inl, inr,
}

-- `Ok(pos)` and `Err(pos)`
pub data Position : Type 0 where
  found : ℕ → Position
  not_found : ℕ → Position

pub Position-cases : (p : Position) → ((i : ℕ) × (p ≡ found i)) ⊎ ((i : ℕ) × (p ≡ not_found i))
Position-cases (found i) = inl (i, refl)
Position-cases (not_found i) = inr (i, refl)

search_loop : ℕ → (ℕ → Ordering) → ℕ → ℕ → Position
search_loop zero probe left right = not_found left
search_loop (suc fuel) probe left right =
    let mid = left + (right - left) / 2 in
    let above = search_loop fuel probe (mid + 1) right in
    let below = search_loop fuel probe left mid in
    elim (compare left right) [
      | Ordering.lt ↦ elim (probe mid) [
        | Ordering.lt ↦ above
        | Ordering.gt ↦ below
        | Ordering.eq ↦ found mid
      ]
      | _ ↦ not_found left
    ]

-- The comparison at an index. No index outside of the list is probed.
abbrev pub probe_at {ℓ} : {A : Type ℓ} → (A → Ordering) → List A → ℕ → Ordering
probe_at cmp [] i = Ordering.gt
probe_at cmp (x ∷ xs) zero = cmp x
probe_at cmp (x ∷ xs) (suc i) = probe_at cmp xs i

unfoldable pub binary_search_by {ℓ} : {A : Type ℓ} → (A → Ordering) → List A → Position
unfolding search_loop
binary_search_by cmp xs = search_loop (length xs) (probe_at cmp xs) 0 (length xs)

-- What is found is a hit inside of the range.
search_loop-found :
    (fuel : ℕ) (p : ℕ → Ordering) (left right i : ℕ)
    → search_loop fuel p left right ≡ found i
    → (p i ≡ Ordering.eq) × (i < right)
unfolding search_loop
search_loop-found zero p left right i e = absurd (ground arith)
search_loop-found (suc fuel) p left right i e =
    let mid = left + (right - left) / 2 in
    ground (arith, search_loop-found fuel p (mid + 1) right i, search_loop-found fuel p left mid i)

-- The comparison rises: what is below a low place is low, what is above a high one is high.
abbrev pub Rises : (ℕ → Ordering) → Type 0
Rises p =
    (i j : ℕ)
    → i ≤ j
    → (p j ≡ Ordering.lt → p i ≡ Ordering.lt) × (p i ≡ Ordering.gt → p j ≡ Ordering.gt)

-- Otherwise the position splits the places into low and high ones.
search_loop-not_found :
    (fuel : ℕ) (p : ℕ → Ordering) (left right i j : ℕ)
    → Rises p
    → right ≤ left + fuel
    → left ≤ right
    → (j < left → p j ≡ Ordering.lt)
    → (right ≤ j → p j ≡ Ordering.gt)
    → search_loop fuel p left right ≡ not_found i
    → (j < i → p j ≡ Ordering.lt) × (i ≤ j → p j ≡ Ordering.gt)
unfolding search_loop
search_loop-not_found zero p left right i j rises enough le low high e = ground arith
search_loop-not_found (suc fuel) p left right i j rises enough le low high e =
    let mid = left + (right - left) / 2 in
    ground (
      arith,
      rises j mid,
      rises mid j,
      search_loop-not_found fuel p (mid + 1) right i j rises,
      search_loop-not_found fuel p left mid i j rises,
    )

-- The same for one index and two facts about it, of which a comparison tells one: what a search
-- leaves on each side, also where the list is sorted by less than the comparison looks at.
search_loop_sides :
    (fuel : ℕ) (p : ℕ → Ordering) (left right i j : ℕ) (low high : Bool)
    → ((k : ℕ)
        → (p k ≡ Ordering.lt → j ≤ k → low ≡ true) × (p k ≡ Ordering.gt → k ≤ j → high ≡ true))
    → right ≤ left + fuel
    → left ≤ right
    → (j < left → low ≡ true)
    → (right ≤ j → high ≡ true)
    → search_loop fuel p left right ≡ not_found i
    → (j < i → low ≡ true) × (i ≤ j → high ≡ true)
unfolding search_loop
search_loop_sides zero p left right i j low high tells enough before after e = ground arith
search_loop_sides (suc fuel) p left right i j low high tells enough before after e =
    let mid = left + (right - left) / 2 in
    ground (
      arith,
      tells mid,
      search_loop_sides fuel p (mid + 1) right i j low high tells,
      search_loop_sides fuel p left mid i j low high tells,
    )

module _ {ℓ} {A : Type ℓ} where
  probe_at-eq :
      (cmp : A → Ordering) (xs : List A) (i : ℕ)
      → probe_at cmp xs i ≡ Ordering.eq
      → (x : A) × (get_elem? xs i ≡ some x) × (cmp x ≡ Ordering.eq)
  probe_at-eq cmp [] i e = cc
  probe_at-eq cmp (x ∷ xs) zero e = (x, refl, e)
  probe_at-eq cmp (x ∷ xs) (suc i) e = probe_at-eq cmp xs i e

  -- What a search finds is in the list, at the index that it returns.
  pub binary_search_by-found :
      (cmp : A → Ordering) (xs : List A) (i : ℕ)
      → binary_search_by cmp xs ≡ found i
      → (x : A) × (get_elem? xs i ≡ some x) × (cmp x ≡ Ordering.eq)
  unfolding binary_search_by
  binary_search_by-found cmp xs i e =
      probe_at-eq cmp xs i (search_loop-found (length xs) (probe_at cmp xs) 0 (length xs) i e).0

  probe_at_past :
      (cmp : A → Ordering) (xs : List A) (i : ℕ) → length xs ≤ i → probe_at cmp xs i ≡ Ordering.gt
  probe_at_past cmp [] i h = refl
  probe_at_past cmp (x ∷ xs) zero h = absurd (omega arith)
  probe_at_past cmp (x ∷ xs) (suc i) h = probe_at_past cmp xs i (omega arith)

  -- Where the comparison rises and nothing is found, the position parts the list.
  pub binary_search_by-not_found :
      (cmp : A → Ordering) (xs : List A) (i j : ℕ)
      → Rises (probe_at cmp xs)
      → binary_search_by cmp xs ≡ not_found i
      → (j < i → probe_at cmp xs j ≡ Ordering.lt) × (i ≤ j → probe_at cmp xs j ≡ Ordering.gt)
  unfolding binary_search_by
  binary_search_by-not_found cmp xs i j rises e =
      search_loop-not_found (length xs) (probe_at cmp xs) 0 (length xs) i j rises (omega arith)
        (omega arith) (λ h. absurd (omega arith)) (probe_at_past cmp xs j) e

  -- A search that finds nothing returns a place inside of the list or at its end, and at each index
  -- the fact that the comparison tells.
  pub binary_search_by_sides :
      (cmp : A → Ordering) (xs : List A) (i j : ℕ) (low high : Bool)
      → ((k : ℕ)
          → (probe_at cmp xs k ≡ Ordering.lt → j ≤ k → low ≡ true)
            × (probe_at cmp xs k ≡ Ordering.gt → k ≤ j → high ≡ true))
      → j < length xs
      → binary_search_by cmp xs ≡ not_found i
      → (j < i → low ≡ true) × (i ≤ j → high ≡ true)
  unfolding binary_search_by
  binary_search_by_sides cmp xs i j low high tells inside e =
      search_loop_sides (length xs) (probe_at cmp xs) 0 (length xs) i j low high tells (omega arith)
        (omega arith) (λ h. absurd (omega arith)) (λ h. absurd (omega arith)) e

  -- The keys do not fall along the list.
  abbrev pub IsSortedBy : (A → ℕ) → List A → Type 0
  IsSortedBy f [] = Unit
  IsSortedBy f (x ∷ xs) = All (λ y. f x ≤ f y) xs × IsSortedBy f xs

  -- The list holds an element with this key.
  abbrev pub HasKey : (A → ℕ) → ℕ → List A → Type 0
  HasKey f k [] = ⊥
  HasKey f k (x ∷ xs) = (f x ≡ k) ⊎ HasKey f k xs

  -- `binary_search_by_key`
  unfoldable pub search_by_key : (A → ℕ) → ℕ → List A → Position
  search_by_key f k = binary_search_by (λ x. compare (f x) k)
