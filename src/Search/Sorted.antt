-- ===== src/Search/Sorted.antt =====
-- Searches by a key in lists that are sorted by it, and what keeps a list sorted.
use Prim.Native.Nat.{Ordering, compare}
use wynddex.Base.{
  ℕ, zero, suc, ◌≤◌, ◌<◌, ◌≡◌, ◌≢◌, some, List, [], ◌∷◌, arith, length, get_elem?, refl, All,
  All-get_elem?, insert_at, set, inl, inr,
}
use wynddex.Search.{
  found, not_found, probe_at, binary_search_by-found, binary_search_by-not_found, search_by_key,
  Rises, IsSortedBy, HasKey,
}

module _ {ℓ} {A : Type ℓ} where
  -- The place of a key in a sorted list is below, at or above every element.
  probe_at_above :
      (f : A → ℕ) (k b : ℕ) (xs : List A) (i : ℕ)
      → All (λ y. b ≤ f y) xs
      → k < b
      → probe_at (λ x. compare (f x) k) xs i ≡ Ordering.gt
  probe_at_above f k b [] i h lt = refl
  probe_at_above f k b (x ∷ xs) zero h lt = ground arith
  probe_at_above f k b (x ∷ xs) (suc i) h lt = probe_at_above f k b xs i h.1 lt

  probe_at_least :
      (f : A → ℕ) (k b : ℕ) (xs : List A) (i : ℕ)
      → All (λ y. b ≤ f y) xs
      → probe_at (λ x. compare (f x) k) xs i ≡ Ordering.lt
      → b < k
  probe_at_least f k b [] i h e = cc
  probe_at_least f k b (x ∷ xs) zero h e = ground arith
  probe_at_least f k b (x ∷ xs) (suc i) h e = probe_at_least f k b xs i h.1 e

  IsSortedBy-Rises :
      (f : A → ℕ) (k : ℕ) (xs : List A)
      → IsSortedBy f xs
      → Rises (probe_at (λ x. compare (f x) k) xs)
  IsSortedBy-Rises f k [] s i j h = (λ e. cc, λ e. refl)
  IsSortedBy-Rises f k (x ∷ xs) s zero zero h = (λ e. e, λ e. e)
  IsSortedBy-Rises f k (x ∷ xs) s (suc i) zero h = absurd (omega arith)
  IsSortedBy-Rises f k (x ∷ xs) s zero (suc j) h = (
    λ e. ground (arith, probe_at_least f k (f x) xs j s.0 e),
    λ e. probe_at_above f k (f x) xs j s.0 (ground arith),
  )
  IsSortedBy-Rises f k (x ∷ xs) s (suc i) (suc j) h = IsSortedBy-Rises f k xs s.1 i j (omega arith)

  HasKey-probe_at :
      (f : A → ℕ) (k : ℕ) (xs : List A)
      → HasKey f k xs
      → (i : ℕ) × (probe_at (λ x. compare (f x) k) xs i ≡ Ordering.eq)
  HasKey-probe_at f k [] h = absurd h
  HasKey-probe_at f k (x ∷ xs) (inl e) = (0, ground arith)
  HasKey-probe_at f k (x ∷ xs) (inr h) = let (i, e) = HasKey-probe_at f k xs h in (suc i, e)

  -- In a sorted list the search finds every key that is there.
  pub search_by_key_complete :
      (f : A → ℕ) (k : ℕ) (xs : List A) (i : ℕ)
      → IsSortedBy f xs
      → HasKey f k xs
      → search_by_key f k xs ≢ not_found i
  unfolding search_by_key
  search_by_key_complete f k xs i s h e =
      let (j, hit) = HasKey-probe_at f k xs h in
      let split =
        binary_search_by-not_found (λ x. compare (f x) k) xs i j (IsSortedBy-Rises f k xs s) e in
      ground (arith, split)

  -- What is found by a key has that key.
  pub search_by_key-found :
      (f : A → ℕ) (k : ℕ) (xs : List A) (i : ℕ)
      → search_by_key f k xs ≡ found i
      → (x : A) × (get_elem? xs i ≡ some x) × (f x ≡ k)
  unfolding search_by_key
  search_by_key-found f k xs i e =
      let (x, at, hit) = binary_search_by-found (λ x. compare (f x) k) xs i e in
      (x, at, ground arith)

  pub probe_at_inside :
      (cmp : A → Ordering) (xs : List A) (i : ℕ)
      → i < length xs
      → (x : A) × (get_elem? xs i ≡ some x) × (probe_at cmp xs i ≡ cmp x)
  probe_at_inside cmp [] i h = absurd (omega arith)
  probe_at_inside cmp (x ∷ xs) zero h = (x, refl, refl)
  probe_at_inside cmp (x ∷ xs) (suc i) h = probe_at_inside cmp xs i (omega arith)

  pub probe_at_lt-inside :
      (cmp : A → Ordering) (xs : List A) (i : ℕ) → probe_at cmp xs i ≡ Ordering.lt → i < length xs
  probe_at_lt-inside cmp [] i h = cc
  probe_at_lt-inside cmp (x ∷ xs) zero h = omega arith
  probe_at_lt-inside cmp (x ∷ xs) (suc i) h = omega (arith, probe_at_lt-inside cmp xs i h)

  pub get_elem?-lt-length : (xs : List A) (i : ℕ) {x : A} → get_elem? xs i ≡ some x → i < length xs
  get_elem?-lt-length [] i h = cc
  get_elem?-lt-length (x ∷ xs) zero h = omega arith
  get_elem?-lt-length (x ∷ xs) (suc i) h = omega (arith, get_elem?-lt-length xs i h)

  -- In a sorted list a later element has no smaller key.
  pub IsSortedBy-get_elem? :
      (f : A → ℕ) (xs : List A) (i j : ℕ) {x y : A}
      → IsSortedBy f xs
      → i ≤ j
      → get_elem? xs i ≡ some x
      → get_elem? xs j ≡ some y
      → f x ≤ f y
  IsSortedBy-get_elem? f [] i j s h ei ej = cc
  IsSortedBy-get_elem? f (z ∷ xs) zero zero s h ei ej = ground arith
  IsSortedBy-get_elem? f (z ∷ xs) (suc i) zero s h ei ej = absurd (omega arith)
  IsSortedBy-get_elem? f (z ∷ xs) zero (suc j) s h ei ej =
      let below = All-get_elem? (λ y. f z ≤ f y) xs j s.0 ej in ground (arith, below)
  IsSortedBy-get_elem? f (z ∷ xs) (suc i) (suc j) s h ei ej =
      IsSortedBy-get_elem? f xs i j s.1 (omega arith) ei ej

  All-insert_at {κ} :
      (P : A → Type κ) (xs : List A) (i : ℕ) {v : A} → All P xs → P v → All P (insert_at xs i v)
  All-insert_at P xs zero a p = (p, a)
  All-insert_at P [] (suc i) a p = (p, tt)
  All-insert_at P (x ∷ xs) (suc i) a p = (a.0, All-insert_at P xs i a.1 p)

  All-of_get_elem? {κ} :
      (P : A → Type κ) (xs : List A) → ((i : ℕ) (x : A) → get_elem? xs i ≡ some x → P x) → All P xs
  All-of_get_elem? P [] h = tt
  All-of_get_elem? P (x ∷ xs) h = (h 0 x refl, All-of_get_elem? P xs (λ i y e. h (suc i) y e))

  -- An insertion between the smaller and the larger keys keeps a list sorted.
  pub IsSortedBy-insert_at :
      (f : A → ℕ) (xs : List A) (i : ℕ) (v : A)
      → IsSortedBy f xs
      → ((j : ℕ) (x : A) → get_elem? xs j ≡ some x → (j < i → f x ≤ f v) × (i ≤ j → f v ≤ f x))
      → IsSortedBy f (insert_at xs i v)
  IsSortedBy-insert_at f xs zero v s h =
      (All-of_get_elem? (λ y. f v ≤ f y) xs (λ j x e. (h j x e).1 (omega arith)), s)
  IsSortedBy-insert_at f [] (suc i) v s h = (tt, tt)
  IsSortedBy-insert_at f (x ∷ xs) (suc i) v s h = (
    All-insert_at (λ y. f x ≤ f y) xs i s.0 ((h 0 x refl).0 (omega arith)),
    IsSortedBy-insert_at f xs i v s.1
        (λ j y e. (λ lt. (h (suc j) y e).0 (omega arith), λ le. (h (suc j) y e).1 (omega arith))),
  )

  All-set {κ} : (P : A → Type κ) (xs : List A) (i : ℕ) {v : A} → All P xs → P v → All P (set xs i v)
  All-set P [] i a p = tt
  All-set P (x ∷ xs) zero a p = (p, a.1)
  All-set P (x ∷ xs) (suc i) a p = (a.0, All-set P xs i a.1 p)

  -- So does a write that keeps the key.
  pub IsSortedBy-set :
      (f : A → ℕ) (xs : List A) (i : ℕ) {u : A} (v : A)
      → IsSortedBy f xs
      → get_elem? xs i ≡ some u
      → f v ≡ f u
      → IsSortedBy f (set xs i v)
  IsSortedBy-set f [] i v s e k = tt
  IsSortedBy-set f (x ∷ xs) zero {u = u} v s e k =
      let same : f v ≡ f x = ground arith in (rw same s.0, s.1)
  IsSortedBy-set f (x ∷ xs) (suc i) {u = u} v s e k = (
    All-set (λ y. f x ≤ f y) xs i s.0
        (let le = All-get_elem? (λ y. f x ≤ f y) xs i s.0 e in omega arith),
    IsSortedBy-set f xs i v s.1 e k,
  )
