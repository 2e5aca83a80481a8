-- ===== src/Map.antt =====
-- A storage map (`cw_storage_plus::Map`): its entries in the order of their keys, as `range` lists
-- them. Keys are compared by an interface.
use wynddex.Base.{
  ℕ, ◌+◌, ◌≡◌, refl, ◌↔◌, Bool, true, inl, inr, Option, none, some, List, [], ◌∷◌, arith,
  if◌then◌else◌, ltb, ◌==◌, ==_iff, sum_by, Option-cases, length, suc,
}

pub record Key {ℓ} (K : Type ℓ) : Type ℓ where
  pub keq : K → K → Bool
  pub klt : K → K → Bool
  pub keq_iff : (a b : K) → (keq a b ≡ true) ↔ (a ≡ b)

-- Addresses and periods. An address is a number that keeps the order of the address strings.
instance abbrev pub nat_key : Key ℕ
nat_key = record { keq = ◌==◌; klt = ltb; keq_iff = ==_iff }

abbrev pub Map {ℓ κ} : Type ℓ → Type κ → Type (ℓ ⊔ κ)
Map K V = List (K × V)

-- What a measure of the values gives for a key that may be missing.
abbrev pub measure {κ} : {V : Type κ} → (V → ℕ) → Option V → ℕ
measure f none = 0
measure f (some v) = f v

pub keq_refl {ℓ} : {K : Type ℓ} ⦃o : Key K⦄ (k : K) → o.keq k k ≡ true
keq_refl ⦃o⦄ k = (o.keq_iff k k).1 refl

module _ {ℓ κ} {K : Type ℓ} ⦃o : Key K⦄ {V : Type κ} where
  -- `may_load`
  abbrev pub lookup : K → Map K V → Option V
  lookup k [] = none
  lookup k ((j, v) ∷ m) = if o.keq j k then some v else lookup k m

  -- A write to a key that is there.
  abbrev pub replace : K → V → Map K V → Map K V
  replace k v [] = []
  replace k v ((j, w) ∷ m) = if o.keq j k then (j, v) ∷ m else (j, w) ∷ replace k v m

  -- A write to a new key.
  abbrev pub insert_new : K → V → Map K V → Map K V
  insert_new k v [] = (k, v) ∷ []
  insert_new k v ((j, w) ∷ m) = if o.klt k j then (k, v) ∷ (j, w) ∷ m else (j, w) ∷ insert_new k v m

  -- `save`
  unfoldable pub insert : K → V → Map K V → Map K V
  insert k v m = elim (lookup k m) [ none ↦ insert_new k v m | some _ ↦ replace k v m ]

  unfoldable pub total : (V → ℕ) → Map K V → ℕ
  total f = sum_by (λ e. f e.1)

  lookup-insert_new :
      (k j : K) (v : V) (m : Map K V)
      → lookup k m ≡ none
      → lookup j (insert_new k v m) ≡ (if o.keq k j then some v else lookup j m)
  lookup-insert_new k j v [] e = refl
  lookup-insert_new k j v ((i, w) ∷ m) e =
      ground (arith, o.keq_iff k j, o.keq_iff i j, o.keq_iff i k, lookup-insert_new k j v m)

  lookup-replace :
      (k j : K) (v w : V) (m : Map K V)
      → lookup k m ≡ some w
      → lookup j (replace k v m) ≡ (if o.keq k j then some v else lookup j m)
  lookup-replace k j v w [] e = ground arith
  lookup-replace k j v w ((i, u) ∷ m) e =
      ground (arith, o.keq_iff k j, o.keq_iff i j, o.keq_iff i k, lookup-replace k j v w m)

  pub lookup-insert :
      (k j : K) (v : V) (m : Map K V)
      → lookup j (insert k v m) ≡ (if o.keq k j then some v else lookup j m)
  unfolding insert
  lookup-insert k j v m = elim (Option-cases (lookup k m)) [
    | inl e ↦ rw (e, insert) (lookup-insert_new k j v m e)
    | inr (w, e) ↦ rw (e, insert) (lookup-replace k j v w m e)
  ]

  pub lookup-insert_self : (k : K) (v : V) (m : Map K V) → lookup k (insert k v m) ≡ some v
  lookup-insert_self k v m = rw (lookup-insert k k v m, keq_refl k) refl

  total-insert_new :
      (f : V → ℕ) (k : K) (v : V) (m : Map K V)
      → sum_by (λ e. f e.1) (insert_new k v m) ≡ sum_by (λ e. f e.1) m + f v
  total-insert_new f k v [] = omega arith
  total-insert_new f k v ((i, w) ∷ m) = ground (arith, total-insert_new f k v m)

  total-replace :
      (f : V → ℕ) (k : K) (v w : V) (m : Map K V)
      → lookup k m ≡ some w
      → sum_by (λ e. f e.1) (replace k v m) + f w ≡ sum_by (λ e. f e.1) m + f v
  total-replace f k v w [] e = ground arith
  total-replace f k v w ((i, u) ∷ m) e = ground (arith, total-replace f k v w m)

  -- A write changes the sum of a measure by what it does at its key.
  pub total-insert :
      (f : V → ℕ) (k : K) (v : V) (m : Map K V)
      → total f (insert k v m) + measure f (lookup k m) ≡ total f m + f v
  unfolding insert total
  total-insert f k v m = elim (Option-cases (lookup k m)) [
    | inl e ↦ rw (e, insert) (omega (arith, total-insert_new f k v m))
    | inr (w, e) ↦ rw (e, insert) (total-replace f k v w m e)
  ]

  -- No key is listed twice.
  abbrev pub HasDistinctKeys : Map K V → Type κ
  HasDistinctKeys [] = Unit
  HasDistinctKeys ((k, v) ∷ m) = (lookup k m ≡ none) × HasDistinctKeys m

  -- Each entry of the first list is what the map holds at its key.
  abbrev pub Agrees : Map K V → Map K V → Type κ
  Agrees [] m = Unit
  Agrees ((k, v) ∷ xs) m = (lookup k m ≡ some v) × Agrees xs m

  replace-same : (k : K) (v : V) (m : Map K V) → lookup k m ≡ some v → replace k v m ≡ m
  replace-same k v [] e = refl
  replace-same k v ((j, w) ∷ m) e = ground (arith, replace-same k v m)

  -- To save what is there changes nothing.
  pub insert-same : (k : K) (v : V) (m : Map K V) → lookup k m ≡ some v → insert k v m ≡ m
  unfolding insert
  insert-same k v m e = rw (e, insert) (replace-same k v m e)

  Agrees-cons :
      (k : K) (v : V) (xs m : Map K V) → lookup k xs ≡ none → Agrees xs m → Agrees xs ((k, v) ∷ m)
  Agrees-cons k v [] m e a = tt
  Agrees-cons k v ((j, w) ∷ xs) m e a =
      (ground (arith, o.keq_iff k j, o.keq_iff j k, a.0), Agrees-cons k v xs m (ground arith) a.1)

  pub HasDistinctKeys-Agrees : (m : Map K V) → HasDistinctKeys m → Agrees m m
  HasDistinctKeys-Agrees [] d = tt
  HasDistinctKeys-Agrees ((k, v) ∷ m) d =
      (rw (keq_refl k) refl, Agrees-cons k v m m d.0 (HasDistinctKeys-Agrees m d.1))

  insert_new-HasDistinctKeys :
      (k : K) (v : V) (m : Map K V)
      → lookup k m ≡ none
      → HasDistinctKeys m
      → HasDistinctKeys (insert_new k v m)
  insert_new-HasDistinctKeys k v [] e d = (refl, tt)
  insert_new-HasDistinctKeys k v ((j, w) ∷ m) e d = ground (
    arith,
    o.keq_iff k j,
    o.keq_iff j k,
    lookup-insert_new k j v m,
    insert_new-HasDistinctKeys k v m,
  )

  replace-HasDistinctKeys :
      (k : K) (v w : V) (m : Map K V)
      → lookup k m ≡ some w
      → HasDistinctKeys m
      → HasDistinctKeys (replace k v m)
  replace-HasDistinctKeys k v w [] e d = tt
  replace-HasDistinctKeys k v w ((j, u) ∷ m) e d = ground (
    arith,
    o.keq_iff k j,
    o.keq_iff j k,
    lookup-replace k j v w m,
    replace-HasDistinctKeys k v w m,
  )

  -- A write lists no key twice.
  pub insert-HasDistinctKeys :
      (k : K) (v : V) (m : Map K V) → HasDistinctKeys m → HasDistinctKeys (insert k v m)
  unfolding insert
  insert-HasDistinctKeys k v m d = elim (Option-cases (lookup k m)) [
    | inl e ↦ rw (e, insert) (insert_new-HasDistinctKeys k v m e d)
    | inr (w, e) ↦ rw (e, insert) (replace-HasDistinctKeys k v w m e d)
  ]

  length-insert_new : (k : K) (v : V) (m : Map K V) → length (insert_new k v m) ≡ suc (length m)
  length-insert_new k v [] = refl
  length-insert_new k v ((j, w) ∷ m) = ground (arith, length-insert_new k v m)

  -- A write to a new key adds one entry.
  pub length-insert :
      (k : K) (v : V) (m : Map K V) → lookup k m ≡ none → length (insert k v m) ≡ suc (length m)
  unfolding insert
  length-insert k v m e = rw (e, insert) (length-insert_new k v m)
