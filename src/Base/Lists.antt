-- ===== src/Base/Lists.antt =====
-- Lists measured and indexed by native numbers, under the library's names, and a predicate on all
-- elements.
use Prim.Native.Nat.{ℕ, zero, suc, ◌+◌}
use mathlib.Core.Path.{◌≡◌, refl, sym, ap, subst, ◌∙◌}
use mathlib.Core.Logic.{◌≢◌}
use mathlib.Core.List.{List, [], ◌∷◌, ◌++◌, map}
use mathlib.Core.Option.{Option, none, some}
use mathlib.Core.Bool.{Bool, true, false}
use native.Mathlib.Omega.{arith}

module _ {ℓ} {A : Type ℓ} where
  abbrev pub length : List A → ℕ
  length [] = 0
  length (x ∷ xs) = suc (length xs)

  abbrev pub get_elem? : List A → ℕ → Option A
  get_elem? [] i = none
  get_elem? (x ∷ xs) zero = some x
  get_elem? (x ∷ xs) (suc i) = get_elem? xs i

  -- A write out of bounds changes nothing.
  abbrev pub set : List A → ℕ → A → List A
  set [] i v = []
  set (x ∷ xs) zero v = v ∷ xs
  set (x ∷ xs) (suc i) v = x ∷ set xs i v

  -- `Vec::insert`; past the end the element is put last.
  abbrev pub insert_at : List A → ℕ → A → List A
  insert_at xs zero v = v ∷ xs
  insert_at [] (suc i) v = v ∷ []
  insert_at (x ∷ xs) (suc i) v = x ∷ insert_at xs i v

  -- `filter` with a Boolean test.
  abbrev pub filter : (A → Bool) → List A → List A
  filter p [] = []
  filter p (x ∷ xs) = elim (p x) [ true ↦ x ∷ filter p xs | false ↦ filter p xs ]

  -- A sum of a measure of the elements.
  abbrev pub sum_by : (A → ℕ) → List A → ℕ
  sum_by f [] = 0
  sum_by f (x ∷ xs) = f x + sum_by f xs

  pub sum_by-append : (f : A → ℕ) (xs ys : List A) → sum_by f (xs ++ ys) ≡ sum_by f xs + sum_by f ys
  sum_by-append f [] ys = omega arith
  sum_by-append f (x ∷ xs) ys = omega (arith, sum_by-append f xs ys)

  pub sum_by-insert_at :
      (f : A → ℕ) (xs : List A) (i : ℕ) (v : A) → sum_by f (insert_at xs i v) ≡ sum_by f xs + f v
  sum_by-insert_at f xs zero v = omega arith
  sum_by-insert_at f [] (suc i) v = omega arith
  sum_by-insert_at f (x ∷ xs) (suc i) v = omega (arith, sum_by-insert_at f xs i v)

  pub sum_by-set :
      (f : A → ℕ) (xs : List A) (i : ℕ) {u : A} (v : A)
      → get_elem? xs i ≡ some u
      → sum_by f (set xs i v) + f u ≡ sum_by f xs + f v
  sum_by-set f [] i v e = ground arith
  sum_by-set f (x ∷ xs) zero v e = ground arith
  sum_by-set f (x ∷ xs) (suc i) v e = omega (arith, sum_by-set f xs i v e)

module _ {ℓ κ} {A : Type ℓ} (P : A → Type κ) where
  abbrev pub All : List A → Type κ
  All [] = Unit
  All (x ∷ xs) = P x × All xs

module _ {ℓ κ} {A : Type ℓ} {B : Type κ} where
  abbrev pub zip : List A → List B → List (A × B)
  zip [] ys = []
  zip (x ∷ xs) [] = []
  zip (x ∷ xs) (y ∷ ys) = (x, y) ∷ zip xs ys

module _ {ℓ} {A : Type ℓ} where
  pub All-get_elem? {κ} :
      (P : A → Type κ) (xs : List A) (i : ℕ) {x : A} → All P xs → get_elem? xs i ≡ some x → P x
  All-get_elem? P [] i a e = cc
  All-get_elem? P (x ∷ xs) zero a e = subst P (cc) a.0
  All-get_elem? P (x ∷ xs) (suc i) a e = All-get_elem? P xs i a.1 e

module _ {ℓ} {A : Type ℓ} (key : A → ℕ) where
  -- No key is listed twice.
  abbrev pub Distinct : List A → Type 0
  Distinct [] = Unit
  Distinct (x ∷ xs) = All (λ y. key x ≢ key y) xs × Distinct xs

  All-weaken {κ μ} :
      (P : A → Type κ) (Q : A → Type μ) (R : A → Type 0) (xs : List A)
      → ((y : A) → R y → P y → Q y)
      → All R xs
      → All P xs
      → All Q xs
  All-weaken P Q R [] f r a = tt
  All-weaken P Q R (x ∷ xs) f r a = (f x r.0 a.0, All-weaken P Q R xs f r.1 a.1)

  -- A write to the entry of one key, after which the others satisfy the new predicate too.
  pub All-set-Distinct {κ μ} :
      (P : A → Type κ) (Q : A → Type μ) (xs : List A) (i : ℕ) {x : A} (v : A)
      → Distinct xs
      → get_elem? xs i ≡ some x
      → ((y : A) → key y ≢ key x → P y → Q y)
      → Q v
      → All P xs
      → All Q (set xs i v)
  All-set-Distinct P Q [] i v d e f q a = tt
  All-set-Distinct P Q (y ∷ xs) zero {x = x} v d e f q a =
      let same : y ≡ x = cc in
      (
        q,
        All-weaken P Q (λ z. key y ≢ key z) xs (λ z ne p. f z (λ k. ne (ap key same ∙ sym k)) p) d.0
            a.1,
      )
  All-set-Distinct P Q (y ∷ xs) (suc i) {x = x} v d e f q a = (
    f y (All-get_elem? (λ z. key y ≢ key z) xs i d.0 e) a.0,
    All-set-Distinct P Q xs i v d.1 e f q a.1,
  )

  -- A write that keeps the key keeps the keys.
  pub map-set :
      (xs : List A) (i : ℕ) {x : A} (v : A)
      → get_elem? xs i ≡ some x
      → key v ≡ key x
      → map key (set xs i v) ≡ map key xs
  map-set [] i v e k = refl
  map-set (y ∷ xs) zero v e k = ground (arith)
  map-set (y ∷ xs) (suc i) v e k = ap (◌∷◌ (key y)) (map-set xs i v e k)

  All-set {κ} : (P : A → Type κ) (xs : List A) (i : ℕ) {v : A} → All P xs → P v → All P (set xs i v)
  All-set P [] i a p = tt
  All-set P (x ∷ xs) zero a p = (p, a.1)
  All-set P (x ∷ xs) (suc i) a p = (a.0, All-set P xs i a.1 p)

  pub Distinct-set :
      (xs : List A) (i : ℕ) {x : A} (v : A)
      → Distinct xs
      → get_elem? xs i ≡ some x
      → key v ≡ key x
      → Distinct (set xs i v)
  Distinct-set [] i v d e k = tt
  Distinct-set (y ∷ xs) zero v d e k = let same : key v ≡ key y = ground arith in (rw same d.0, d.1)
  Distinct-set (y ∷ xs) (suc i) v d e k = (
    All-set (λ z. key y ≢ key z) xs i d.0
        (λ h. All-get_elem? (λ z. key y ≢ key z) xs i d.0 e (h ∙ k)),
    Distinct-set xs i v d.1 e k,
  )
