-- ===== src/Base/Results.antt =====
-- What a call returns: a value, an error of the contract, or a panic (an arithmetic overflow or a
-- failed `unwrap`). A transaction that does not return a value leaves the state as it was.
use mathlib.Core.Path.{◌≡◌, refl, ap}
use mathlib.Core.Bool.{Bool, true, false}
use mathlib.Core.Option.{Option, none, some}

pub data Result {ℓ} (E : Type 0) (A : Type ℓ) : Type ℓ where
  ok : A → Result E A
  err : E → Result E A
  panic : Result E A

module _ {E : Type 0} where
  infixl 5 ◌>>◌ ◌>>=◌
  -- `?`: a panic or an error ends the call.
  abbrev pub ◌>>=◌ {κ μ} : {X : Type κ} {Y : Type μ} → Result E X → (X → Result E Y) → Result E Y
  panic >>= next = panic
  err reason >>= next = err reason
  ok x >>= next = next x

  -- `if condition { return Err(e) }`
  abbrev pub fail_if : Bool → E → Result E (Unit {0})
  fail_if true e = err e
  fail_if false e = ok tt

  abbrev pub ok_or {ℓ} : {A : Type ℓ} → Option A → E → Result E A
  ok_or none e = err e
  ok_or (some a) e = ok a

  abbrev pub unwrap {ℓ} : {A : Type ℓ} → Option A → Result E A
  unwrap none = panic
  unwrap (some a) = ok a

  abbrev pub ◌>>◌ {μ} : {Y : Type μ} → Result E (Unit {0}) → Result E Y → Result E Y
  check >> rest = check >>= λ unit. rest

  -- A chain that succeeds passed its first call.
  pub >>=-eq-ok {κ μ} :
      {X : Type κ} {Y : Type μ} (call : Result E X) (next : X → Result E Y) {b : Y}
      → call >>= next ≡ ok b
      → (x : X) × (call ≡ ok x) × (next x ≡ ok b)
  >>=-eq-ok panic next e = cc
  >>=-eq-ok (err reason) next e = cc
  >>=-eq-ok (ok x) next e = (x, refl, e)

  pub ok-injective {ℓ} : {A : Type ℓ} {a b : A} → ◌≡◌ {A = Result E A} (ok a) (ok b) → a ≡ b
  ok-injective h = cc

  pub fail_if-eq-ok : (b : Bool) (e : E) {u : Unit {0}} → fail_if b e ≡ ok u → b ≡ false
  fail_if-eq-ok true e h = cc
  fail_if-eq-ok false e h = refl

  pub ok_or-eq-ok {ℓ} : {A : Type ℓ} (o : Option A) (e : E) {a : A} → ok_or o e ≡ ok a → o ≡ some a
  ok_or-eq-ok none e h = cc
  ok_or-eq-ok (some a) e h = cc

  pub unwrap-eq-ok {ℓ} : {A : Type ℓ} (o : Option A) {a : A} → unwrap o ≡ ok a → o ≡ some a
  unwrap-eq-ok none h = cc
  unwrap-eq-ok (some a) h = cc

-- The conversion of the errors of a call that `?` makes.
abbrev pub map_err {ℓ} : {E F : Type 0} {A : Type ℓ} → (E → F) → Result E A → Result F A
map_err f (ok a) = ok a
map_err f (err e) = err (f e)
map_err f panic = panic

pub map_err-eq-ok {ℓ} :
    {E F : Type 0} {A : Type ℓ} (f : E → F) (r : Result E A) {a : A} → map_err f r ≡ ok a → r ≡ ok a
map_err-eq-ok f (ok a) h = ap (λ t. ok t) (ok-injective h)
map_err-eq-ok f (err e) h = cc
map_err-eq-ok f panic h = cc

-- The result of a call, or a default, for the examples.
abbrev pub value {ℓ} : {E : Type 0} {A : Type ℓ} → Result E A → A → A
value (ok a) d = a
value (err e) d = d
value panic d = d
