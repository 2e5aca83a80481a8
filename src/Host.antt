-- ===== src/Host.antt =====
-- What the contracts take from the platform and from libraries whose code is not in the repository.
-- The operations are arguments of the model; the documented behaviour that a theorem relies on is a
-- hypothesis of that theorem.
use wynddex.Base.{ℕ, ◌+◌, ◌*◌, ◌/◌, ◌<◌, ◌≡◌, Bool, Option, some, List, sum_by}

-- `cw_controllers::Claim`: an amount and the time at which it can be claimed.
pub record Claim : Type 0 where
  pub amount : ℕ
  pub release_at : ℕ

-- A failed operation is `none`.
pub record Host : Type 0 where
  -- `Api::addr_validate`
  pub addr_validate : ℕ → Option ℕ
  -- Two tests of the standard library on a denomination: `starts_with("ibc/")`, and whether it is
  -- its own `to_lowercase()`.
  pub is_ibc : ℕ → Bool
  pub is_lowercase : ℕ → Bool
  -- `Uint128 * Decimal`; `none` is a panic. A decimal is its number of atomics.
  pub mul_decimal : ℕ → ℕ → Option ℕ
  -- `Timestamp::plus_seconds` and `Timestamp::seconds`; a time is a number of nanoseconds.
  pub plus_seconds : ℕ → ℕ → Option ℕ
  pub seconds : ℕ → ℕ
  -- `Timestamp::from_seconds`; `none` is a panic.
  pub from_seconds : ℕ → Option ℕ
  -- `Claims::create_claim`, on the claims of one account, with an amount and a release time.
  pub create_claim : List Claim → ℕ → ℕ → List Claim
  -- `Claims::claim_tokens` at a block time, with no cap: what is released, and what is left.
  pub claim_tokens : List Claim → ℕ → ℕ × List Claim
  -- `Admin::is_admin`
  pub is_admin : Option ℕ → ℕ → Bool
  -- `Admin::execute_update_admin`: the stored admin, the sender and the new admin.
  pub execute_update_admin : Option ℕ → ℕ → Option ℕ → Option (Option ℕ)

-- `wynd_curve_utils::Curve`
pub record Curves (C : Type 0) : Type 0 where
  pub constant : ℕ → C
  pub saturating_linear : ℕ × ℕ → ℕ × ℕ → C
  pub value : C → ℕ → ℕ
  pub range : C → ℕ × ℕ
  pub combine : C → C → C
  pub is_monotonic_decreasing : C → Bool

abbrev pub claimed : List Claim → ℕ
claimed = sum_by (λ c. c.amount)

-- What `Claims` documents: a new claim adds its amount, and what is released is taken from the rest.
pub record KeepsClaims (h : Host) : Type 0 where
  pub creates :
      (cs : List Claim) (amount release_at : ℕ)
      → claimed (h.create_claim cs amount release_at) ≡ claimed cs + amount
  pub releases :
      (cs : List Claim) (now : ℕ)
      → (h.claim_tokens cs now).0 + claimed (h.claim_tokens cs now).1 ≡ claimed cs

-- What `Timestamp` documents: it counts nanoseconds, and seconds are whole.
pub record KeepsTime (h : Host) : Type 0 where
  pub whole_seconds : (t : ℕ) → h.seconds t ≡ t / 1000000000
  pub from_whole_seconds :
      (s : ℕ) → s * 1000000000 < 18446744073709551616 → h.from_seconds s ≡ some (s * 1000000000)
  pub from_seconds_only : (s : ℕ) {t : ℕ} → h.from_seconds s ≡ some t → t ≡ s * 1000000000
