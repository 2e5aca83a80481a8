-- ===== src/Stake/Bonding/Release.antt =====
-- Releasing tokens of a bond: the matured entries are freed, and the amount is taken from what is
-- free. All branches of the operations, and the sums that they keep.
use wynddex.Base.{
  ℕ, ◌+◌, ◌-◌, ◌≤◌, ◌<◌, ◌≡◌, refl, arith, not, List, [], ◌∷◌, leb, ltb, filter, sum_by, ok, err,
  panic, if◌then◌else◌, >>=-eq-ok,
}
use wynddex.Num.{u128_limit, add128, checked_add, checked_sub, sum128, sum128_lem}
use wynddex.Stake.State.{BondingInfo, ContractError, std, overflow}
use wynddex.Stake.Bonding.{
  expired, amounts, free_unlocked_tokens, release_stake, force_unlock_all, total_locked,
  total_unlocked, total_stake, bonded, unlocked_at, sum_by-amounts, sum_by-partition,
}

-- The bond once its matured entries are freed.
abbrev pub freed_at : BondingInfo → ℕ → BondingInfo
freed_at b now = record {
  stake = unlocked_at b now;
  locked_tokens = filter (λ e. not (expired now e)) b.locked_tokens;
}

sum128-amounts :
    (xs : List (ℕ × ℕ))
    → sum128 {E = ContractError} (amounts xs)
      ≡ (if ltb (sum_by (λ e. e.1) xs) u128_limit then ok (sum_by (λ e. e.1) xs) else panic)
sum128-amounts xs = rw (sum128_lem (amounts xs), sum_by-amounts xs) refl

-- Freeing moves every matured entry to the stake, and does not fail while the bond fits in 128 bits.
pub free_unlocked_tokens_lem :
    (b : BondingInfo) (now : ℕ)
    → bonded b < u128_limit
    → free_unlocked_tokens b now ≡ ok (freed_at b now)
unfolding free_unlocked_tokens add128
free_unlocked_tokens_lem b now h = ground (
  arith,
  sum_by-partition (expired now) b.locked_tokens,
  sum128-amounts (filter (expired now) b.locked_tokens),
)

-- While the bond fits in 128 bits, a release takes the amount from what is free at the time, keeps
-- the entries that are still locked, and refuses a larger amount.
pub release_stake_lem :
    (b : BondingInfo) (now amount : ℕ)
    → bonded b < u128_limit
    → release_stake b now amount ≡ (
        if leb amount (unlocked_at b now)
        then ok (
          unlocked_at b now - amount,
          record (freed_at b now) { stake = unlocked_at b now - amount },
        )
        else err (std overflow))
unfolding release_stake checked_sub
release_stake_lem b now amount h = rw (free_unlocked_tokens_lem b now h) (ground arith)

-- Whenever freeing succeeds it gives that bond.
pub free_unlocked_tokens-eq-ok :
    (b : BondingInfo) (now : ℕ) {c : BondingInfo}
    → free_unlocked_tokens b now ≡ ok c
    → c ≡ freed_at b now
unfolding free_unlocked_tokens add128
free_unlocked_tokens-eq-ok b now e =
    ground (arith, sum128-amounts (filter (expired now) b.locked_tokens))

-- A release that succeeds lowers the bond by its amount, and returns the free stake that is left.
pub release_stake-eq-ok :
    (b : BondingInfo) (now amount : ℕ) {n : ℕ} {c : BondingInfo}
    → release_stake b now amount ≡ ok (n, c)
    → (bonded c + amount ≡ bonded b) × (n ≡ c.stake) × (amount ≤ unlocked_at b now)
unfolding release_stake checked_sub
release_stake-eq-ok b now amount e =
    let (f, ef, rest) = >>=-eq-ok (free_unlocked_tokens b now) _ e in
    ground (
      arith,
      free_unlocked_tokens-eq-ok b now ef,
      sum_by-partition (expired now) b.locked_tokens,
      rest,
    )

-- Unlocking everything leaves the whole bond free.
pub force_unlock_all-eq-ok :
    (b : BondingInfo) {n : ℕ} {c : BondingInfo}
    → force_unlock_all b ≡ ok (n, c)
    → (n ≡ bonded b) × (c ≡ record { stake = bonded b; locked_tokens = [] })
unfolding force_unlock_all checked_add
force_unlock_all-eq-ok b e = ground (arith, sum128-amounts b.locked_tokens)

pub total_stake-eq-ok :
    (b : BondingInfo) {n : ℕ} → total_stake b ≡ ok n → (n ≡ bonded b) × (n < u128_limit)
unfolding total_stake add128
total_stake-eq-ok b e = ground (arith, sum128-amounts b.locked_tokens)

pub total_stake_fits : (b : BondingInfo) → bonded b < u128_limit → total_stake b ≡ ok (bonded b)
unfolding total_stake add128
total_stake_fits b h = ground (arith, sum128-amounts b.locked_tokens)

filter-later :
    (now : ℕ) (xs : List (ℕ × ℕ))
    → filter (λ e. ltb now e.0) xs ≡ filter (λ e. not (expired now e)) xs
filter-later now [] = refl
filter-later now (x ∷ xs) = ground (arith, filter-later now xs)

-- What is locked at a time and what is not make up the bond, where both sums fit.
pub total_locked-total_unlocked :
    (b : BondingInfo) (now : ℕ) {l u : ℕ}
    → total_locked b now ≡ ok l
    → total_unlocked b now ≡ ok u
    → l + u ≡ bonded b
unfolding total_locked total_unlocked add128
total_locked-total_unlocked b now el eu = ground (
  arith,
  filter-later now b.locked_tokens,
  sum_by-partition (expired now) b.locked_tokens,
  sum128-amounts (filter (expired now) b.locked_tokens),
  sum128-amounts (filter (λ e. ltb now e.0) b.locked_tokens),
)
