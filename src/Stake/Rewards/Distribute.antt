-- ===== src/Stake/Rewards/Distribute.antt =====
-- Distributing an amount: the shares that are handed out per point, and the shares that are left,
-- account for all of it.
use wynddex.Base.{ℕ, ◌+◌, ◌*◌, ◌/◌, ◌%◌, ◌≤◌, ◌<◌, ◌≡◌, ap, ◌∙◌, arith, ok}
use native.Mathlib.Nat.{div-add-mod', mod-lt, mod-eq_of_lt}
use wynddex.Num.{add128, u64_limit}
use wynddex.Stake.State.{Distribution}
use wynddex.Stake.Rewards.{distribute, shift_left, shares_scale}

-- The distribution that `distribute` computes.
distribute-eq-ok :
    (d : Distribution) (total amount : ℕ) {d' : Distribution}
    → distribute d total amount ≡ ok d'
    → let points = shift_left amount + d.shares_leftover in
      (d'.shares_per_point ≡ d.shares_per_point + points / total)
      × (d'.shares_leftover ≡ points % total % u64_limit)
      × (d'.distributed_total ≡ d.distributed_total + amount)
      × (d'.withdrawable_total ≡ d.withdrawable_total + amount)
unfolding distribute add128
distribute-eq-ok d total amount e = ground arith

shift_left-exact : (x : ℕ) → x < 79228162514264337593543950336 → shift_left x ≡ x * shares_scale
unfolding shift_left
shift_left-exact x h = omega arith

conserve : (s q r t p : ℕ) → q * t + r ≡ p → (s + q) * t + r ≡ s * t + p
conserve s q r t p e = omega (arith, e)

-- An amount below 2^96 tokens that is distributed over a power above zero and at most 2^64 is
-- handed out to the last share: the shares per point times the power, plus the leftover, grow by
-- the amount times 2^32, the leftover is below the power, and both totals grow by the amount.
pub distribute-conserves :
    (d : Distribution) (total amount : ℕ) {d' : Distribution}
    → 0 < total
    → total ≤ u64_limit
    → amount < 79228162514264337593543950336
    → distribute d total amount ≡ ok d'
    → (d'.shares_per_point * total + d'.shares_leftover
        ≡ d.shares_per_point * total + (amount * shares_scale + d.shares_leftover))
      × (d'.shares_leftover < total)
      × (d'.distributed_total ≡ d.distributed_total + amount)
      × (d'.withdrawable_total ≡ d.withdrawable_total + amount)
distribute-conserves d total amount {d' = d'} positive small fits e =
    let points = shift_left amount + d.shares_leftover in
    let (shares, leftover, distributed, withdrawable) = distribute-eq-ok d total amount e in
    let below = mod-lt points positive in
    let kept = leftover ∙ mod-eq_of_lt (omega (arith, below, small)) in
    (
      ap (λ x. x * total + d'.shares_leftover) shares
          ∙ ap (λ x. (d.shares_per_point + points / total) * total + x) kept
          ∙ conserve d.shares_per_point (points / total) (points % total) total points
              (div-add-mod' points total)
          ∙ ap (λ x. d.shares_per_point * total + (x + d.shares_leftover))
              (shift_left-exact amount fits),
      omega (arith, below, kept),
      distributed,
      withdrawable,
    )
