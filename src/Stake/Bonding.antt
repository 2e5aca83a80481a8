-- ===== src/Stake/Bonding.antt =====
-- contracts/stake/src/state.rs: one staker's bond in one unbonding period.
pub mod Release
pub mod Locking
use Prim.Native.Nat.{Ordering, compare}
use wynddex.Base.{
  ℕ, ◌+◌, ◌≡◌, refl, arith, Bool, true, false, not, none, some, List, [], ◌∷◌, map, ltb, leb,
  get_elem?, set, insert_at, filter, sum_by, Result, ok, err, panic, ◌>>=◌, unwrap, if◌then◌else◌,
}
use wynddex.Num.{add128, checked_add, checked_sub, sum128}
use wynddex.Search.{Position, found, not_found, binary_search_by}
use wynddex.Stake.State.{BondingInfo, ContractError, std, overflow}

abbrev pub no_bond : BondingInfo
no_bond = record { stake = 0; locked_tokens = [] }

-- `add_unlocked_tokens` returns the new unlocked stake too.
unfoldable pub add_unlocked_tokens : BondingInfo → ℕ → Result ContractError (ℕ × BondingInfo)
add_unlocked_tokens b amount = do
  tokens ← add128 b.stake amount
  ok (tokens, record b { stake = tokens })

-- The derived order on pairs of a time and an amount.
abbrev pub compare_entry : ℕ × ℕ → ℕ × ℕ → Ordering
compare_entry (t, v) (u, w) = elim (compare t u) [ Ordering.eq ↦ compare v w | o ↦ o ]

-- `self.locked_tokens[pos].1 += amount`, which panics out of bounds
add_to_entry : List (ℕ × ℕ) → ℕ → ℕ → Result ContractError (List (ℕ × ℕ))
add_to_entry xs pos amount = do
  (t, v) ← unwrap (get_elem? xs pos)
  sum ← add128 v amount
  ok (set xs pos (t, sum))

unfoldable pub add_locked_tokens : BondingInfo → ℕ → ℕ → Result ContractError BondingInfo
unfolding add_to_entry
add_locked_tokens b expires amount =
    elim (binary_search_by (λ e. compare_entry e (expires, amount)) b.locked_tokens) [
      | found pos ↦ do
        entries ← add_to_entry b.locked_tokens pos amount
        ok (record b { locked_tokens = entries })
      | not_found pos ↦
          ok (record b { locked_tokens = insert_at b.locked_tokens pos (expires, amount) })
    ]

abbrev pub amounts : List (ℕ × ℕ) → List ℕ
amounts = map λ e. e.1

-- time <= now
abbrev pub expired : ℕ → ℕ × ℕ → Bool
expired now (time, v) = leb time now

unfoldable pub free_unlocked_tokens : BondingInfo → ℕ → Result ContractError BondingInfo
free_unlocked_tokens b now = elim b.locked_tokens [
  | [] ↦ ok b
  | _ ∷ _ ↦ do
    unlocked ← sum128 (amounts (filter (expired now) b.locked_tokens))
    stake ← add128 b.stake unlocked
    ok (record { stake = stake; locked_tokens = filter (λ e. not (expired now e)) b.locked_tokens })
]

-- Returns the unlocked stake that is left.
unfoldable pub release_stake : BondingInfo → ℕ → ℕ → Result ContractError (ℕ × BondingInfo)
unfolding free_unlocked_tokens
release_stake b now amount = do
  freed ← free_unlocked_tokens b now
  new_stake ← checked_sub (std overflow) freed.stake amount
  ok (new_stake, record freed { stake = new_stake })

unfoldable pub force_unlock_all : BondingInfo → Result ContractError (ℕ × BondingInfo)
force_unlock_all b = do
  locked ← sum128 (amounts b.locked_tokens)
  stake ← checked_add (std overflow) b.stake locked
  ok (stake, record { stake = stake; locked_tokens = [] })

unfoldable pub total_locked : BondingInfo → ℕ → Result ContractError ℕ
total_locked b now = sum128 (amounts (filter (λ e. ltb now e.0) b.locked_tokens))

unfoldable pub total_unlocked : BondingInfo → ℕ → Result ContractError ℕ
total_unlocked b now = do
  unlocked ← sum128 (amounts (filter (expired now) b.locked_tokens))
  add128 b.stake unlocked

unfoldable pub total_stake : BondingInfo → Result ContractError ℕ
total_stake b = do locked ← sum128 (amounts b.locked_tokens); add128 b.stake locked

-- All the tokens of a bond, and those that are free at a time.
abbrev pub bonded : BondingInfo → ℕ
bonded b = b.stake + sum_by (λ e. e.1) b.locked_tokens

abbrev pub unlocked_at : BondingInfo → ℕ → ℕ
unlocked_at b now = b.stake + sum_by (λ e. e.1) (filter (expired now) b.locked_tokens)

pub sum_by-amounts : (xs : List (ℕ × ℕ)) → sum_by (λ x. x) (amounts xs) ≡ sum_by (λ e. e.1) xs
sum_by-amounts [] = refl
sum_by-amounts (x ∷ xs) = omega (arith, sum_by-amounts xs)

-- What the entries of one part and of the other hold is what all of them hold.
pub sum_by-partition :
    (p : ℕ × ℕ → Bool) (xs : List (ℕ × ℕ))
    → sum_by (λ e. e.1) (filter p xs) + sum_by (λ e. e.1) (filter (λ e. not (p e)) xs)
      ≡ sum_by (λ e. e.1) xs
sum_by-partition p [] = refl
sum_by-partition p (x ∷ xs) = ground (arith, sum_by-partition p xs)
