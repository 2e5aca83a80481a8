-- ===== src/Stake/Store.antt =====
-- What contracts/stake/src/state.rs keeps in storage, as one record, and the context of a call. The
-- type of the reward curves is a parameter.
use wynddex.Base.{ℕ, Bool, Option, List, Result, ok_or}
use wynddex.Num.{ℤ, pos}
use wynddex.Map.{Map}
use wynddex.Asset.{AssetInfo}
use wynddex.Host.{Claim}
use wynddex.Stake.State.{
  Config, TokenInfo, TotalStake, Distribution, ContractError, Msg, std, generic_err,
}
use wynddex.Stake.Power.{Stakes}
pub use wynddex.Platform.{Env, MessageInfo}

pub record WithdrawAdjustment : Type 0 where
  pub shares_correction : ℤ
  pub withdrawn_rewards : ℕ

abbrev pub no_adjustment : WithdrawAdjustment
no_adjustment = record { shares_correction = pos 0; withdrawn_rewards = 0 }

-- `WITHDRAW_ADJUSTMENT`, by owner and asset
abbrev pub Adjustments : Type 0
Adjustments = Map ℕ (Map AssetInfo WithdrawAdjustment)

abbrev pub Distributions : Type 0
Distributions = Map AssetInfo Distribution

pub record Store (C : Type 0) : Type 0 where
  pub config : Config
  pub admin : Option ℕ
  pub claims : Map ℕ (List Claim)
  pub reward_curve : Map AssetInfo C
  pub total_staked : TokenInfo
  pub total_per_period : List (ℕ × TotalStake)
  pub stake : Stakes
  pub distribution : Distributions
  pub withdraw_adjustment : Adjustments
  pub delegated : Map ℕ ℕ
  pub unbond_all : Bool

-- The response of a call and the storage after it. Attributes of responses are left out.
abbrev pub Answer : Type 0 → Type 0
Answer C = Result ContractError (Store C × List Msg)

-- A failed call of the platform that gives a `StdError`.
abbrev pub std_or_fail {ℓ} : {A : Type ℓ} → Option A → Result ContractError A
std_or_fail o = ok_or o (std generic_err)
