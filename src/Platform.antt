-- ===== src/Platform.antt =====
-- What the contracts share of the platform: the errors of the standard library, the messages that a
-- response carries, and the context of a call.
use wynddex.Base.{ℕ, List}

-- The variants that the modelled code returns; `std` holds the errors of the standard library.
pub data StdError : Type 0 where
  overflow not_found generic_err : StdError

-- The messages that a response carries.
pub data Msg : Type 0 where
  -- `Cw20ExecuteMsg::Transfer` to a token contract: the recipient and the amount.
  cw20_transfer : ℕ → ℕ → ℕ → Msg
  -- a bank transfer of a native token: the denomination, the recipient and the amount
  bank_send : ℕ → ℕ → ℕ → Msg
  -- `ConverterExecuteMsg::Convert`: the converter, the sender, the amount, the unbonding period and
  -- the two pairs
  convert : ℕ → ℕ → ℕ → ℕ → ℕ → ℕ → Msg
  -- `Cw20ExecuteMsg::TransferFrom` to a token contract: the owner, the recipient and the amount.
  cw20_transfer_from : ℕ → ℕ → ℕ → ℕ → Msg
  -- `Cw20ExecuteMsg::Mint` to a token contract: the recipient and the amount.
  cw20_mint : ℕ → ℕ → ℕ → Msg
  -- `Cw20ExecuteMsg::Burn` to a token contract: the amount.
  cw20_burn : ℕ → ℕ → Msg

pub record Env : Type 0 where
  pub block_time : ℕ
  pub contract : ℕ

-- A coin is a denomination and an amount.
pub record MessageInfo : Type 0 where
  pub sender : ℕ
  pub funds : List (ℕ × ℕ)
