-- ===== src/Asset/Amounts.antt =====
-- packages/wyndex/src/asset.rs: assets with an amount, and the checks of what was sent.
use wynddex.Base.{
  ℕ, Bool, true, false, not, ◌||◌, List, [], ◌∷◌, ◌++◌, Option, none, some, Result, ok, ◌>>=◌, ◌>>◌,
  fail_if, ok_or, ◌==◌, if◌then◌else◌,
}
use wynddex.Host.{Host}
use wynddex.Platform.{StdError, generic_err, Env, MessageInfo, Msg, cw20_transfer_from}
use wynddex.Asset.{AssetInfo, token, native, validate, into_msg}

-- `AssetValidated`, and `Asset`, whose info is not validated yet
pub record AssetValidated : Type 0 where
  pub info : AssetInfo
  pub amount : ℕ

abbrev pub is_native_token : AssetInfo → Bool
is_native_token (token contract_addr) = false
is_native_token (native denom) = true

-- `Asset::validate`
unfoldable pub validate_asset : ⦃h : Host⦄ → AssetValidated → Result StdError AssetValidated
validate_asset asset = do
  info ← ok_or (validate asset.info) generic_err
  ok (record { info = info; amount = asset.amount })

-- `AssetValidated::into_msg`
abbrev pub send_to : AssetValidated → ℕ → Msg
send_to asset recipient = into_msg asset.info asset.amount recipient

abbrev pub find_coin : ℕ → List (ℕ × ℕ) → Option ℕ
find_coin denom [] = none
find_coin denom ((d, amount) ∷ coins) = if d == denom then some amount else find_coin denom coins

abbrev pub is_sent : ℕ → Option ℕ → Bool
is_sent amount (some sent) = amount == sent
is_sent amount none = amount == 0

unfoldable pub assert_sent_native_token_balance :
    AssetValidated → MessageInfo → Result StdError (Unit {0})
assert_sent_native_token_balance asset info = elim asset.info [
  | native denom ↦ fail_if (not (is_sent asset.amount (find_coin denom info.funds))) generic_err
  | token contract_addr ↦ ok tt
]

-- `AssetValidated::receive`, with the messages so far
unfoldable pub receive : AssetValidated → Env → MessageInfo → List Msg → Result StdError (List Msg)
receive asset env info messages = do
  let pull : ℕ → List Msg =
      λ t. messages ++ cw20_transfer_from t info.sender env.contract asset.amount ∷ []
  let taken : Result StdError (List Msg) = elim asset.info [
    | native denom ↦ assert_sent_native_token_balance asset info >>= λ u. ok messages
    | token contract_addr ↦ ok (pull contract_addr)
  ]
  if asset.amount == 0 then ok messages else taken

abbrev pub any_zero : List ℕ → Bool
any_zero [] = false
any_zero (x ∷ xs) = (x == 0) || any_zero xs

unfoldable pub check_swap_parameters : List ℕ → ℕ → Result StdError (Unit {0})
check_swap_parameters pools swap_amount = do
  fail_if (any_zero pools) generic_err
  fail_if (swap_amount == 0) generic_err

-- `addr_opt_validate`
unfoldable pub addr_opt_validate : ⦃h : Host⦄ → Option ℕ → Result StdError (Option ℕ)
addr_opt_validate none = ok none
addr_opt_validate ⦃h⦄ (some raw) = ok_or (h.addr_validate raw) generic_err >>= λ a. ok (some a)
