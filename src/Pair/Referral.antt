-- ===== src/Pair/Referral.antt =====
-- packages/wyndex/src/pair/referral.rs: the commission of a referral, out of what is offered or on top
-- of it.
pub mod Commission
use wynddex.Base.{
  ℕ, Bool, false, not, ◌||◌, List, [], ◌∷◌, ◌++◌, Option, none, some, Result, ok, ◌>>=◌, ◌>>◌,
  fail_if, ok_or, unwrap, unwrap_or, ltb, ◌==◌, if◌then◌else◌,
}
use wynddex.Num.{sub128, add128, sub256, narrow128}
use wynddex.Host.{Host}
use wynddex.Decimals.{Decimals, decimal_unit}
use wynddex.Platform.{StdError, generic_err, Msg}
use wynddex.Asset.{into_msg}
use wynddex.Asset.Amounts.{AssetValidated}
use wynddex.Pair.State.{PairError, lift, FactoryConfig, Querier, referral_commission_too_high}

-- `== Some(Decimal::zero())`
abbrev pub is_no_commission : Option ℕ → Bool
is_no_commission none = false
is_no_commission (some c) = c == 0

unfoldable pub query_factory_config : ⦃q : Querier⦄ → ℕ → Result StdError FactoryConfig
query_factory_config ⦃q⦄ factory = ok_or (q.query_factory_config factory) generic_err

module _ ⦃h : Host⦄ where
  -- The offer that is left, and the commission.
  unfoldable pub take_referral :
      FactoryConfig → Option ℕ → AssetValidated → Result PairError (AssetValidated × ℕ)
  take_referral fc referral_commission offer = do
    let commission = unwrap_or referral_commission fc.max_referral_commission
    let taken : Result PairError (AssetValidated × ℕ) = do
      fail_if (ltb fc.max_referral_commission commission) referral_commission_too_high
      commission_amount ← unwrap (h.mul_decimal offer.amount commission)
      left ← sub128 offer.amount commission_amount
      ok (record { info = offer.info; amount = left }, commission_amount)
    if is_no_commission referral_commission then ok (offer, 0) else taken

  unfoldable pub handle_referral :
      FactoryConfig
      → Option ℕ
      → Option ℕ
      → AssetValidated
      → List Msg
      → Result PairError (AssetValidated × List Msg)
  handle_referral fc none referral_commission offer messages = ok (offer, messages)
  handle_referral fc (some referral_address) referral_commission offer messages = do
    (left, commission_amount) ← take_referral fc referral_commission offer
    let sent = messages ++ into_msg left.info commission_amount referral_address ∷ []
    ok (left, if commission_amount == 0 then messages else sent)

module _ ⦃q : Querier⦄ ⦃d : Decimals⦄ where
  -- The commission on top of an offer, such that the rest of their sum is the offer.
  unfoldable pub commission_on : ℕ → ℕ → Result PairError ℕ
  commission_on amount commission = do
    offered ← unwrap (d.from_ratio256 amount 1)
    scaled ← unwrap (d.mul_decimal256 offered commission)
    one_minus_commission ← sub256 decimal_unit commission
    quotient ← unwrap (d.div_decimal256 scaled one_minus_commission)
    whole ← unwrap (d.mul_uint256 1 quotient)
    narrow128 whole

  unfoldable pub add_referral :
      ℕ → Bool → Option ℕ → AssetValidated → Result PairError (AssetValidated × ℕ)
  add_referral factory referral referral_commission offer = do
    let added : Result PairError (AssetValidated × ℕ) = do
      fc ← lift (query_factory_config factory)
      let commission = unwrap_or referral_commission fc.max_referral_commission
      fail_if (ltb fc.max_referral_commission commission) referral_commission_too_high
      commission_amount ← commission_on offer.amount commission
      more ← add128 offer.amount commission_amount
      ok (record { info = offer.info; amount = more }, commission_amount)
    if not referral || is_no_commission referral_commission then ok (offer, 0) else added
