-- ===== src/Pair/Checks.antt =====
-- packages/wyndex/src/pair/utils.rs and the fee and swap checks of a pair.
use wynddex.Base.{
  ℕ, ◌-◌, Bool, true, false, not, ◌&&◌, ◌||◌, List, [], ◌∷◌, Option, none, some, Result, ok, ◌>>=◌,
  ◌>>◌, fail_if, ok_or, unwrap, unwrap_or, ltb, ◌==◌, if◌then◌else◌,
}
use wynddex.Num.{add128}
use wynddex.Host.{Host}
use wynddex.Decimals.{Decimals}
use wynddex.Asset.{AssetInfo, token, equal, validate}
use wynddex.Asset.Amounts.{AssetValidated, validate_asset}
use wynddex.Platform.{StdError, generic_err}
use wynddex.Pair.State.{
  PairError, std, lift, unauthorized, doubling_assets, allowed_spread_assertion,
  max_spread_assertion, Querier,
}

-- `DEFAULT_SLIPPAGE` and `MAX_ALLOWED_SLIPPAGE`, in atomics
abbrev pub default_slippage : ℕ
default_slippage = 5000000000000000

abbrev pub max_allowed_slippage : ℕ
max_allowed_slippage = 500000000000000000

abbrev pub has_address : ℕ → List ℕ → Bool
has_address a [] = false
has_address a (b ∷ bs) = (a == b) || has_address a bs

unfoldable pub migration_check : ⦃q : Querier⦄ → ℕ → ℕ → Result StdError Bool
migration_check ⦃q⦄ factory pair_addr = do
  found ← ok_or (q.pairs_to_migrate factory) generic_err
  ok (elim found [ none ↦ false | some pairs ↦ has_address pair_addr pairs ])

abbrev pub has_info : AssetInfo → List AssetInfo → Bool
has_info a [] = false
has_info a (b ∷ bs) = equal a b || has_info a bs

-- `all_unique`
abbrev pub all_unique : List AssetInfo → Bool
all_unique [] = true
all_unique (a ∷ as') = not (has_info a as') && all_unique as'

module _ ⦃h : Host⦄ where
  unfoldable pub validate_infos : List AssetInfo → Result StdError (List AssetInfo)
  validate_infos [] = ok []
  validate_infos (a ∷ as') = do
    v ← ok_or (validate a) generic_err
    vs ← validate_infos as'
    ok (v ∷ vs)

  unfoldable pub check_asset_infos : List AssetInfo → Result PairError (List AssetInfo)
  check_asset_infos asset_infos = do
    fail_if (not (all_unique asset_infos)) doubling_assets
    lift (validate_infos asset_infos)

  unfoldable pub validate_assets : List AssetValidated → Result StdError (List AssetValidated)
  validate_assets [] = ok []
  validate_assets (a ∷ as') = do v ← validate_asset a; vs ← validate_assets as'; ok (v ∷ vs)

  abbrev pub infos : List AssetValidated → List AssetInfo
  infos [] = []
  infos (a ∷ as') = a.info ∷ infos as'

  unfoldable pub check_assets : List AssetValidated → Result PairError (List AssetValidated)
  check_assets assets = do
    fail_if (not (all_unique (infos assets))) doubling_assets
    lift (validate_assets assets)

unfoldable pub check_cw20_in_pool : List AssetInfo → ℕ → Result PairError (Unit {0})
check_cw20_in_pool asset_infos cw20_sender =
    fail_if (not (has_info (token cw20_sender) asset_infos)) unauthorized

module _ ⦃h : Host⦄ ⦃d : Decimals⦄ where
  -- The spread that is compared, and whether it is compared at all.
  unfoldable pub spread_exceeds : Option ℕ → ℕ → ℕ → ℕ → ℕ → Result PairError Bool
  spread_exceeds (some belief_price) max_spread offer_amount return_amount spread_amount = do
    inverse ← ok_or (d.inv belief_price) (std generic_err)
    expected_return ← unwrap (h.mul_decimal offer_amount inverse)
    let spread = expected_return - return_amount
    let compare : Result PairError Bool = do
      ratio ← unwrap (d.from_ratio spread expected_return)
      ok (ltb max_spread ratio)
    if ltb return_amount expected_return then compare else ok false
  spread_exceeds none max_spread offer_amount return_amount spread_amount = do
    full ← add128 return_amount spread_amount
    ratio ← unwrap (d.from_ratio spread_amount full)
    ok (ltb max_spread ratio)

  unfoldable pub assert_max_spread : Option ℕ → Option ℕ → ℕ → ℕ → ℕ → Result PairError (Unit {0})
  assert_max_spread belief_price max_spread offer_amount return_amount spread_amount = do
    let limit = unwrap_or max_spread default_slippage
    fail_if (ltb max_allowed_slippage limit) allowed_spread_assertion
    exceeds ← spread_exceeds belief_price limit offer_amount return_amount spread_amount
    fail_if exceeds max_spread_assertion

  unfoldable pub refund : ℕ → List AssetValidated → Result PairError (List AssetValidated)
  refund share_ratio [] = ok []
  refund share_ratio (pool ∷ pools) = do
    amount ← unwrap (h.mul_decimal pool.amount share_ratio)
    rest ← refund share_ratio pools
    ok (record { info = pool.info; amount = amount } ∷ rest)

  unfoldable pub get_share_in_assets :
      List AssetValidated → ℕ → ℕ → Result PairError (List AssetValidated)
  get_share_in_assets pools amount total_share = do
    share_ratio ← if total_share == 0 then ok 0 else unwrap (d.from_ratio amount total_share)
    refund share_ratio pools

-- `PairInfo::query_pools`
module _ ⦃q : Querier⦄ where
  unfoldable pub query_pools : List AssetInfo → ℕ → Result StdError (List AssetValidated)
  query_pools [] contract_addr = ok []
  query_pools (info ∷ rest) contract_addr = do
    amount ← ok_or (q.query_balance info contract_addr) generic_err
    pools ← query_pools rest contract_addr
    ok (record { info = info; amount = amount } ∷ pools)
