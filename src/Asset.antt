-- ===== src/Asset.antt =====
-- packages/wyndex/src/asset.rs: the two kinds of assets, as keys of storage maps. A denomination and
-- an address are numbers that keep the order of the strings.
pub mod Amounts
use wynddex.Base.{
  ℕ, ◌≡◌, ◌↔◌, Bool, true, false, arith, ◌==◌, ltb, not, ◌&&◌, Option, none, some, if◌then◌else◌,
}
use mathlib.Core.Option
use wynddex.Map.{Key}
use wynddex.Host.{Host}
use wynddex.Platform.{Msg, cw20_transfer, bank_send}

-- `AssetInfo` and `AssetInfoValidated` have the same shape; `validate` checks a token's address.
pub data AssetInfo : Type 0 where
  token : ℕ → AssetInfo
  native : ℕ → AssetInfo

-- the derived `PartialEq`
abbrev pub equal : AssetInfo → AssetInfo → Bool
equal (token a) (token b) = a == b
equal (native a) (native b) = a == b
equal _ _ = false

-- `key`: a native denomination is tagged 0, a token 1.
abbrev pub before : AssetInfo → AssetInfo → Bool
before (token a) (token b) = ltb a b
before (native a) (native b) = ltb a b
before (native a) (token b) = true
before (token a) (native b) = false

pub equal_iff : (a b : AssetInfo) → (equal a b ≡ true) ↔ (a ≡ b)
equal_iff (token a) (token b) = ground arith
equal_iff (native a) (native b) = ground arith
equal_iff (token a) (native b) = ground arith
equal_iff (native a) (token b) = ground arith

instance abbrev pub asset_key : Key AssetInfo
asset_key = record { keq = equal; klt = before; keq_iff = equal_iff }

-- `AssetInfo::validate`; a failure is a `StdError`.
unfoldable pub validate : ⦃h : Host⦄ → AssetInfo → Option AssetInfo
validate ⦃h⦄ (token contract_addr) = Option.map token (h.addr_validate contract_addr)
validate ⦃h⦄ (native denom) =
    if not (h.is_ibc denom) && not (h.is_lowercase denom) then none else some (native denom)

-- `AssetValidated::into_msg`
unfoldable pub into_msg : AssetInfo → ℕ → ℕ → Msg
into_msg (token contract) amount recipient = cw20_transfer contract recipient amount
into_msg (native denom) amount recipient = bank_send denom recipient amount
