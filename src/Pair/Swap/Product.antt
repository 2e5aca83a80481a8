-- ===== src/Pair/Swap/Product.antt =====
-- What a swap pays and what it leaves: the protocol takes part of the commission only, and the pools'
-- product is kept.
use wynddex.Base.{◌+◌, ◌-◌, ◌*◌, ◌≤◌, ◌<◌, ◌≡◌, ◌⊎◌, some, List, get_elem?}
use wynddex.Host.{Host}
use wynddex.Decimals.{Decimals, decimal_unit}
use wynddex.Asset.Amounts.{AssetValidated}
use wynddex.Pair.Swap.{SwapResult}

module _ ⦃h : Host⦄ ⦃d : Decimals⦄ where
  -- What a swap pays, against the two pools: one holds the asset that is offered, and the payment
  -- is in the asset of the other. The product is that of `compute_swap`, with what the protocol
  -- takes out of the ask pool.
  abbrev pub IsPaidSwap : List AssetValidated → AssetValidated → SwapResult → Type 0
  IsPaidSwap pools offer result =
      (offer_pool : AssetValidated) × (ask_pool : AssetValidated) × (pool0 : AssetValidated)
      × (pool1 : AssetValidated) × (get_elem? pools 0 ≡ some pool0)
      × (get_elem? pools 1 ≡ some pool1)
      × (((offer_pool ≡ pool0) × (ask_pool ≡ pool1)) ⊎ ((offer_pool ≡ pool1) × (ask_pool ≡ pool0)))
      × (offer_pool.info ≡ offer.info)
      × (result.return_asset.info ≡ ask_pool.info)
      × (result.protocol_fee_amount ≤ result.commission_amount)
      × (result.return_asset.amount + result.protocol_fee_amount ≤ ask_pool.amount)
      × (offer_pool.amount * ask_pool.amount * decimal_unit
          < (ask_pool.amount - (result.return_asset.amount + result.protocol_fee_amount))
              * (offer_pool.amount + offer.amount)
              * decimal_unit
            + (offer_pool.amount + offer.amount))
