-- ===== src/Core/Validation.antt =====
-- What the checks of an order request guarantee.
use hydra_engine.Base.{
  ◌≤◌, ◌≡◌, ◌≢◌, refl, true, false, ◌&&◌, ◌||◌, Option, none, some, ◌⊎◌, inl, inr, [], ltb, arith,
}
use hydra_engine.Text.{Str, codes, str_eq}
use hydra_engine.Float.{Float}
use hydra_engine.Core.Types.{Market, binance, market_name}
use hydra_engine.Core.Orders.{OrderRequest, qty_valid, futures_market, make_order}

futures_market-names :
    (m : Market)
    → futures_market m
      ≡ (str_eq (market_name m) (codes "binance") || str_eq (market_name m) (codes "hl"))
unfolding futures_market str_eq
futures_market-names binance = refl
futures_market-names _ = refl

-- No quantity, or one that is not at most 0: a NaN too.
abbrev pub IsUsable : {F : Type 0} → Float F → Option F → Type 0
IsUsable {F} f qty = (qty ≡ none) ⊎ ((v : F) × (qty ≡ some v) × (f.le v (f.lit 0 0) ≡ false))

qty_valid-IsUsable :
    {F : Type 0} (f : Float F) (qty : Option F) → qty_valid f qty ≡ true → IsUsable f qty
unfolding qty_valid
qty_valid-IsUsable f none h = inl refl
qty_valid-IsUsable f (some v) h = inr (v, refl, ground arith)

-- A request that is made has the quantity and the leverage that were given: no quantity or one that is not
-- at most 0 (a test that a NaN passes), and a leverage from 1 to 125, for spot markets too. It has a key,
-- if the identifier made for it is not empty, and it counts as a futures order exactly if it says so, or
-- if it is leveraged above 1 on binance or hl.
pub make_order-valid :
    {F : Type 0} (f : Float F) (uuid : Str) (o : OrderRequest F) {made : OrderRequest F}
    → uuid ≢ []
    → make_order f uuid o ≡ some made
    → IsUsable f made.qty
      × (made.qty ≡ o.qty)
      × (1 ≤ made.leverage)
      × (made.leverage ≤ 125)
      × (made.leverage ≡ o.leverage)
      × (made.idempotency_key ≢ [])
      × (made.is_futures ≡ (
          o.is_futures
          || (ltb 1 o.leverage
              && (str_eq (market_name o.market) (codes "binance")
                  || str_eq (market_name o.market) (codes "hl")))))
unfolding make_order
make_order-valid f uuid o {made} u h =
    ground (arith, qty_valid-IsUsable f o.qty, futures_market-names o.market)
