-- ===== src/Core/Orders.antt =====
-- The order request of hydra/core/order_queue.py, with the checks that pydantic runs when one is
-- made, and the interface of an exchange connector, hydra/exchange/base.py.
use hydra_engine.Base.{
  ℕ, Bool, true, false, ◌&&◌, ◌||◌, Option, none, some, [], ◌∷◌, ltb, if◌then◌else◌,
}
use hydra_engine.Text.{Str}
use hydra_engine.Float.{Float, zero_float}
use hydra_engine.Json.{Json, Fields, null, num}
use hydra_engine.Exec.{Action}
use hydra_engine.Core.Types.{Market, binance, hl, Side}

pub data OrderType : Type 0 where
  market_order limit_order : OrderType

pub record OrderRequest (F : Type 0) : Type 0 where
  pub market : Market
  pub symbol : Str
  pub side : Side
  pub order_type : OrderType
  pub qty : Option F
  pub price : Option F
  pub amount : Option F
  pub idempotency_key : Str
  pub exchange : Option Str
  pub leverage : ℕ
  pub is_futures : Bool

-- `market in FUTURES_MARKETS`
unfoldable pub futures_market : Market → Bool
futures_market binance = true
futures_market hl = true
futures_market _ = false

module _ {F : Type 0} (f : Float F) where
  -- A quantity is missing or positive.
  unfoldable pub qty_valid : Option F → Bool
  qty_valid none = true
  qty_valid (some v) = if f.le v (zero_float f) then false else true

  -- `if v < 1 or v > 125: raise`; a negative leverage is refused as 0 is
  unfoldable pub leverage_valid : ℕ → Bool
  leverage_valid v = if ltb v 1 || ltb 125 v then false else true

-- `model_post_init`, where `uuid` is the identifier that `uuid4` would return
unfoldable pub post_init : {F : Type 0} → Str → OrderRequest F → OrderRequest F
unfolding futures_market
post_init uuid o =
    let key : Str = elim o.idempotency_key [ [] ↦ uuid | c ∷ s ↦ c ∷ s ] in
    let futures = if ltb 1 o.leverage && futures_market o.market then true else o.is_futures in
    record o { idempotency_key = key; is_futures = futures }

-- `OrderRequest(…)`; `none` is a ValidationError
unfoldable pub make_order : {F : Type 0} → Float F → Str → OrderRequest F → Option (OrderRequest F)
unfolding qty_valid leverage_valid post_init
make_order f uuid o =
    if qty_valid f o.qty && leverage_valid f o.leverage then some (post_init uuid o) else none

-- The keyword arguments of `create_order`; Python does not check their types.
pub record OrderArgs (F : Type 0) : Type 0 where
  pub symbol : Json F
  pub side : Side
  pub order_type : OrderType
  pub qty : Json F
  pub price : Json F

-- An optional number as an argument.
abbrev pub optional_num : {F : Type 0} → Option F → Json F
optional_num none = null
optional_num (some x) = num x

-- The connectors, by their market: code that runs other programs, known by its interface. `X` is the
-- state of the venues, which only these calls change; what a call raises is known by its text.
pub record Venue (F X : Type 0) : Type 0 where
  pub create_order : Market → OrderArgs F → Action Str X (Fields F)
  pub set_leverage : Market → Str → ℕ → Action Str X (Unit {0})
  pub cancel_all : Market → Action Str X (Unit {0})
