-- ===== src/Engines/Strategy.antt =====
-- hydra/strategy/engine.py: the event handler, the order that it sends and the cold start. An exception
-- is logged and dropped; what was written before stays.
use hydra_engine.Base.{
  ℕ, ◌+◌, Bool, true, false, not, ◌&&◌, Option, none, some, List, [], ◌∷◌, if◌then◌else◌,
}
use hydra_engine.Text.{Str, codes, str_eq}
use hydra_engine.Float.{Float, zero_float}
use hydra_engine.Json.{Json, Fields, str, num, int, obj, field, end, member?, Payload, dumped}
use hydra_engine.Redis.{Redis}
use hydra_engine.Exec.{Result, ok, err, and_then}
use hydra_engine.Core.Types.{
  Market, kr, us, upbit, binance, hl, poly, market_name, Side, buy, sell, Error, value_error,
}
use hydra_engine.Core.RiskEngine.{RiskConfig, check_order_allowed}
use hydra_engine.Core.PositionTracker.{decode}
use hydra_engine.Core.Orders.{OrderRequest, market_order, make_order, Venue}
use hydra_engine.Core.OrderQueue.{OrderQueue, World, fields_of, submit}
use hydra_engine.Strategy.Indicators.{Indicators, close_of}
use hydra_engine.Strategy.Detector.{ranging}
use hydra_engine.Strategy.Generator.{Advice, buy_signal, sell_signal, hold_signal, Signal, generate}
use hydra_engine.Strategy.Sizing.{effective_size}
use hydra_engine.EventKeys.{parse_key}
use hydra_engine.Engines.Events.{
  Event, key_of, indicator_prefix, regime_prefix, signal_prefix, indicators_of,
}

-- The engine: its mode, the order queue with the limits of the risk engine if it has them, and the
-- amount to trade.
pub record Trader (F : Type 0) : Type 0 where
  pub dry_run : Bool
  pub core : Option (OrderQueue F × RiskConfig F)
  pub trade_amount : F

-- The identifiers that `uuid4` gives to a new order and to an answer with none.
pub record Ids : Type 0 where
  pub order : Str
  pub answer : Str

-- The literal that pydantic accepts; none is a ValidationError.
unfoldable pub find_market : Str → List Market → Option Market
unfolding str_eq
find_market s [] = none
find_market s (m ∷ ms) = if str_eq s (market_name m) then some m else find_market s ms

abbrev pub markets : List Market
markets = kr ∷ us ∷ upbit ∷ binance ∷ hl ∷ poly ∷ []

-- `signal.signal in ("BUY", "SELL")`
abbrev pub acts : Advice → Bool
acts hold_signal = false
acts _ = true

-- `"buy" if signal.signal == "BUY" else "sell"`
abbrev pub order_side : Advice → Side
order_side buy_signal = buy
order_side _ = sell

abbrev pub advice_name : Advice → Str
advice_name buy_signal = codes "BUY"
advice_name sell_signal = codes "SELL"
advice_name hold_signal = codes "HOLD"

module _ {F : Type 0} where
  -- `.get("regime", "ranging")`; the regime engine stores text only
  abbrev pub label_of : Fields F → Result (Error F) Str
  label_of d = elim (member? (codes "regime") d) [
    | none ↦ ok ranging
    | some v ↦ elim v [ str s ↦ ok s | _ ↦ err value_error ]
  ]

  unfoldable pub regime_of : Payload F → Result (Error F) Str
  unfolding member?
  regime_of raw = and_then (decode raw) λ j. and_then (fields_of j) label_of

module _ {F : Type 0} (f : Float F) where
  unfoldable pub signal_json : Signal F → F → Json F
  signal_json s size = obj (
      field (codes "signal") (str (advice_name s.signal)) (
        field (codes "reason") (str s.reason) (
          field (codes "price") (num s.price) (
            field (codes "ts") (int s.ts)
              (field (codes "effective_size") (num (f.round 4 size)) end)))))

  -- The order of a signal, with the defaults of the other fields.
  unfoldable pub signal_order : Market → Str → Signal F → F → OrderRequest F
  signal_order m symbol s size = record {
    market = m;
    symbol = symbol;
    side = order_side s.signal;
    order_type = market_order;
    qty = none;
    price = none;
    amount = some size;
    idempotency_key = [];
    exchange = none;
    leverage = 1;
    is_futures = false;
  }

  -- What the handler makes of the two values that it read.
  unfoldable pub inputs_from : Option (Payload F) → Option (Payload F) → Option (Indicators F × Str)
  inputs_from indicators regimes = elim indicators [
    | none ↦ none
    | some raw ↦ elim (indicators_of f raw) [
      | err x ↦ none
      | ok ind ↦ elim regimes [
        | none ↦ none
        | some raw_regime ↦ elim (regime_of raw_regime) [
          | err x ↦ none
          | ok regime ↦ some (ind, regime)
        ]
      ]
    ]
  ]

module _ {F R : Type 0} (f : Float F) (redis : Redis F R) where
  -- The two values that the handler reads; none where one is missing or malformed.
  unfoldable pub inputs : Event → R → Option (Indicators F × Str)
  unfolding inputs_from
  inputs e r =
      inputs_from f (redis.get r (key_of indicator_prefix e)) (redis.get r (key_of regime_prefix e))

module _ {F R X : Type 0} (f : Float F) (redis : Redis F R) (venue : Venue F X) where
  abbrev pub send : Ids → OrderQueue F → Option (OrderRequest F) → World R X → World R X
  send ids q none w = w
  send ids q (some o) w = (submit f redis venue ids.answer q o w).1

  abbrev pub make : Ids → Option Market → Str → Signal F → F → Option (OrderRequest F)
  make ids none symbol s size = none
  make ids (some m) symbol s size = make_order f ids.order (signal_order f m symbol s size)

  -- `_submit_order`: the risk check, the request and the submission.
  unfoldable pub submit_order :
      Ids → OrderQueue F × RiskConfig F → Event → Signal F → F → World R X → World R X
  unfolding find_market
  submit_order ids (q, config) e s size w =
      elim (check_order_allowed f redis config w.redis e.market e.symbol (zero_float f)) [
        | err x ↦ w
        | ok verdict ↦
            if verdict.0
            then send ids q (make ids (find_market e.market markets) e.symbol s size) w
            else w
      ]

  abbrev pub submit_with :
      Ids → Option (OrderQueue F × RiskConfig F) → Event → Signal F → F → World R X → World R X
  submit_with ids none e s size w = w
  submit_with ids (some core) e s size w = submit_order ids core e s size w

  -- The handler after both values were read: the signal is cached, then traded unless in a dry run.
  unfoldable pub act_on : ℕ → Ids → Trader F → Event → Indicators F → Str → World R X → World R X
  unfolding submit_order signal_json
  act_on ts ids t e ind regime w =
      let s = generate f ts ind regime (close_of f ind) in
      let size = effective_size f t.trade_amount regime in
      let cached = record w {
        redis = redis.set w.redis (key_of signal_prefix e) (dumped (signal_json f s size));
      } in
      if acts s.signal && not t.dry_run then submit_with ids t.core e s size cached else cached

  abbrev pub act_if :
      ℕ → Ids → Trader F → Event → Option (Indicators F × Str) → World R X → World R X
  act_if ts ids t e none w = w
  act_if ts ids t e (some (ind, regime)) w = act_on ts ids t e ind regime w

  unfoldable pub handle_event : ℕ → Ids → Trader F → Event → World R X → World R X
  unfolding inputs
  handle_event ts ids t e w = act_if ts ids t e (inputs f redis e w.redis) w

  -- The loop of `cold_start` over the keys that are left. `ids` gives the identifiers of each event.
  unfoldable pub handle_keys : ℕ → (ℕ → Ids) → Trader F → List Str → ℕ → World R X → World R X
  handle_keys ts ids t [] n w = w
  handle_keys ts ids t (k ∷ ks) n w = elim (parse_key k) [
    | none ↦ handle_keys ts ids t ks (n + 1) w
    | some (market, symbol, timeframe) ↦ handle_keys ts ids t ks (n + 1) (
        handle_event ts (ids n) t
          (record { market = market; symbol = symbol; timeframe = timeframe }) w)
  ]

  unfoldable pub cold_start : ℕ → (ℕ → Ids) → Trader F → World R X → World R X
  unfolding handle_keys
  cold_start ts ids t w = handle_keys ts ids t (redis.keys w.redis (codes "hydra:indicator:")) 0 w
