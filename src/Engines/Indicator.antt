-- ===== src/Engines/Indicator.antt =====
-- hydra/indicator/engine.py: the event handler. An exception is logged and dropped.
use hydra_engine.Base.{ℕ, List, [], ◌∷◌}
use hydra_engine.Float.{Float}
use hydra_engine.Json.{obj, dumped}
use hydra_engine.Redis.{Redis}
use hydra_engine.Candle.{Candle, compute}
use hydra_engine.Strategy.Indicators.{Indicators}
use hydra_engine.Engines.Events.{Event, key_of, indicator_prefix, indicators_json}

module _ {F R : Type 0} (f : Float F) (redis : Redis F R)
    (study : List (Candle F) → Indicators F) where
  -- `if not result: return`
  abbrev pub store_indicators : Event → Indicators F → R → R
  store_indicators e [] r = r
  store_indicators e (v ∷ vs) r =
      redis.set r (key_of indicator_prefix e) (dumped (obj (indicators_json (v ∷ vs))))

  -- `_handle_event`, where `candles` is the answer of the store and `now` what the clock says; a store
  -- that raises changes nothing.
  unfoldable pub handle_event : ℕ → List (Candle F) → Event → R → R
  handle_event now candles e r = store_indicators e (compute f study now candles) r

  -- The loop of `cold_start` over the symbols of the store; `query` is what the store answers for each.
  unfoldable pub cold_start : ℕ → (Event → List (Candle F)) → List Event → R → R
  unfolding handle_event
  cold_start now query [] r = r
  cold_start now query (e ∷ es) r = cold_start now query es (handle_event now (query e) e r)
