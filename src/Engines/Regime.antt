-- ===== src/Engines/Regime.antt =====
-- hydra/regime/engine.py: the event handler and the cold start. An exception is logged and dropped.
use hydra_engine.Base.{ℕ, Option, none, some, List, [], ◌∷◌}
use hydra_engine.Text.{Str, codes}
use hydra_engine.Float.{Float}
use hydra_engine.Json.{Json, str, int, obj, field, end, Payload, dumped}
use hydra_engine.Redis.{Redis}
use hydra_engine.Exec.{ok, err}
use hydra_engine.Strategy.Indicators.{Indicators, close_of}
use hydra_engine.Strategy.Detector.{detect}
use hydra_engine.EventKeys.{parse_key}
use hydra_engine.Engines.Events.{Event, key_of, indicator_prefix, regime_prefix, indicators_of}

module _ {F : Type 0} where
  abbrev pub regime_json : Str → ℕ → Json F
  regime_json regime now =
      obj (field (codes "regime") (str regime) (field (codes "detected_at") (int now) end))

module _ {F R : Type 0} (f : Float F) (redis : Redis F R) where
  -- The handler after the dictionary was read.
  abbrev pub store_regime : ℕ → Event → Indicators F → R → R
  store_regime now e ind r =
      redis.set r (key_of regime_prefix e)
        (dumped (regime_json (detect f ind (close_of f ind)) now))

  abbrev pub handle_raw : ℕ → Event → Option (Payload F) → R → R
  handle_raw now e none r = r
  handle_raw now e (some raw) r = elim (indicators_of f raw) [
    | err x ↦ r
    | ok ind ↦ store_regime now e ind r
  ]

  -- `_handle_event`; `now` is the time in milliseconds
  unfoldable pub handle_event : ℕ → Event → R → R
  handle_event now e r = handle_raw now e (redis.get r (key_of indicator_prefix e)) r

  -- The loop of `cold_start` over the keys that are left; a key with too few parts is skipped.
  unfoldable pub handle_keys : ℕ → List Str → R → R
  handle_keys now [] r = r
  handle_keys now (k ∷ ks) r = elim (parse_key k) [
    | none ↦ handle_keys now ks r
    | some (market, symbol, timeframe) ↦
        handle_keys now ks
          (handle_event now (record { market = market; symbol = symbol; timeframe = timeframe }) r)
  ]

  unfoldable pub cold_start : ℕ → R → R
  unfolding handle_keys
  cold_start now r = handle_keys now (redis.keys r (codes "hydra:indicator:")) r
