-- ===== src/Engines/Stale.antt =====
-- What the strategy engine writes when it is faster than the other engines.
use hydra_engine.Base.{ℕ, ◌≡◌, refl, true, Option, none, some, List, [], ◌∷◌, arith, inl, inr}
use hydra_engine.Text.{Str, str_eq, str_eq_refl}
use hydra_engine.Float.{Float}
use hydra_engine.Json.{Payload, dumped, obj}
use hydra_engine.Redis.{Redis, RedisLaws}
use hydra_engine.Exec.{Result-cases}
use hydra_engine.Core.Orders.{Venue}
use hydra_engine.Core.OrderQueue.{World}
use hydra_engine.Candle.{Candle, compute}
use hydra_engine.Strategy.Indicators.{Indicators, close_of}
use hydra_engine.Strategy.Detector.{detect}
use hydra_engine.Strategy.Generator.{generate}
use hydra_engine.Strategy.Sizing.{effective_size}
use hydra_engine.EventKeys.{event_key}
use hydra_engine.Engines.Events.{
  Event, key_of, indicator_prefix, regime_prefix, signal_prefix, indicators_of, indicators_json,
}
use hydra_engine.Engines.Indicator
use hydra_engine.Engines.Indicator.{store_indicators}
use hydra_engine.Engines.Regime
use hydra_engine.Engines.Regime.{regime_json, handle_raw}
use hydra_engine.Engines.Strategy
use hydra_engine.Engines.Strategy.{Trader, Ids, inputs, act_on, signal_json}

module _ {F R X : Type 0} (f : Float F) (redis : Redis F R) (laws : RedisLaws f redis)
    (venue : Venue F X) where
  signal-store_indicators :
      (study : List (Candle F) → Indicators F) (e : Event) (ind : Indicators F) (r : R)
      → redis.get (store_indicators f redis study e ind r) (key_of signal_prefix e)
        ≡ redis.get r (key_of signal_prefix e)
  unfolding event_key str_eq
  signal-store_indicators study e [] r = refl
  signal-store_indicators study e (v ∷ vs) r =
      laws.get-set r (key_of indicator_prefix e) (key_of signal_prefix e)
        (dumped (obj (indicators_json (v ∷ vs))))

  signal-handle_raw :
      (now : ℕ) (e : Event) (raw : Option (Payload F)) (r : R)
      → redis.get (handle_raw f redis now e raw r) (key_of signal_prefix e)
        ≡ redis.get r (key_of signal_prefix e)
  unfolding event_key str_eq
  signal-handle_raw now e none r = refl
  signal-handle_raw now e (some raw) r = elim (Result-cases (indicators_of f raw)) [
    | inl (x, p) ↦ rw (p, handle_raw) refl
    | inr (ind, p) ↦
        rw (p, handle_raw)
          (laws.get-set r (key_of regime_prefix e) (key_of signal_prefix e)
            (dumped (regime_json (detect f ind (close_of f ind)) now)))
  ]

  -- When the strategy engine, in a dry run, takes a candle event before the indicator engine does, the
  -- signal is made of the indicators and the regime that an earlier candle left, and the work of the
  -- other two engines on the event does not correct it, whatever the new candles are.
  pub stale_signal :
      (study : List (Candle F) → Indicators F) (candles : List (Candle F)) (now later ts : ℕ)
      (ids : Ids) (t : Trader F) (e : Event) (w : World R X) (old : Indicators F) (regime : Str)
      → t.dry_run ≡ true
      → inputs f redis e w.redis ≡ some (old, regime)
      → redis.get
          (Regime.handle_event f redis later e (
            Indicator.handle_event f redis study now candles e
              (Strategy.handle_event f redis venue ts ids t e w).redis))
          (key_of signal_prefix e)
        ≡ some (
            dumped (
              signal_json f
                (generate f ts old regime (close_of f old))
                (effective_size f t.trade_amount regime)))
  unfolding Indicator.handle_event Regime.handle_event Strategy.handle_event act_on
  stale_signal study candles now later ts ids t e w old regime dry h =
      let s = generate f ts old regime (close_of f old) in
      let size = effective_size f t.trade_amount regime in
      let after = Strategy.handle_event f redis venue ts ids t e w in
      let ind = compute f study now candles in
      let r = store_indicators f redis study e ind after.redis in
      ground (
        arith,
        h,
        signal-handle_raw later e (redis.get r (key_of indicator_prefix e)) r,
        signal-store_indicators study e ind after.redis,
        laws.get-set w.redis (key_of signal_prefix e) (key_of signal_prefix e)
            (dumped (signal_json f s size)),
        str_eq_refl (key_of signal_prefix e),
      )
