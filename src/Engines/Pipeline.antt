-- ===== src/Engines/Pipeline.antt =====
-- From candles to a cached signal, through the three engines.
use hydra_engine.Base.{ℕ, ◌≡◌, refl, true, false, Option, some, List, ◌∷◌, arith}
use hydra_engine.Text.{Str, str_eq, str_eq_refl}
use hydra_engine.Float.{Float}
use hydra_engine.Json.{Json, Payload, dumped, obj}
use hydra_engine.Redis.{Redis, RedisLaws}
use hydra_engine.Exec.{ok}
use hydra_engine.Core.Orders.{Venue}
use hydra_engine.Core.OrderQueue.{World}
use hydra_engine.Candle.{Candle, compute}
use hydra_engine.Strategy.Indicators.{Indicators, close_of}
use hydra_engine.Strategy.Detector.{detect}
use hydra_engine.Strategy.Generator.{generate}
use hydra_engine.Strategy.Sizing.{effective_size}
use hydra_engine.EventKeys.{event_key}
use hydra_engine.Engines.Events.{
  Event, key_of, indicator_prefix, regime_prefix, signal_prefix, indicators_of, indicators_json,
  indicators_of-indicators_json,
}
use hydra_engine.Engines.Indicator
use hydra_engine.Engines.Regime
use hydra_engine.Engines.Regime.{regime_json}
use hydra_engine.Engines.Strategy
use hydra_engine.Engines.Strategy.{Trader, Ids, regime_of, signal_json, inputs, act_on}

regime_of-regime_json :
    {F : Type 0} (regime : Str) (now : ℕ)
    → regime_of {F = F} (dumped (regime_json regime now)) ≡ ok regime
unfolding regime_of
regime_of-regime_json regime now = refl

pub regime_key-ne-indicator_key :
    (e : Event) → str_eq (key_of regime_prefix e) (key_of indicator_prefix e) ≡ false
unfolding event_key str_eq
regime_key-ne-indicator_key e = refl

module _ {F : Type 0} (f : Float F) where
  -- The regime of a dictionary, and the signal that follows from it, with its size.
  abbrev pub regime_for : Indicators F → Str
  regime_for ind = detect f ind (close_of f ind)

  abbrev pub signal_for : ℕ → F → Indicators F → Json F
  signal_for ts amount ind =
      signal_json f (generate f ts ind (regime_for ind) (close_of f ind))
        (effective_size f amount (regime_for ind))

module _ {F R X : Type 0} (f : Float F) (redis : Redis F R) (laws : RedisLaws f redis)
    (venue : Venue F X) where
  pub inputs-regime :
      (now : ℕ) (e : Event) (r : R) (raw : Payload F) (ind : Indicators F)
      → redis.get r (key_of indicator_prefix e) ≡ some raw
      → indicators_of f raw ≡ ok ind
      → inputs f redis e (Regime.handle_event f redis now e r) ≡ some (ind, regime_for f ind)
  unfolding inputs Regime.handle_event
  inputs-regime now e r raw ind h k = ground (
    arith,
    regime_key-ne-indicator_key e,
    str_eq_refl (key_of regime_prefix e),
    laws.get-set r (key_of regime_prefix e) (key_of indicator_prefix e)
        (dumped (regime_json (regime_for f ind) now)),
    laws.get-set r (key_of regime_prefix e) (key_of regime_prefix e)
        (dumped (regime_json (regime_for f ind) now)),
    regime_of-regime_json {F = F} (regime_for f ind) now,
  )

  -- When a candle event goes through the indicator engine, the regime engine and the strategy engine in
  -- a dry run, and there are enough candles for the calculator, the signal that ends up in Redis is the
  -- one that the generator gives for the calculator's indicators, under the regime that the detector
  -- gives for them; and no order was sent.
  pub candles_to_signal :
      (study : List (Candle F) → Indicators F) (candles : List (Candle F)) (now later ts : ℕ)
      (ids : Ids) (t : Trader F) (e : Event) (w : World R X) (v : Str × Option F)
      (vs : Indicators F)
      → t.dry_run ≡ true
      → compute f study now candles ≡ v ∷ vs
      → (redis.get
            (Strategy.handle_event f redis venue ts ids t e (record w {
              redis =
                  Regime.handle_event f redis later e
                    (Indicator.handle_event f redis study now candles e w.redis);
            })).redis
            (key_of signal_prefix e)
          ≡ some (dumped (signal_for f ts t.trade_amount (v ∷ vs))))
        × ((Strategy.handle_event f redis venue ts ids t e (record w {
          redis =
              Regime.handle_event f redis later e
                (Indicator.handle_event f redis study now candles e w.redis);
        })).venue
            ≡ w.venue)
  unfolding Indicator.handle_event Strategy.handle_event act_on
  candles_to_signal study candles now later ts ids t e w v vs dry h =
      let ik = key_of indicator_prefix e in
      let raw = dumped (obj (indicators_json (v ∷ vs))) in
      let stored = redis.set w.redis ik raw in
      let r = Regime.handle_event f redis later e stored in
      let seen =
        inputs-regime later e stored raw (v ∷ vs)
          (ground (arith, laws.get-set w.redis ik ik raw, str_eq_refl ik))
          (indicators_of-indicators_json f (v ∷ vs)) in
      ground (
        arith,
        seen,
        str_eq_refl (key_of signal_prefix e),
        laws.get-set r (key_of signal_prefix e) (key_of signal_prefix e)
            (dumped (signal_for f ts t.trade_amount (v ∷ vs))),
      )
