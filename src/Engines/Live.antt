-- ===== src/Engines/Live.antt =====
-- The three engines over one Redis server. Each has its own subscription to "hydra:candle:new" and waits
-- at every call of Redis, so their handlers interleave: a step is what an engine does between two waits.
use hydra_engine.Base.{ℕ, ◌≡◌, Option, none, some, List, [], ◌∷◌, ◌++◌}
use hydra_engine.Text.{Str}
use hydra_engine.Float.{Float}
use hydra_engine.Json.{Payload}
use hydra_engine.Redis.{Redis}
use hydra_engine.Core.Orders.{Venue}
use hydra_engine.Core.OrderQueue.{World}
use hydra_engine.Candle.{Candle}
use hydra_engine.Strategy.Indicators.{Indicators}
use hydra_engine.Engines.Events.{Event, key_of, indicator_prefix, regime_prefix, signal_prefix}
use hydra_engine.Engines.Indicator
use hydra_engine.Engines.Regime.{handle_raw}
use hydra_engine.Engines.Strategy.{Trader, Ids, inputs_from, act_if}
use hydra_engine.Engines.Messages.{Message, heard, turn}

-- How far the strategy engine is with an event: it reads the indicators, then the regime, then acts.
pub data Stage (F : Type 0) : Type 0 where
  idle : Stage F
  has_indicators : Event → Option (Payload F) → Stage F
  has_inputs : Event → Option (Indicators F × Str) → Stage F

-- The server and the exchange, the messages that wait for each engine, and what the engines that are in
-- the middle of an event have read.
pub record Live (F R X : Type 0) : Type 0 where
  pub world : World R X
  pub indicator_inbox : List (Message F)
  pub regime_inbox : List (Message F)
  pub strategy_inbox : List (Message F)
  pub regime_reading : Option (Event × Option (Payload F))
  pub strategy_progress : Stage F

module _ {F R X : Type 0} where
  abbrev pub with_redis : Live F R X → R → Live F R X
  with_redis s r = record s { world = record s.world { redis = r } }

module _ {F R : Type 0} where
  -- The caches of an event are the same on both servers.
  abbrev pub SameCaches : Redis F R → R → R → Type 0
  SameCaches redis r r' =
      (e : Event)
      → (redis.get r' (key_of indicator_prefix e) ≡ redis.get r (key_of indicator_prefix e))
        × (redis.get r' (key_of regime_prefix e) ≡ redis.get r (key_of regime_prefix e))
        × (redis.get r' (key_of signal_prefix e) ≡ redis.get r (key_of signal_prefix e))

module _ {F R X : Type 0} (f : Float F) (redis : Redis F R) (venue : Venue F X)
    (study : List (Candle F) → Indicators F) (trader : Trader F) where
  abbrev pub begin_regime : Option Event → R → Option (Event × Option (Payload F))
  begin_regime none r = none
  begin_regime (some e) r = some (e, redis.get r (key_of indicator_prefix e))

  abbrev pub begin_strategy : Option Event → R → Stage F
  begin_strategy none r = idle
  begin_strategy (some e) r = has_indicators e (redis.get r (key_of indicator_prefix e))

  pub data LiveStep (s t : Live F R X) : Type 0 where
    -- The collector announces new candles.
    published :
        (m : Message F)
        → t ≡ record s {
          indicator_inbox = s.indicator_inbox ++ m ∷ [];
          regime_inbox = s.regime_inbox ++ m ∷ [];
          strategy_inbox = s.strategy_inbox ++ m ∷ [];
        }
        → LiveStep s t
    -- The indicator engine writes what it makes of the candles that its query returned.
    indicator_writes :
        (now : ℕ) (candles : List (Candle F)) (m : Message F) (rest : List (Message F))
        → s.indicator_inbox ≡ m ∷ rest
        → t
          ≡ record (with_redis s (
              turn
                (λ e. Indicator.handle_event f redis study now candles e)
                (heard m)
                s.world.redis)) { indicator_inbox = rest }
        → LiveStep s t
    regime_reads :
        (m : Message F) (rest : List (Message F))
        → s.regime_reading ≡ none
        → s.regime_inbox ≡ m ∷ rest
        → t
          ≡ record s { regime_inbox = rest; regime_reading = begin_regime (heard m) s.world.redis }
        → LiveStep s t
    regime_writes :
        (now : ℕ) (e : Event) (raw : Option (Payload F))
        → s.regime_reading ≡ some (e, raw)
        → t ≡ record (with_redis s (handle_raw f redis now e raw s.world.redis)) {
          regime_reading = none;
        }
        → LiveStep s t
    strategy_reads_indicators :
        (m : Message F) (rest : List (Message F))
        → s.strategy_progress ≡ idle
        → s.strategy_inbox ≡ m ∷ rest
        → t ≡ record s {
          strategy_inbox = rest;
          strategy_progress = begin_strategy (heard m) s.world.redis;
        }
        → LiveStep s t
    strategy_reads_regime :
        (e : Event) (raw : Option (Payload F))
        → s.strategy_progress ≡ has_indicators e raw
        → t ≡ record s {
          strategy_progress =
              has_inputs e (inputs_from f raw (redis.get s.world.redis (key_of regime_prefix e)));
        }
        → LiveStep s t
    -- The signal is written and the order submitted.
    strategy_acts :
        (ts : ℕ) (ids : Ids) (e : Event) (o : Option (Indicators F × Str))
        → s.strategy_progress ≡ has_inputs e o
        → t ≡ record s {
          world = act_if f redis venue ts ids trader e o s.world;
          strategy_progress = idle;
        }
        → LiveStep s t
    -- A connection is lost, and with it the messages that were not read.
    indicator_reconnects : t ≡ record s { indicator_inbox = [] } → LiveStep s t
    regime_reconnects : t ≡ record s { regime_inbox = [] } → LiveStep s t
    strategy_reconnects : t ≡ record s { strategy_inbox = [] } → LiveStep s t
    -- Anything else, which leaves the caches alone.
    elsewhere :
        (w : World R X)
        → SameCaches redis s.world.redis w.redis
        → t ≡ record s { world = w }
        → LiveStep s t

  pub data LiveReach (s : Live F R X) : Live F R X → Type 0 where
    here : LiveReach s s
    next : {t u : Live F R X} → LiveReach s t → LiveStep t u → LiveReach s u
