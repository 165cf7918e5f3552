-- ===== src/Examples/Live.antt =====
-- Runs of the live engines.
use hydra_engine.Config.Markets.{MarketManager}
use hydra_engine.Exchange.Crypto.{Word, Failure}
use hydra_engine.Json.{Json, obj, end}
use hydra_engine.Exec.{Action}
use hydra_engine.Base.{suc}
use hydra_engine.EventKeys.{event_key}
use hydra_engine.Base.{ℕ, ◌≡◌, refl, true, false, none, some, Option, List, [], ◌∷◌, is_some}
use hydra_engine.Text.{Str, codes, str_eq}
use hydra_engine.Float.Fixed.{ℤ, pos, fixed}
use hydra_engine.Json.{present}
use hydra_engine.Redis.Memory.{Server, empty_server, memory, memory-RedisLaws}
use hydra_engine.Exec.{ok}
use hydra_engine.Candle.{Candle, compute}
use hydra_engine.Core.Keys.{kill_blocked_key}
use hydra_engine.Core.OrderQueue.{World}
use hydra_engine.Core.RiskEngine.{default_risk_config}
use hydra_engine.Core.KillSwitch.{block_orders}
use hydra_engine.Strategy.Indicators.{Indicators}
use hydra_engine.Engines.Events.{Event, indicators_of, indicators_json}
use hydra_engine.Engines.Indicator
use hydra_engine.Engines.Regime
use hydra_engine.Engines.Strategy
use hydra_engine.Engines.Strategy.{Trader, Ids, inputs}
use hydra_engine.Engines.Safety.{no_trade_after_kill}
use hydra_engine.Examples.Data.{counting, queue}
use hydra_engine.Examples.Backtests.{ramp}

abbrev pub event : Event
event = record { market = codes "binance"; symbol = codes "BTC"; timeframe = codes "1h" }

abbrev pub dry : Trader ℤ
dry = record { dry_run = true; core = none; trade_amount = pos 1000000 }

abbrev live : Trader ℤ
live = record {
  dry_run = false;
  core = some (queue, default_risk_config fixed);
  trade_amount = pos 1000000;
}

abbrev pub ids : Ids
ids = record { order = codes "o1"; answer = codes "a1" }

abbrev pub study : List (Candle ℤ) → Indicators ℤ
study seen = (codes "RSI_14", some (pos 200000)) ∷ []

abbrev pub candles : List (Candle ℤ)
candles = ramp 0 210

abbrev pub made : Str × Option ℤ
made = (codes "RSI_14", some (pos 200000))

abbrev pub stamp : Indicators ℤ
stamp = (codes "calculated_at", some (pos 70000)) ∷ []

pub computed : compute fixed study 7 candles ≡ made ∷ stamp
unfolding compute ramp str_eq
computed = refl

-- The server with the kill switch on, after the candles have come in.
abbrev halted : World (Server ℤ) ℕ
halted = record {
  redis = Regime.handle_event fixed (memory fixed) 8 event (
      Indicator.handle_event fixed (memory fixed) study 7 candles event
        (block_orders (memory fixed) empty_server));
  venue = 0;
}

kill_key_set : is_some (present ((memory fixed).get halted.redis kill_blocked_key)) ≡ true
unfolding memory block_orders Regime.handle_event Indicator.handle_event compute ramp
    kill_blocked_key event_key indicators_of indicators_json
kill_key_set = refl

no_trade_after_kill_example :
    (Strategy.handle_event fixed (memory fixed) counting 9 ids live event halted).venue ≡ 0
no_trade_after_kill_example =
    no_trade_after_kill fixed (memory fixed) (memory-RedisLaws fixed) counting 9 ids live event
      halted kill_key_set

-- Binance is enabled, and on paper.
abbrev pub settings : MarketManager
settings = record {
  markets =
      some ((codes "binance", record { enabled = some true; mode = some (codes "paper") }) ∷ []);
  saved = none;
}

-- A program that prints an empty object.
abbrev cli : List (Word ℤ) → Action Failure ℕ (Json ℤ)
cli words n = (ok (obj end), suc n)
