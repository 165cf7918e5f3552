-- ===== src/Examples/Interleaved.antt =====
-- Runs of the engines that interleave, and of the collector.
use hydra_engine.Base.{ℕ, ◌≡◌, refl, false, none, some, List, [], ◌∷◌}
use hydra_engine.Text.{codes, str_eq}
use hydra_engine.Float.{Float}
use hydra_engine.Float.Fixed.{ℤ, pos, fixed}
use hydra_engine.Json.{dumped}
use hydra_engine.Redis.Memory.{Server, empty_server, memory, memory-RedisLaws}
use hydra_engine.Core.OrderQueue.{World}
use hydra_engine.Candle.{Candle, compute}
use hydra_engine.Strategy.Indicators.{Indicators, close_of}
use hydra_engine.Strategy.Generator.{generate}
use hydra_engine.Strategy.Sizing.{effective_size}
use hydra_engine.EventKeys.{event_key}
use hydra_engine.Engines.Events.{key_of, signal_prefix, indicators_json, indicators_of}
use hydra_engine.Engines.Indicator
use hydra_engine.Engines.Pipeline.{regime_for}
use hydra_engine.Engines.Regime
use hydra_engine.Engines.Strategy
use hydra_engine.Engines.Strategy.{Trader, Ids, regime_of, inputs, signal_json}
use hydra_engine.Engines.Messages.{Message, announcement, heard, turn}
use hydra_engine.Engines.Live.{
  Live, idle, with_redis, begin_regime, indicator_writes, regime_reads, LiveReach, here, next,
}
use hydra_engine.Engines.Typed.{IsTyped, no_indicators, no_regime, no_signal}
use hydra_engine.Engines.Interleaving.{LiveReach-IsTyped}
use hydra_engine.Engines.Stale.{stale_signal}
use hydra_engine.Engines.StartUp.{lower, dry_run_of, core_of, trader_of, strategy_main}
use hydra_engine.Engines.Unconnected.{main_never_trades}
use hydra_engine.Api.Types.{get_indicators, get_regime, get_signal}
use hydra_engine.Api.Guard.{auth_guard}
use hydra_engine.Api.Answering.{IsIndicatorsAnswer, IsRegimeAnswer, IsSignalAnswer, caches_served}
use hydra_engine.Examples.Data.{counting, tell, start}
use hydra_engine.Examples.Backtests.{ramp}
use hydra_engine.Examples.Live.{candles, study, made, stamp, event, dry, ids}
use hydra_engine.Examples.Stores.{store}
use hydra_engine.Examples.Http.{app, moment, Process, site, key, accepted_key}

abbrev message : Message ℤ
message = record { kind = codes "message"; payload = dumped (announcement event) }

abbrev quiet : Live ℤ (Server ℤ) ℕ
quiet = record {
  world = start;
  indicator_inbox = message ∷ [];
  regime_inbox = message ∷ [];
  strategy_inbox = message ∷ [];
  regime_reading = none;
  strategy_progress = idle;
}

empty-IsTyped : IsTyped fixed (memory fixed) empty_server
unfolding memory
empty-IsTyped = record {
  indicators_at = λ e. no_indicators;
  regime_at = λ e. no_regime;
  signal_at = λ e. no_signal;
}

-- The regime engine reads before the indicator engine writes.
abbrev reading : Live ℤ (Server ℤ) ℕ
reading = record quiet {
  regime_inbox = [];
  regime_reading =
      begin_regime fixed (memory fixed) counting study dry (heard message) empty_server;
}

abbrev written : Live ℤ (Server ℤ) ℕ
written =
    record (with_redis reading (
      turn (λ e. Indicator.handle_event fixed (memory fixed) study 7 candles e) (heard message)
        empty_server)) { indicator_inbox = [] }

run : LiveReach fixed (memory fixed) counting study dry quiet written
run =
    next (next here (regime_reads message [] refl refl refl))
      (indicator_writes 7 candles message [] refl refl)

LiveReach-IsTyped_example : IsTyped fixed (memory fixed) written.world.redis
LiveReach-IsTyped_example =
    LiveReach-IsTyped fixed (memory fixed) (memory-RedisLaws fixed) counting study dry run
      empty-IsTyped

abbrev watching : Process
watching = record site { world = written.world }

caches_served_example :
    IsIndicatorsAnswer event
      ((memory fixed).get watching.world.redis (key_of (codes "hydra:indicator") event))
      (auth_guard fixed
        (memory fixed)
        counting
        tell
        store
        app
        moment
        key
        (get_indicators event)
        watching).0
    × IsRegimeAnswer event
        ((memory fixed).get watching.world.redis (key_of (codes "hydra:regime") event))
        (auth_guard fixed
          (memory fixed)
          counting
          tell
          store
          app
          moment
          key
          (get_regime event)
          watching).0
    × IsSignalAnswer event
        ((memory fixed).get watching.world.redis (key_of (codes "hydra:signal") event))
        (auth_guard fixed
          (memory fixed)
          counting
          tell
          store
          app
          moment
          key
          (get_signal event)
          watching).0
caches_served_example =
    caches_served fixed (memory fixed) (memory-RedisLaws fixed) counting tell store app study dry
      quiet written moment key event watching run empty-IsTyped refl refl accepted_key

-- The server after an earlier candle.
abbrev earlier : World (Server ℤ) ℕ
earlier = record start {
  redis =
      Regime.handle_event fixed (memory fixed) 8 event
        (Indicator.handle_event fixed (memory fixed) study 7 candles event empty_server);
}

old_inputs :
    inputs fixed (memory fixed) event earlier.redis
    ≡ some (made ∷ stamp, regime_for fixed (made ∷ stamp))
unfolding inputs memory Regime.handle_event Indicator.handle_event compute ramp str_eq event_key
    indicators_of indicators_json regime_of
old_inputs = refl

abbrev other_study : List (Candle ℤ) → Indicators ℤ
other_study seen = (codes "RSI_14", some (pos 900000)) ∷ []

stale_signal_example :
    (memory fixed).get
      (Regime.handle_event fixed (memory fixed) 18 event (
        Indicator.handle_event fixed
          (memory fixed)
          other_study
          17
          candles
          event
          (Strategy.handle_event fixed (memory fixed) counting 19 ids dry event earlier).redis))
      (key_of signal_prefix event)
    ≡ some (
        dumped (
          signal_json fixed
            (generate fixed 19
              (made ∷ stamp)
              (regime_for fixed (made ∷ stamp))
              (close_of fixed (made ∷ stamp)))
            (effective_size fixed dry.trade_amount (regime_for fixed (made ∷ stamp)))))
stale_signal_example =
    stale_signal fixed (memory fixed) (memory-RedisLaws fixed) counting other_study candles 17 18 19
      ids dry event earlier (made ∷ stamp) (regime_for fixed (made ∷ stamp)) refl old_inputs

-- Numbers whose texts all read as 100.
abbrev reading_100 : Float ℤ
reading_100 = record fixed { parse = λ s. some (pos 1000000) }

abbrev live : Trader ℤ
live = record { dry_run = false; core = core_of reading_100 false; trade_amount = pos 1000000 }

live_settings : trader_of reading_100 (some (codes "False")) none ≡ some live
unfolding trader_of dry_run_of lower str_eq
live_settings = refl

main_never_trades_example :
    (strategy_main reading_100
      (memory fixed)
      counting
      (λ n. n)
      (λ n. ids)
      (λ n. ids)
      live
      (message ∷ [])
      earlier).venue
    ≡ 0
main_never_trades_example =
    main_never_trades reading_100 (memory fixed) counting (some (codes "False")) none (λ n. n)
      (λ n. ids) (λ n. ids) live (message ∷ []) earlier live_settings
