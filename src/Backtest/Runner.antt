-- ===== src/Backtest/Runner.antt =====
-- hydra/backtest/runner.py: the loop over the candles, from the warm-up on.
pub mod Windows
pub mod Chronology
pub mod Outcome
use hydra_engine.Base.{
  ℕ, zero, suc, ◌+◌, ◌-◌, ◌≡◌, Bool, true, false, ◌&&◌, Option, none, some, List, [], ◌∷◌, length,
  take, drop, get_last?, filter, map, leb, if◌then◌else◌,
}
use hydra_engine.Text.{Str, codes}
use hydra_engine.Dict.{insert}
use hydra_engine.Float.{Float}
use hydra_engine.Exec.{Result, ok, err, and_then}
use hydra_engine.Candle.{Candle, compute}
use hydra_engine.Strategy.Indicators.{Indicators}
use hydra_engine.Strategy.Detector.{detect}
use hydra_engine.Strategy.Generator.{Signal, generate}
use hydra_engine.Backtest.Broker.{
  Trade, EquityPoint, Broker, BacktestError, value_error, new_broker, on_signal,
  close_open_position,
}
use hydra_engine.Backtest.Metrics.{Metrics, compute_metrics}

abbrev pub warmup : ℕ
warmup = 210

pub record BacktestResult (F : Type 0) : Type 0 where
  pub market : Str
  pub symbol : Str
  pub timeframe : Str
  pub since : ℕ
  pub until : ℕ
  pub initial_capital : F
  pub final_equity : F
  pub trades : List (Trade F)
  pub equity_curve : List (EquityPoint F)
  pub metrics : Metrics F

-- The parameters of the runner. `study` is what pandas-ta computes, `now` and `clock` what the clock
-- says when the calculator and the generator ask, in the round of a candle.
pub record Runner (F : Type 0) : Type 0 where
  pub study : List (Candle F) → Indicators F
  pub now : ℕ → ℕ
  pub clock : ℕ → ℕ
  pub initial_capital : F
  pub trade_amount : F
  pub commission : F

module _ {F : Type 0} where
  -- `candles[i]`
  unfoldable pub candle_at : List (Candle F) → ℕ → Option (Candle F)
  candle_at [] i = none
  candle_at (c ∷ cs) zero = some c
  candle_at (c ∷ cs) (suc i) = candle_at cs i

  -- `candles[i - _WARMUP + 1: i + 1]`, where the index is at least `_WARMUP`
  unfoldable pub window : List (Candle F) → ℕ → List (Candle F)
  window candles i = take warmup (drop (i + 1 - warmup) candles)

  -- The search for `trading_start_idx`, from the index `i` of the first candle of the list.
  unfoldable pub first_index : ℕ → ℕ → List (Candle F) → Option ℕ
  first_index since i [] = none
  first_index since i (c ∷ cs) =
      if leb since c.open_time && leb warmup i then some i else first_index since (suc i) cs

  -- `t.market = market`, `t.symbol = symbol`
  unfoldable pub label : Str → Str → Trade F → Trade F
  label market symbol t = record t { market = market; symbol = symbol }

module _ {F : Type 0} (f : Float F) (r : Runner F) where
  -- The body of the loop after the calculator.
  abbrev pub react : Indicators F → Candle F → ℕ → Broker F → Result BacktestError (Broker F)
  react [] c i b = ok b
  react (v ∷ vs) c i b =
      let indicators = insert (codes "close") (some c.close) (v ∷ vs) in
      let regime = detect f indicators c.close in
      on_signal f (generate f (r.clock i) indicators regime c.close) c b

  abbrev pub react_at :
      Option (Candle F) → List (Candle F) → ℕ → Broker F → Result BacktestError (Broker F)
  react_at none seen i b = ok b
  react_at (some c) seen i b = react (compute f r.study (r.now i) seen) c i b

  -- One round of the loop.
  unfoldable pub round : List (Candle F) → ℕ → Broker F → Result BacktestError (Broker F)
  round candles i b = react_at (candle_at candles i) (window candles i) i b

  -- `for i in range(start, …)`, with the rounds that are left.
  unfoldable pub rounds : List (Candle F) → ℕ → ℕ → Broker F → Result BacktestError (Broker F)
  rounds candles zero i b = ok b
  rounds candles (suc n) i b = and_then (round candles i b) (rounds candles n (suc i))

  abbrev pub finish_with : Option (Candle F) → Broker F → Result BacktestError (Broker F)
  finish_with none b = ok b
  finish_with (some last) b =
      close_open_position f last.close last.open_time (codes "backtest_end") b

  -- The broker when the loop is over and the last position is closed.
  unfoldable pub final_broker : List (Candle F) → ℕ → Result BacktestError (Broker F)
  final_broker candles start =
      and_then
        (rounds candles (length candles - start) start
          (new_broker r.initial_capital r.trade_amount r.commission))
        (finish_with (get_last? candles))

  abbrev pub report :
      Str
      → Str
      → Str
      → ℕ
      → ℕ
      → F
      → List (Trade F)
      → List (EquityPoint F)
      → F
      → Result BacktestError (BacktestResult F)
  report market symbol timeframe since until final_equity trades curve equity =
      and_then (compute_metrics f trades curve r.initial_capital equity) λ metrics. ok (record {
        market = market;
        symbol = symbol;
        timeframe = timeframe;
        since = since;
        until = until;
        initial_capital = r.initial_capital;
        final_equity = final_equity;
        trades = trades;
        equity_curve = curve;
        metrics = metrics;
      })

  -- The part of `run` after the candles are filtered.
  unfoldable pub run_on :
      Str → Str → Str → ℕ → ℕ → List (Candle F) → Result BacktestError (BacktestResult F)
  run_on market symbol timeframe since until candles = elim (first_index since 0 candles) [
    | none ↦ report market symbol timeframe since until r.initial_capital [] [] r.initial_capital
    | some start ↦ and_then (final_broker candles start) λ b.
        report market symbol timeframe since until (f.round 6 b.capital)
          (map (label market symbol) b.trades) b.equity_curve b.capital
  ]

  -- `run`, where `stored` is the answer of the store.
  unfoldable pub run :
      Str → Str → Str → ℕ → ℕ → List (Candle F) → Result BacktestError (BacktestResult F)
  unfolding run_on
  run market symbol timeframe since until stored =
      if leb until since
      then err value_error
      else run_on market symbol timeframe since until (filter (λ c. leb c.open_time until) stored)
