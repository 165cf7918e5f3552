-- ===== src/Examples/Backtests.antt =====
-- A backtest over 212 candles: the first rounds buy, the end of the backtest sells.
use hydra_engine.Dict.{insert, lookup}
use hydra_engine.Strategy.Detector.{classify, detect}
use hydra_engine.Strategy.Indicators.{indicator}
use hydra_engine.Base.{
  ℕ, zero, suc, ◌+◌, ◌≤◌, ◌≡◌, refl, ap, some, List, [], ◌∷◌, ◌++◌, length, ltb, if◌then◌else◌,
  arith,
}
use hydra_engine.Text.{codes, str_eq}
use hydra_engine.Float.Fixed.{ℤ, pos, fixed, fixed-IsOrdered}
use hydra_engine.Exec.{ok}
use hydra_engine.Candle.{Candle, indicator_columns, compute}
use hydra_engine.Strategy.Generator.{Signal, buy_signal, generate, advise}
use hydra_engine.Backtest.Broker.{
  Broker, EquityPoint, Trade, new_broker, on_signal, open_position, divide, close_open_position,
  close_at,
}
use hydra_engine.Backtest.Metrics.{
  Metrics, max_drawdown, compute_metrics, drawdown_loop, full_metrics, drawdown, new_peak, sharpe,
  deviations, wins, sum,
}
use hydra_engine.Backtest.Metrics.Drawdown.{AtLeast, OneOf, Drawdowns, max_drawdown_exact}
use hydra_engine.Backtest.Runner.{
  Runner, BacktestResult, window, candle_at, first_index, rounds, run, final_broker, run_on, label,
  round,
}
use hydra_engine.Backtest.Runner.Windows.{rounds_no_lookahead}
use hydra_engine.Backtest.Runner.Chronology.{Chronological}
use hydra_engine.Backtest.Runner.Outcome.{IsSound, run-IsSound}

-- The price goes from 100 to 110 at the candle 211.
abbrev pub candle : ℕ → Candle ℤ
candle t =
    let price = if ltb t 211 then pos 1000000 else pos 1100000 in
    record {
      market = codes "kr";
      symbol = codes "A";
      timeframe = codes "1h";
      open_time = t;
      opening = price;
      high = price;
      low = price;
      close = price;
      volume = pos 10000;
      close_time = t + 1;
    }

-- `n` candles from the time `t` on
unfoldable pub ramp : ℕ → ℕ → List (Candle ℤ)
ramp t zero = []
ramp t (suc n) = candle t ∷ ramp (suc t) n

ramp-Chronological : (from t n : ℕ) → from ≤ t → Chronological from (ramp t n)
unfolding ramp
ramp-Chronological from t zero h = tt
ramp-Chronological from t (suc n) h = (h, ramp-Chronological t (suc t) n (omega arith))

length-ramp : (t n : ℕ) → length (ramp t n) ≡ n
unfolding ramp
length-ramp t zero = refl
length-ramp t (suc n) = ap suc (length-ramp (suc t) n)

abbrev pub candles : List (Candle ℤ)
candles = ramp 0 212

abbrev pub runner : Runner ℤ
runner = record {
  study = λ seen. (codes "RSI_14", some (pos 200000)) ∷ [];
  now = λ i. i;
  clock = λ i. i;
  initial_capital = pos 10000000;
  trade_amount = pos 1000000;
  commission = pos 0;
}

abbrev trade : Trade ℤ
trade = record {
  market = codes "kr";
  symbol = codes "A";
  entry_price = pos 1000000;
  exit_price = pos 1100000;
  qty = pos 10000;
  pnl_usd = pos 100000;
  pnl_pct = pos 100000;
  entry_ts = 210;
  exit_ts = 211;
  entry_reason = codes "ranging: rsi_oversold";
  exit_reason = codes "backtest_end";
}

abbrev curve : List (EquityPoint ℤ)
curve =
    record { ts = 210; equity = pos 10000000 }
    ∷ record { ts = 211; equity = pos 10000000 }
    ∷ record { ts = 211; equity = pos 10100000 }
    ∷ []

abbrev metrics : Metrics ℤ
metrics = record {
  total_return_pct = pos 10000;
  total_trades = 1;
  win_rate = pos 1000000;
  max_drawdown_pct = pos 0;
  sharpe_ratio = pos 0;
  avg_pnl_usd = pos 100000;
}

abbrev pub result : BacktestResult ℤ
result = record {
  market = codes "kr";
  symbol = codes "A";
  timeframe = codes "1h";
  since = 0;
  until = 500;
  initial_capital = pos 10000000;
  final_equity = pos 10100000;
  trades = trade ∷ [];
  equity_curve = curve;
  metrics = metrics;
}

pub run-candles : run fixed runner (codes "kr") (codes "A") (codes "1h") 0 500 candles ≡ ok result
unfolding run ramp first_index final_broker rounds round candle_at compute window str_eq on_signal
    generate detect indicator lookup open_position divide close_open_position close_at
    compute_metrics drawdown drawdown_loop full_metrics max_drawdown new_peak sharpe deviations sum
    wins label run_on indicator_columns insert classify advise
run-candles = refl

run-IsSound_example : IsSound (codes "kr") (codes "A") 500 result
run-IsSound_example =
    run-IsSound fixed runner (codes "kr") (codes "A") (codes "1h") 0 500 candles
      (ramp-Chronological 0 0 212 (omega arith)) run-candles

abbrev fresh : Broker ℤ
fresh = new_broker (pos 10000000) (pos 1000000) (pos 0)

rounds_no_lookahead_example :
    rounds fixed runner (candles ++ ramp 212 3) 1 210 fresh
    ≡ rounds fixed runner candles 1 210 fresh
rounds_no_lookahead_example =
    rounds_no_lookahead fixed runner candles (ramp 212 3) 1 210 fresh (omega arith)
      (omega (arith, length-ramp 0 212))

abbrev buy : Signal ℤ
buy = record { signal = buy_signal; reason = codes "r"; price = pos 1000000; ts = 7 }

abbrev dip : EquityPoint ℤ
dip = record { ts = 212; equity = pos 9000000 }

max_drawdown_exact_example :
    (ds : List ℤ) × Drawdowns fixed [] (dip ∷ curve) ds
    × AtLeast fixed (max_drawdown fixed (dip ∷ curve)) (fixed.lit 0 0 ∷ ds)
    × OneOf fixed (max_drawdown fixed (dip ∷ curve)) (fixed.lit 0 0 ∷ ds)
max_drawdown_exact_example = max_drawdown_exact fixed fixed-IsOrdered dip curve
