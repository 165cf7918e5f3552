-- ===== src/Api/Stored.antt =====
-- hydra/api/data.py and backtest.py: the routes that read the store of the candles.
use hydra_engine.Base.{ℕ, Bool, ◌&&◌, Option, leb, if◌then◌else◌, get_or}
use hydra_engine.Text.{codes}
use hydra_engine.Float.{Float}
use hydra_engine.Exec.{Result, ok, err}
use hydra_engine.Backtest.Broker.{BacktestError, zero_division, value_error, overflow}
use hydra_engine.Backtest.Runner.{Runner, BacktestResult}
use hydra_engine.Storage.Database.{Series}
use hydra_engine.Storage.Contract.{OhlcvStore}
use hydra_engine.Storage.Backtest.{run_stored}
use hydra_engine.Api.Types.{
  BacktestRequest, detail, invalid_parameter, value_error_text, candles_answer, symbols_answer,
  backtest_answer, Response, reply, crash, App, Moment, Site,
}
use hydra_engine.Api.Cached.{unavailable}

-- `Query(default=200, ge=1, le=1000)`: FastAPI refuses other limits.
abbrev pub limit_valid : ℕ → Bool
limit_valid limit = leb 1 limit && leb limit 1000

module _ {F : Type 0} where
  abbrev pub runner_of : App F → Moment F → BacktestRequest F → Runner F
  runner_of app m req = record {
    study = app.study;
    now = m.now;
    clock = m.now;
    initial_capital = req.initial_capital;
    trade_amount = req.trade_amount_usd;
    commission = req.commission_pct;
  }

  -- A ValueError becomes 400; a division by zero and an overflow are not caught.
  abbrev pub backtest_response : Result BacktestError (BacktestResult F) → Response F
  backtest_response (ok result) = reply 200 (backtest_answer result)
  backtest_response (err value_error) = reply 400 value_error_text
  backtest_response (err zero_division) = crash
  backtest_response (err overflow) = crash

module _ {F R X T S : Type 0} (store : OhlcvStore F S) where
  unfoldable pub get_candles : Series → Option ℕ → Option ℕ → Site R X T S → Response F
  get_candles x limit since s =
      if limit_valid (get_or limit 200)
      then (if s.started
          then reply 200 (candles_answer (store.query s.store x (get_or limit 200) since))
          else unavailable (codes "Store not initialized"))
      else reply 422 (invalid_parameter (codes "limit"))

  unfoldable pub get_symbols : Site R X T S → Response F
  get_symbols s =
      if s.started
      then reply 200 (symbols_answer (store.get_symbols s.store))
      else unavailable (codes "Store not initialized")

  unfoldable pub run_backtest :
      Float F → App F → Moment F → BacktestRequest F → Site R X T S → Response F
  run_backtest f app m req s =
      if s.started
      then (if leb req.until req.since
          then reply 400 (detail (codes "since must be less than until"))
          else backtest_response (
              run_stored store f (runner_of app m req) req.market req.symbol req.timeframe req.since
                req.until s.store))
      else unavailable (codes "Store not initialized")
