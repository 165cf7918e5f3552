-- ===== src/Storage/Backtest.antt =====
-- A backtest over a store that keeps its promise: the candles come in the order of time.
use hydra_engine.Base.{
  ℕ, zero, suc, ◌≡◌, ◌≤◌, Option, none, some, List, [], ◌∷◌, take, arith, Bool-cases, inl, inr,
}
use mathlib.Core.Path.{subst, sym}
use hydra_engine.Text.{Str}
use hydra_engine.Float.{Float}
use hydra_engine.Exec.{Result, ok}
use hydra_engine.Candle.{Candle}
use hydra_engine.Backtest.Runner.{Runner, BacktestResult, run}
use hydra_engine.Backtest.Broker.{BacktestError}
use hydra_engine.Backtest.Runner.Chronology.{Chronological}
use hydra_engine.Backtest.Runner.Outcome.{IsSound, run-IsSound}
use hydra_engine.Storage.Database.{Series, After, Ascending}
use hydra_engine.Storage.Contract.{OhlcvStore, IsMap}

abbrev pub backtest_limit : ℕ
backtest_limit = 100000

-- `run`, with the query that it makes.
abbrev pub run_stored :
    {F S : Type 0}
    → OhlcvStore F S
    → Float F
    → Runner F
    → Str
    → Str
    → Str
    → ℕ
    → ℕ
    → S
    → Result BacktestError (BacktestResult F)
run_stored store f r market symbol timeframe since until s =
    run f r market symbol timeframe since until (
      store.query s (record { market = market; symbol = symbol; timeframe = timeframe })
        backtest_limit none)

-- The time before which nothing may come.
abbrev floor_of : Option ℕ → ℕ
floor_of none = 0
floor_of (some t) = t

floor_of-le : (from : Option ℕ) (t : ℕ) → After from t → floor_of from ≤ t
floor_of-le none t h = omega arith
floor_of-le (some u) t h = omega arith

module _ {F : Type 0} where
  Chronological-take :
      (n : ℕ) (from : Option ℕ) (cs : List (Candle F))
      → Ascending from cs
      → Chronological (floor_of from) (take n cs)
  Chronological-take zero from cs h = tt
  Chronological-take (suc n) from [] h = tt
  Chronological-take (suc n) from (c ∷ cs) h =
      (floor_of-le from c.open_time h.0, Chronological-take n (some c.open_time) cs h.1)

module _ {F S : Type 0} (store : OhlcvStore F S) (map : IsMap store) where
  query-Chronological : (s : S) (x : Series) (n : ℕ) → Chronological 0 (store.query s x n none)
  query-Chronological s x n = elim (Bool-cases (map.is_open s)) [
    | inl open' ↦
        subst (Chronological 0) (sym (map.query-held s x n none open'))
          (Chronological-take n none (map.held s x none) (map.held-Ascending s x none))
    | inr closed' ↦ subst (Chronological 0) (sym (map.query_closed s x n none closed')) tt
  ]

  -- A backtest over any store that keeps its promise, if it returns, is sound: its trades open and close
  -- in time and one after another, none after `until`, its equity curve runs forward, and every trade
  -- carries the market and the symbol of the run.
  pub run_stored-IsSound :
      (f : Float F) (r : Runner F) (market symbol timeframe : Str) (since until : ℕ) (s : S)
      {result : BacktestResult F}
      → run_stored store f r market symbol timeframe since until s ≡ ok result
      → IsSound market symbol until result
  run_stored-IsSound f r market symbol timeframe since until s h =
      run-IsSound f r market symbol timeframe since until
        (store.query s (record { market = market; symbol = symbol; timeframe = timeframe })
          backtest_limit none)
        (query-Chronological s (record { market = market; symbol = symbol; timeframe = timeframe })
          backtest_limit)
        h
