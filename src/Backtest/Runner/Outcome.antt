-- ===== src/Backtest/Runner/Outcome.antt =====
-- What a whole backtest returns.
use hydra_engine.Base.{
  ℕ, zero, suc, ◌-◌, ◌≤◌, ◌<◌, ◌≡◌, refl, inl, inr, Option-cases, Option, none, some, List, [], ◌∷◌,
  length, drop, filter, map, get_last?, leb, arith, All,
}
use mathlib.Core.Path.{subst}
use hydra_engine.Text.{Str, codes}
use hydra_engine.Float.{Float}
use hydra_engine.Exec.{ok, Result-cases, ok-injective}
use hydra_engine.Candle.{Candle, compute}
use hydra_engine.Strategy.Indicators.{Indicators}
use hydra_engine.Backtest.Broker.{Trade, EquityPoint, Broker, new_broker}
use hydra_engine.Backtest.Broker.Timeline.{
  IsOrderly, IsOrderly-mono, Settled, Between, Rising, on_signal-IsOrderly,
  close_open_position-IsOrderly,
}
use hydra_engine.Backtest.Runner.{
  Runner, BacktestResult, candle_at, window, first_index, label, react, react_at, round, rounds,
  finish_with, final_broker, report, run_on, run,
}
use hydra_engine.Backtest.Runner.Chronology.{
  Chronological, time_at, filter-Chronological, drop-Chronological, last-Chronological, time_at-le,
  filter-until, last-All, drop_all-Chronological,
}
use hydra_engine.Backtest.Runner.Windows.{first_index_exact}

module _ {F : Type 0} (f : Float F) (r : Runner F) where
  react-IsOrderly :
      (ind : Indicators F) (c : Candle F) (now i : ℕ) (b : Broker F) {b' : Broker F}
      → now ≤ c.open_time
      → IsOrderly now b
      → react f r ind c i b ≡ ok b'
      → IsOrderly c.open_time b'
  react-IsOrderly [] c now i b l v h =
      subst (IsOrderly c.open_time) (ok-injective _ _ h) (IsOrderly-mono now c.open_time b l v)
  react-IsOrderly (x ∷ xs) c now i b l v h = on_signal-IsOrderly f now _ c b l v h

  react_at-IsOrderly :
      (o : Option (Candle F)) (seen : List (Candle F)) (now i : ℕ) (b : Broker F) {b' : Broker F}
      → now ≤ time_at now o
      → IsOrderly now b
      → react_at f r o seen i b ≡ ok b'
      → IsOrderly (time_at now o) b'
  react_at-IsOrderly none seen now i b l v h = subst (IsOrderly now) (ok-injective _ _ h) v
  react_at-IsOrderly (some c) seen now i b l v h =
      react-IsOrderly (compute f r.study (r.now i) seen) c now i b l v h

module _ {F : Type 0} (f : Float F) (r : Runner F) where
  rounds-IsOrderly :
      (cs : List (Candle F)) (to n i now : ℕ) (b : Broker F) {b' : Broker F}
      → All (λ c. c.open_time ≤ to) cs
      → Chronological now (drop i cs)
      → now ≤ to
      → IsOrderly now b
      → rounds f r cs n i b ≡ ok b'
      → IsOrderly to b'
  unfolding rounds round
  rounds-IsOrderly cs to zero i now b a o l v h =
      subst (IsOrderly to) (ok-injective _ _ h) (IsOrderly-mono now to b l v)
  rounds-IsOrderly cs to (suc n) i now b {b'} a o l v h =
      elim (Result-cases (react_at f r (candle_at cs i) (window cs i) i b)) [
        | inl (e, q) ↦ ground arith
        | inr (b1, q) ↦
            let next = drop-Chronological now i cs o in
            rounds-IsOrderly cs to n (suc i) (time_at now (candle_at cs i)) b1 a next.1
              (time_at-le now to i cs l a)
              (react_at-IsOrderly f r (candle_at cs i) (window cs i) now i b next.0 v q)
              (ground arith)
      ]

  finish-IsOrderly :
      (cs : List (Candle F)) (b : Broker F) (last : Candle F) {b' : Broker F}
      → get_last? cs ≡ some last
      → IsOrderly last.open_time b
      → finish_with f r (get_last? cs) b ≡ ok b'
      → IsOrderly last.open_time b' × (b'.position ≡ none)
  finish-IsOrderly cs b last e v h =
      close_open_position-IsOrderly f last.open_time last.open_time last.close
        (codes "backtest_end") b (omega arith) v (rw e at h)

  final_broker-IsOrderly :
      (cs : List (Candle F)) (start : ℕ) (last : Candle F) {b' : Broker F}
      → get_last? cs ≡ some last
      → Chronological 0 cs
      → final_broker f r cs start ≡ ok b'
      → IsOrderly last.open_time b' × (b'.position ≡ none)
  unfolding final_broker
  final_broker-IsOrderly cs start last {b'} e o h =
      let fresh = new_broker r.initial_capital r.trade_amount r.commission in
      elim (Result-cases (rounds f r cs (length cs - start) start fresh)) [
        | inl (x, q) ↦ ground arith
        | inr (b, q) ↦
            let bound = last-Chronological 0 cs last e o in
            finish-IsOrderly cs b last e
              (rounds-IsOrderly cs last.open_time (length cs - start) start 0 fresh bound.1
                (drop_all-Chronological 0 start cs o) (omega arith)
                (record { settled = omega arith; rising = omega arith }) q)
              (ground arith)
      ]

-- Every trade carries the market and the symbol of the run.
abbrev pub Labelled : {F : Type 0} → Str → Str → List (Trade F) → Type 0
Labelled market symbol = All (λ t. (t.market ≡ market) × (t.symbol ≡ symbol))

module _ {F : Type 0} (market symbol : Str) where
  Labelled-label : (ts : List (Trade F)) → Labelled market symbol (map (label market symbol) ts)
  unfolding label
  Labelled-label [] = tt
  Labelled-label (t ∷ ts) = ((refl, refl), Labelled-label ts)

  Between-label :
      (from to : ℕ) (ts : List (Trade F))
      → Between from to ts
      → Between from to (map (label market symbol) ts)
  unfolding label
  Between-label from to [] h = h
  Between-label from to (t ∷ ts) h = (h.0, h.1, Between-label t.exit_ts to ts h.2)

-- What holds of the result of a run.
pub record IsSound {F : Type 0} (market symbol : Str) (until : ℕ) (result : BacktestResult F)
    : Type 0 where
  pub in_order : Between 0 until result.trades
  pub curve_in_order : Rising 0 until result.equity_curve
  pub labelled : Labelled market symbol result.trades

module _ {F : Type 0} (f : Float F) (r : Runner F) (market symbol timeframe : Str)
    (since until : ℕ) where
  report_parts :
      (final_equity equity : F) (trades : List (Trade F)) (curve : List (EquityPoint F))
      {result : BacktestResult F}
      → report f r market symbol timeframe since until final_equity trades curve equity ≡ ok result
      → (trades ≡ result.trades) × (curve ≡ result.equity_curve)
  report_parts final_equity equity trades curve h = ground arith

  report-IsSound :
      (final_equity equity : F) (trades : List (Trade F)) (curve : List (EquityPoint F))
      {result : BacktestResult F}
      → Between 0 until trades
      → Rising 0 until curve
      → Labelled market symbol trades
      → report f r market symbol timeframe since until final_equity trades curve equity ≡ ok result
      → IsSound market symbol until result
  report-IsSound final_equity equity trades curve b c l h =
      let parts = report_parts final_equity equity trades curve h in
      record {
        in_order = subst (Between 0 until) parts.0 b;
        curve_in_order = subst (Rising 0 until) parts.1 c;
        labelled = subst (Labelled market symbol) parts.0 l;
      }

  closed-IsSound :
      (cs : List (Candle F)) (start : ℕ) (last : Candle F) {b : Broker F}
      {result : BacktestResult F}
      → get_last? cs ≡ some last
      → Chronological 0 cs
      → last.open_time ≤ until
      → final_broker f r cs start ≡ ok b
      → report f r market symbol timeframe since until
          (f.round 6 b.capital)
          (map (label market symbol) b.trades)
          b.equity_curve
          b.capital
        ≡ ok result
      → IsSound market symbol until result
  closed-IsSound cs start last {b} e o u q h =
      let closed = final_broker-IsOrderly f r cs start last e o q in
      let v = IsOrderly-mono last.open_time until b u closed.0 in
      let settled : Settled until none b.trades =
        subst (λ p. Settled until p b.trades) closed.1 v.settled in
      report-IsSound (f.round 6 b.capital) b.capital (map (label market symbol) b.trades)
        b.equity_curve (Between-label market symbol 0 until b.trades settled) v.rising
        (Labelled-label market symbol b.trades) h

  some_last :
      (cs : List (Candle F)) (n : ℕ)
      → n < length cs
      → (last : Candle F) × (get_last? cs ≡ some last)
  some_last [] n h = elim h [ ]
  some_last (c ∷ []) n h = (c, refl)
  some_last (c ∷ (d ∷ ds)) n h = some_last (d ∷ ds) 0 (omega arith)

  run_on-IsSound :
      (cs : List (Candle F)) {result : BacktestResult F}
      → Chronological 0 cs
      → All (λ c. c.open_time ≤ until) cs
      → run_on f r market symbol timeframe since until cs ≡ ok result
      → IsSound market symbol until result
  unfolding run_on
  run_on-IsSound cs {result} o a h = elim (Option-cases (first_index since 0 cs)) [
    | inl missing ↦
        report-IsSound r.initial_capital r.initial_capital [] [] (omega arith) (omega arith) tt
          (ground arith)
    | inr (start, found) ↦
        let (last, e) = some_last cs start (omega (arith, first_index_exact since 0 cs found)) in
        elim (Result-cases (final_broker f r cs start)) [
          | inl (x, q) ↦ absurd (ground arith)
          | inr (b, q) ↦
              closed-IsSound cs start last e o (last-All (λ c. c.open_time ≤ until) cs last e a) q
                (ground arith)
        ]
  ]

  -- If the store returns its candles in the order of time, a run that returns has trades that open and
  -- close in time and one after another, none after `until`, an equity curve that runs forward, and the
  -- market and the symbol of the run on every trade.
  pub run-IsSound :
      (stored : List (Candle F)) {result : BacktestResult F}
      → Chronological 0 stored
      → run f r market symbol timeframe since until stored ≡ ok result
      → IsSound market symbol until result
  unfolding run
  run-IsSound stored o h =
      run_on-IsSound (filter (λ c. leb c.open_time until) stored)
        (filter-Chronological (λ c. leb c.open_time until) 0 stored o) (filter-until until stored)
        (ground arith)
