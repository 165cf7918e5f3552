-- ===== src/Backtest/Metrics.antt =====
-- `compute_metrics` of hydra/backtest/result.py. Python's `sum` starts at 0 and adds from the left.
pub mod Drawdown
use hydra_engine.Base.{
  ℕ, suc, ◌+◌, ◌-◌, ◌≡◌, Bool, true, false, Option, none, some, List, [], ◌∷◌, length, map, leb,
  if◌then◌else◌,
}
use hydra_engine.Float.{Float, zero_float}
use hydra_engine.Exec.{Result, ok, err, and_then}
use hydra_engine.Backtest.Broker.{Trade, EquityPoint, BacktestError, overflow, divide}

pub record Metrics (F : Type 0) : Type 0 where
  pub total_return_pct : F
  pub total_trades : ℕ
  pub win_rate : F
  pub max_drawdown_pct : F
  pub sharpe_ratio : F
  pub avg_pnl_usd : F

module _ {F : Type 0} (f : Float F) where
  unfoldable pub sum : F → List F → F
  sum acc [] = acc
  sum acc (x ∷ xs) = sum (f.add acc x) xs

  -- `sum(1 for t in trades if t.pnl_usd > 0)`
  unfoldable pub wins : List (Trade F) → ℕ
  wins [] = 0
  wins (t ∷ ts) = (if f.lt (zero_float f) t.pnl_usd then 1 else 0) + wins ts

  abbrev pub pnls : List (Trade F) → List F
  pnls = map λ t. t.pnl_usd

  -- The higher of the peak so far and a point.
  unfoldable pub new_peak : F → F → F
  new_peak peak eq = if f.lt peak eq then eq else peak

  -- `(peak - eq) / peak * 100 if peak > 0 else 0.0`
  unfoldable pub drawdown : F → F → F
  drawdown peak eq =
      if f.lt (zero_float f) peak
      then f.mul (f.div (f.sub peak eq) peak) (f.lit 100 0)
      else zero_float f

  -- The loop over the equity curve.
  unfoldable pub drawdown_loop : F → F → List (EquityPoint F) → F
  drawdown_loop peak worst [] = worst
  drawdown_loop peak worst (p ∷ ps) =
      let peak' = new_peak peak p.equity in
      let dd = drawdown peak' p.equity in
      drawdown_loop peak' (if f.lt worst dd then dd else worst) ps

  unfoldable pub max_drawdown : List (EquityPoint F) → F
  max_drawdown [] = zero_float f
  max_drawdown (p ∷ ps) = drawdown_loop p.equity (zero_float f) (p ∷ ps)

  abbrev pub squared : Option F → Result BacktestError F
  squared none = err overflow
  squared (some y) = ok y

  -- `(p - mean) ** 2` for each gain; the first one out of range raises.
  unfoldable pub deviations : F → List F → Result BacktestError (List F)
  deviations mean [] = ok []
  deviations mean (x ∷ xs) =
      let rest = deviations mean xs in
      and_then (squared (f.square (f.sub x mean))) λ y. and_then rest λ ys. ok (y ∷ ys)

  -- The annualised ratio of the mean to the sample deviation; 0 for one trade, or no spread.
  unfoldable pub sharpe : List F → Result BacktestError F
  unfolding sum deviations
  sharpe xs =
      let n = length xs in
      if leb 2 n
      then (let mean = f.div (sum (zero_float f) xs) (f.lit n 0) in
          and_then (deviations mean xs) λ squares.
            let std = f.sqrt (f.div (sum (zero_float f) squares) (f.lit (n - 1) 0)) in
            if f.lt (zero_float f) std
            then ok (f.round 4 (f.mul (f.div mean std) (f.sqrt (f.lit 252 0))))
            else ok (zero_float f))
      else ok (zero_float f)

  -- The dictionary for at least one trade.
  unfoldable pub full_metrics :
      F → List (Trade F) → List (EquityPoint F) → Result BacktestError (Metrics F)
  unfolding sharpe max_drawdown wins
  full_metrics total_return trades curve =
      let n = f.lit (length trades) 0 in
      and_then (sharpe (pnls trades)) λ ratio. ok (record {
        total_return_pct = f.round 4 total_return;
        total_trades = length trades;
        win_rate = f.round 2 (f.mul (f.div (f.lit (wins trades) 0) n) (f.lit 100 0));
        max_drawdown_pct = f.round 4 (max_drawdown curve);
        sharpe_ratio = ratio;
        avg_pnl_usd = f.round 4 (f.div (sum (zero_float f) (pnls trades)) n);
      })

  unfoldable pub compute_metrics :
      List (Trade F) → List (EquityPoint F) → F → F → Result BacktestError (Metrics F)
  unfolding divide full_metrics
  compute_metrics trades curve initial final =
      and_then (divide f (f.sub final initial) initial) λ ratio.
        let total_return = f.mul ratio (f.lit 100 0) in
        elim trades [
          | [] ↦ ok (record {
            total_return_pct = f.round 4 total_return;
            total_trades = 0;
            win_rate = zero_float f;
            max_drawdown_pct = zero_float f;
            sharpe_ratio = zero_float f;
            avg_pnl_usd = zero_float f;
          })
          | t ∷ ts ↦ full_metrics total_return (t ∷ ts) curve
        ]
