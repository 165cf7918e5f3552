-- ===== src/Strategy/Generator.antt =====
-- hydra/strategy/signal.py
use hydra_engine.Base.{ℕ, Bool, false, ◌&&◌, Option, none, some, if◌then◌else◌}
use hydra_engine.Text.{Str, codes, str_eq}
use hydra_engine.Float.{Float}
use hydra_engine.Strategy.Indicators.{Indicators, indicator}
use hydra_engine.Strategy.Detector.{volatile, trending_up, trending_down, above, below}

-- "BUY" | "SELL" | "HOLD"
pub data Advice : Type 0 where
  buy_signal sell_signal hold_signal : Advice

pub record Signal (F : Type 0) : Type 0 where
  pub signal : Advice
  pub reason : Str
  pub price : F
  pub ts : ℕ

module _ {F : Type 0} (f : Float F) where
  -- `a is not None and b is not None and a > b`
  abbrev pub both_above : Option F → Option F → Bool
  both_above none b = false
  both_above (some x) none = false
  both_above (some x) (some y) = f.lt y x

  -- `rsi is not None and low < rsi < high`
  abbrev pub between : F → Option F → F → Bool
  between low none high = false
  between low (some v) high = f.lt low v && f.lt v high

  -- The tests of `generate` on the three values: the signal and its reason.
  unfoldable pub advise : Option F → Option F → Option F → Str → Advice × Str
  unfolding str_eq
  advise ema9 ema20 rsi regime =
      if str_eq regime volatile
      then (hold_signal, codes "volatile: skip")
      else if str_eq regime trending_up
      then if both_above ema9 ema20 && between (f.lit 45 0) rsi (f.lit 75 0)
        then (buy_signal, codes "trend_up: ema_cross+rsi")
        else (hold_signal, codes "trend_up: no_entry")
      else if str_eq regime trending_down
      then if both_above ema20 ema9 && between (f.lit 25 0) rsi (f.lit 55 0)
        then (sell_signal, codes "trend_down: ema_cross+rsi")
        else (hold_signal, codes "trend_down: no_entry")
      else if below f rsi (f.lit 30 0)
      then (buy_signal, codes "ranging: rsi_oversold")
      else if above f rsi (f.lit 70 0)
      then (sell_signal, codes "ranging: rsi_overbought")
      else (hold_signal, codes "ranging: neutral")

  -- `ts` is what the clock says.
  unfoldable pub generate : ℕ → Indicators F → Str → F → Signal F
  unfolding advise
  generate ts ind regime close =
      let (advice, reason) =
        advise (indicator ind (codes "EMA_9")) (indicator ind (codes "EMA_20"))
          (indicator ind (codes "RSI_14")) regime in
      record { signal = advice; reason = reason; price = close; ts = ts }
