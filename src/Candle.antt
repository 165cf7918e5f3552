-- ===== src/Candle.antt =====
-- The record of hydra/data/storage/base.py, and hydra/indicator/calculator.py.
use hydra_engine.Base.{ℕ, List, [], ◌∷◌, some, length, ltb, if◌then◌else◌}
use hydra_engine.Text.{Str, codes, member}
use hydra_engine.Dict.{insert}
use hydra_engine.Float.{Float}
use hydra_engine.Strategy.Indicators.{Indicators}

pub record Candle (F : Type 0) : Type 0 where
  pub market : Str
  pub symbol : Str
  pub timeframe : Str
  pub open_time : ℕ
  pub opening : F
  pub high : F
  pub low : F
  pub close : F
  pub volume : F
  pub close_time : ℕ

abbrev pub min_candles : ℕ
min_candles = 210

-- The columns of the candles themselves, which are not indicators.
abbrev pub candle_columns : List Str
candle_columns = codes "open" ∷ codes "high" ∷ codes "low" ∷ codes "close" ∷ codes "volume" ∷ []

module _ {F : Type 0} where
  -- The loop over the last row; NaN is `none` already.
  unfoldable pub indicator_columns : Indicators F → Indicators F
  indicator_columns [] = []
  indicator_columns ((k, v) ∷ row) =
      let rest = indicator_columns row in if member k candle_columns then rest else (k, v) ∷ rest

  -- `compute`. pandas-ta is not part of the repository: `study` is the last row of the frame that it
  -- fills, with NaN as `none`, and `now` what the clock says.
  unfoldable pub compute :
      Float F → (List (Candle F) → Indicators F) → ℕ → List (Candle F) → Indicators F
  unfolding indicator_columns insert
  compute f study now candles =
      if ltb (length candles) min_candles
      then []
      else insert (codes "calculated_at") (some (f.lit now 0)) (indicator_columns (study candles))
