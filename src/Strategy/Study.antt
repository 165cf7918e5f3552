-- ===== src/Strategy/Study.antt =====
-- The indicators that hydra/indicator/calculator.py asks pandas-ta for.
use hydra_engine.Base.{ℕ, Option, none, some, List, [], ◌∷◌}
use hydra_engine.Text.{Str, codes}
use hydra_engine.Float.{Float}
use hydra_engine.Candle.{Candle, compute}
use hydra_engine.Strategy.Indicators.{Indicators}

-- `{"kind": …, "length": …}`
pub record StudyItem : Type 0 where
  pub kind : Str
  pub length : Option ℕ

abbrev of_length : Str → ℕ → StudyItem
of_length kind n = record { kind = kind; length = some n }

abbrev of_kind : Str → StudyItem
of_kind kind = record { kind = kind; length = none }

unfoldable pub default_study : List StudyItem
default_study =
    of_length (codes "rsi") 14
    ∷ of_length (codes "ema") 9
    ∷ of_length (codes "ema") 20
    ∷ of_length (codes "ema") 50
    ∷ of_length (codes "ema") 200
    ∷ of_length (codes "sma") 20
    ∷ of_length (codes "sma") 50
    ∷ of_kind (codes "macd")
    ∷ of_kind (codes "bbands")
    ∷ of_kind (codes "atr")
    ∷ of_kind (codes "adx")
    ∷ of_kind (codes "stoch")
    ∷ of_kind (codes "stochrsi")
    ∷ of_kind (codes "cci")
    ∷ of_kind (codes "willr")
    ∷ of_kind (codes "obv")
    ∷ of_kind (codes "mfi")
    ∷ of_kind (codes "mom")
    ∷ of_kind (codes "roc")
    ∷ of_kind (codes "tsi")
    ∷ of_kind (codes "vwap")
    ∷ of_kind (codes "supertrend")
    ∷ of_kind (codes "kc")
    ∷ of_kind (codes "donchian")
    ∷ of_kind (codes "aroon")
    ∷ of_kind (codes "ao")
    ∷ of_kind (codes "er")
    ∷ []

-- `IndicatorCalculator().compute(candles)`, where `study` is what pandas-ta fills in for a study.
unfoldable pub compute_default :
    {F : Type 0}
    → Float F
    → (List StudyItem → List (Candle F) → Indicators F)
    → ℕ
    → List (Candle F)
    → Indicators F
unfolding compute default_study
compute_default f study now candles = compute f (study default_study) now candles
