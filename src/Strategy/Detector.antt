-- ===== src/Strategy/Detector.antt =====
-- hydra/regime/detector.py
use hydra_engine.Base.{Bool, false, Option, none, some, if◌then◌else◌}
use hydra_engine.Text.{Str, codes}
use hydra_engine.Float.{Float}
use hydra_engine.Strategy.Indicators.{Indicators, indicator}

abbrev pub volatile : Str
volatile = codes "volatile"

abbrev pub trending_up : Str
trending_up = codes "trending_up"

abbrev pub trending_down : Str
trending_down = codes "trending_down"

abbrev pub ranging : Str
ranging = codes "ranging"

module _ {F : Type 0} (f : Float F) where
  -- `o is not None and o > x`
  abbrev pub above : Option F → F → Bool
  above none x = false
  above (some v) x = f.lt x v

  -- `o is not None and o < x`
  abbrev pub below : Option F → F → Bool
  below none x = false
  below (some v) x = f.lt v x

  abbrev trend : Option F → F → Str
  trend none close = ranging
  trend (some ema50) close = if f.lt ema50 close then trending_up else trending_down

  -- The tests of `detect` on the three values.
  unfoldable pub classify : Option F → Option F → Option F → F → Str
  classify bbb adx ema50 close =
      if above bbb (f.lit 8 2)
      then volatile
      else if above adx (f.lit 25 0)
      then trend ema50 close
      else ranging

  unfoldable pub detect : Indicators F → F → Str
  unfolding classify
  detect ind close =
      classify (indicator ind (codes "BBB_5_2.0_2.0")) (indicator ind (codes "ADX_14"))
        (indicator ind (codes "EMA_50")) close
