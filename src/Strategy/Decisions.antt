-- ===== src/Strategy/Decisions.antt =====
-- What a trading decision means in terms of the indicators, through the detector and the generator.
use hydra_engine.Base.{
  ℕ, ◌≡◌, refl, Bool, true, false, not, ◌&&◌, Option, none, if◌then◌else◌, arith, is_some,
}
use hydra_engine.Text.{codes, str_eq}
use hydra_engine.Float.{Float, zero_float}
use hydra_engine.Strategy.Indicators.{Indicators, indicator, close_of}
use hydra_engine.Strategy.Detector.{above, below, classify, detect, trending_up}
use hydra_engine.Strategy.Generator.{
  Advice, buy_signal, sell_signal, both_above, between, advise, generate,
}

abbrev pub is_buy : Advice → Bool
is_buy buy_signal = true
is_buy _ = false

abbrev pub is_sell : Advice → Bool
is_sell sell_signal = true
is_sell _ = false

-- The six values that a decision depends on.
pub record Values (F : Type 0) : Type 0 where
  pub bbb : Option F
  pub adx : Option F
  pub ema50 : Option F
  pub ema9 : Option F
  pub ema20 : Option F
  pub rsi : Option F

abbrev pub values_of : {F : Type 0} → Indicators F → Values F
values_of ind = record {
  bbb = indicator ind (codes "BBB_5_2.0_2.0");
  adx = indicator ind (codes "ADX_14");
  ema50 = indicator ind (codes "EMA_50");
  ema9 = indicator ind (codes "EMA_9");
  ema20 = indicator ind (codes "EMA_20");
  rsi = indicator ind (codes "RSI_14");
}

module _ {F : Type 0} (f : Float F) (v : Values F) (close : F) where
  -- The bands are not wider than 8%.
  abbrev pub calm : Bool
  calm = not (above f v.bbb (f.lit 8 2))

  -- The trend is strong, and its direction can be told.
  abbrev pub trend_known : Bool
  trend_known = above f v.adx (f.lit 25 0) && is_some v.ema50

  -- Price above its average, fast average above the slow one, momentum neither weak nor exhausted.
  abbrev pub rises : Bool
  rises =
      below f v.ema50 close
      && (both_above f v.ema9 v.ema20 && between f (f.lit 45 0) v.rsi (f.lit 75 0))

  abbrev pub falls : Bool
  falls =
      not (below f v.ema50 close)
      && (both_above f v.ema20 v.ema9 && between f (f.lit 25 0) v.rsi (f.lit 55 0))

  abbrev pub buys : Bool
  buys = calm && (if trend_known then rises else below f v.rsi (f.lit 30 0))

  abbrev pub sells : Bool
  sells =
      calm
      && (if trend_known
          then falls
          else not (below f v.rsi (f.lit 30 0)) && above f v.rsi (f.lit 70 0))

  advise-classify :
      (is_buy (advise f v.ema9 v.ema20 v.rsi (classify f v.bbb v.adx v.ema50 close)).0 ≡ buys)
      × (is_sell (advise f v.ema9 v.ema20 v.rsi (classify f v.bbb v.adx v.ema50 close)).0 ≡ sells)
  unfolding classify advise
  advise-classify = ground arith

module _ {F : Type 0} (f : Float F) (ts : ℕ) (ind : Indicators F) (close : F) where
  -- The detector and the generator together: a signal is BUY exactly if the bands are not wider than
  -- 8% and either the trend is known and rises, or it is not known and the RSI is below 30; it is SELL
  -- exactly under the mirrored conditions; it carries the close as its price.
  pub generate-detect :
      (is_buy (generate f ts ind (detect f ind close) close).signal ≡ buys f (values_of ind) close)
      × (is_sell (generate f ts ind (detect f ind close) close).signal
          ≡ sells f (values_of ind) close)
      × ((generate f ts ind (detect f ind close) close).price ≡ close)
  unfolding generate detect
  generate-detect = (
    (advise-classify f (values_of ind) close).0,
    (advise-classify f (values_of ind) close).1,
    refl,
  )

-- Where the dictionary has no "close", as the calculator makes it, the detector sees a price of 0: with
-- a moving average that is not negative it never reports a rising trend.
pub live_regime_not_up :
    {F : Type 0} (f : Float F) (ind : Indicators F)
    → indicator ind (codes "close") ≡ none
    → below f (indicator ind (codes "EMA_50")) (zero_float f) ≡ false
    → str_eq (detect f ind (close_of f ind)) trending_up ≡ false
unfolding detect close_of str_eq
live_regime_not_up f ind missing h = ground arith
