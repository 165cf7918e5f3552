-- ===== src/Strategy/Sizing.antt =====
-- hydra/engine/interfaces.py
use hydra_engine.Base.{true, if◌then◌else◌, ◌≡◌, arith}
use hydra_engine.Text.{Str, str_eq}
use hydra_engine.Float.{Float, IsOrdered, min_float, max_float}
use hydra_engine.Strategy.Detector.{volatile, trending_up, trending_down}

pub record RegimeProbabilities (F : Type 0) : Type 0 where
  pub bull : F
  pub neutral : F
  pub bear : F

pub record SizingParams (F : Type 0) : Type 0 where
  pub base_size : F
  pub bear_risk_factor : F
  pub bull_bonus_factor : F
  pub min_position : F
  pub max_position : F

module _ {F : Type 0} (f : Float F) where
  -- `SizingParams(base_size=size)`
  abbrev pub default_sizing : F → SizingParams F
  default_sizing size = record {
    base_size = size;
    bear_risk_factor = f.lit 15 1;
    bull_bonus_factor = f.lit 3 1;
    min_position = f.lit 0 0;
    max_position = f.lit 1 0;
  }

  -- The size before it is clamped.
  unfoldable pub raw_size : RegimeProbabilities F → SizingParams F → F
  raw_size regime params =
      f.mul (f.mul params.base_size (f.sub (f.lit 1 0) (f.mul regime.bear params.bear_risk_factor)))
        (f.add (f.lit 1 0) (f.mul regime.bull params.bull_bonus_factor))

  unfoldable pub compute_regime_adjusted_size : RegimeProbabilities F → SizingParams F → F
  compute_regime_adjusted_size regime params =
      max_float f params.min_position (min_float f params.max_position (raw_size regime params))

  -- The table, by label; an unknown label counts as "ranging".
  unfoldable pub regime_str_to_probabilities : Str → RegimeProbabilities F
  unfolding str_eq
  regime_str_to_probabilities regime =
      if str_eq regime trending_up
      then record { bull = f.lit 70 2; neutral = f.lit 20 2; bear = f.lit 10 2 }
      else if str_eq regime trending_down
      then record { bull = f.lit 10 2; neutral = f.lit 20 2; bear = f.lit 70 2 }
      else if str_eq regime volatile
      then record { bull = f.lit 15 2; neutral = f.lit 25 2; bear = f.lit 60 2 }
      else record { bull = f.lit 25 2; neutral = f.lit 50 2; bear = f.lit 25 2 }

  -- The size that the strategy engine computes for a trade amount and a regime.
  unfoldable pub effective_size : F → Str → F
  unfolding compute_regime_adjusted_size
  effective_size trade_amount regime =
      compute_regime_adjusted_size (regime_str_to_probabilities regime)
        (default_sizing trade_amount)

  -- The clamped size lies between the bounds, if the bounds are in order.
  pub size_bounds :
      (o : IsOrdered f) (regime : RegimeProbabilities F) (params : SizingParams F)
      → f.le params.min_position params.max_position ≡ true
      → (f.le params.min_position (compute_regime_adjusted_size regime params) ≡ true)
        × (f.le (compute_regime_adjusted_size regime params) params.max_position ≡ true)
  unfolding compute_regime_adjusted_size
  size_bounds o regime params h = ground (
    arith,
    o.le_refl params.min_position,
    o.le_refl params.max_position,
    o.le_of_lt (raw_size regime params) params.max_position,
    o.le_of_lt params.min_position params.max_position,
    o.le_of_lt params.min_position (raw_size regime params),
  )

  -- Whatever amount the engine is configured to trade, the size that it asks for is at most 1.
  pub effective_size_capped :
      (o : IsOrdered f) (trade_amount : F) (regime : Str)
      → f.le (f.lit 0 0) (f.lit 1 0) ≡ true
      → f.le (effective_size trade_amount regime) (f.lit 1 0) ≡ true
  unfolding effective_size
  effective_size_capped o amount regime h =
      (size_bounds o (regime_str_to_probabilities regime) (default_sizing amount) h).1
