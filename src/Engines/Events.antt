-- ===== src/Engines/Events.antt =====
-- What the engines share: their keys, and the stored dictionary of indicators. The calculator stores
-- numbers and nulls only; a dictionary with another value counts as one that the engines cannot use.
use hydra_engine.Base.{◌≡◌, refl, Option, none, some, [], ◌∷◌, arith}
use hydra_engine.Text.{Str, codes}
use hydra_engine.Float.{Float}
use hydra_engine.Json.{Json, null, num, int, obj, Fields, field, end, Payload, dumped}
use hydra_engine.Exec.{Result, ok, err, and_then}
use hydra_engine.Core.Types.{Error, value_error}
use hydra_engine.Core.PositionTracker.{decode}
use hydra_engine.Core.OrderQueue.{fields_of}
use hydra_engine.Strategy.Indicators.{Indicators}
use hydra_engine.EventKeys.{event_key}

-- What a candle event names.
pub record Event : Type 0 where
  pub market : Str
  pub symbol : Str
  pub timeframe : Str

abbrev pub key_of : Str → Event → Str
key_of prefix e = event_key prefix e.market e.symbol e.timeframe

abbrev pub indicator_prefix : Str
indicator_prefix = codes "hydra:indicator"

abbrev pub regime_prefix : Str
regime_prefix = codes "hydra:regime"

abbrev pub signal_prefix : Str
signal_prefix = codes "hydra:signal"

module _ {F : Type 0} where
  abbrev number_json : Option F → Json F
  number_json none = null
  number_json (some x) = num x

  -- `json.dumps(result)`
  unfoldable pub indicators_json : Indicators F → Fields F
  indicators_json [] = end
  indicators_json ((k, v) ∷ ind) = field k (number_json v) (indicators_json ind)

module _ {F : Type 0} (f : Float F) where
  abbrev number_of : Json F → Result (Error F) (Option F)
  number_of null = ok none
  number_of (num x) = ok (some x)
  number_of (int n) = ok (some (f.lit n 0))
  number_of _ = err value_error

  unfoldable pub numbers_of : Fields F → Result (Error F) (Indicators F)
  numbers_of end = ok []
  numbers_of (field k v rest) =
      and_then (number_of v) λ x. and_then (numbers_of rest) λ ind. ok ((k, x) ∷ ind)

  -- `json.loads(raw)`, where it is read as a dictionary of numbers
  unfoldable pub indicators_of : Payload F → Result (Error F) (Indicators F)
  unfolding numbers_of
  indicators_of raw = and_then (decode raw) λ j. and_then (fields_of j) numbers_of

  numbers_of-indicators_json : (ind : Indicators F) → numbers_of (indicators_json ind) ≡ ok ind
  unfolding numbers_of indicators_json
  numbers_of-indicators_json [] = refl
  numbers_of-indicators_json ((k, none) ∷ ind) = ground (arith, numbers_of-indicators_json ind)
  numbers_of-indicators_json ((k, some x) ∷ ind) = ground (arith, numbers_of-indicators_json ind)

  pub indicators_of-indicators_json :
      (ind : Indicators F) → indicators_of (dumped (obj (indicators_json ind))) ≡ ok ind
  unfolding indicators_of
  indicators_of-indicators_json ind = numbers_of-indicators_json ind
