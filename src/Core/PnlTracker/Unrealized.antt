-- ===== src/Core/PnlTracker/Unrealized.antt =====
-- The profit and loss tracker reads the positions that the position tracker writes.
use hydra_engine.Base.{◌≡◌, refl}
use hydra_engine.Text.{codes, str_eq}
use hydra_engine.Float.{Float}
use hydra_engine.Json.{member?}
use hydra_engine.Exec.{ok, and_then}
use hydra_engine.Core.OrderQueue.{fields_of}
use hydra_engine.Core.PositionTracker.{Position, position_json, mark_or_avg}
use hydra_engine.Core.PnlTracker.{float_field, is_short, unrealized, calc_unrealized}

-- For every position that is stored, the gain is computed from the quantity, the price, the mark (the
-- price itself, where the mark is missing or 0), the side and the leverage that were given.
pub calc_unrealized-position_json :
    {F : Type 0} (f : Float F) (p : Position F)
    → and_then (fields_of (position_json f p)) (calc_unrealized f)
      ≡ ok (
          unrealized f p.qty p.avg_price
            (mark_or_avg f p.mark_price p.avg_price)
            (str_eq p.side (codes "sell"))
            (f.lit p.leverage 0))
unfolding position_json calc_unrealized float_field is_short member?
calc_unrealized-position_json f p = refl
