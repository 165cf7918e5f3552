-- ===== src/Core/PnlTracker/Summary.antt =====
-- `get_summary` of hydra/core/pnl_tracker.py.
use hydra_engine.Base.{ℕ, List, [], ◌∷◌, get_or}
use hydra_engine.Text.{Str, codes}
use hydra_engine.Float.{Float}
use hydra_engine.Json.{Json, null, int, Fields, member?}
use hydra_engine.Redis.{Redis}
use hydra_engine.Exec.{Result, ok, and_then}
use hydra_engine.Core.Types.{Error}
use hydra_engine.Core.OrderQueue.{fields_of}
use hydra_engine.Core.PnlTracker.{
  get_realized_total, get_daily_realized, get_trade_count, get_unrealized_total, calc_unrealized,
}

pub record Entry (F : Type 0) : Type 0 where
  pub market : Json F
  pub symbol : Json F
  pub side : Json F
  pub qty : Json F
  pub avg_price : Json F
  pub mark_price : Json F
  pub leverage : Json F
  pub unrealized_pnl : F

pub record Summary (F : Type 0) : Type 0 where
  pub realized_total : F
  pub daily_realized : F
  pub unrealized : F
  pub total_pnl : F
  pub trade_count : ℕ
  pub positions : List (Entry F)

-- `p.get(k, default)`
abbrev pub get_field : {F : Type 0} → Fields F → Str → Json F → Json F
get_field pos k default = get_or (member? k pos) default

module _ {F : Type 0} (f : Float F) where
  unfoldable pub entry : Fields F → Result (Error F) (Entry F)
  entry pos = and_then (calc_unrealized f pos) λ x. ok (record {
    market = get_field pos (codes "market") null;
    symbol = get_field pos (codes "symbol") null;
    side = get_field pos (codes "side") null;
    qty = get_field pos (codes "qty") null;
    avg_price = get_field pos (codes "avg_price") null;
    mark_price = get_field pos (codes "mark_price") (get_field pos (codes "avg_price") null);
    leverage = get_field pos (codes "leverage") (int 1);
    unrealized_pnl = f.round 4 x;
  })

  unfoldable pub entries : List (Json F) → Result (Error F) (List (Entry F))
  entries [] = ok []
  entries (p ∷ ps) =
      and_then (fields_of p)
        λ pos. and_then (entry pos) λ e. and_then (entries ps) λ es. ok (e ∷ es)

module _ {F R : Type 0} (f : Float F) (redis : Redis F R) where
  unfoldable pub get_summary : R → Str → List (Json F) → Result (Error F) (Summary F)
  unfolding entries
  get_summary r day positions = and_then (get_realized_total f redis r) λ realized_total.
      and_then (get_daily_realized f redis r day) λ daily_realized.
        and_then (get_unrealized_total f positions) λ unrealized.
          and_then (get_trade_count f redis r) λ trade_count. and_then (entries f positions) λ es.
            ok (record {
              realized_total = f.round 4 realized_total;
              daily_realized = f.round 4 daily_realized;
              unrealized = f.round 4 unrealized;
              total_pnl = f.round 4 (f.add realized_total unrealized);
              trade_count = trade_count;
              positions = es;
            })
