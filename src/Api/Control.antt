-- ===== src/Api/Control.antt =====
-- hydra/api/orders.py, positions.py, risk.py, pnl.py, markets.py, system.py and strategies.py: the routes
-- that call the core. Before the process has started they call a method of None.
use hydra_engine.Base.{Option, none, some, if◌then◌else◌, get_or}
use hydra_engine.Text.{Str, codes}
use hydra_engine.Float.{Float}
use hydra_engine.Json.{str, arr, nil, cons, obj, field, end}
use hydra_engine.Redis.{Redis}
use hydra_engine.Exec.{Result, ok, and_then}
use hydra_engine.Config.Markets.{MarketManager, paper, get_active_markets, enable, disable}
use hydra_engine.Core.Types.{Error}
use hydra_engine.Core.Orders.{OrderRequest, Venue}
use hydra_engine.Core.OrderQueue.{OrderResult, submit}
use hydra_engine.Core.KillSwitch.{Notice, KillSwitchResult, execute, is_active}
use hydra_engine.Core.RiskEngine.{get_daily_pnl_pct}
use hydra_engine.Core.PositionTracker.{get_all}
use hydra_engine.Core.PnlTracker.{reset_daily}
use hydra_engine.Core.PnlTracker.Summary.{get_summary}
use hydra_engine.Api.Types.{
  Body, value, order_answer, positions_answer, risk_answer, kill_answer, markets_answer,
  market_answer, summary_answer, Response, reply, crash, App, Moment, Site,
}
use hydra_engine.Api.Cached.{answer}

module _ {F : Type 0} where
  abbrev pub order_response : Result (Error F) (OrderResult F) → Response F
  order_response r = answer (and_then r λ o. ok (order_answer o))

  abbrev pub kill_response : Result (Error F) (KillSwitchResult F) → Response F
  kill_response r = answer (and_then r λ k. ok (kill_answer k))

  abbrev pub said : Str → Body F
  said s = value (obj (field (codes "status") (str s) end))

module _ {F R X T S : Type 0} (f : Float F) (redis : Redis F R) (venue : Venue F X)
    (app : App F) where
  unfoldable pub create_order : Moment F → OrderRequest F → Site R X T S → Response F × Site R X T S
  create_order m o s =
      if s.started
      then (let (r, w) = submit f redis venue m.uuid app.queue o s.world in
          (order_response r, record s { world = w }))
      else (crash, s)

module _ {F R X T S : Type 0} (f : Float F) (redis : Redis F R) where
  unfoldable pub get_positions : Site R X T S → Response F
  get_positions s =
      if s.started
      then answer (and_then (get_all redis s.world.redis) λ ps. ok (positions_answer ps))
      else crash

  unfoldable pub get_risk : Site R X T S → Response F
  get_risk s =
      if s.started
      then answer (
          and_then (get_daily_pnl_pct f redis s.world.redis)
            λ pnl. ok (risk_answer pnl (is_active redis s.world.redis)))
      else crash

  unfoldable pub get_pnl : Moment F → Site R X T S → Response F
  get_pnl m s =
      if s.started
      then answer (
          and_then (get_all redis s.world.redis)
            λ ps. and_then (get_summary f redis s.world.redis m.day ps) λ x. ok (summary_answer x))
      else crash

  unfoldable pub reset_daily_pnl : Moment F → Site R X T S → Response F × Site R X T S
  reset_daily_pnl m s =
      if s.started
      then (
        reply 200 (said (codes "reset")),
        record s { world = record s.world { redis = reset_daily f redis s.world.redis m.day } },
      )
      else (crash, s)

module _ {F R X T S : Type 0} (redis : Redis F R) (venue : Venue F X) (send : Notice F → T → T)
    (app : App F) where
  unfoldable pub killswitch : Moment F → Option Str → Site R X T S → Response F × Site R X T S
  killswitch m reason s =
      if s.started
      then (let (r, w, t) =
            execute redis venue send app.queue.exchanges (get_or reason (codes "manual"))
              (codes "api") m.duration_ms (s.world, s.inbox) in
          (kill_response r, record s { world = w; inbox = t }))
      else (crash, s)

module _ {F R X T S : Type 0} where
  unfoldable pub get_markets : Site R X T S → Response F
  get_markets s =
      if s.started then reply 200 (markets_answer (get_active_markets s.markets)) else crash

  abbrev pub enabled : Str → Option MarketManager → Site R X T S → Response F × Site R X T S
  enabled market none s = (crash, s)
  enabled market (some m) s =
      (reply 200 (market_answer (codes "enabled") market), record s { markets = m })

  unfoldable pub enable_market : Str → Site R X T S → Response F × Site R X T S
  enable_market market s =
      if s.started then enabled market (enable s.markets market paper) s else (crash, s)

  unfoldable pub disable_market : Str → Site R X T S → Response F × Site R X T S
  disable_market market s =
      if s.started
      then (
        reply 200 (market_answer (codes "disabled") market),
        record s { markets = disable s.markets market },
      )
      else (crash, s)

module _ {F : Type 0} (app : App F) where
  unfoldable pub status : Response F
  status = reply 200 (
      value (
        obj (
          field (codes "version") (str app.version)
            (field (codes "profile") (str app.hydra_profile) end))))

  unfoldable pub modules : Response F
  modules = reply 200 (
      value (
        obj (
          field (codes "modules")
            (arr (
              cons (str (codes "core")) (
                cons (str (codes "resilience"))
                  (cons (str (codes "exchange")) (cons (str (codes "notify")) nil)))))
            end)))

abbrev note : Str
note = codes "Phase 1에서 구현 예정"

module _ {F : Type 0} where
  unfoldable pub list_strategies : Response F
  list_strategies =
      reply 200
        (value (obj (field (codes "strategies") (arr nil) (field (codes "note") (str note) end))))

  unfoldable pub start_strategy : Str → Response F
  start_strategy name = reply 200 (
      value (
        obj (
          field (codes "status") (str (codes "not_implemented"))
            (field (codes "note") (str note) end))))
