-- ===== src/Api/Paths.antt =====
-- The paths of the routes, and a request by its path.
use hydra_engine.Base.{◌≡◌, Option, none, some, ◌++◌, if◌then◌else◌}
use hydra_engine.Text.{Str, codes}
use hydra_engine.Float.{Float}
use hydra_engine.Json.{Fields}
use hydra_engine.Redis.{Redis}
use hydra_engine.Core.Orders.{Venue}
use hydra_engine.Core.KillSwitch.{Notice}
use hydra_engine.Storage.Contract.{OhlcvStore}
use hydra_engine.Api.Types.{
  Route, health, create_order, get_positions, get_risk, killswitch, get_markets, enable_market,
  disable_market, status, modules, list_strategies, start_strategy, get_pnl, reset_daily_pnl,
  get_candles, get_symbols, get_indicators, list_indicators, get_regime, list_regimes, get_signal,
  list_signals, get_orderbook, get_events, get_sentiment, run_backtest, detail, Response, reply,
  App, Moment, Site,
}
use hydra_engine.Api.Guard.{key_accepted, refused, auth_guard}

unfoldable pub path_of : {F : Type 0} → Route F → Str
path_of health = codes "/health"
path_of (create_order o) = codes "/orders"
path_of get_positions = codes "/positions"
path_of get_risk = codes "/risk"
path_of (killswitch reason) = codes "/killswitch"
path_of get_markets = codes "/markets"
path_of (enable_market market) = codes "/markets/" ++ (market ++ codes "/enable")
path_of (disable_market market) = codes "/markets/" ++ (market ++ codes "/disable")
path_of status = codes "/status"
path_of modules = codes "/modules"
path_of list_strategies = codes "/strategies"
path_of (start_strategy name) = codes "/strategies/" ++ (name ++ codes "/start")
path_of get_pnl = codes "/pnl"
path_of reset_daily_pnl = codes "/pnl/reset-daily"
path_of (get_candles x limit since) = codes "/data/candles"
path_of get_symbols = codes "/data/symbols"
path_of (get_indicators e) = codes "/data/indicators"
path_of list_indicators = codes "/data/indicators/list"
path_of (get_regime e) = codes "/data/regime"
path_of list_regimes = codes "/data/regime/list"
path_of (get_signal e) = codes "/data/signal"
path_of list_signals = codes "/data/signal/list"
path_of (get_orderbook market symbol) = codes "/data/orderbook"
path_of get_events = codes "/data/events"
path_of (get_sentiment symbol) = codes "/data/sentiment"
path_of (run_backtest req) = codes "/backtest/run"

-- FastAPI's router: the route that a path and a body ask for, with its parameters.
abbrev pub Router : Type 0 → Type 0
Router F = Str → Fields F → Option (Route F)

-- It finds a route only by its path.
abbrev pub RouterLaw : {F : Type 0} → Router F → Type 0
RouterLaw {F} router =
    (path : Str) (body : Fields F) (r : Route F) → router path body ≡ some r → path ≡ path_of r

module _ {F R X T S : Type 0} (f : Float F) (redis : Redis F R) (venue : Venue F X)
    (send : Notice F → T → T) (store : OhlcvStore F S) (app : App F) where
  -- The guard, then the route; FastAPI answers 404 where there is none.
  abbrev pub respond :
      Moment F → Option Str → Option (Route F) → Site R X T S → Response F × Site R X T S
  respond m header none s =
      if key_accepted app header then (reply 404 (detail (codes "Not Found")), s) else (refused, s)
  respond m header (some route) s = auth_guard f redis venue send store app m header route s

  unfoldable pub serve_path :
      Router F → Moment F → Option Str → Str → Fields F → Site R X T S → Response F × Site R X T S
  serve_path router m header path body s = respond m header (router path body) s
