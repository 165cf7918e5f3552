-- ===== src/Api/Guard.antt =====
-- The guard in front of every route: `auth_guard` of hydra/main.py, then `verify_api_key` of
-- hydra/api/auth.py, which every route but that of the health check depends on.
use hydra_engine.Base.{Bool, true, false, ◌&&◌, not, Option, none, some, [], if◌then◌else◌, get_or}
use hydra_engine.Text.{Str, codes, str_eq}
use hydra_engine.Float.{Float}
use hydra_engine.Redis.{Redis}
use hydra_engine.Core.Orders.{Venue}
use hydra_engine.Core.KillSwitch.{Notice}
use hydra_engine.Storage.Contract.{OhlcvStore}
use hydra_engine.Api.Types.{
  Route, health, create_order, get_positions, get_risk, killswitch, get_markets, enable_market,
  disable_market, status, modules, list_strategies, start_strategy, get_pnl, reset_daily_pnl,
  get_candles, get_symbols, get_indicators, list_indicators, get_regime, list_regimes, get_signal,
  list_signals, get_orderbook, get_events, get_sentiment, run_backtest, detail, invalid_parameter,
  Response, reply, App, Moment, Site,
}
use hydra_engine.Api.Cached
use hydra_engine.Api.Health.{get_health}
use hydra_engine.Api.Control
use hydra_engine.Api.Stored

module _ {F : Type 0} where
  abbrev pub is_health : Route F → Bool
  is_health health = true
  is_health _ = false

  abbrev pub refused : Response F
  refused = reply 403 (detail (codes "Invalid or missing API key. Set X-HYDRA-KEY header."))

module _ {F : Type 0} (app : App F) where
  -- `not api_key or api_key != get_settings().hydra_api_key`, negated
  unfoldable pub key_accepted : Option Str → Bool
  unfolding str_eq
  key_accepted header =
      let api_key = get_or header [] in not (str_eq api_key []) && str_eq api_key app.hydra_api_key

module _ {F R X T S : Type 0} (app : App F) where
  -- `verify_api_key`, in front of a handler; without the header FastAPI answers 422
  abbrev pub verify_api_key :
      Option Str
      → (Site R X T S → Response F × Site R X T S)
      → Site R X T S
      → Response F × Site R X T S
  verify_api_key none handler s = (reply 422 (invalid_parameter (codes "X-HYDRA-KEY")), s)
  verify_api_key (some key) handler s =
      if str_eq key app.hydra_api_key
      then handler s
      else (reply 403 (detail (codes "Invalid API key")), s)

module _ {F R X T S : Type 0} where
  -- A handler that changes nothing.
  abbrev pub reads : (Site R X T S → Response F) → Site R X T S → Response F × Site R X T S
  reads h s = (h s, s)

module _ {F R X T S : Type 0} (f : Float F) (redis : Redis F R) (venue : Venue F X)
    (send : Notice F → T → T) (store : OhlcvStore F S) (app : App F) where
  -- The handlers, by their routes.
  unfoldable pub handle : Moment F → Route F → Site R X T S → Response F × Site R X T S
  handle m health =
      reads λ s. get_health redis m.health_reads s.started m.uptime_seconds s.world.redis
  handle m (create_order o) = Control.create_order f redis venue app m o
  handle m get_positions = reads (Control.get_positions f redis)
  handle m get_risk = reads (Control.get_risk f redis)
  handle m (killswitch reason) = Control.killswitch redis venue send app m reason
  handle m get_markets = reads Control.get_markets
  handle m (enable_market market) = Control.enable_market market
  handle m (disable_market market) = Control.disable_market market
  handle m status = reads λ s. Control.status app
  handle m modules = reads λ s. Control.modules app
  handle m list_strategies = reads λ s. Control.list_strategies
  handle m (start_strategy name) = reads λ s. Control.start_strategy name
  handle m get_pnl = reads (Control.get_pnl f redis m)
  handle m reset_daily_pnl = Control.reset_daily_pnl f redis m
  handle m (get_candles x limit since) = reads (Stored.get_candles store x limit since)
  handle m get_symbols = reads (Stored.get_symbols store)
  handle m (get_indicators e) = reads λ s. Cached.get_indicators redis s.started e s.world.redis
  handle m list_indicators = reads λ s. Cached.list_indicators redis s.started s.world.redis
  handle m (get_regime e) = reads λ s. Cached.get_regime redis s.started e s.world.redis
  handle m list_regimes = reads λ s. Cached.list_regimes redis s.started s.world.redis
  handle m (get_signal e) = reads λ s. Cached.get_signal redis s.started e s.world.redis
  handle m list_signals = reads λ s. Cached.list_signals redis s.started s.world.redis
  handle m (get_orderbook market symbol) =
      reads λ s. Cached.get_orderbook redis s.started market symbol s.world.redis
  handle m get_events = reads λ s. Cached.get_events redis s.started s.world.redis
  handle m (get_sentiment symbol) =
      reads λ s. Cached.get_sentiment redis s.started symbol s.world.redis
  handle m (run_backtest req) = reads (Stored.run_backtest store f app m req)

  -- A route with its dependency.
  unfoldable pub routed : Moment F → Option Str → Route F → Site R X T S → Response F × Site R X T S
  unfolding handle
  routed m header route s =
      if is_health route then handle m route s else verify_api_key app header (handle m route) s

  -- The middleware in front of the routes: what a request gets, and what it leaves.
  unfoldable pub auth_guard :
      Moment F → Option Str → Route F → Site R X T S → Response F × Site R X T S
  unfolding routed key_accepted
  auth_guard m header route s =
      if is_health route
      then routed m header route s
      else if key_accepted app header
      then routed m header route s
      else (refused, s)
