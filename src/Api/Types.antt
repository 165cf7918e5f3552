-- ===== src/Api/Types.antt =====
-- What the routes take and give back. FastAPI reads the parameters of a request and writes the answer;
-- an answer is kept as the value that it encodes.
use hydra_engine.Base.{ℕ, Bool, Option, List}
use hydra_engine.Text.{Str}
use hydra_engine.Json.{Json, Payload}
use hydra_engine.Dict.{Dict}
use hydra_engine.Candle.{Candle}
use hydra_engine.Config.Markets.{MarketManager}
use hydra_engine.Core.Orders.{OrderRequest}
use hydra_engine.Core.OrderQueue.{OrderQueue, OrderResult, World}
use hydra_engine.Core.KillSwitch.{KillSwitchResult}
use hydra_engine.Core.PnlTracker.Summary.{Summary}
use hydra_engine.Strategy.Indicators.{Indicators}
use hydra_engine.Engines.Events.{Event}
use hydra_engine.Storage.Database.{Series}
use hydra_engine.Backtest.Runner.{BacktestResult}

pub record BacktestRequest (F : Type 0) : Type 0 where
  pub market : Str
  pub symbol : Str
  pub timeframe : Str
  pub since : ℕ
  pub until : ℕ
  pub initial_capital : F
  pub trade_amount_usd : F
  pub commission_pct : F

-- The routes, with their parameters; one that may be left out is an option.
pub data Route (F : Type 0) : Type 0 where
  health : Route F
  create_order : OrderRequest F → Route F
  get_positions : Route F
  get_risk : Route F
  killswitch : Option Str → Route F
  get_markets : Route F
  enable_market : Str → Route F
  disable_market : Str → Route F
  status : Route F
  modules : Route F
  list_strategies : Route F
  start_strategy : Str → Route F
  get_pnl : Route F
  reset_daily_pnl : Route F
  get_candles : Series → Option ℕ → Option ℕ → Route F
  get_symbols : Route F
  get_indicators : Event → Route F
  list_indicators : Route F
  get_regime : Event → Route F
  list_regimes : Route F
  get_signal : Event → Route F
  list_signals : Route F
  get_orderbook : Str → Str → Route F
  get_events : Route F
  get_sentiment : Str → Route F
  run_backtest : BacktestRequest F → Route F

pub data Body (F : Type 0) : Type 0 where
  -- The `detail` of an HTTPException.
  detail : Str → Body F
  -- What FastAPI says of a parameter that it refuses.
  invalid_parameter : Str → Body F
  -- The text of a ValueError.
  value_error_text : Body F
  value : Json F → Body F
  order_answer : OrderResult F → Body F
  positions_answer : List (Json F) → Body F
  risk_answer : F → Bool → Body F
  -- The fields `success`, `closed` and `errors` of the result.
  kill_answer : KillSwitchResult F → Body F
  markets_answer : List Str → Body F
  market_answer : Str → Str → Body F
  summary_answer : Summary F → Body F
  candles_answer : List (Candle F) → Body F
  symbols_answer : List Series → Body F
  events_answer : List Event → Body F
  indicators_answer : Event → Json F → Body F
  regime_answer : Event → Json F → Json F → Body F
  signal_answer : Event → Json F → Json F → Json F → Json F → Body F
  backtest_answer : BacktestResult F → Body F
  -- `status`, `uptime_seconds` and, where there are any, `collectors`.
  health_answer : Str → ℕ → Dict (Option (Payload F)) → Body F

-- An answer with its status, or an exception that no handler catches, for which the client gets 500.
pub data Response (F : Type 0) : Type 0 where
  reply : ℕ → Body F → Response F
  crash : Response F

-- What is fixed while the process runs.
pub record App (F : Type 0) : Type 0 where
  pub hydra_api_key : Str
  pub hydra_profile : Str
  pub version : Str
  pub queue : OrderQueue F
  -- What pandas-ta computes.
  pub study : List (Candle F) → Indicators F

-- What the clock and `uuid4` say while a request is served, and whether Redis answers what the health
-- check asks of it.
pub record Moment (F : Type 0) : Type 0 where
  pub uuid : Str
  pub duration_ms : F
  pub day : Str
  pub uptime_seconds : ℕ
  pub health_reads : Bool
  pub now : ℕ → ℕ

-- The state of the process. The route modules get their references together, before the first request
-- is served; until then `started` is false.
pub record Site (R X T S : Type 0) : Type 0 where
  pub started : Bool
  pub world : World R X
  pub inbox : T
  pub markets : MarketManager
  pub store : S
