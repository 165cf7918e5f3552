-- ===== src/Engines/StartUp.antt =====
-- `main` of hydra/indicator/engine.py, hydra/regime/engine.py and hydra/strategy/engine.py: the cold start,
-- then the messages. The client of Redis and the store come from outside.
use hydra_engine.Base.{
  ℕ, ◌+◌, Bool, true, false, not, ◌&&◌, Option, none, some, List, [], ◌∷◌, get_or, if◌then◌else◌,
  leb,
}
use hydra_engine.Text.{Str, codes, str_eq}
use hydra_engine.Float.{Float}
use hydra_engine.Redis.{Redis}
use hydra_engine.Core.RiskEngine.{RiskConfig, default_risk_config}
use hydra_engine.Core.Orders.{Venue}
use hydra_engine.Core.OrderQueue.{OrderQueue, World}
use hydra_engine.Candle.{Candle}
use hydra_engine.Strategy.Indicators.{Indicators}
use hydra_engine.Engines.Events.{Event}
use hydra_engine.Engines.Indicator
use hydra_engine.Engines.Regime
use hydra_engine.Engines.Strategy
use hydra_engine.Engines.Strategy.{
  Trader, Ids, find_market, markets, acts, inputs, act_on, act_if, make, send, submit_order,
  submit_with, signal_json, handle_event, handle_keys,
}
use hydra_engine.Engines.Messages.{Message, listen, run_indicator, run_regime, run_strategy}

-- `.lower()`, for the letters of ASCII; no other character becomes one of the letters of "false".
unfoldable pub lower : Str → Str
lower [] = []
lower (c ∷ s) = (if leb b'A' c && leb c b'Z' then c + 32 else c) ∷ lower s

-- `os.environ.get("STRATEGY_DRY_RUN", "true").lower() != "false"`
unfoldable pub dry_run_of : Option Str → Bool
unfolding lower str_eq
dry_run_of setting = not (str_eq (lower (get_or setting (codes "true"))) (codes "false"))

module _ {F : Type 0} (f : Float F) where
  -- The order queue and the limits that `main` makes: there are no connectors.
  abbrev pub core_of : Bool → Option (OrderQueue F × RiskConfig F)
  core_of true = none
  core_of false = some (
    record { blocked = false; exchanges = []; config = default_risk_config f },
    default_risk_config f,
  )

  abbrev pub trader_with : Bool → Option F → Option (Trader F)
  trader_with dry none = none
  trader_with dry (some amount) =
      some (record { dry_run = dry; core = core_of dry; trade_amount = amount })

  -- The engine for the two settings of the environment; none where `float` raises.
  unfoldable pub trader_of : Option Str → Option Str → Option (Trader F)
  unfolding dry_run_of
  trader_of dry_run amount =
      trader_with (dry_run_of dry_run) (f.parse (get_or amount (codes "100")))

module _ {F R X : Type 0} (f : Float F) (redis : Redis F R) (venue : Venue F X) where
  -- `now` says what the clock says at each turn, and `query` what the store returns; 0 is the cold start.
  unfoldable pub indicator_main :
      (List (Candle F) → Indicators F)
      → (ℕ → ℕ)
      → (ℕ → Event → List (Candle F))
      → List Event
      → List (Message F)
      → R
      → R
  unfolding listen Indicator.cold_start
  indicator_main study now query symbols ms r =
      run_indicator f redis venue study now query ms
        (Indicator.cold_start f redis study (now 0) (query 0) symbols r)

  unfoldable pub regime_main : (ℕ → ℕ) → List (Message F) → R → R
  unfolding listen Regime.cold_start
  regime_main now ms r = run_regime f redis venue now ms (Regime.cold_start f redis (now 0) r)

  -- The client of Redis is taken to answer the calls of the core. The one that `main` gives it is of
  -- asyncio, whose calls return coroutines, so that the core cannot use it.
  unfoldable pub strategy_main :
      (ℕ → ℕ) → (ℕ → Ids) → (ℕ → Ids) → Trader F → List (Message F) → World R X → World R X
  unfolding listen Strategy.cold_start
  strategy_main ts ids later t ms w =
      run_strategy f redis venue ts later t ms (Strategy.cold_start f redis venue (ts 0) ids t w)
