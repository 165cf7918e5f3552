-- ===== src/Api/Reading.antt =====
-- Which requests change anything.
use hydra_engine.Base.{
  ◌≡◌, refl, Bool, true, false, ◌||◌, Option, none, some, [], if◌then◌else◌, arith, inl, inr, ◌⊎◌,
  Bool-cases,
}
use hydra_engine.Text.{Str, str_eq, str_eq_refl, str_eq_sound}
use hydra_engine.Float.{Float}
use hydra_engine.Redis.{Redis}
use hydra_engine.Core.Orders.{Venue}
use hydra_engine.Core.KillSwitch.{Notice}
use hydra_engine.Storage.Contract.{OhlcvStore}
use hydra_engine.Api.Types.{
  Route, health, create_order, get_positions, get_risk, killswitch, get_markets, enable_market,
  disable_market, status, modules, list_strategies, start_strategy, get_pnl, reset_daily_pnl,
  get_candles, get_symbols, get_indicators, list_indicators, get_regime, list_regimes, get_signal,
  list_signals, get_orderbook, get_events, get_sentiment, run_backtest, App, Moment, Site,
}
use hydra_engine.Api.Guard.{handle, is_health, routed, key_accepted, refused, auth_guard}

-- The routes that may change the process.
abbrev pub changes : {F : Type 0} → Route F → Bool
changes (create_order o) = true
changes (killswitch reason) = true
changes (enable_market market) = true
changes (disable_market market) = true
changes reset_daily_pnl = true
changes _ = false

changes-is_health : {F : Type 0} (route : Route F) → changes route ≡ true → is_health route ≡ false
changes-is_health health h = absurd (ground arith)
changes-is_health _ h = refl

module _ {F : Type 0} (app : App F) where
  -- A key that the guard accepts is there, not empty, and the configured one.
  key_accepted_lem :
      (header : Option Str)
      → key_accepted app header ≡ true
      → (header ≡ some app.hydra_api_key) × (str_eq app.hydra_api_key [] ≡ false)
  unfolding key_accepted
  key_accepted_lem none h = absurd (ground arith)
  key_accepted_lem (some key) h = ground (arith, str_eq_sound key app.hydra_api_key)

module _ {F R X T S : Type 0} (f : Float F) (redis : Redis F R) (venue : Venue F X)
    (send : Notice F → T → T) (store : OhlcvStore F S) (app : App F) where
  handle-reads :
      (m : Moment F) (route : Route F) (s : Site R X T S)
      → changes route ≡ false
      → (handle f redis venue send store app m route s).1 ≡ s
  unfolding handle
  handle-reads m health s h = refl
  handle-reads m (create_order o) s h = absurd (ground arith)
  handle-reads m get_positions s h = refl
  handle-reads m get_risk s h = refl
  handle-reads m (killswitch reason) s h = absurd (ground arith)
  handle-reads m get_markets s h = refl
  handle-reads m (enable_market market) s h = absurd (ground arith)
  handle-reads m (disable_market market) s h = absurd (ground arith)
  handle-reads m status s h = refl
  handle-reads m modules s h = refl
  handle-reads m list_strategies s h = refl
  handle-reads m (start_strategy name) s h = refl
  handle-reads m get_pnl s h = refl
  handle-reads m reset_daily_pnl s h = absurd (ground arith)
  handle-reads m (get_candles x limit since) s h = refl
  handle-reads m get_symbols s h = refl
  handle-reads m (get_indicators e) s h = refl
  handle-reads m list_indicators s h = refl
  handle-reads m (get_regime e) s h = refl
  handle-reads m list_regimes s h = refl
  handle-reads m (get_signal e) s h = refl
  handle-reads m list_signals s h = refl
  handle-reads m (get_orderbook market symbol) s h = refl
  handle-reads m get_events s h = refl
  handle-reads m (get_sentiment symbol) s h = refl
  handle-reads m (run_backtest req) s h = refl

  -- The key check of the routes never refuses what the guard lets through: every request is served by
  -- the guard alone.
  pub auth_guard-handle :
      (m : Moment F) (header : Option Str) (route : Route F) (s : Site R X T S)
      → auth_guard f redis venue send store app m header route s ≡ (
          if is_health route || key_accepted app header
          then handle f redis venue send store app m route s
          else (refused, s))
  unfolding auth_guard routed
  auth_guard-handle m header route s = elim (Bool-cases (key_accepted app header)) [
    | inl yes' ↦
        let (e, filled) = key_accepted_lem app header yes' in
        rw yes' (rw e (ground (arith, str_eq_refl app.hydra_api_key)))
    | inr no' ↦ ground arith
  ]

  -- A request changes nothing, or it is for one of the five routes that may change the process and carries
  -- the configured key, which is not empty.
  pub auth_guard-changes :
      (m : Moment F) (header : Option Str) (route : Route F) (s : Site R X T S)
      → ((auth_guard f redis venue send store app m header route s).1 ≡ s)
        ⊎ ((changes route ≡ true)
            × (header ≡ some app.hydra_api_key)
            × (str_eq app.hydra_api_key [] ≡ false))
  auth_guard-changes m header route s = elim (Bool-cases (changes route)) [
    | inl may ↦ elim (Bool-cases (key_accepted app header)) [
      | inl yes' ↦ (let (e, filled) = key_accepted_lem app header yes' in inr (may, e, filled))
      | inr no' ↦ inl (ground (arith, auth_guard-handle m header route s, changes-is_health route))
    ]
    | inr only_reads ↦
        inl (ground (arith, auth_guard-handle m header route s, handle-reads m route s only_reads))
  ]
