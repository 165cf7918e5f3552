-- ===== src/Engines/Unconnected.antt =====
-- hydra/strategy/engine.py: what the engine that `main` starts does to an exchange.
use hydra_engine.Base.{
  ℕ, ◌+◌, ◌≡◌, refl, sym, ◌∙◌, Bool, true, false, Option, none, some, List, [], ◌∷◌, get_or, arith,
  inl, inr, Option-cases,
}
use mathlib.Core.Path.{subst}
use hydra_engine.Text.{Str, codes}
use hydra_engine.Float.{Float, zero_float}
use hydra_engine.Json.{dumped}
use hydra_engine.Redis.{Redis}
use hydra_engine.Exec.{Result-cases}
use hydra_engine.Core.RiskEngine.{RiskConfig, check_order_allowed}
use hydra_engine.Core.Orders.{OrderRequest, Venue}
use hydra_engine.Core.OrderQueue.{
  OrderQueue, World, place, with_lock, submit_new, submit, has_exchange,
}
use hydra_engine.Strategy.Indicators.{Indicators, close_of}
use hydra_engine.Strategy.Generator.{Signal, generate}
use hydra_engine.Strategy.Sizing.{effective_size}
use hydra_engine.EventKeys.{parse_key}
use hydra_engine.Engines.Events.{Event, key_of, signal_prefix}
use hydra_engine.Engines.Strategy
use hydra_engine.Engines.Strategy.{
  Trader, Ids, find_market, markets, acts, inputs, act_on, act_if, make, send, submit_order,
  submit_with, signal_json, handle_event, handle_keys,
}
use hydra_engine.Engines.Messages.{Message, heard, turn, listen}
use hydra_engine.Engines.StartUp.{dry_run_of, core_of, trader_of, strategy_main}

module _ {F R X : Type 0} (f : Float F) (redis : Redis F R) (venue : Venue F X) where
  -- The queue has no connector for any market.
  submit-NoExchange :
      (uuid : Str) (q : OrderQueue F) (o : OrderRequest F) (w : World R X)
      → q.exchanges ≡ []
      → (submit f redis venue uuid q o w).1.venue ≡ w.venue
  unfolding submit submit_new with_lock place has_exchange check_order_allowed
  submit-NoExchange uuid q o w h = ground arith

  send-NoExchange :
      (ids : Ids) (q : OrderQueue F) (o : Option (OrderRequest F)) (w : World R X)
      → q.exchanges ≡ []
      → (send f redis venue ids q o w).venue ≡ w.venue
  send-NoExchange ids q none w h = refl
  send-NoExchange ids q (some o) w h = submit-NoExchange ids.answer q o w h

-- No connector is reachable through the queue of the engine.
abbrev NoExchange : {F : Type 0} → Option (OrderQueue F × RiskConfig F) → Type 0
NoExchange none = Unit
NoExchange (some (q, config)) = q.exchanges ≡ []

module _ {F R X : Type 0} (f : Float F) (redis : Redis F R) (venue : Venue F X) where
  NoExchange-core_of : (dry : Bool) → NoExchange (core_of f dry)
  NoExchange-core_of true = tt
  NoExchange-core_of false = refl

  core-trader_of :
      (dry_run amount : Option Str) {t : Trader F}
      → trader_of f dry_run amount ≡ some t
      → t.core ≡ core_of f (dry_run_of dry_run)
  unfolding trader_of
  core-trader_of dry_run amount h = elim (Option-cases (f.parse (get_or amount (codes "100")))) [
    | inl bad ↦ ground arith
    | inr (x, p) ↦ ground arith
  ]

  module _ (t : Trader F) (unconnected : NoExchange t.core) where
    submit_with-NoExchange :
        (ids : Ids) (core : Option (OrderQueue F × RiskConfig F)) (e : Event) (s : Signal F)
        (size : F) (w : World R X)
        → NoExchange core
        → (submit_with f redis venue ids core e s size w).venue ≡ w.venue
    unfolding submit_order
    submit_with-NoExchange ids none e s size w h = refl
    submit_with-NoExchange ids (some (q, config)) e s size w h =
        let o = make f redis venue ids (find_market e.market markets) e.symbol s size in
        elim (Result-cases
          (check_order_allowed f redis config w.redis e.market e.symbol (zero_float f))) [
            | inl (x, p) ↦ ground arith
            | inr (verdict, p) ↦ ground (arith, send-NoExchange f redis venue ids q o w h)
          ]

    act_if-NoExchange :
        (ts : ℕ) (ids : Ids) (e : Event) (o : Option (Indicators F × Str)) (w : World R X)
        → (act_if f redis venue ts ids t e o w).venue ≡ w.venue
    unfolding act_on
    act_if-NoExchange ts ids e none w = refl
    act_if-NoExchange ts ids e (some (ind, regime)) w =
        let s = generate f ts ind regime (close_of f ind) in
        let size = effective_size f t.trade_amount regime in
        let cached = record w {
          redis = redis.set w.redis (key_of signal_prefix e) (dumped (signal_json f s size));
        } in
        ground (arith, submit_with-NoExchange ids t.core e s size cached unconnected)

    turn-NoExchange :
        (ts : ℕ) (ids : Ids) (o : Option Event) (w : World R X)
        → (turn (λ e. handle_event f redis venue ts ids t e) o w).venue ≡ w.venue
    unfolding handle_event
    turn-NoExchange ts ids none w = refl
    turn-NoExchange ts ids (some e) w = act_if-NoExchange ts ids e (inputs f redis e w.redis) w

    listen-NoExchange :
        (ts : ℕ → ℕ) (ids : ℕ → Ids) (ms : List (Message F)) (n : ℕ) (w : World R X)
        → (listen (λ i e. handle_event f redis venue (ts i) (ids i) t e) ms n w).venue ≡ w.venue
    unfolding listen
    listen-NoExchange ts ids [] n w = refl
    listen-NoExchange ts ids (m ∷ ms) n w =
        listen-NoExchange ts ids ms (n + 1)
          (turn (λ e. handle_event f redis venue (ts n) (ids n) t e) (heard m) w)
        ∙ turn-NoExchange (ts n) (ids n) (heard m) w

    handle_keys-NoExchange :
        (ts : ℕ) (ids : ℕ → Ids) (ks : List Str) (n : ℕ) (w : World R X)
        → (handle_keys f redis venue ts ids t ks n w).venue ≡ w.venue
    unfolding handle_keys
    handle_keys-NoExchange ts ids [] n w = refl
    handle_keys-NoExchange ts ids (k ∷ ks) n w = elim (Option-cases (parse_key k)) [
      | inl skipped ↦ rw (skipped, handle_keys) (handle_keys-NoExchange ts ids ks (n + 1) w)
      | inr ((market, symbol, timeframe), p) ↦
          let e : Event = record { market = market; symbol = symbol; timeframe = timeframe } in
          rw (p, handle_keys)
            (handle_keys-NoExchange ts ids ks (n + 1) (handle_event f redis venue ts (ids n) t e w)
              ∙ turn-NoExchange ts (ids n) (some e) w)
    ]

  -- The strategy engine, started with the settings of its environment, never touches an exchange: not at
  -- the cold start and not for any sequence of messages, with STRATEGY_DRY_RUN=false either, since `main`
  -- gives its order queue no connectors.
  pub main_never_trades :
      (dry_run amount : Option Str) (ts : ℕ → ℕ) (ids later : ℕ → Ids) (t : Trader F)
      (ms : List (Message F)) (w : World R X)
      → trader_of f dry_run amount ≡ some t
      → (strategy_main f redis venue ts ids later t ms w).venue ≡ w.venue
  unfolding strategy_main Strategy.cold_start
  main_never_trades dry_run amount ts ids later t ms w h =
      let unconnected =
        subst NoExchange (sym (core-trader_of dry_run amount {t = t} h))
          (NoExchange-core_of (dry_run_of dry_run)) in
      listen-NoExchange t unconnected ts later ms 1
        (Strategy.cold_start f redis venue (ts 0) ids t w)
      ∙ handle_keys-NoExchange t unconnected (ts 0) ids
          (redis.keys w.redis (codes "hydra:indicator:")) 0 w
