-- ===== src/Engines/Safety.antt =====
-- When the strategy engine leaves the exchange alone.
use hydra_engine.Base.{
  ℕ, ◌≡◌, refl, Bool, true, false, not, ◌&&◌, Option, none, some, is_some, arith, inl, inr,
}
use hydra_engine.Text.{Str, str_eq}
use hydra_engine.Float.{Float, zero_float}
use hydra_engine.Json.{dumped, present}
use hydra_engine.Redis.{Redis, RedisLaws}
use hydra_engine.Exec.{Result-cases}
use hydra_engine.Core.Keys.{kill_blocked_key}
use hydra_engine.Core.RiskEngine.{RiskConfig, check_order_allowed}
use hydra_engine.Core.Orders.{OrderRequest, Venue}
use hydra_engine.Core.OrderQueue.{OrderQueue, World, is_blocked}
use hydra_engine.Core.OrderQueue.Guards.{submit_blocked}
use hydra_engine.Strategy.Indicators.{Indicators, close_of}
use hydra_engine.Strategy.Generator.{Signal, generate}
use hydra_engine.Strategy.Sizing.{effective_size}
use hydra_engine.EventKeys.{event_key}
use hydra_engine.Engines.Events.{Event, key_of, signal_prefix}
use hydra_engine.Engines.Strategy.{
  Trader, Ids, find_market, markets, acts, inputs, act_on, act_if, make, send, submit_order,
  submit_with, signal_json, handle_event,
}

signal_key-ne-kill_key : (e : Event) → str_eq (key_of signal_prefix e) kill_blocked_key ≡ false
unfolding event_key kill_blocked_key str_eq
signal_key-ne-kill_key e = refl

module _ {F : Type 0} (f : Float F) where
  -- The event makes the engine trade: its inputs are there, their signal is BUY or SELL, and the engine
  -- is not in a dry run.
  abbrev pub trades : ℕ → Trader F → Option (Indicators F × Str) → Bool
  trades ts t none = false
  trades ts t (some (ind, regime)) =
      acts (generate f ts ind regime (close_of f ind)).signal && not t.dry_run

module _ {F R X : Type 0} (f : Float F) (redis : Redis F R) (laws : RedisLaws f redis)
    (venue : Venue F X) where
  act_if-quiet :
      (ts : ℕ) (ids : Ids) (t : Trader F) (e : Event) (o : Option (Indicators F × Str))
      (w : World R X) (j : Str)
      → trades f ts t o ≡ false
      → str_eq (key_of signal_prefix e) j ≡ false
      → ((act_if f redis venue ts ids t e o w).venue ≡ w.venue)
        × (redis.get (act_if f redis venue ts ids t e o w).redis j ≡ redis.get w.redis j)
  unfolding act_on
  act_if-quiet ts ids t e none w j h k = (refl, refl)
  act_if-quiet ts ids t e (some (ind, regime)) w j h k =
      let s = generate f ts ind regime (close_of f ind) in
      let size = effective_size f t.trade_amount regime in
      ground
        (arith, laws.get-set w.redis (key_of signal_prefix e) j (dumped (signal_json f s size)))

  -- In a dry run, on a HOLD, and where an input is missing or malformed, an event does not touch the
  -- exchange, and changes no Redis key but that of the signal.
  pub only_signals_trade :
      (ts : ℕ) (ids : Ids) (t : Trader F) (e : Event) (w : World R X) (j : Str)
      → trades f ts t (inputs f redis e w.redis) ≡ false
      → str_eq (key_of signal_prefix e) j ≡ false
      → ((handle_event f redis venue ts ids t e w).venue ≡ w.venue)
        × (redis.get (handle_event f redis venue ts ids t e w).redis j ≡ redis.get w.redis j)
  unfolding handle_event
  only_signals_trade ts ids t e w j h k = act_if-quiet ts ids t e (inputs f redis e w.redis) w j h k

  send-blocked :
      (ids : Ids) (q : OrderQueue F) (o : Option (OrderRequest F)) (w : World R X)
      → is_blocked redis q w.redis ≡ true
      → send f redis venue ids q o w ≡ w
  send-blocked ids q none w h = refl
  send-blocked ids q (some o) w h = ground (arith, submit_blocked f redis venue ids.answer q o w h)

  submit_with-blocked :
      (ids : Ids) (core : Option (OrderQueue F × RiskConfig F)) (e : Event) (s : Signal F)
      (size : F) (w : World R X)
      → is_some (present (redis.get w.redis kill_blocked_key)) ≡ true
      → submit_with f redis venue ids core e s size w ≡ w
  unfolding submit_order is_blocked
  submit_with-blocked ids none e s size w h = refl
  submit_with-blocked ids (some (q, config)) e s size w h =
      elim (Result-cases
        (check_order_allowed f redis config w.redis e.market e.symbol (zero_float f))) [
          | inl (x, p) ↦ ground arith
          | inr (verdict, p) ↦ ground (
            arith,
            send-blocked ids q
                (make f redis venue ids (find_market e.market markets) e.symbol s size) w,
          )
        ]

  act_if-blocked :
      (ts : ℕ) (ids : Ids) (t : Trader F) (e : Event) (o : Option (Indicators F × Str))
      (w : World R X)
      → is_some (present (redis.get w.redis kill_blocked_key)) ≡ true
      → (act_if f redis venue ts ids t e o w).venue ≡ w.venue
  unfolding act_on
  act_if-blocked ts ids t e none w h = refl
  act_if-blocked ts ids t e (some (ind, regime)) w h =
      let s = generate f ts ind regime (close_of f ind) in
      let size = effective_size f t.trade_amount regime in
      let payload = dumped (signal_json f s size) in
      let cached = record w { redis = redis.set w.redis (key_of signal_prefix e) payload } in
      let still : is_some (present (redis.get cached.redis kill_blocked_key)) ≡ true = ground (
        arith,
        laws.get-set w.redis (key_of signal_prefix e) kill_blocked_key payload,
        signal_key-ne-kill_key e,
      ) in
      ground (arith, submit_with-blocked ids t.core e s size cached still)

  -- While the kill switch key is set, no event makes the engine touch the exchange, in a dry run or not,
  -- whatever the signal.
  pub no_trade_after_kill :
      (ts : ℕ) (ids : Ids) (t : Trader F) (e : Event) (w : World R X)
      → is_some (present (redis.get w.redis kill_blocked_key)) ≡ true
      → (handle_event f redis venue ts ids t e w).venue ≡ w.venue
  unfolding handle_event
  no_trade_after_kill ts ids t e w h = act_if-blocked ts ids t e (inputs f redis e w.redis) w h
