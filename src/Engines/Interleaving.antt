-- ===== src/Engines/Interleaving.antt =====
-- That the caches of the engines keep their types, however the engines interleave.
use hydra_engine.Base.{
  not, ◌&&◌, ℕ, ◌≡◌, refl, Bool, true, false, Option, none, some, List, arith, inl, inr,
  if◌then◌else◌,
}
use hydra_engine.Text.{Str, str_eq}
use hydra_engine.Float.{Float, zero_float}
use hydra_engine.Json.{dumped}
use hydra_engine.Redis.{Redis, RedisLaws}
use hydra_engine.Exec.{Result-cases}
use hydra_engine.Core.Keys.{idem_key}
use hydra_engine.Core.RiskEngine.{RiskConfig, check_order_allowed}
use hydra_engine.Core.Orders.{OrderRequest, Venue}
use hydra_engine.Core.OrderQueue.{OrderQueue, World}
use hydra_engine.Core.OrderQueue.Retry.{submit_keeps}
use hydra_engine.Candle.{Candle, compute}
use hydra_engine.Strategy.Indicators.{Indicators, close_of}
use hydra_engine.Strategy.Generator.{Signal, generate}
use hydra_engine.Strategy.Sizing.{effective_size}
use hydra_engine.EventKeys.{event_key}
use hydra_engine.Engines.Events.{Event, key_of, indicator_prefix, regime_prefix, signal_prefix}
use hydra_engine.Engines.Indicator
use hydra_engine.Engines.Indicator.{store_indicators}
use hydra_engine.Engines.Strategy.{
  Trader, Ids, find_market, markets, acts, act_on, act_if, make, send, submit_order, submit_with,
  signal_json,
}
use hydra_engine.Engines.Messages.{heard, turn}
use hydra_engine.Engines.Live.{
  SameCaches, Live, LiveStep, published, indicator_writes, regime_reads, regime_writes,
  strategy_reads_indicators, strategy_reads_regime, strategy_acts, indicator_reconnects,
  regime_reconnects, strategy_reconnects, elsewhere, LiveReach, here, next,
}
use hydra_engine.Engines.Typed.{
  IsTyped, IsTyped-set_signal, IsTyped-same, IsTyped-store_indicators, IsTyped-handle_raw,
}

module _ {F R X : Type 0} (f : Float F) (redis : Redis F R) (laws : RedisLaws f redis)
    (venue : Venue F X) where
  -- The order of a signal changes no key outside the cache of answers.
  send-keeps :
      (ids : Ids) (q : OrderQueue F) (o : Option (OrderRequest F)) (w : World R X) (j : Str)
      → ((k : Str) → str_eq (idem_key k) j ≡ false)
      → redis.get (send f redis venue ids q o w).redis j ≡ redis.get w.redis j
  send-keeps ids q none w j h = refl
  send-keeps ids q (some o) w j h =
      submit_keeps f redis laws venue ids.answer q o w j (h o.idempotency_key)

  submit_with-keeps :
      (ids : Ids) (core : Option (OrderQueue F × RiskConfig F)) (e : Event) (s : Signal F)
      (size : F) (w : World R X) (j : Str)
      → ((k : Str) → str_eq (idem_key k) j ≡ false)
      → redis.get (submit_with f redis venue ids core e s size w).redis j ≡ redis.get w.redis j
  unfolding submit_order
  submit_with-keeps ids none e s size w j h = refl
  submit_with-keeps ids (some (q, config)) e s size w j h =
      let o = make f redis venue ids (find_market e.market markets) e.symbol s size in
      elim (Result-cases
        (check_order_allowed f redis config w.redis e.market e.symbol (zero_float f))) [
          | inl (x, p) ↦ ground arith
          | inr (verdict, p) ↦ ground (arith, send-keeps ids q o w j h)
        ]

  submit_with-SameCaches :
      (ids : Ids) (core : Option (OrderQueue F × RiskConfig F)) (e : Event) (s : Signal F)
      (size : F) (w : World R X)
      → SameCaches redis w.redis (submit_with f redis venue ids core e s size w).redis
  unfolding idem_key event_key str_eq
  submit_with-SameCaches ids core e s size w d = (
    submit_with-keeps ids core e s size w (key_of indicator_prefix d) λ k. refl,
    submit_with-keeps ids core e s size w (key_of regime_prefix d) λ k. refl,
    submit_with-keeps ids core e s size w (key_of signal_prefix d) λ k. refl,
  )

  IsTyped-submit_if :
      (b : Bool) (ids : Ids) (core : Option (OrderQueue F × RiskConfig F)) (e : Event)
      (s : Signal F) (size : F) (w : World R X)
      → IsTyped f redis w.redis
      → IsTyped f redis (if b then submit_with f redis venue ids core e s size w else w).redis
  IsTyped-submit_if false ids core e s size w h = h
  IsTyped-submit_if true ids core e s size w h =
      IsTyped-same f redis laws w.redis (submit_with f redis venue ids core e s size w).redis
        (submit_with-SameCaches ids core e s size w) h

  IsTyped-act_if :
      (ts : ℕ) (ids : Ids) (t : Trader F) (e : Event) (o : Option (Indicators F × Str))
      (w : World R X)
      → IsTyped f redis w.redis
      → IsTyped f redis (act_if f redis venue ts ids t e o w).redis
  unfolding act_on
  IsTyped-act_if ts ids t e none w h = h
  IsTyped-act_if ts ids t e (some (ind, regime)) w h =
      let s = generate f ts ind regime (close_of f ind) in
      let size = effective_size f t.trade_amount regime in
      let r = redis.set w.redis (key_of signal_prefix e) (dumped (signal_json f s size)) in
      IsTyped-submit_if (acts s.signal && not t.dry_run) ids t.core e s size
        (record w { redis = r }) (IsTyped-set_signal f redis laws w.redis e s size h)

  module _ (study : List (Candle F) → Indicators F) (t : Trader F) where
    IsTyped-indicator_turn :
        (now : ℕ) (candles : List (Candle F)) (o : Option Event) (r : R)
        → IsTyped f redis r
        → IsTyped f redis (turn (λ e. Indicator.handle_event f redis study now candles e) o r)
    unfolding Indicator.handle_event
    IsTyped-indicator_turn now candles none r h = h
    IsTyped-indicator_turn now candles (some e) r h =
        IsTyped-store_indicators f redis laws r e (compute f study now candles) h

    IsTyped-LiveStep :
        {s s' : Live F R X}
        → LiveStep f redis venue study t s s'
        → IsTyped f redis s.world.redis
        → IsTyped f redis s'.world.redis
    IsTyped-LiveStep (published m e) h = rw e h
    IsTyped-LiveStep {s} (indicator_writes now candles m rest _ e) h =
        rw e (IsTyped-indicator_turn now candles (heard m) s.world.redis h)
    IsTyped-LiveStep (regime_reads m rest _ _ e) h = rw e h
    IsTyped-LiveStep {s} (regime_writes now d raw _ e) h =
        rw e (IsTyped-handle_raw f redis laws now d raw s.world.redis h)
    IsTyped-LiveStep (strategy_reads_indicators m rest _ _ e) h = rw e h
    IsTyped-LiveStep (strategy_reads_regime d raw _ e) h = rw e h
    IsTyped-LiveStep {s} (strategy_acts ts ids d o _ e) h =
        rw e (IsTyped-act_if ts ids t d o s.world h)
    IsTyped-LiveStep (indicator_reconnects e) h = rw e h
    IsTyped-LiveStep (regime_reconnects e) h = rw e h
    IsTyped-LiveStep (strategy_reconnects e) h = rw e h
    IsTyped-LiveStep {s} (elsewhere w same e) h =
        rw e (IsTyped-same f redis laws s.world.redis w.redis same h)

    -- However the collector's messages, the three engines and the rest of the program interleave, and
    -- whatever connections are lost: every cache of indicators, of a regime and of a signal is empty or
    -- holds a text that its engine dumped, if that was so at the start.
    pub LiveReach-IsTyped :
        {s s' : Live F R X}
        → LiveReach f redis venue study t s s'
        → IsTyped f redis s.world.redis
        → IsTyped f redis s'.world.redis
    LiveReach-IsTyped here h = h
    LiveReach-IsTyped (next r step) h = IsTyped-LiveStep step (LiveReach-IsTyped r h)
