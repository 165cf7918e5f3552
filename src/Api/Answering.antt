-- ===== src/Api/Answering.antt =====
-- The routes that read the caches of the engines, while the engines run.
use hydra_engine.Base.{◌≡◌, refl, sym, true, Option, none, some, List, arith}
use mathlib.Core.Path.{subst}
use hydra_engine.Text.{Str, codes, str_eq}
use hydra_engine.Float.{Float}
use hydra_engine.Json.{Json, obj, Fields, Payload, dumped, member?}
use hydra_engine.Redis.{Redis, RedisLaws}
use hydra_engine.Exec.{ok, and_then}
use hydra_engine.Core.PositionTracker.{decode}
use hydra_engine.Core.Orders.{Venue}
use hydra_engine.Core.KillSwitch.{Notice}
use hydra_engine.Candle.{Candle}
use hydra_engine.Strategy.Indicators.{Indicators}
use hydra_engine.Engines.Events.{Event, key_of, indicator_prefix, regime_prefix, signal_prefix}
use hydra_engine.Engines.Strategy.{Trader, signal_json}
use hydra_engine.Engines.Live.{Live, LiveReach}
use hydra_engine.Engines.Typed.{
  HoldsIndicators, no_indicators, indicators, HoldsRegime, no_regime, a_regime, HoldsSignal,
  no_signal, a_signal, IsTyped,
}
use hydra_engine.Engines.Interleaving.{LiveReach-IsTyped}
use hydra_engine.Storage.Contract.{OhlcvStore}
use hydra_engine.Api.Types.{
  detail, regime_answer, signal_answer, get_indicators, get_regime, get_signal, indicators_answer,
  Response, Route, reply, App, Moment, Site,
}
use hydra_engine.Api.Cached
use hydra_engine.Api.Cached.{found, regime_body, signal_body}
use hydra_engine.Api.Guard.{handle, key_accepted, auth_guard}
use hydra_engine.Api.Reading.{auth_guard-handle}

module _ {F : Type 0} (e : Event) where
  -- Each answer, by what the cache holds: the fields of the answer are the fields of that name in the
  -- cached object.
  pub data IsIndicatorsAnswer : Option (Payload F) → Response F → Type 0 where
    no_indicators_yet :
        IsIndicatorsAnswer none (reply 404 (detail (codes "No indicators cached for this symbol")))
    the_indicators :
        (j : Json F) → IsIndicatorsAnswer (some (dumped j)) (reply 200 (indicators_answer e j))

  pub data IsRegimeAnswer : Option (Payload F) → Response F → Type 0 where
    no_regime_yet :
        IsRegimeAnswer none (reply 404 (detail (codes "No regime cached for this symbol")))
    the_regime :
        (d : Fields F) (regime at : Json F)
        → member? (codes "regime") d ≡ some regime
        → member? (codes "detected_at") d ≡ some at
        → IsRegimeAnswer (some (dumped (obj d))) (reply 200 (regime_answer e regime at))

  pub data IsSignalAnswer : Option (Payload F) → Response F → Type 0 where
    no_signal_yet :
        IsSignalAnswer none (reply 404 (detail (codes "No signal cached for this symbol")))
    the_signal :
        (d : Fields F) (signal reason price ts : Json F)
        → member? (codes "signal") d ≡ some signal
        → member? (codes "reason") d ≡ some reason
        → member? (codes "price") d ≡ some price
        → member? (codes "ts") d ≡ some ts
        → IsSignalAnswer
            (some (dumped (obj d)))
            (reply 200 (signal_answer e signal reason price ts))

module _ {F : Type 0} (f : Float F) (e : Event) where
  indicators_served :
      (o : Option (Payload F))
      → HoldsIndicators f o
      → IsIndicatorsAnswer e o (
          found
            (codes "No indicators cached for this symbol")
            (λ raw. and_then (decode raw) λ data'. ok (indicators_answer e data'))
            o)
  indicators_served _ no_indicators = no_indicators_yet
  indicators_served _ (indicators ind) = the_indicators _

  regime_served :
      (o : Option (Payload F))
      → HoldsRegime f o
      → IsRegimeAnswer e o (found (codes "No regime cached for this symbol") (regime_body e) o)
  unfolding regime_body member? str_eq
  regime_served _ no_regime = no_regime_yet
  regime_served _ (a_regime regime now) = the_regime _ _ _ refl refl

  signal_served :
      (o : Option (Payload F))
      → HoldsSignal f o
      → IsSignalAnswer e o (found (codes "No signal cached for this symbol") (signal_body e) o)
  unfolding signal_body signal_json member? str_eq
  signal_served _ no_signal = no_signal_yet
  signal_served _ (a_signal s size) = the_signal _ _ _ _ _ refl refl refl refl

module _ {F R X T S : Type 0} (f : Float F) (redis : Redis F R) (laws : RedisLaws f redis)
    (venue : Venue F X) (send : Notice F → T → T) (store : OhlcvStore F S) (app : App F) where
  -- A request with the key is served by the handler.
  accepted_handle :
      (m : Moment F) (header : Option Str) (route : Route F) (site : Site R X T S)
      → key_accepted app header ≡ true
      → handle f redis venue send store app m route site
        ≡ auth_guard f redis venue send store app m header route site
  accepted_handle m header route site on =
      ground (arith, auth_guard-handle f redis venue send store app m header route site)

  -- While the engines run, in whatever order their steps come, a client with the key that asks for the
  -- indicators, the regime or the signal of an event gets a 404 if nothing is cached for it, and else a
  -- 200 with the cached indicators, or with the fields of these names of the cached regime or signal:
  -- what an engine is in the middle of writing never makes a route fail. The caches must have been empty
  -- or well-formed at the start.
  pub caches_served :
      (study : List (Candle F) → Indicators F) (t : Trader F) (before after : Live F R X)
      (m : Moment F) (header : Option Str) (e : Event) (site : Site R X T S)
      → LiveReach f redis venue study t before after
      → IsTyped f redis before.world.redis
      → site.world ≡ after.world
      → site.started ≡ true
      → key_accepted app header ≡ true
      → IsIndicatorsAnswer e
          (redis.get site.world.redis (key_of (codes "hydra:indicator") e))
          (auth_guard f redis venue send store app m header (get_indicators e) site).0
        × IsRegimeAnswer e
            (redis.get site.world.redis (key_of (codes "hydra:regime") e))
            (auth_guard f redis venue send store app m header (get_regime e) site).0
        × IsSignalAnswer e
            (redis.get site.world.redis (key_of (codes "hydra:signal") e))
            (auth_guard f redis venue send store app m header (get_signal e) site).0
  unfolding handle Cached.get_indicators Cached.get_regime Cached.get_signal
  caches_served study t before after m header e site run typed same on key =
      let h = LiveReach-IsTyped f redis laws venue study t run typed in
      let r = site.world.redis in
      let typed_now = subst (λ w. IsTyped f redis w.redis) (sym same) h in
      let served = λ (route : Route F). accepted_handle m header route site key in
      let cached = λ (prefix : Str). redis.get r (key_of prefix e) in
      (
        subst (IsIndicatorsAnswer e (cached indicator_prefix))
            (ground (arith, served (get_indicators e)))
            (indicators_served f e (cached indicator_prefix) (typed_now.indicators_at e)),
        subst (IsRegimeAnswer e (cached regime_prefix)) (ground (arith, served (get_regime e)))
            (regime_served f e (cached regime_prefix) (typed_now.regime_at e)),
        subst (IsSignalAnswer e (cached signal_prefix)) (ground (arith, served (get_signal e)))
            (signal_served f e (cached signal_prefix) (typed_now.signal_at e)),
      )
