-- ===== src/Api/Serving.antt =====
-- What the routes serve of what the engines cached.
use hydra_engine.Base.{
  ◌≡◌, refl, sym, ap, ◌∙◌, Bool, true, false, ◌&&◌, ◌||◌, Option, none, some, List, [], ◌∷◌, ◌++◌,
  is_some, arith, ℕ, Bool-cases, inl, inr,
}
use mathlib.Core.Path.{subst}
use hydra_engine.Text.{Str, codes, str_eq, str_eq_refl, str_eq_iff, str_eq_sound, member}
use hydra_engine.Text.Split.{Free}
use hydra_engine.Float.{Float}
use hydra_engine.Json.{str, num, int, dumped, member?}
use hydra_engine.Redis.{Redis, RedisLaws, starts_with, starts_with-append}
use hydra_engine.Exec.{ok}
use hydra_engine.Candle.{Candle, compute}
use hydra_engine.EventKeys.{colon, event_key, parse_key, parse_key-event_key}
use hydra_engine.Core.Orders.{Venue}
use hydra_engine.Core.OrderQueue.{World}
use hydra_engine.Core.KillSwitch.{Notice}
use hydra_engine.Strategy.Indicators.{Indicators, close_of}
use hydra_engine.Strategy.Generator.{Signal, generate}
use hydra_engine.Strategy.Sizing.{effective_size}
use hydra_engine.Engines.Events.{Event, key_of, signal_prefix}
use hydra_engine.Engines.Indicator
use hydra_engine.Engines.Regime
use hydra_engine.Engines.Strategy
use hydra_engine.Engines.Strategy.{Trader, Ids, advice_name, signal_json}
use hydra_engine.Engines.Pipeline.{regime_for, candles_to_signal}
use hydra_engine.Storage.Contract.{OhlcvStore}
use hydra_engine.Api.Types.{
  get_signal, list_signals, events_answer, signal_answer, reply, App, Moment, Site,
}
use hydra_engine.Api.Cached
use hydra_engine.Api.Cached.{events_of, listed}
use hydra_engine.Api.Guard.{handle, key_accepted, auth_guard}
use hydra_engine.Api.Reading.{auth_guard-handle}

abbrev same_event : Event → Event → Bool
same_event d e =
    str_eq d.market e.market && (str_eq d.symbol e.symbol && str_eq d.timeframe e.timeframe)

-- The event is one of the list.
abbrev pub has_event : Event → List Event → Bool
has_event e [] = false
has_event e (d ∷ ds) = same_event d e || has_event e ds

same_event_refl : (e : Event) → same_event e e ≡ true
same_event_refl e =
    ground (arith, str_eq_refl e.market, str_eq_refl e.symbol, str_eq_refl e.timeframe)

has-listed :
    (e : Event) (o : Option (Str × Str × Str)) (es : List Event)
    → has_event e es ≡ true
    → has_event e (listed o es) ≡ true
has-listed e none es h = h
has-listed e (some names) es h = ground (arith, h)

has-events_of :
    (e : Event) (k : Str) (ks : List Str)
    → parse_key k ≡ some (e.market, e.symbol, e.timeframe)
    → member k ks ≡ true
    → has_event e (events_of ks) ≡ true
unfolding events_of
has-events_of e k [] h n = absurd (ground arith)
has-events_of e k (j ∷ ks) h n = elim (Bool-cases (str_eq j k)) [
  | inl same ↦
      subst (λ o. has_event e (listed o (events_of ks)) ≡ true)
        (sym (ap parse_key (str_eq_sound j k same) ∙ h)) (ground (arith, same_event_refl e))
  | inr other ↦
      let rest = has-events_of e k ks h (ground (arith, str_eq_iff j k, str_eq_iff k j)) in
      has-listed e (parse_key j) (events_of ks) rest
]

starts_with-key :
    (e : Event) → starts_with (signal_prefix ++ codes ":") (key_of signal_prefix e) ≡ true
unfolding event_key
starts_with-key e =
    starts_with-append (signal_prefix ++ codes ":")
      (e.market ++ (colon ∷ (e.symbol ++ (colon ∷ e.timeframe))))

module _ {F : Type 0} (f : Float F) where
  signal_body-signal_json :
      (e : Event) (s : Signal F) (size : F)
      → Cached.signal_body e (dumped (signal_json f s size))
        ≡ ok (signal_answer e (str (advice_name s.signal)) (str s.reason) (num s.price) (int s.ts))
  unfolding Cached.signal_body signal_json member? str_eq
  signal_body-signal_json e s size = refl

module _ {F R X T S : Type 0} (f : Float F) (redis : Redis F R) (laws : RedisLaws f redis)
    (venue : Venue F X) (send : Notice F → T → T) (store : OhlcvStore F S) (app : App F) where
  -- The list route names every event with a signal in Redis, for a market and a timeframe with no colon.
  pub listed-signal :
      (m : Moment F) (header : Option Str) (e : Event) (s : Site R X T S)
      → s.started ≡ true
      → key_accepted app header ≡ true
      → Free colon e.market
      → Free colon e.timeframe
      → is_some (redis.get s.world.redis (key_of signal_prefix e)) ≡ true
      → (es : List Event) × (auth_guard f redis venue send store app m header list_signals s
          ≡ (reply 200 (events_answer es), s))
        × (has_event e es ≡ true)
  unfolding handle Cached.list_keys
  listed-signal m header e s on key fm ft cached =
      let ks = redis.keys s.world.redis (signal_prefix ++ codes ":") in
      (
        events_of ks,
        ground (arith, auth_guard-handle f redis venue send store app m header list_signals s),
        has-events_of e (key_of signal_prefix e) ks
            (parse_key-event_key (codes "hydra") (codes "signal") e.market e.symbol e.timeframe
              (refl, (refl, (refl, (refl, (refl, tt)))))
              (refl, (refl, (refl, (refl, (refl, (refl, tt)))))) fm ft)
            (ground (
              arith,
              laws.member-keys s.world.redis (signal_prefix ++ codes ":") (key_of signal_prefix e),
              starts_with-key e,
            )),
      )

  -- A candle event that goes through the three engines in a dry run, with enough candles, can be read over
  -- HTTP with the key: the answer carries the signal that the generator gives for the calculator's
  -- indicators under the regime of the detector.
  pub served_signal :
      (study : List (Candle F) → Indicators F) (candles : List (Candle F)) (now later ts : ℕ)
      (ids : Ids) (t : Trader F) (e : Event) (w : World R X) (v : Str × Option F)
      (vs : Indicators F) (m : Moment F) (header : Option Str) (s : Site R X T S)
      → t.dry_run ≡ true
      → compute f study now candles ≡ v ∷ vs
      → s.started ≡ true
      → key_accepted app header ≡ true
      → s.world
        ≡ Strategy.handle_event f redis venue ts ids t e (record w {
          redis =
              Regime.handle_event f redis later e
                (Indicator.handle_event f redis study now candles e w.redis);
        })
      → auth_guard f redis venue send store app m header (get_signal e) s ≡ (
        (let made = generate f ts (v ∷ vs) (regime_for f (v ∷ vs)) (close_of f (v ∷ vs)) in
            reply 200 (
              signal_answer e
                (str (advice_name made.signal))
                (str made.reason)
                (num made.price)
                (int made.ts))),
        s,
      )
  unfolding handle Cached.get_signal
  served_signal study candles now later ts ids t e w v vs m header s dry h on key world =
      let made = generate f ts (v ∷ vs) (regime_for f (v ∷ vs)) (close_of f (v ∷ vs)) in
      ground (
        arith,
        auth_guard-handle f redis venue send store app m header (get_signal e) s,
        candles_to_signal f redis laws venue study candles now later ts ids t e w v vs dry h,
        signal_body-signal_json f e made (effective_size f t.trade_amount (regime_for f (v ∷ vs))),
      )
