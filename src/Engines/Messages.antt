-- ===== src/Engines/Messages.antt =====
-- The subscription loops of hydra/indicator/engine.py, hydra/regime/engine.py and
-- hydra/strategy/engine.py: what each does with one message of the channel "hydra:candle:new".
use hydra_engine.Base.{ℕ, ◌+◌, ◌≡◌, refl, Option, none, some, List, [], ◌∷◌, if◌then◌else◌}
use hydra_engine.Text.{Str, codes, str_eq}
use hydra_engine.Float.{Float}
use hydra_engine.Json.{Json, str, obj, field, end, member?, Payload, dumped}
use hydra_engine.Redis.{Redis}
use hydra_engine.Exec.{Result, ok, err, and_then}
use hydra_engine.Core.Types.{Error, value_error}
use hydra_engine.Core.PositionTracker.{decode}
use hydra_engine.Core.Orders.{Venue}
use hydra_engine.Core.OrderQueue.{World, fields_of, subscript}
use hydra_engine.Candle.{Candle}
use hydra_engine.Strategy.Indicators.{Indicators}
use hydra_engine.Engines.Events.{Event}
use hydra_engine.Engines.Indicator
use hydra_engine.Engines.Regime
use hydra_engine.Engines.Strategy
use hydra_engine.Engines.Strategy.{Trader, Ids}

-- What `pubsub.listen()` yields.
pub record Message (F : Type 0) : Type 0 where
  pub kind : Str
  pub payload : Payload F

module _ {F : Type 0} where
  -- The collector writes texts only; a message with another value counts as one that is dropped.
  abbrev pub text_of : Json F → Result (Error F) Str
  text_of (str s) = ok s
  text_of _ = err value_error

  -- `payload["market"], payload["symbol"], payload["timeframe"]`
  unfoldable pub event_of : Payload F → Result (Error F) Event
  unfolding member?
  event_of raw = and_then (decode raw) λ j. and_then (fields_of j) λ d.
      and_then (and_then (subscript (codes "market") d) text_of) λ market.
        and_then (and_then (subscript (codes "symbol") d) text_of) λ symbol.
          and_then (and_then (subscript (codes "timeframe") d) text_of)
            λ timeframe. ok (record { market = market; symbol = symbol; timeframe = timeframe })

  -- `json.dumps` of the collector
  unfoldable pub announcement : Event → Json F
  announcement e = obj (
      field (codes "market") (str e.market)
        (field (codes "symbol") (str e.symbol) (field (codes "timeframe") (str e.timeframe) end)))

  abbrev pub dropped : Result (Error F) Event → Option Event
  dropped (ok e) = some e
  dropped (err x) = none

  -- The event that the handler is called for. None for a message of another type, and where an exception
  -- is logged and dropped.
  unfoldable pub heard : Message F → Option Event
  unfolding str_eq event_of
  heard m = if str_eq m.kind (codes "message") then dropped (event_of m.payload) else none

  pub event_of-announcement : (e : Event) → event_of (dumped (announcement e)) ≡ ok e
  unfolding event_of announcement member? str_eq
  event_of-announcement e = refl

-- One turn of a loop: a message that names no event is skipped. `handle` is `_handle_event`.
abbrev pub turn : {A : Type 0} → (Event → A → A) → Option Event → A → A
turn handle none a = a
turn handle (some e) a = handle e a

-- The loop over the messages of one subscription, `n` of whose turns are over. A lost connection ends it,
-- and the messages that come before the next subscription are not delivered.
unfoldable pub listen : {F A : Type 0} → (ℕ → Event → A → A) → List (Message F) → ℕ → A → A
unfolding heard
listen handle [] n a = a
listen handle (m ∷ ms) n a = listen handle ms (n + 1) (turn (handle n) (heard m) a)

-- What the clock says, what `uuid4` gives and what the store returns depends on the turn.
module _ {F R X : Type 0} (f : Float F) (redis : Redis F R) (venue : Venue F X) where
  abbrev pub run_indicator :
      (List (Candle F) → Indicators F)
      → (ℕ → ℕ)
      → (ℕ → Event → List (Candle F))
      → List (Message F)
      → R
      → R
  run_indicator study now query ms =
      listen (λ i e. Indicator.handle_event f redis study (now i) (query i e) e) ms 1

  abbrev pub run_regime : (ℕ → ℕ) → List (Message F) → R → R
  run_regime now ms = listen (λ i e. Regime.handle_event f redis (now i) e) ms 1

  abbrev pub run_strategy :
      (ℕ → ℕ) → (ℕ → Ids) → Trader F → List (Message F) → World R X → World R X
  run_strategy ts ids t ms =
      listen (λ i e. Strategy.handle_event f redis venue (ts i) (ids i) t e) ms 1

-- The messages that a subscriber gets for the events of the collector.
abbrev pub messages_of : {F : Type 0} → List Event → List (Message F)
messages_of [] = []
messages_of (e ∷ es) =
    record { kind = codes "message"; payload = dumped (announcement e) } ∷ messages_of es

-- A handler called for each of some events.
unfoldable pub each : {A : Type 0} → (ℕ → Event → A → A) → List Event → ℕ → A → A
each handle [] n a = a
each handle (e ∷ es) n a = each handle es (n + 1) (handle n e a)

-- An engine whose connection holds calls its handler once for every event that the collector publishes, in
-- the order of the collector, with the market, the symbol and the timeframe of the collector.
pub listen-messages_of :
    (F : Type 0) {A : Type 0} (handle : ℕ → Event → A → A) (es : List Event) (n : ℕ) (a : A)
    → listen {F = F} handle (messages_of es) n a ≡ each handle es n a
unfolding listen each heard announcement str_eq
listen-messages_of F handle [] n a = refl
listen-messages_of F handle (e ∷ es) n a = listen-messages_of F handle es (n + 1) (handle n e a)
