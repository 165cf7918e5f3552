-- ===== src/Api/Cached.antt =====
-- hydra/api/indicators.py, regime.py, signals.py and supplemental.py: the routes that read what the engines
-- and the pollers cached.
use hydra_engine.Base.{Bool, Option, none, some, List, [], ◌∷◌, ◌++◌, if◌then◌else◌}
use hydra_engine.Text.{Str, codes, str_eq}
use hydra_engine.Json.{Json, str, arr, nil, obj, Fields, field, end, Payload}
use hydra_engine.Redis.{Redis}
use hydra_engine.Exec.{Result, ok, err, and_then}
use hydra_engine.Core.Types.{Error}
use hydra_engine.Core.PositionTracker.{decode}
use hydra_engine.Core.OrderQueue.{fields_of, subscript}
use hydra_engine.EventKeys.{parse_key}
use hydra_engine.Engines.Events.{Event, key_of, indicator_prefix, regime_prefix, signal_prefix}
use hydra_engine.Api.Types.{
  Body, detail, value, events_answer, indicators_answer, regime_answer, signal_answer, Response,
  reply, crash,
}

-- `if len(parts) >= 5: result.append(…)`
abbrev pub listed : Option (Str × Str × Str) → List Event → List Event
listed none rest = rest
listed (some (market, symbol, timeframe)) rest =
    record { market = market; symbol = symbol; timeframe = timeframe } ∷ rest

-- The loop over the keys.
unfoldable pub events_of : List Str → List Event
events_of [] = []
events_of (k ∷ ks) = listed (parse_key k) (events_of ks)

module _ {F : Type 0} where
  abbrev pub answer : Result (Error F) (Body F) → Response F
  answer (ok b) = reply 200 b
  answer (err e) = crash

  abbrev pub unavailable : Str → Response F
  unavailable what = reply 503 (detail what)

  -- `if raw is None: raise HTTPException(404)`, then the rest of the handler
  abbrev pub found : Str → (Payload F → Result (Error F) (Body F)) → Option (Payload F) → Response F
  found missing rest none = reply 404 (detail missing)
  found missing rest (some raw) = answer (rest raw)

  -- `json.loads(raw)` as a dictionary
  abbrev pub dict_of : Payload F → Result (Error F) (Fields F)
  dict_of raw = and_then (decode raw) fields_of

  unfoldable pub regime_body : Event → Payload F → Result (Error F) (Body F)
  regime_body e raw = and_then (dict_of raw) λ data'.
      and_then (subscript (codes "regime") data') λ regime.
        and_then (subscript (codes "detected_at") data') λ at. ok (regime_answer e regime at)

  unfoldable pub signal_body : Event → Payload F → Result (Error F) (Body F)
  signal_body e raw = and_then (dict_of raw) λ data'.
      and_then (subscript (codes "signal") data') λ signal.
        and_then (subscript (codes "reason") data') λ reason.
          and_then (subscript (codes "price") data') λ price.
            and_then (subscript (codes "ts") data')
              λ ts. ok (signal_answer e signal reason price ts)

  -- `d[k] = v` in an object
  unfoldable pub set_field : Str → Json F → Fields F → Fields F
  unfolding str_eq
  set_field k v end = field k v end
  set_field k v (field j w d) = if str_eq j k then field j v d else field j w (set_field k v d)

  -- `{…, **data}`
  unfoldable pub spread : Fields F → Fields F → Fields F
  unfolding set_field
  spread d end = d
  spread d (field k v more) = spread (set_field k v d) more

  unfoldable pub spread_body : Fields F → Payload F → Result (Error F) (Body F)
  spread_body d raw = and_then (dict_of raw) λ data'. ok (value (obj (spread d data')))

module _ {F R : Type 0} (redis : Redis F R) where
  unfoldable pub get_indicators : Bool → Event → R → Response F
  get_indicators started e r =
      if started
      then found (codes "No indicators cached for this symbol")
          (λ raw. and_then (decode raw) λ data'. ok (indicators_answer e data'))
          (redis.get r (key_of indicator_prefix e))
      else unavailable (codes "Redis not initialized")

  unfoldable pub get_regime : Bool → Event → R → Response F
  unfolding regime_body
  get_regime started e r =
      if started
      then found (codes "No regime cached for this symbol") (regime_body e)
          (redis.get r (key_of regime_prefix e))
      else unavailable (codes "Redis not initialized")

  unfoldable pub get_signal : Bool → Event → R → Response F
  unfolding signal_body
  get_signal started e r =
      if started
      then found (codes "No signal cached for this symbol") (signal_body e)
          (redis.get r (key_of signal_prefix e))
      else unavailable (codes "Redis not initialized")

  -- The routes `…/list`, by the prefix of the keys.
  unfoldable pub list_keys : Str → Bool → R → Response F
  unfolding events_of
  list_keys prefix started r =
      if started
      then reply 200 (events_answer (events_of (redis.keys r (prefix ++ codes ":"))))
      else unavailable (codes "Redis not initialized")

  abbrev pub list_indicators : Bool → R → Response F
  list_indicators = list_keys indicator_prefix

  abbrev pub list_regimes : Bool → R → Response F
  list_regimes = list_keys regime_prefix

  abbrev pub list_signals : Bool → R → Response F
  list_signals = list_keys signal_prefix

  unfoldable pub get_orderbook : Bool → Str → Str → R → Response F
  unfolding spread_body
  get_orderbook started market symbol r =
      if started
      then found (codes "No orderbook cached for this symbol")
          (spread_body
            (field (codes "market") (str market) (field (codes "symbol") (str symbol) end)))
          (redis.get r (codes "hydra:orderbook:" ++ (market ++ (codes ":" ++ symbol))))
      else unavailable (codes "Redis not initialized")

  abbrev pub upcoming : Option (Payload F) → Response F
  upcoming none = reply 200 (value (arr nil))
  upcoming (some raw) = answer (and_then (decode raw) λ data'. ok (value data'))

  unfoldable pub get_events : Bool → R → Response F
  get_events started r =
      if started
      then upcoming (redis.get r (codes "hydra:events:upcoming"))
      else unavailable (codes "Redis not initialized")

  unfoldable pub get_sentiment : Bool → Str → R → Response F
  unfolding spread_body
  get_sentiment started symbol r =
      if started
      then found (codes "No sentiment cached for this symbol")
          (spread_body (field (codes "symbol") (str symbol) end))
          (redis.get r (codes "hydra:sentiment:" ++ symbol))
      else unavailable (codes "Redis not initialized")
