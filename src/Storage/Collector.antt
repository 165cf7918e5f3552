-- ===== src/Storage/Collector.antt =====
-- hydra/data/collector.py: what one round fetches, stores and announces. The exchanges, of ccxt, are a
-- parameter.
pub mod Candles
pub mod Markets
pub mod Rounds
use hydra_engine.Base.{
  ℕ, ◌+◌, ◌-◌, ◌≡◌, ◌≤◌, refl, sym, ap, ◌∙◌, Bool, true, false, ◌&&◌, Option, none, some, List, [],
  ◌∷◌, ◌++◌, All, All-append, is_some, get_or, if◌then◌else◌, arith, Bool-cases, Option-cases, inl,
  inr, ◌⊎◌,
}
use hydra_engine.Text.{Str, codes, str_eq}
use hydra_engine.Dict.{Dict}
use hydra_engine.Candle.{Candle}
use hydra_engine.Config.Markets.{MarketManager, is_active}
use hydra_engine.Engines.Events.{Event}
use hydra_engine.Storage.Contract.{OhlcvStore}

-- `_CCXT_ID.get(market)`
unfoldable pub ccxt_id : Str → Option Str
unfolding str_eq
ccxt_id market =
    if str_eq market (codes "binance")
    then some (codes "binance")
    else if str_eq market (codes "upbit")
    then some (codes "upbit")
    else if str_eq market (codes "hl")
    then some (codes "hyperliquid")
    else none

-- `_TIMEFRAME_MS.get(timeframe, 60_000)`
unfoldable pub timeframe_ms : Str → ℕ
unfolding str_eq
timeframe_ms timeframe =
    if str_eq timeframe (codes "1m")
    then 60000
    else if str_eq timeframe (codes "5m")
    then 300000
    else if str_eq timeframe (codes "15m")
    then 900000
    else if str_eq timeframe (codes "1h")
    then 3600000
    else if str_eq timeframe (codes "4h")
    then 14400000
    else if str_eq timeframe (codes "1d")
    then 86400000
    else 60000

-- A row of `fetch_ohlcv`; a number may be missing.
pub record RawRow (F : Type 0) : Type 0 where
  pub time : ℕ
  pub opening : Option F
  pub high : Option F
  pub low : Option F
  pub close : Option F
  pub volume : Option F

module _ {F : Type 0} where
  -- One candle; none is the TypeError of `float(None)`.
  unfoldable pub candle_of : Event → RawRow F → F → Option (Candle F)
  candle_of e r opening = elim r.high [
    | none ↦ none
    | some high ↦ elim r.low [
      | none ↦ none
      | some low ↦ elim r.close [
        | none ↦ none
        | some close ↦ elim r.volume [
          | none ↦ none
          | some volume ↦ some (record {
            market = e.market;
            symbol = e.symbol;
            timeframe = e.timeframe;
            open_time = r.time;
            opening = opening;
            high = high;
            low = low;
            close = close;
            volume = volume;
            close_time = r.time + timeframe_ms e.timeframe - 1;
          })
        ]
      ]
    ]
  ]

  abbrev pub both : Option (Candle F) → Option (List (Candle F)) → Option (List (Candle F))
  both (some c) (some cs) = some (c ∷ cs)
  both _ _ = none

  -- `if r[1] is not None`
  abbrev pub add_row :
      Event → RawRow F → Option F → Option (List (Candle F)) → Option (List (Candle F))
  add_row e r none rest = rest
  add_row e r (some opening) rest = both (candle_of e r opening) rest

  -- The list of candles: rows with no opening price are left out.
  unfoldable pub candles_of : Event → List (RawRow F) → Option (List (Candle F))
  candles_of e [] = some []
  candles_of e (r ∷ rs) = add_row e r r.opening (candles_of e rs)

-- The store, and the events on the channel "hydra:candle:new".
pub record Feed (S : Type 0) : Type 0 where
  pub store : S
  pub published : List Event

-- What the configuration has for a market; a key may be missing.
pub record Wanted : Type 0 where
  pub symbols : Option (List Str)
  pub timeframes : Option (List Str)

-- What goes wrong in the calls of a task: what an `upsert` that raises leaves in the store (none if it
-- does not raise), and whether `publish` comes back.
pub record Faults (S : Type 0) : Type 0 where
  pub upsert_fails : Event → S → Option S
  pub publish_works : Event → Bool

module _ {F S : Type 0} (store : OhlcvStore F S) (faults : Faults S) where
  abbrev pub publish : Event → List Event → List Event
  publish e events = if faults.publish_works e then events ++ e ∷ [] else events

  abbrev pub after_upsert : Event → List (Candle F) → Option S → Feed S → Feed S
  after_upsert e cs none feed = record {
    store = store.upsert cs feed.store;
    published = publish e feed.published;
  }
  after_upsert e cs (some left) feed = record { store = left; published = feed.published }

  abbrev pub store_candles : Event → Option (List (Candle F)) → Feed S → Feed S
  store_candles e none feed = feed
  store_candles e (some cs) feed = after_upsert e cs (faults.upsert_fails e feed.store) feed

  -- `_fetch_and_store`: none is an exception of the exchange. Every exception is logged and dropped:
  -- after one of `upsert` nothing is published, and one of `publish` comes after the candles are stored.
  unfoldable pub fetch_and_store : Event → Option (List (RawRow F)) → Feed S → Feed S
  fetch_and_store e none feed = feed
  fetch_and_store e (some []) feed = feed
  fetch_and_store e (some (r ∷ rs)) feed = store_candles e (candles_of e (r ∷ rs)) feed

  -- The tasks of a round, one after another in the order in which they finish.
  unfoldable pub run_tasks : (Event → Option (List (RawRow F))) → List Event → Feed S → Feed S
  unfolding fetch_and_store
  run_tasks fetch [] feed = feed
  run_tasks fetch (e ∷ es) feed = run_tasks fetch es (fetch_and_store e (fetch e) feed)

-- The inner loops of `collect_once`.
unfoldable pub timeframe_tasks : Str → Str → List Str → List Event
timeframe_tasks market symbol [] = []
timeframe_tasks market symbol (tf ∷ tfs) =
    record { market = market; symbol = symbol; timeframe = tf } ∷ timeframe_tasks market symbol tfs

unfoldable pub symbol_tasks : Str → List Str → List Str → List Event
unfolding timeframe_tasks
symbol_tasks market [] tfs = []
symbol_tasks market (s ∷ ss) tfs = timeframe_tasks market s tfs ++ symbol_tasks market ss tfs

-- `exchange_id in exchanges`: ccxt has a class of that name.
abbrev pub can_fetch : (Str → Bool) → Option Str → Bool
can_fetch has_class none = false
can_fetch has_class (some id) = has_class id

-- `cfg.get("symbols", [])` and `cfg.get("timeframes", ["1h"])` of every market that is enabled.
unfoldable pub tasks : (Str → Bool) → MarketManager → Dict Wanted → List Event
unfolding symbol_tasks
tasks has_class m [] = []
tasks has_class m ((market, wanted) ∷ rest) =
    if is_active m market && can_fetch has_class (ccxt_id market)
    then symbol_tasks market (get_or wanted.symbols []) (get_or wanted.timeframes (codes "1h" ∷ []))
      ++ tasks has_class m rest
    else tasks has_class m rest

module _ {F S : Type 0} (store : OhlcvStore F S) (faults : Faults S) (has_class : Str → Bool)
    (schedule : List Event → List Event) where
  -- `schedule` is the order in which `gather` finishes the tasks.
  unfoldable pub collect_once :
      MarketManager → Dict Wanted → (Event → Option (List (RawRow F))) → Feed S → Feed S
  unfolding run_tasks tasks
  collect_once m cfg fetch feed =
      run_tasks store faults fetch (schedule (tasks has_class m cfg)) feed
