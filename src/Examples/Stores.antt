-- ===== src/Examples/Stores.antt =====
-- Runs over the stores and of the collector.
use hydra_engine.Base.{
  ℕ, zero, suc, ◌≡◌, ap, ◌∙◌, refl, Bool, true, false, ◌&&◌, Option, none, some, List, [], ◌∷◌, leb,
  All, arith,
}
use hydra_engine.Text.{Str, codes, str_eq}
use hydra_engine.Dict.{Dict}
use hydra_engine.Float.Fixed.{ℤ, pos, fixed}
use hydra_engine.Redis.Memory.{empty_server, memory}
use hydra_engine.Exec.{ok}
use hydra_engine.Candle.{Candle}
use hydra_engine.Strategy.Indicators.{Indicators}
use hydra_engine.Config.Markets.{MarketManager}
use hydra_engine.Engines.Events.{Event}
use hydra_engine.Storage.Database.{put, Series, Database}
use hydra_engine.Storage.Memory
use hydra_engine.Storage.Sqlite
use hydra_engine.Storage.Contract.{OhlcvStore, IsMap, sqlite, sqlite-IsMap}
use hydra_engine.Storage.Latest.{Filled, live_limit, handle_stored, live_indicators_frozen}
use hydra_engine.Storage.Backtest.{backtest_limit, run_stored, run_stored-IsSound}
use hydra_engine.Backtest.Runner.{run}
use hydra_engine.Backtest.Runner.Outcome.{IsSound}
use hydra_engine.Storage.Collector.{RawRow, Feed, Faults, Wanted, fetch_and_store}
use hydra_engine.Storage.Collector.Candles.{Fetched, fetch_and_store_lem}
use hydra_engine.Storage.Collector.Markets.{IsWanted}
use hydra_engine.Storage.Collector.Rounds.{Round, all_rounds, all_rounds-IsWanted}
use hydra_engine.Examples.Backtests.{candle, ramp, candles, runner, result, run-candles}

abbrev pub Table : Type 0
Table = List (Candle ℤ)

abbrev database : Database ℤ Table
database = Memory.memory

abbrev pub store : OhlcvStore ℤ (Option Table)
store = sqlite database Memory.memory-DatabaseLaws

abbrev map : IsMap store
map = sqlite-IsMap database Memory.memory-DatabaseLaws

abbrev series : Series
series = record { market = codes "kr"; symbol = codes "A"; timeframe = codes "1h" }

-- A table with the candles of the times 3 and 4.
abbrev pub two_rows : Option Table
two_rows = some (ramp 3 2)

open_table : (rows : Table) → map.is_open (some rows) ≡ true
unfolding sqlite-IsMap
open_table rows = refl

-- `Filled`, computed
filled : ℕ → ℕ → List (Candle ℤ) → Bool
filled zero bound rows = true
filled (suc n) bound [] = false
filled (suc n) bound (c ∷ cs) = leb c.open_time bound && filled n bound cs

filled-Filled :
    (n bound : ℕ) (rows : List (Candle ℤ)) → filled n bound rows ≡ true → Filled n bound rows
unfolding filled
filled-Filled zero bound rows h = tt
filled-Filled (suc n) bound [] h = absurd (ground arith)
filled-Filled (suc n) bound (c ∷ cs) h = (ground arith, filled-Filled n bound cs (ground arith))

-- The times 0 to 249.
abbrev many_rows : Option Table
many_rows = some (ramp 0 250)

abbrev event : Event
event = record { market = codes "kr"; symbol = codes "A"; timeframe = codes "1h" }

many_filled : filled live_limit 249 (map.held many_rows series none) ≡ true
unfolding sqlite-IsMap filled ramp Memory.memory put str_eq
many_filled = refl

abbrev study : List (Candle ℤ) → Indicators ℤ
study seen = (codes "RSI_14", some (pos 200000)) ∷ []

live_indicators_frozen_example :
    handle_stored store fixed
      (memory fixed)
      study
      7
      event
      (store.upsert (candle 250 ∷ []) many_rows)
      empty_server
    ≡ handle_stored store fixed (memory fixed) study 7 event many_rows empty_server
live_indicators_frozen_example =
    live_indicators_frozen store map fixed (memory fixed) study 7 249 event many_rows
      (candle 250 ∷ []) empty_server (open_table (ramp 0 250))
      (filled-Filled live_limit 249 (map.held many_rows series none) many_filled) (omega arith, tt)

abbrev row : RawRow ℤ
row = record {
  time = 6;
  opening = some (pos 10000);
  high = some (pos 12000);
  low = some (pos 9000);
  close = some (pos 11000);
  volume = some (pos 500);
}

abbrev feed : Feed (Option Table)
feed = record { store = two_rows; published = [] }

abbrev no_faults : Faults (Option Table)
no_faults = record { upsert_fails = λ e s. none; publish_works = λ e. true }

fetch_and_store_lem_example :
    Fetched store no_faults event
      (some (row ∷ []))
      feed
      (fetch_and_store store no_faults event (some (row ∷ [])) feed)
fetch_and_store_lem_example = fetch_and_store_lem store no_faults event (some (row ∷ [])) feed

abbrev binance_only : MarketManager
binance_only = record {
  markets = some ((codes "binance", record { enabled = some true; mode = none }) ∷ []);
  saved = none;
}

abbrev wanted : Dict Wanted
wanted =
    (codes "binance", record { symbols = some (codes "BTC/USDT" ∷ []); timeframes = none })
    ∷ (codes "upbit", record { symbols = some (codes "BTC/KRW" ∷ []); timeframes = none })
    ∷ []

abbrev every_class : Str → Bool
every_class id = true

-- Every symbol that is asked for has one new row, and the exchange fails in the second round.
abbrev first_round : Round ℤ (Option Table)
first_round = record { fetch = λ e. some (row ∷ []); faults = no_faults; schedule = λ es. es }

abbrev second_round : Round ℤ (Option Table)
second_round = record { fetch = λ e. none; faults = no_faults; schedule = λ es. es }

all_rounds-IsWanted_example :
    All
      (IsWanted every_class binance_only)
      (all_rounds store every_class binance_only
        (some (some wanted))
        (first_round ∷ second_round ∷ [])
        feed).published
all_rounds-IsWanted_example =
    all_rounds-IsWanted store every_class binance_only (some (some wanted))
      (first_round ∷ second_round ∷ []) feed ((λ es h. h), ((λ es h. h), tt)) tt

-- The table with the candles of the backtest.
abbrev candles_table : Option Table
candles_table = some candles

query_candles : store.query candles_table series backtest_limit none ≡ candles
unfolding Sqlite.query Memory.memory put ramp str_eq
query_candles = refl

run_stored_candles :
    run_stored store fixed runner (codes "kr") (codes "A") (codes "1h") 0 500 candles_table
    ≡ ok result
run_stored_candles =
    ap (run fixed runner (codes "kr") (codes "A") (codes "1h") 0 500) query_candles ∙ run-candles

run_stored-IsSound_example : IsSound (codes "kr") (codes "A") 500 result
run_stored-IsSound_example =
    run_stored-IsSound store map fixed runner (codes "kr") (codes "A") (codes "1h") 0 500
      candles_table run_stored_candles
