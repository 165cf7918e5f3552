-- ===== src/Storage/Sqlite.antt =====
-- hydra/data/storage/sqlite.py. The state is the open connection, with the table behind it, or none.
use hydra_engine.Base.{ℕ, Option, none, some, List, [], ◌∷◌, take}
use hydra_engine.Candle.{Candle}
use hydra_engine.Storage.Database.{Series, Database}

-- `init`: the file holds the table `t`, which is created empty if it is missing.
abbrev pub init : {T : Type 0} → T → Option T → Option T
init t state = some t

-- `close`
abbrev pub close : {T : Type 0} → Option T → Option T
close state = none

module _ {F T : Type 0} (db : Database F T) where
  -- `executemany`: the statement, of Storage/Database, once for each row. It is taken to come back; what
  -- one that raises leaves behind is the `Faults` of the collector.
  unfoldable pub insert_rows : List (Candle F) → T → T
  insert_rows [] t = t
  insert_rows (c ∷ cs) t = insert_rows cs (db.insert_or_replace t c)

  unfoldable pub upsert : List (Candle F) → Option T → Option T
  unfolding insert_rows
  upsert [] state = state
  upsert (c ∷ cs) none = none
  upsert (c ∷ cs) (some t) = some (insert_rows (c ∷ cs) t)

  -- The LIMIT is a prefix of the rows.
  unfoldable pub query : Option T → Series → ℕ → Option ℕ → List (Candle F)
  query none x limit since = []
  query (some t) x limit since = take limit (db.select t x since)

  unfoldable pub get_symbols : Option T → List Series
  get_symbols none = []
  get_symbols (some t) = db.select_distinct t
