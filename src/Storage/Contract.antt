-- ===== src/Storage/Contract.antt =====
-- The abstract store of hydra/data/storage/base.py, which has signatures only, and what both of its
-- implementations guarantee as far as their statements do (Storage/Database): a map from series and time to
-- a candle, of which a query reads the first entries in the order of time.
use hydra_engine.Base.{
  ℕ, ◌≡◌, refl, ap, ◌∙◌, Bool, true, false, Option, none, some, List, [], ◌∷◌, take, is_some,
  if◌then◌else◌, arith,
}
use hydra_engine.Candle.{Candle}
use hydra_engine.Storage.Database.{
  Series, selected, put, Ascending, has_rows, has_series, Database, DatabaseLaws,
}
use hydra_engine.Storage.Sqlite
use hydra_engine.Storage.Postgres

-- The abstract class, for a store with the state `S`.
pub record OhlcvStore (F S : Type 0) : Type 0 where
  pub upsert : List (Candle F) → S → S
  pub query : S → Series → ℕ → Option ℕ → List (Candle F)
  pub get_symbols : S → List Series

module _ {F : Type 0} where
  -- The rows of a series after a batch, one row at a time.
  unfoldable pub put_all : Series → Option ℕ → List (Candle F) → List (Candle F) → List (Candle F)
  put_all x since [] rows = rows
  put_all x since (c ∷ cs) rows =
      put_all x since cs (if selected x since c then put c rows else rows)

-- What the stores guarantee, by the rows that the store holds of each series while it is open.
pub record IsMap {F S : Type 0} (store : OhlcvStore F S) : Type 0 where
  pub is_open : S → Bool
  pub held : S → Series → Option ℕ → List (Candle F)
  -- A query reads the first rows in the order of time.
  pub query-held :
      (s : S) (x : Series) (n : ℕ) (since : Option ℕ)
      → is_open s ≡ true
      → store.query s x n since ≡ take n (held s x since)
  pub held-Ascending : (s : S) (x : Series) (since : Option ℕ) → Ascending none (held s x since)
  pub held-upsert :
      (s : S) (cs : List (Candle F)) (x : Series) (since : Option ℕ)
      → is_open s ≡ true
      → held (store.upsert cs s) x since ≡ put_all x since cs (held s x since)
  pub open-upsert : (s : S) (cs : List (Candle F)) → is_open (store.upsert cs s) ≡ is_open s
  -- The names are those of the series that hold a row.
  pub has-get_symbols :
      (s : S) (x : Series)
      → is_open s ≡ true
      → has_series x (store.get_symbols s) ≡ has_rows (held s x none)
  -- A store that is not open answers nothing and takes nothing.
  pub query_closed :
      (s : S) (x : Series) (n : ℕ) (since : Option ℕ)
      → is_open s ≡ false
      → store.query s x n since ≡ []
  pub upsert_closed : (s : S) (cs : List (Candle F)) → is_open s ≡ false → store.upsert cs s ≡ s

module _ {F T : Type 0} (db : Database F T) (laws : DatabaseLaws db) where
  abbrev pub sqlite : OhlcvStore F (Option T)
  sqlite = record {
    upsert = Sqlite.upsert db;
    query = Sqlite.query db;
    get_symbols = Sqlite.get_symbols db;
  }

  abbrev pub postgres : OhlcvStore F (Option T)
  postgres = record {
    upsert = Postgres.upsert db;
    query = Postgres.query db;
    get_symbols = Postgres.get_symbols db;
  }

  abbrev pub rows_of : Option T → Series → Option ℕ → List (Candle F)
  rows_of none x since = []
  rows_of (some t) x since = db.select t x since

  select-replace_rows :
      (cs : List (Candle F)) (t : T) (x : Series) (since : Option ℕ)
      → db.select (Sqlite.insert_rows db cs t) x since ≡ put_all x since cs (db.select t x since)
  unfolding Sqlite.insert_rows put_all
  select-replace_rows [] t x since = refl
  select-replace_rows (c ∷ cs) t x since =
      select-replace_rows cs (db.insert_or_replace t c) x since
      ∙ ap (put_all x since cs) (laws.select-insert_or_replace t c x since)

  select-update_rows :
      (cs : List (Candle F)) (t : T) (x : Series) (since : Option ℕ)
      → db.select (Postgres.insert_rows db cs t) x since ≡ put_all x since cs (db.select t x since)
  unfolding Postgres.insert_rows put_all
  select-update_rows [] t x since = refl
  select-update_rows (c ∷ cs) t x since =
      select-update_rows cs (db.insert_on_conflict t c) x since
      ∙ ap (put_all x since cs) (laws.select-insert_on_conflict t c x since)

  pub rows_of-Ascending :
      (s : Option T) (x : Series) (since : Option ℕ) → Ascending none (rows_of s x since)
  rows_of-Ascending none x since = tt
  rows_of-Ascending (some t) x since = laws.select-Ascending t x since

  pub held-sqlite :
      (s : Option T) (cs : List (Candle F)) (x : Series) (since : Option ℕ)
      → is_some s ≡ true
      → rows_of (Sqlite.upsert db cs s) x since ≡ put_all x since cs (rows_of s x since)
  unfolding Sqlite.upsert put_all
  held-sqlite none cs x since h = absurd (ground arith)
  held-sqlite (some t) [] x since h = refl
  held-sqlite (some t) (c ∷ cs) x since h = select-replace_rows (c ∷ cs) t x since

  held-postgres :
      (s : Option T) (cs : List (Candle F)) (x : Series) (since : Option ℕ)
      → is_some s ≡ true
      → rows_of (Postgres.upsert db cs s) x since ≡ put_all x since cs (rows_of s x since)
  unfolding Postgres.upsert put_all
  held-postgres none cs x since h = absurd (ground arith)
  held-postgres (some t) [] x since h = refl
  held-postgres (some t) (c ∷ cs) x since h = select-update_rows (c ∷ cs) t x since

  pub has-sqlite :
      (s : Option T) (x : Series)
      → is_some s ≡ true
      → has_series x (Sqlite.get_symbols db s) ≡ has_rows (rows_of s x none)
  unfolding Sqlite.get_symbols
  has-sqlite none x h = absurd (ground arith)
  has-sqlite (some t) x h = laws.has-select_distinct t x

  has-postgres :
      (s : Option T) (x : Series)
      → is_some s ≡ true
      → has_series x (Postgres.get_symbols db s) ≡ has_rows (rows_of s x none)
  unfolding Postgres.get_symbols
  has-postgres none x h = absurd (ground arith)
  has-postgres (some t) x h = laws.has-select_distinct t x

  unfoldable pub sqlite-IsMap : IsMap sqlite
  unfolding Sqlite.query Sqlite.upsert
  sqlite-IsMap = record {
    is_open = is_some;
    held = rows_of;
    query-held = λ s x n since h. ground arith;
    held-Ascending = rows_of-Ascending;
    held-upsert = held-sqlite;
    open-upsert = λ s cs. ground arith;
    has-get_symbols = has-sqlite;
    query_closed = λ s x n since h. ground arith;
    upsert_closed = λ s cs h. ground arith;
  }

  postgres-IsMap : IsMap postgres
  unfolding Postgres.query Postgres.upsert
  postgres-IsMap = record {
    is_open = is_some;
    held = rows_of;
    query-held = λ s x n since h. ground arith;
    held-Ascending = rows_of-Ascending;
    held-upsert = held-postgres;
    open-upsert = λ s cs. ground arith;
    has-get_symbols = has-postgres;
    query_closed = λ s x n since h. ground arith;
    upsert_closed = λ s cs h. ground arith;
  }

  -- The SQLite store and the PostgreSQL store are such maps, if their statements are.
  pub stores-IsMap : IsMap sqlite × IsMap postgres
  stores-IsMap = (sqlite-IsMap, postgres-IsMap)
