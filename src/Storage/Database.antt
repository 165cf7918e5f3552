-- ===== src/Storage/Database.antt =====
-- The database under the stores: the statements that the source issues, with the documented behaviour
-- of SQL that it relies on, as an interface. `T` is the content of the table `ohlcv`.
use hydra_engine.Base.{
  ℕ, ◌≡◌, ◌<◌, Bool, true, false, ◌&&◌, Option, none, some, List, [], ◌∷◌, ltb, leb, ◌==◌,
  if◌then◌else◌,
}
use hydra_engine.Text.{Str, str_eq}
use hydra_engine.Candle.{Candle}

-- The columns that a query fixes.
pub record Series : Type 0 where
  pub market : Str
  pub symbol : Str
  pub timeframe : Str

abbrev pub same_series : Series → Series → Bool
same_series s t =
    str_eq s.market t.market && (str_eq s.symbol t.symbol && str_eq s.timeframe t.timeframe)

-- Later than `from`, where that is given.
abbrev pub After : Option ℕ → ℕ → Type 0
After none t = Unit
After (some from) t = from < t

module _ {F : Type 0} where
  abbrev pub series_of : Candle F → Series
  series_of c = record { market = c.market; symbol = c.symbol; timeframe = c.timeframe }

  -- `AND open_time>=?`, where it is asked for
  abbrev pub late_enough : Option ℕ → Candle F → Bool
  late_enough none c = true
  late_enough (some since) c = leb since c.open_time

  -- The WHERE clause of `query`.
  abbrev pub selected : Series → Option ℕ → Candle F → Bool
  selected x since c = same_series (series_of c) x && late_enough since c

  -- A row among the rows of its series in the order of time: it replaces the row of its time.
  unfoldable pub put : Candle F → List (Candle F) → List (Candle F)
  put c [] = c ∷ []
  put c (d ∷ ds) =
      if ltb c.open_time d.open_time
      then c ∷ (d ∷ ds)
      else if c.open_time == d.open_time
      then c ∷ ds
      else d ∷ put c ds

  -- Rows in the order of time, no time twice, and all of them after `from`, where that is given.
  abbrev pub Ascending : Option ℕ → List (Candle F) → Type 0
  Ascending from [] = Unit
  Ascending from (c ∷ cs) = After from c.open_time × Ascending (some c.open_time) cs

  abbrev pub has_rows : List (Candle F) → Bool
  has_rows [] = false
  has_rows (c ∷ cs) = true

-- The series is one of the list.
unfoldable pub has_series : Series → List Series → Bool
has_series x [] = false
has_series x (y ∷ ys) = if same_series y x then true else has_series x ys

pub record Database (F T : Type 0) : Type 0 where
  -- `INSERT OR REPLACE INTO ohlcv … VALUES …` of one row
  pub insert_or_replace : T → Candle F → T
  -- `INSERT INTO ohlcv … ON CONFLICT (market, symbol, timeframe, open_time) DO UPDATE SET …` of one row
  pub insert_on_conflict : T → Candle F → T
  -- `SELECT * FROM ohlcv WHERE … ORDER BY open_time ASC`, before the LIMIT
  pub select : T → Series → Option ℕ → List (Candle F)
  -- `SELECT DISTINCT market, symbol, timeframe FROM ohlcv ORDER BY …`
  pub select_distinct : T → List Series

pub record DatabaseLaws {F T : Type 0} (db : Database F T) : Type 0 where
  -- The primary key is the series and the time: the row is put among those that it belongs to.
  pub select-insert_or_replace :
      (t : T) (c : Candle F) (x : Series) (since : Option ℕ)
      → db.select (db.insert_or_replace t c) x since
        ≡ (if selected x since c then put c (db.select t x since) else db.select t x since)
  pub select-insert_on_conflict :
      (t : T) (c : Candle F) (x : Series) (since : Option ℕ)
      → db.select (db.insert_on_conflict t c) x since
        ≡ (if selected x since c then put c (db.select t x since) else db.select t x since)
  pub select-Ascending :
      (t : T) (x : Series) (since : Option ℕ) → Ascending none (db.select t x since)
  pub has-select_distinct :
      (t : T) (x : Series) → has_series x (db.select_distinct t) ≡ has_rows (db.select t x none)
