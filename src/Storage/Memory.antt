-- ===== src/Storage/Memory.antt =====
-- An instance of the database interface, for the concrete inputs of the tests: the rows that were
-- written, the last one first.
use hydra_engine.Base.{
  ℕ, ◌≡◌, refl, true, Option, none, some, List, [], ◌∷◌, ltb, ◌==◌, if◌then◌else◌, arith,
  Bool-cases, inl, inr,
}
use hydra_engine.Candle.{Candle}
use hydra_engine.Storage.Database.{
  Series, series_of, selected, put, After, Ascending, has_rows, has_series, Database, DatabaseLaws,
}

module _ {F : Type 0} where
  select : List (Candle F) → Series → Option ℕ → List (Candle F)
  select [] x since = []
  select (c ∷ t) x since =
      let rest = select t x since in if selected x since c then put c rest else rest

  names : List (Candle F) → List Series
  names [] = []
  names (c ∷ t) = series_of c ∷ names t

  Ascending-at :
      (t u : ℕ) (rows : List (Candle F)) → t ≡ u → Ascending (some t) rows → Ascending (some u) rows
  Ascending-at t u [] e h = tt
  Ascending-at t u (c ∷ cs) e h = ground arith

  put-Ascending :
      (from : Option ℕ) (c : Candle F) (rows : List (Candle F))
      → After from c.open_time
      → Ascending from rows
      → Ascending from (put c rows)
  unfolding put
  put-Ascending from c [] h k = (h, tt)
  put-Ascending from c (d ∷ ds) h k = elim (Bool-cases (ltb c.open_time d.open_time)) [
    | inl first ↦ rw first (h, (ground arith, k.1))
    | inr later ↦ rw later (elim (Bool-cases (c.open_time == d.open_time)) [
      | inl same ↦ rw same (h, Ascending-at d.open_time c.open_time ds (ground arith) k.1)
      | inr other ↦ rw other (k.0, put-Ascending (some d.open_time) c ds (ground arith) k.1)
    ])
  ]

  select-Ascending :
      (t : List (Candle F)) (x : Series) (since : Option ℕ) → Ascending none (select t x since)
  unfolding select
  select-Ascending [] x since = tt
  select-Ascending (c ∷ t) x since = elim (Bool-cases (selected x since c)) [
    | inl of' ↦ rw of' (put-Ascending none c (select t x since) tt (select-Ascending t x since))
    | inr other ↦ rw other (select-Ascending t x since)
  ]

  has_rows-put : (c : Candle F) (rows : List (Candle F)) → has_rows (put c rows) ≡ true
  unfolding put
  has_rows-put c [] = refl
  has_rows-put c (d ∷ ds) = ground arith

  has-names :
      (t : List (Candle F)) (x : Series) → has_series x (names t) ≡ has_rows (select t x none)
  unfolding names select has_series
  has-names [] x = refl
  has-names (c ∷ t) x = ground (arith, has-names t x, has_rows-put c (select t x none))

  unfoldable pub memory : Database F (List (Candle F))
  unfolding select names put
  memory = record {
    insert_or_replace = λ t c. c ∷ t;
    insert_on_conflict = λ t c. c ∷ t;
    select = select;
    select_distinct = names;
  }

  pub memory-DatabaseLaws : DatabaseLaws memory
  unfolding memory
  memory-DatabaseLaws = record {
    select-insert_or_replace = λ t c x since. refl;
    select-insert_on_conflict = λ t c x since. refl;
    select-Ascending = select-Ascending;
    has-select_distinct = has-names;
  }
