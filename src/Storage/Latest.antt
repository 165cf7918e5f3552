-- ===== src/Storage/Latest.antt =====
-- What the readers of a store get: the oldest rows, and so the window of the live engine.
use hydra_engine.Base.{
  ℕ, zero, suc, ◌≡◌, ◌<◌, ◌≤◌, refl, ap, ◌∙◌, true, Option, none, List, [], ◌∷◌, take, All, arith,
  Bool-cases, inl, inr,
}
use hydra_engine.Float.{Float}
use hydra_engine.Redis.{Redis}
use hydra_engine.Candle.{Candle}
use hydra_engine.Strategy.Indicators.{Indicators}
use hydra_engine.Engines.Events.{Event}
use hydra_engine.Engines.Indicator
use hydra_engine.Storage.Database.{Series, selected, put}
use hydra_engine.Storage.Contract.{OhlcvStore, IsMap, put_all}

module _ {F : Type 0} where
  -- The first rows are all there, and none of them is later than `bound`.
  abbrev pub Filled : ℕ → ℕ → List (Candle F) → Type 0
  Filled zero bound rows = Unit
  Filled (suc n) bound [] = ⊥
  Filled (suc n) bound (c ∷ cs) = (c.open_time ≤ bound) × Filled n bound cs

  take-put :
      (n bound : ℕ) (c : Candle F) (rows : List (Candle F))
      → bound < c.open_time
      → Filled n bound rows
      → (take n (put c rows) ≡ take n rows) × Filled n bound (put c rows)
  unfolding put
  take-put zero bound c rows h k = (refl, tt)
  take-put (suc n) bound c [] h k = elim k [ ]
  take-put (suc n) bound c (d ∷ ds) h k = ground (arith, take-put n bound c ds h k.1)

  take-put_all :
      (n bound : ℕ) (x : Series) (since : Option ℕ) (cs rows : List (Candle F))
      → All (λ c. bound < c.open_time) cs
      → Filled n bound rows
      → take n (put_all x since cs rows) ≡ take n rows
  unfolding put_all
  take-put_all n bound x since [] rows h k = refl
  take-put_all n bound x since (c ∷ cs) rows h k = elim (Bool-cases (selected x since c)) [
    | inl of_series ↦ rw of_series (
        take-put_all n bound x since cs (put c rows) h.1 (take-put n bound c rows h.0 k).1
        ∙ (take-put n bound c rows h.0 k).0)
    | inr other ↦ rw other (take-put_all n bound x since cs rows h.1 k)
  ]

module _ {F S : Type 0} (store : OhlcvStore F S) (map : IsMap store) where
  -- A query answers with the oldest rows: once the store holds as many as the limit, no batch of later
  -- candles changes the answer.
  pub query_frozen :
      (s : S) (cs : List (Candle F)) (x : Series) (n bound : ℕ) (since : Option ℕ)
      → map.is_open s ≡ true
      → Filled n bound (map.held s x since)
      → All (λ c. bound < c.open_time) cs
      → store.query (store.upsert cs s) x n since ≡ store.query s x n since
  query_frozen s cs x n bound since h full later =
      map.query-held (store.upsert cs s) x n since (map.open-upsert s cs ∙ h)
      ∙ (ap (take n) (map.held-upsert s cs x since h)
          ∙ (take-put_all n bound x since cs (map.held s x since) later full
              ∙ ground (arith, map.query-held s x n since)))

abbrev pub live_limit : ℕ
live_limit = 250

-- `_handle_event` of the live engine, with the query that it makes.
abbrev pub handle_stored :
    {F S R : Type 0}
    → OhlcvStore F S
    → Float F
    → Redis F R
    → (List (Candle F) → Indicators F)
    → ℕ
    → Event
    → S
    → R
    → R
handle_stored store f redis study now e s r =
    Indicator.handle_event f redis study now
      (store.query s (record { market = e.market; symbol = e.symbol; timeframe = e.timeframe })
        live_limit none)
      e r

-- Once the store holds 250 candles of a series, the indicators that the live engine computes for it do
-- not depend on the later candles any more.
pub live_indicators_frozen :
    {F S R : Type 0} (store : OhlcvStore F S) (map : IsMap store) (f : Float F) (redis : Redis F R)
    (study : List (Candle F) → Indicators F) (now bound : ℕ) (e : Event) (s : S)
    (cs : List (Candle F)) (r : R)
    → map.is_open s ≡ true
    → Filled live_limit bound
        (map.held s (record { market = e.market; symbol = e.symbol; timeframe = e.timeframe }) none)
    → All (λ c. bound < c.open_time) cs
    → handle_stored store f redis study now e (store.upsert cs s) r
      ≡ handle_stored store f redis study now e s r
live_indicators_frozen store map f redis study now bound e s cs r h full later =
    ap (λ seen. Indicator.handle_event f redis study now seen e r)
      (query_frozen store map s cs
        (record { market = e.market; symbol = e.symbol; timeframe = e.timeframe }) live_limit bound
        none h full later)
