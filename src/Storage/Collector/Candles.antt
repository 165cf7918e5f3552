-- ===== src/Storage/Collector/Candles.antt =====
-- What a single fetch stores and announces, against the rows of the exchange.
use hydra_engine.Base.{
  ℕ, ◌+◌, ◌*◌, ◌≡◌, ◌≤◌, refl, true, false, ◌⊎◌, inl, inr, Option, none, some, List, [], ◌∷◌, ◌++◌,
  arith, if◌then◌else◌, Option-cases, Bool-cases,
}
use hydra_engine.Text.{Str, codes, str_eq}
use hydra_engine.Candle.{Candle}
use hydra_engine.Engines.Events.{Event}
use hydra_engine.Storage.Contract.{OhlcvStore}
use hydra_engine.Storage.Collector.{
  timeframe_ms, RawRow, candle_of, both, add_row, candles_of, Feed, Faults, after_upsert,
  store_candles, fetch_and_store,
}

-- The length of a timeframe; one that the collector does not know counts as a minute.
abbrev pub minutes : Str → ℕ
minutes timeframe =
    if str_eq timeframe (codes "1m")
    then 1
    else if str_eq timeframe (codes "5m")
    then 5
    else if str_eq timeframe (codes "15m")
    then 15
    else if str_eq timeframe (codes "1h")
    then 60
    else if str_eq timeframe (codes "4h")
    then 240
    else if str_eq timeframe (codes "1d")
    then 1440
    else 1

module _ {F : Type 0} (e : Event) where
  -- The candle has the numbers of the row and the names of the event, and it ends a millisecond before
  -- the next one begins.
  pub record IsCandleOf (r : RawRow F) (c : Candle F) : Type 0 where
    pub of_market : c.market ≡ e.market
    pub of_symbol : c.symbol ≡ e.symbol
    pub of_timeframe : c.timeframe ≡ e.timeframe
    pub at_time : c.open_time ≡ r.time
    pub until : c.close_time + 1 ≡ r.time + minutes e.timeframe * 60000
    pub its_opening : r.opening ≡ some c.opening
    pub its_high : r.high ≡ some c.high
    pub its_low : r.low ≡ some c.low
    pub its_close : r.close ≡ some c.close
    pub its_volume : r.volume ≡ some c.volume

  -- The candles are those of the rows that have an opening price, in their order.
  pub data AreCandles : List (RawRow F) → List (Candle F) → Type 0 where
    no_more : AreCandles [] []
    left_out :
        {r : RawRow F} {rs : List (RawRow F)} {cs : List (Candle F)}
        → r.opening ≡ none
        → AreCandles rs cs
        → AreCandles (r ∷ rs) cs
    a_candle :
        {r : RawRow F} {rs : List (RawRow F)} {c : Candle F} {cs : List (Candle F)}
        → IsCandleOf r c
        → AreCandles rs cs
        → AreCandles (r ∷ rs) (c ∷ cs)

-- One of the rows has an opening price and misses another number.
pub data IsIncomplete {F : Type 0} : List (RawRow F) → Type 0 where
  this_row :
      {r : RawRow F} {rs : List (RawRow F)} {opening : F}
      → r.opening ≡ some opening
      → (r.high ≡ none) ⊎ ((r.low ≡ none) ⊎ ((r.close ≡ none) ⊎ (r.volume ≡ none)))
      → IsIncomplete (r ∷ rs)
  a_later_row : {r : RawRow F} {rs : List (RawRow F)} → IsIncomplete rs → IsIncomplete (r ∷ rs)

module _ {F S : Type 0} (store : OhlcvStore F S) (faults : Faults S) (e : Event) where
  -- How a fetch ends, by what the exchange answers and by which call raises.
  pub data Fetched : Option (List (RawRow F)) → Feed S → Feed S → Type 0 where
    exchange_failed : {feed : Feed S} → Fetched none feed feed
    no_rows : {feed : Feed S} → Fetched (some []) feed feed
    number_missing :
        {rows : List (RawRow F)} {feed : Feed S} → IsIncomplete rows → Fetched (some rows) feed feed
    upsert_failed :
        {r : RawRow F} {rs : List (RawRow F)} {feed : Feed S} {cs : List (Candle F)} {left : S}
        → AreCandles e (r ∷ rs) cs
        → faults.upsert_fails e feed.store ≡ some left
        → Fetched (some (r ∷ rs)) feed (record { store = left; published = feed.published })
    not_announced :
        {r : RawRow F} {rs : List (RawRow F)} {feed : Feed S} {cs : List (Candle F)}
        → AreCandles e (r ∷ rs) cs
        → faults.upsert_fails e feed.store ≡ none
        → faults.publish_works e ≡ false
        → Fetched
            (some (r ∷ rs))
            feed
            (record { store = store.upsert cs feed.store; published = feed.published })
    announced :
        {r : RawRow F} {rs : List (RawRow F)} {feed : Feed S} {cs : List (Candle F)}
        → AreCandles e (r ∷ rs) cs
        → faults.upsert_fails e feed.store ≡ none
        → faults.publish_works e ≡ true
        → Fetched
            (some (r ∷ rs))
            feed
            (record { store = store.upsert cs feed.store; published = feed.published ++ e ∷ [] })

timeframe_ms-minutes : (timeframe : Str) → timeframe_ms timeframe ≡ minutes timeframe * 60000
unfolding timeframe_ms
timeframe_ms-minutes timeframe = ground arith

minutes_pos : (timeframe : Str) → 1 ≤ minutes timeframe
minutes_pos timeframe = ground arith

module _ {F : Type 0} (e : Event) where
  -- The list of candles, if there is one, is the one that the rows describe.
  abbrev Read : List (RawRow F) → Option (List (Candle F)) → Type 0
  Read rows none = IsIncomplete rows
  Read rows (some cs) = AreCandles e rows cs

  both-Read :
      (r : RawRow F) (rs : List (RawRow F)) (o : Option (Candle F))
      (rest : Option (List (Candle F)))
      → (o ≡ none → IsIncomplete (r ∷ rs))
      → ((c : Candle F) → o ≡ some c → IsCandleOf e r c)
      → Read rs rest
      → Read (r ∷ rs) (both o rest)
  both-Read r rs none rest missing made k = missing refl
  both-Read r rs (some c) none missing made k = a_later_row k
  both-Read r rs (some c) (some cs) missing made k = a_candle (made c refl) k

  candle_of-missing :
      (r : RawRow F) (rs : List (RawRow F)) (opening : F)
      → r.opening ≡ some opening
      → candle_of e r opening ≡ none
      → IsIncomplete (r ∷ rs)
  unfolding candle_of
  candle_of-missing r rs opening there h = this_row there (elim (Option-cases r.high) [
    | inl gone ↦ inl gone
    | inr (high, p) ↦ inr (elim (Option-cases r.low) [
      | inl gone ↦ inl gone
      | inr (low, q) ↦ inr (elim (Option-cases r.close) [
        | inl gone ↦ inl gone
        | inr (close, s) ↦ inr (elim (Option-cases r.volume) [
          | inl gone ↦ gone
          | inr (volume, t) ↦ absurd (ground arith)
        ])
      ])
    ])
  ])

  candle_of-IsCandleOf :
      (r : RawRow F) (opening : F) (c : Candle F)
      → r.opening ≡ some opening
      → candle_of e r opening ≡ some c
      → IsCandleOf e r c
  unfolding candle_of
  candle_of-IsCandleOf r opening c there h = record {
    of_market = ground arith;
    of_symbol = ground arith;
    of_timeframe = ground arith;
    at_time = ground arith;
    until = ground (arith, timeframe_ms-minutes e.timeframe, minutes_pos e.timeframe);
    its_opening = ground arith;
    its_high = ground arith;
    its_low = ground arith;
    its_close = ground arith;
    its_volume = ground arith;
  }

  add_row-Read :
      (r : RawRow F) (rs : List (RawRow F)) (opening : Option F) (rest : Option (List (Candle F)))
      → r.opening ≡ opening
      → Read rs rest
      → Read (r ∷ rs) (add_row e r opening rest)
  add_row-Read r rs none none there k = a_later_row k
  add_row-Read r rs none (some cs) there k = left_out there k
  add_row-Read r rs (some opening) rest there k =
      both-Read r rs (candle_of e r opening) rest (candle_of-missing r rs opening there)
        (λ c h. candle_of-IsCandleOf r opening c there h) k

  candles_of-Read : (rs : List (RawRow F)) → Read rs (candles_of e rs)
  unfolding candles_of
  candles_of-Read [] = no_more
  candles_of-Read (r ∷ rs) = add_row-Read r rs r.opening (candles_of e rs) refl (candles_of-Read rs)

module _ {F S : Type 0} (store : OhlcvStore F S) (faults : Faults S) (e : Event) where
  publish-Fetched :
      (r : RawRow F) (rs : List (RawRow F)) (cs : List (Candle F)) (feed : Feed S)
      → AreCandles e (r ∷ rs) cs
      → faults.upsert_fails e feed.store ≡ none
      → Fetched store faults e (some (r ∷ rs)) feed (after_upsert store faults e cs none feed)
  publish-Fetched r rs cs feed read works = elim (Bool-cases (faults.publish_works e)) [
    | inl on ↦ rw on (announced read works on)
    | inr off ↦ rw off (not_announced read works off)
  ]

  after_upsert-Fetched :
      (r : RawRow F) (rs : List (RawRow F)) (cs : List (Candle F)) (fault : Option S)
      (feed : Feed S)
      → AreCandles e (r ∷ rs) cs
      → faults.upsert_fails e feed.store ≡ fault
      → Fetched store faults e (some (r ∷ rs)) feed (after_upsert store faults e cs fault feed)
  after_upsert-Fetched r rs cs none feed read works = publish-Fetched r rs cs feed read works
  after_upsert-Fetched r rs cs (some left) feed read fails = upsert_failed read fails

  store_candles-Fetched :
      (r : RawRow F) (rs : List (RawRow F)) (o : Option (List (Candle F))) (feed : Feed S)
      → Read e (r ∷ rs) o
      → Fetched store faults e (some (r ∷ rs)) feed (store_candles store faults e o feed)
  store_candles-Fetched r rs none feed missing = number_missing missing
  store_candles-Fetched r rs (some cs) feed read =
      after_upsert-Fetched r rs cs (faults.upsert_fails e feed.store) feed read refl

  -- A fetch stores the candles of the rows that have an opening price, with the numbers of these rows,
  -- the names of the event and the end that the length of the timeframe gives, and announces the event
  -- once, if neither call raises. It changes nothing where the exchange raises, has no rows, or has a
  -- row with an opening price and another number missing; an `upsert` that raises is not announced; and
  -- where only `publish` raises, as without a Redis client, the candles are stored and not announced.
  pub fetch_and_store_lem :
      (answer : Option (List (RawRow F))) (feed : Feed S)
      → Fetched store faults e answer feed (fetch_and_store store faults e answer feed)
  unfolding fetch_and_store
  fetch_and_store_lem none feed = exchange_failed
  fetch_and_store_lem (some []) feed = no_rows
  fetch_and_store_lem (some (r ∷ rs)) feed =
      store_candles-Fetched r rs (candles_of e (r ∷ rs)) feed (candles_of-Read e (r ∷ rs))
