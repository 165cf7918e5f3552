-- ===== src/Storage/Collector/Markets.antt =====
-- What a round fetches.
use hydra_engine.Base.{
  ◌≡◌, Bool, true, ◌&&◌, Option, List, [], ◌∷◌, All, All-append, get_or, arith, Bool-cases, inl,
  inr,
}
use hydra_engine.Text.{Str, codes}
use hydra_engine.Dict.{Dict}
use hydra_engine.Config.Markets.{MarketManager, is_active}
use hydra_engine.Engines.Events.{Event}
use hydra_engine.Storage.Contract.{OhlcvStore}
use hydra_engine.Storage.Collector.{
  ccxt_id, RawRow, Feed, Faults, Wanted, fetch_and_store, run_tasks, timeframe_tasks, symbol_tasks,
  can_fetch, tasks, collect_once,
}
use hydra_engine.Storage.Collector.Candles.{
  Fetched, exchange_failed, no_rows, number_missing, upsert_failed, not_announced, announced,
  fetch_and_store_lem,
}

module _ (has_class : Str → Bool) (m : MarketManager) where
  -- An event of a market that is enabled and that ccxt has an exchange for.
  abbrev pub IsWanted : Event → Type 0
  IsWanted e = (is_active m e.market ≡ true) × (can_fetch has_class (ccxt_id e.market) ≡ true)

  timeframe_tasks-IsWanted :
      (market symbol : Str) (tfs : List Str)
      → (is_active m market ≡ true) × (can_fetch has_class (ccxt_id market) ≡ true)
      → All IsWanted (timeframe_tasks market symbol tfs)
  unfolding timeframe_tasks
  timeframe_tasks-IsWanted market symbol [] h = tt
  timeframe_tasks-IsWanted market symbol (tf ∷ tfs) h =
      (h, timeframe_tasks-IsWanted market symbol tfs h)

  symbol_tasks-IsWanted :
      (market : Str) (symbols tfs : List Str)
      → (is_active m market ≡ true) × (can_fetch has_class (ccxt_id market) ≡ true)
      → All IsWanted (symbol_tasks market symbols tfs)
  unfolding symbol_tasks
  symbol_tasks-IsWanted market [] tfs h = tt
  symbol_tasks-IsWanted market (s ∷ ss) tfs h =
      All-append IsWanted (timeframe_tasks market s tfs) (symbol_tasks market ss tfs)
        (timeframe_tasks-IsWanted market s tfs h) (symbol_tasks-IsWanted market ss tfs h)

  tasks-IsWanted : (cfg : Dict Wanted) → All IsWanted (tasks has_class m cfg)
  unfolding tasks
  tasks-IsWanted [] = tt
  tasks-IsWanted ((market, wanted) ∷ rest) =
      let symbols = get_or wanted.symbols [] in
      let tfs = get_or wanted.timeframes (codes "1h" ∷ []) in
      elim (Bool-cases (is_active m market && can_fetch has_class (ccxt_id market))) [
        | inl on ↦ rw on (
            All-append IsWanted (symbol_tasks market symbols tfs) (tasks has_class m rest)
              (symbol_tasks-IsWanted market symbols tfs (ground arith)) (tasks-IsWanted rest))
        | inr off ↦ rw off (tasks-IsWanted rest)
      ]

module _ {F S : Type 0} (store : OhlcvStore F S) (faults : Faults S) (P : Event → Type 0) where
  Fetched-published :
      (e : Event) (answer : Option (List (RawRow F))) (feed feed' : Feed S)
      → Fetched store faults e answer feed feed'
      → P e
      → All P feed.published
      → All P feed'.published
  Fetched-published e _ feed _ exchange_failed p h = h
  Fetched-published e _ feed _ no_rows p h = h
  Fetched-published e _ feed _ (number_missing missing) p h = h
  Fetched-published e _ feed _ (upsert_failed read fails) p h = h
  Fetched-published e _ feed _ (not_announced read works off) p h = h
  Fetched-published e _ feed _ (announced read works on) p h =
      All-append P feed.published (e ∷ []) h (p, tt)

  fetch-published :
      (e : Event) (answer : Option (List (RawRow F))) (feed : Feed S)
      → P e
      → All P feed.published
      → All P (fetch_and_store store faults e answer feed).published
  fetch-published e answer feed =
      Fetched-published e answer feed (fetch_and_store store faults e answer feed)
        (fetch_and_store_lem store faults e answer feed)

  run_tasks-published :
      (fetch : Event → Option (List (RawRow F))) (es : List Event) (feed : Feed S)
      → All P es
      → All P feed.published
      → All P (run_tasks store faults fetch es feed).published
  unfolding run_tasks
  run_tasks-published fetch [] feed p h = h
  run_tasks-published fetch (e ∷ es) feed p h =
      run_tasks-published fetch es (fetch_and_store store faults e (fetch e) feed) p.1
        (fetch-published e (fetch e) feed p.0 h)

-- A round announces events of enabled markets with an exchange only, in whatever order its tasks finish,
-- if that order only rearranges them.
pub collect_once-IsWanted :
    {F S : Type 0} (store : OhlcvStore F S) (faults : Faults S) (has_class : Str → Bool)
    (schedule : List Event → List Event) (m : MarketManager) (cfg : Dict Wanted)
    (fetch : Event → Option (List (RawRow F))) (feed : Feed S)
    → ((es : List Event) → All (IsWanted has_class m) es → All (IsWanted has_class m) (schedule es))
    → All (IsWanted has_class m) feed.published
    → All
        (IsWanted has_class m)
        (collect_once store faults has_class schedule m cfg fetch feed).published
unfolding collect_once
collect_once-IsWanted store faults has_class schedule m cfg fetch feed keeps h =
    run_tasks-published store faults (IsWanted has_class m) fetch (schedule (tasks has_class m cfg))
      feed (keeps (tasks has_class m cfg) (tasks-IsWanted has_class m cfg)) h
