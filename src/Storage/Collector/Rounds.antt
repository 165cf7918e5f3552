-- ===== src/Storage/Collector/Rounds.antt =====
-- `main` of hydra/data/collector.py: the rounds, one after the other.
use hydra_engine.Base.{Bool, Option, none, some, List, [], ◌∷◌, All, get_or}
use hydra_engine.Text.{Str}
use hydra_engine.Dict.{Dict}
use hydra_engine.Config.Markets.{MarketManager}
use hydra_engine.Engines.Events.{Event}
use hydra_engine.Storage.Contract.{OhlcvStore}
use hydra_engine.Storage.Collector.{RawRow, Feed, Faults, Wanted, collect_once}
use hydra_engine.Storage.Collector.Markets.{IsWanted, collect_once-IsWanted}

-- `_load_data_config`: there is no file, it is empty, or it has a dictionary.
abbrev pub load_data_config : Option (Option (Dict Wanted)) → Dict Wanted
load_data_config none = []
load_data_config (some file) = get_or file []

-- What the exchanges answer in one round, which calls raise, and the order in which its tasks finish.
pub record Round (F S : Type 0) : Type 0 where
  pub fetch : Event → Option (List (RawRow F))
  pub faults : Faults S
  pub schedule : List Event → List Event

module _ {F S : Type 0} (store : OhlcvStore F S) (has_class : Str → Bool) (m : MarketManager)
    (file : Option (Option (Dict Wanted))) where
  -- The loop, for the rounds of a run. The settings of the markets and the file are read once.
  unfoldable pub all_rounds : List (Round F S) → Feed S → Feed S
  unfolding collect_once
  all_rounds [] feed = feed
  all_rounds (r ∷ rs) feed =
      all_rounds rs
        (collect_once store r.faults has_class r.schedule m (load_data_config file) r.fetch feed)

  -- The order of the tasks only rearranges them.
  abbrev pub Rearranges : Round F S → Type 0
  Rearranges r =
      (es : List Event) → All (IsWanted has_class m) es → All (IsWanted has_class m) (r.schedule es)

  -- However long the collector runs and whatever the exchanges answer and which calls raise, every event that it has published
  -- is of a market that was enabled when it started and that has an exchange.
  pub all_rounds-IsWanted :
      (rs : List (Round F S)) (feed : Feed S)
      → All Rearranges rs
      → All (IsWanted has_class m) feed.published
      → All (IsWanted has_class m) (all_rounds rs feed).published
  unfolding all_rounds
  all_rounds-IsWanted [] feed order h = h
  all_rounds-IsWanted (r ∷ rs) feed order h =
      all_rounds-IsWanted rs
        (collect_once store r.faults has_class r.schedule m (load_data_config file) r.fetch feed)
        order.1
        (collect_once-IsWanted store r.faults has_class r.schedule m (load_data_config file) r.fetch
          feed order.0 h)
