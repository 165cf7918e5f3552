-- ===== src/Agent/State.antt =====
-- hydra/agent/openclaw_bridge.py: `_collect_hydra_state`, what the agent is told.
use hydra_engine.Base.{ℕ, Option, none, some, List, [], ◌∷◌, ◌++◌, drop, if◌then◌else◌}
use hydra_engine.Text.{Str, codes, member}
use hydra_engine.Text.Split.{split, join}
use hydra_engine.Dict.{Dict, insert}
use hydra_engine.Json.{Json, obj, Fields, field, end, Payload, present}
use hydra_engine.Redis.{Redis}
use hydra_engine.Exec.{Result, ok, and_then}
use hydra_engine.Core.Types.{Error}
use hydra_engine.Core.PositionTracker.{decode}
use hydra_engine.Core.OrderQueue.{fields_of}
use hydra_engine.EventKeys.{colon, last_of}

abbrev pub summary_timeframes : List Str
summary_timeframes = codes "1h" ∷ codes "4h" ∷ codes "1d" ∷ []

abbrev pub summary_columns : List Str
summary_columns =
    codes "RSI_14" ∷ codes "ADX_14" ∷ codes "EMA_9" ∷ codes "EMA_20" ∷ codes "close" ∷ []

pub record HydraState (F : Type 0) : Type 0 where
  pub signals : Dict (Json F)
  pub regimes : Dict (Json F)
  pub indicators_summary : Dict (Json F)
  pub sentiment : Dict (Json F)
  pub positions : List (Json F)
  pub collected_at : ℕ

-- `":".join(parts[2:])`
unfoldable pub label_of : Str → Str
unfolding join split
label_of key = join colon (drop 2 (split colon key))

-- `parts[-1]`
unfoldable pub last_part : Str → Str
unfolding split
last_part key = last_of [] (split colon key)

-- The label of a key, where its timeframe is one of the summary.
unfoldable pub summary_label : Str → Option Str
unfolding label_of last_part
summary_label key = if member (last_part key) summary_timeframes then some (label_of key) else none

module _ {F : Type 0} where
  -- `{k: v for k, v in data.items() if k in (…)}`
  unfoldable pub summary_fields : Fields F → Fields F
  summary_fields end = end
  summary_fields (field k v d) =
      let rest = summary_fields d in if member k summary_columns then field k v rest else rest

  unfoldable pub summary_of : Json F → Result (Error F) (Json F)
  unfolding summary_fields
  summary_of data' = and_then (fields_of data') λ d. ok (obj (summary_fields d))

  -- One round of a loop over keys, with the raw value of the key.
  abbrev pub add_label :
      (Str → Option Str)
      → (Json F → Result (Error F) (Json F))
      → Str
      → Option (Payload F)
      → Dict (Json F)
      → Result (Error F) (Dict (Json F))
  add_label label pick key none d = ok d
  add_label label pick key (some raw) d = elim (label key) [
    | none ↦ ok d
    | some l ↦ and_then (decode raw) λ data'. and_then (pick data') λ v. ok (insert l v d)
  ]

  abbrev pub add_position : Option (Payload F) → List (Json F) → Result (Error F) (List (Json F))
  add_position none ps = ok ps
  add_position (some raw) ps = and_then (decode raw) λ data'. ok (ps ++ data' ∷ [])

module _ {F R : Type 0} (redis : Redis F R) (r : R) where
  unfoldable pub collect_labels :
      (Str → Option Str)
      → (Json F → Result (Error F) (Json F))
      → List Str
      → Dict (Json F)
      → Result (Error F) (Dict (Json F))
  collect_labels label pick [] d = ok d
  collect_labels label pick (k ∷ ks) d =
      and_then (add_label label pick k (present (redis.get r k)) d)
        λ d'. collect_labels label pick ks d'

  unfoldable pub collect_positions : List Str → List (Json F) → Result (Error F) (List (Json F))
  collect_positions [] ps = ok ps
  collect_positions (k ∷ ks) ps =
      and_then (add_position (present (redis.get r k)) ps) λ ps'. collect_positions ks ps'

  unfoldable pub collect_hydra_state : ℕ → Result (Error F) (HydraState F)
  unfolding collect_labels collect_positions summary_label last_part summary_of
  collect_hydra_state now =
      and_then (collect_labels summary_label ok (redis.keys r (codes "hydra:signal:")) [])
        λ signals.
          and_then (collect_labels summary_label ok (redis.keys r (codes "hydra:regime:")) [])
            λ regimes.
              and_then
                (collect_labels (λ k. some (last_part k)) ok
                  (redis.keys r (codes "hydra:sentiment:")) [])
                λ sentiment.
                  and_then
                    (collect_labels summary_label summary_of
                      (redis.keys r (codes "hydra:indicator:")) [])
                    λ indicators.
                      and_then (collect_positions (redis.keys r (codes "hydra:position:")) [])
                        λ positions. ok (record {
                          signals = signals;
                          regimes = regimes;
                          indicators_summary = indicators;
                          sentiment = sentiment;
                          positions = positions;
                          collected_at = now;
                        })
