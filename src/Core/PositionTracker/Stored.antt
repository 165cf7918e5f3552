-- ===== src/Core/PositionTracker/Stored.antt =====
-- Reading back what `update` stored.
use hydra_engine.Base.{◌≡◌, none, some, if◌then◌else◌, arith}
use hydra_engine.Text.{Str, str_eq}
use hydra_engine.Float.{Float}
use hydra_engine.Json.{dumped}
use hydra_engine.Redis.{Redis, RedisLaws}
use hydra_engine.Exec.{ok}
use hydra_engine.Core.Keys.{position_key}
use hydra_engine.Core.PositionTracker.{Position, position_json, update, get, clear}

module _ {F R : Type 0} (f : Float F) (redis : Redis F R) (laws : RedisLaws f redis) where
  -- After a position is stored, a market and symbol whose key is that of the position give its object,
  -- and all others what they gave before; after a position is cleared, its key gives none, and all
  -- others what they gave before.
  pub get-update :
      (r : R) (p : Position F) (market symbol : Str)
      → (get redis (update redis f r p) market symbol ≡ (
          if str_eq (position_key p.market p.symbol) (position_key market symbol)
          then ok (some (position_json f p))
          else get redis r market symbol))
        × (get redis (clear redis r p.market p.symbol) market symbol ≡ (
            if str_eq (position_key p.market p.symbol) (position_key market symbol)
            then ok none
            else get redis r market symbol))
  unfolding get update clear
  get-update r p market symbol = ground (
    arith,
    laws.get-set r (position_key p.market p.symbol) (position_key market symbol)
        (dumped (position_json f p)),
    laws.get-delete r (position_key p.market p.symbol) (position_key market symbol),
  )
