-- ===== src/Core/PositionTracker.antt =====
-- hydra/core/position_tracker.py: one JSON object for each market and symbol.
pub mod Stored
use hydra_engine.Base.{ℕ, Option, none, some, List, [], ◌∷◌, if◌then◌else◌}
use hydra_engine.Text.{Str, codes}
use hydra_engine.Float.{Float, zero_float}
use hydra_engine.Json.{Json, num, int, str, obj, field, end, Payload, dumped, present, loads}
use hydra_engine.Redis.{Redis}
use hydra_engine.Exec.{Result, ok, err, and_then}
use hydra_engine.Core.Types.{Error, decode_error}
use hydra_engine.Core.Keys.{position_key}

-- `json.loads(raw)`
abbrev pub decode : {F : Type 0} → Payload F → Result (Error F) (Json F)
decode p = elim (loads p) [ none ↦ err decode_error | some j ↦ ok j ]

-- The arguments of `update`.
pub record Position (F : Type 0) : Type 0 where
  pub market : Str
  pub symbol : Str
  pub qty : F
  pub avg_price : F
  pub side : Str
  pub leverage : ℕ
  pub mark_price : Option F

module _ {F : Type 0} (f : Float F) where
  -- `mark_price or avg_price`: a mark of zero counts as missing
  unfoldable pub mark_or_avg : Option F → F → F
  mark_or_avg none avg = avg
  mark_or_avg (some mark) avg = if f.eq mark (zero_float f) then avg else mark

  -- The object `data` of `update`.
  unfoldable pub position_json : Position F → Json F
  unfolding mark_or_avg
  position_json p = obj (
      field (codes "qty") (num p.qty) (
        field (codes "avg_price") (num p.avg_price) (
          field (codes "side") (str p.side) (
            field (codes "market") (str p.market) (
              field (codes "symbol") (str p.symbol) (
                field (codes "leverage") (int p.leverage) (
                  field (codes "mark_price") (num (mark_or_avg p.mark_price p.avg_price)) end)))))))

module _ {F R : Type 0} (redis : Redis F R) where
  unfoldable pub update : Float F → R → Position F → R
  update f r p = redis.set r (position_key p.market p.symbol) (dumped (position_json f p))

  -- `json.loads(raw) if raw else None`
  unfoldable pub get : R → Str → Str → Result (Error F) (Option (Json F))
  get r market symbol = elim (present (redis.get r (position_key market symbol))) [
    | none ↦ ok none
    | some p ↦ and_then (decode p) (λ j. ok (some j))
  ]

  -- The loop of `get_all` over the keys that are left.
  unfoldable pub read_positions : R → List Str → Result (Error F) (List (Json F))
  read_positions r [] = ok []
  read_positions r (k ∷ ks) =
      let rest = read_positions r ks in
      elim (present (redis.get r k)) [
        | none ↦ rest
        | some p ↦ and_then (decode p) (λ j. and_then rest (λ js. ok (j ∷ js)))
      ]

  unfoldable pub get_all : R → Result (Error F) (List (Json F))
  unfolding read_positions
  get_all r = read_positions r (redis.keys r (codes "hydra:positions:"))

  unfoldable pub clear : R → Str → Str → R
  clear r market symbol = redis.delete r (position_key market symbol)

  -- `{"positions": self.get_all()}`
  unfoldable pub snapshot : R → Result (Error F) (List (Json F))
  snapshot r = get_all r
