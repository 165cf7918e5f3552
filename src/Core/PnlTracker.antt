-- ===== src/Core/PnlTracker.antt =====
-- hydra/core/pnl_tracker.py. `day` is the text of today's date.
pub mod Recording
pub mod Summary
pub mod Unrealized
use hydra_engine.Base.{
  ℕ, ◌≡◌, Bool, true, false, ◌||◌, Option, none, some, List, [], ◌∷◌, ◌++◌, if◌then◌else◌,
}
use hydra_engine.Text.{Str, codes, str_eq}
use hydra_engine.Float.{Float, zero_float}
use hydra_engine.Json.{Json, Fields, num, int, str, null, member?, Payload, count, present}
use hydra_engine.Redis.{Redis}
use hydra_engine.Exec.{Result, ok, err, and_then}
use hydra_engine.Core.Types.{Error, value_error}
use hydra_engine.Core.RiskEngine.{float_or_zero}
use hydra_engine.Core.OrderQueue.{fields_of}

unfoldable pub realized_key : Str
realized_key = codes "hydra:pnl:realized:total"

unfoldable pub trade_count_key : Str
trade_count_key = codes "hydra:pnl:trade_count"

unfoldable pub daily_key : Str → Str
daily_key day = codes "hydra:pnl:daily:" ++ day

unfoldable pub symbol_key : Str → Str → Str
symbol_key market symbol = codes "hydra:pnl:symbol:" ++ (market ++ (codes ":" ++ symbol))

module _ {F R : Type 0} (f : Float F) (redis : Redis F R) where
  -- The commands of the pipeline, in order.
  unfoldable pub record_trade : R → Str → Str → Str → F → R
  record_trade r day market symbol pnl =
      let total = redis.incrbyfloat r realized_key pnl in
      let daily = redis.incrbyfloat total (daily_key day) pnl in
      let counted = redis.incr daily trade_count_key in
      redis.incrbyfloat counted (symbol_key market symbol) pnl

  unfoldable pub get_realized_total : R → Result (Error F) F
  get_realized_total r = float_or_zero f redis r realized_key

  unfoldable pub get_daily_realized : R → Str → Result (Error F) F
  get_daily_realized r day = float_or_zero f redis r (daily_key day)

  -- `int(raw) if raw else 0`; a text that is no count is malformed
  unfoldable pub get_trade_count : R → Result (Error F) ℕ
  get_trade_count r = elim (present (redis.get r trade_count_key)) [
    | none ↦ ok 0
    | some p ↦ elim p [ count n ↦ ok n | _ ↦ err value_error ]
  ]

  unfoldable pub get_symbol_realized : R → Str → Str → Result (Error F) F
  get_symbol_realized r market symbol = float_or_zero f redis r (symbol_key market symbol)

  unfoldable pub reset_daily : R → Str → R
  reset_daily r day = redis.delete r (daily_key day)

module _ {F : Type 0} (f : Float F) where
  -- `float(v)` of a decoded value
  abbrev pub float_json : Json F → Result (Error F) F
  float_json (num x) = ok x
  float_json (int n) = ok (f.lit n 0)
  float_json (str s) = elim (f.parse s) [ none ↦ err value_error | some x ↦ ok x ]
  float_json _ = err value_error

  -- `float(position.get(k, default))`
  unfoldable pub float_field : Str → F → Fields F → Result (Error F) F
  float_field k default pos = elim (member? k pos) [ none ↦ ok default | some v ↦ float_json v ]

  -- `position.get("side", "buy") == "sell"`
  unfoldable pub is_short : Fields F → Bool
  unfolding str_eq
  is_short pos = elim (member? (codes "side") pos) [
    | none ↦ false
    | some v ↦ elim v [ str s ↦ str_eq s (codes "sell") | _ ↦ false ]
  ]

  -- The gain of a position, from its numbers.
  unfoldable pub unrealized : F → F → F → Bool → F → F
  unrealized qty avg_price mark_price short leverage =
      if f.eq qty (zero_float f) || f.eq avg_price (zero_float f)
      then zero_float f
      else (let diff = f.sub mark_price avg_price in
          f.mul (f.mul (if short then f.neg diff else diff) qty) leverage)

  unfoldable pub calc_unrealized : Fields F → Result (Error F) F
  calc_unrealized pos = and_then (float_field (codes "qty") (f.lit 0 0) pos) λ qty.
      and_then (float_field (codes "avg_price") (f.lit 0 0) pos) λ avg_price.
        and_then (float_field (codes "mark_price") avg_price pos) λ mark_price.
          and_then (float_field (codes "leverage") (f.lit 1 0) pos)
            λ leverage. ok (unrealized qty avg_price mark_price (is_short pos) leverage)

  -- `sum(…)` with the sum so far
  unfoldable pub sum_unrealized : F → List (Json F) → Result (Error F) F
  sum_unrealized acc [] = ok acc
  sum_unrealized acc (p ∷ ps) =
      and_then (fields_of p)
        λ pos. and_then (calc_unrealized pos) λ x. sum_unrealized (f.add acc x) ps

  unfoldable pub get_unrealized_total : List (Json F) → Result (Error F) F
  get_unrealized_total = sum_unrealized (zero_float f)
