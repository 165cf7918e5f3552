-- ===== src/Core/RiskEngine.antt =====
-- hydra/core/risk_engine.py, and the limits of hydra/config/validation.py that it reads.
use hydra_engine.Base.{ℕ, Bool, true, false, Option, none, some, if◌then◌else◌}
use hydra_engine.Text.{Str}
use hydra_engine.Float.{Float, zero_float}
use hydra_engine.Json.{Payload, decimal, present, read_float}
use hydra_engine.Redis.{Redis}
use hydra_engine.Exec.{Result, ok, err, and_then}
use hydra_engine.Core.Types.{
  Reason, within_limits, kill_level, orders_halted, position_too_large, Error, value_error,
}
use hydra_engine.Core.Keys.{daily_pnl_key}

pub record RiskConfig (F : Type 0) : Type 0 where
  pub daily_loss_limit_pct : F
  pub daily_loss_kill_pct : F
  pub max_position_per_symbol_pct : F
  pub max_position_per_strategy_pct : F
  pub max_position_per_market_pct : F
  pub consecutive_loss_limit : ℕ

abbrev pub default_risk_config : {F : Type 0} → Float F → RiskConfig F
default_risk_config f = record {
  daily_loss_limit_pct = f.lit 3 2;
  daily_loss_kill_pct = f.lit 5 2;
  max_position_per_symbol_pct = f.lit 20 2;
  max_position_per_strategy_pct = f.lit 30 2;
  max_position_per_market_pct = f.lit 50 2;
  consecutive_loss_limit = 5;
}

-- `float(raw)`, which raises on a malformed text
abbrev pub float_of : {F : Type 0} → Float F → Payload F → Result (Error F) F
float_of f p = elim (read_float f p) [ none ↦ err value_error | some x ↦ ok x ]

module _ {F R : Type 0} (f : Float F) (redis : Redis F R) where
  -- `float(raw) if raw else 0.0` for the raw value of one key
  abbrev pub float_or_zero : R → Str → Result (Error F) F
  float_or_zero r k = elim (present (redis.get r k)) [
    | none ↦ ok (zero_float f)
    | some p ↦ float_of f p
  ]

  unfoldable pub get_daily_pnl_pct : R → Result (Error F) F
  get_daily_pnl_pct r = float_or_zero r daily_pnl_key

  unfoldable pub update_daily_pnl : R → F → R
  update_daily_pnl r pnl_pct = redis.set r daily_pnl_key (decimal pnl_pct)

module _ {F : Type 0} (f : Float F) (config : RiskConfig F) where
  -- The tests of `check_order_allowed` on the loss that was read.
  unfoldable pub judge : F → F → Bool × Reason F
  judge position_pct daily_pnl =
      if f.le daily_pnl (f.neg config.daily_loss_kill_pct)
      then (false, kill_level daily_pnl)
      else if f.le daily_pnl (f.neg config.daily_loss_limit_pct)
      then (false, orders_halted daily_pnl)
      else if f.lt config.max_position_per_symbol_pct position_pct
      then (false, position_too_large position_pct config.max_position_per_symbol_pct)
      else (true, within_limits)

  unfoldable pub kill_verdict : F → Bool × Option F
  kill_verdict daily_pnl =
      if f.le daily_pnl (f.neg config.daily_loss_kill_pct)
      then (true, some daily_pnl)
      else (false, none)

module _ {F R : Type 0} (f : Float F) (redis : Redis F R) (config : RiskConfig F) where
  unfoldable pub check_order_allowed : R → Str → Str → F → Result (Error F) (Bool × Reason F)
  check_order_allowed r market symbol position_pct =
      and_then (get_daily_pnl_pct f redis r) λ daily_pnl. ok (judge f config position_pct daily_pnl)

  unfoldable pub should_kill_switch : R → Result (Error F) (Bool × Option F)
  should_kill_switch r =
      and_then (get_daily_pnl_pct f redis r) λ daily_pnl. ok (kill_verdict f config daily_pnl)
