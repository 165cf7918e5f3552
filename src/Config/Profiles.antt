-- ===== src/Config/Profiles.antt =====
-- hydra/config/profiles.py and the strategy limits of hydra/config/validation.py.
use hydra_engine.Base.{ℕ, Bool, true, false, ◌&&◌, Option, none, some, if◌then◌else◌}
use hydra_engine.Text.{Str, codes, str_eq}
use hydra_engine.Float.{Float, zero_float}

pub record ProfileLimits : Type 0 where
  pub name : Str
  pub core_mem_gb : ℕ
  pub redis_mem_gb : ℕ
  pub db_mem_gb : ℕ
  pub cpus : ℕ
  pub ai_enabled : Bool
  pub db_backend : Str

abbrev pub lite : ProfileLimits
lite = record {
  name = codes "lite";
  core_mem_gb = 2;
  redis_mem_gb = 1;
  db_mem_gb = 0;
  cpus = 2;
  ai_enabled = false;
  db_backend = codes "sqlite";
}

abbrev pub pro : ProfileLimits
pro = record {
  name = codes "pro";
  core_mem_gb = 4;
  redis_mem_gb = 2;
  db_mem_gb = 4;
  cpus = 4;
  ai_enabled = true;
  db_backend = codes "timescaledb";
}

abbrev pub expert : ProfileLimits
expert = record {
  name = codes "expert";
  core_mem_gb = 8;
  redis_mem_gb = 4;
  db_mem_gb = 8;
  cpus = 8;
  ai_enabled = true;
  db_backend = codes "timescaledb";
}

-- `none` is the ValueError of an unknown name.
unfoldable pub get_profile : Str → Option ProfileLimits
get_profile name =
    if str_eq name (codes "lite")
    then some lite
    else if str_eq name (codes "pro")
    then some pro
    else if str_eq name (codes "expert")
    then some expert
    else none

pub record StrategyConfig (F : Type 0) : Type 0 where
  pub stop_loss_pct : F
  pub take_profit_pct : F
  pub position_size_pct : F
  pub max_positions : ℕ

module _ {F : Type 0} (f : Float F) where
  -- `validate_stop_loss`: positive, and at most 20%
  unfoldable pub stop_loss_valid : F → Bool
  stop_loss_valid v =
      if f.le v (zero_float f) then false else if f.lt (f.lit 20 2) v then false else true

  -- `validate_position_size`: at most 50%
  unfoldable pub position_size_valid : F → Bool
  position_size_valid v = if f.lt (f.lit 50 2) v then false else true

  -- `StrategyConfig(…)`; `none` is a ValidationError
  unfoldable pub make_strategy_config : StrategyConfig F → Option (StrategyConfig F)
  unfolding stop_loss_valid position_size_valid
  make_strategy_config c =
      if stop_loss_valid c.stop_loss_pct && position_size_valid c.position_size_pct
      then some c
      else none
