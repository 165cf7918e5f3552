-- ===== src/Core/Types.antt =====
-- The enumerations of an order request, and the exceptions that the core raises.
use hydra_engine.Text.{Str, codes}

-- Literal["kr", "us", "upbit", "binance", "hl", "poly"]
pub data Market : Type 0 where
  kr us upbit binance hl poly : Market

abbrev pub market_name : Market → Str
market_name kr = codes "kr"
market_name us = codes "us"
market_name upbit = codes "upbit"
market_name binance = codes "binance"
market_name hl = codes "hl"
market_name poly = codes "poly"

-- Literal["buy", "sell"]
pub data Side : Type 0 where
  buy sell : Side

abbrev pub side_name : Side → Str
side_name buy = codes "buy"
side_name sell = codes "sell"

-- The reason texts of `check_order_allowed`, with the numbers that they print.
pub data Reason (F : Type 0) : Type 0 where
  within_limits : Reason F
  kill_level : F → Reason F
  orders_halted : F → Reason F
  position_too_large : F → F → Reason F

-- The messages of OrderLockError.
pub data LockReason (F : Type 0) : Type 0 where
  kill_switch_active : LockReason F
  lock_not_acquired : Str → Side → LockReason F
  risk_denied : Reason F → LockReason F
  market_disabled : Market → LockReason F

pub data Error (F : Type 0) : Type 0 where
  order_lock : LockReason F → Error F
  value_error : Error F
  decode_error : Error F
  key_error : Str → Error F
  -- whatever an exchange connector raised
  exchange_error : Str → Error F
