-- ===== src/Examples/Data.antt =====
-- The shared data of the examples: an exchange that accepts everything and counts its calls.
use hydra_engine.Base.{ℕ, suc, true, false, none, some, [], ◌∷◌}
use hydra_engine.Text.{Str, codes}
use hydra_engine.Float.Fixed.{ℤ, pos, fixed}
use hydra_engine.Json.{field, end, str}
use hydra_engine.Redis.Memory.{Server, empty_server, memory}
use hydra_engine.Exec.{ok, err}
use hydra_engine.Core.Types.{binance, buy}
use hydra_engine.Core.Orders.{OrderRequest, market_order, Venue}
use hydra_engine.Core.RiskEngine.{default_risk_config}
use hydra_engine.Core.OrderQueue.{OrderQueue, OrderResult, World}
use hydra_engine.Core.PositionTracker.{Position, update}
use hydra_engine.Core.KillSwitch.{Notice}

-- The state is the number of orders that were sent.
abbrev pub counting : Venue ℤ ℕ
counting = record {
  create_order = λ m args n. (ok (field (codes "order_id") (str (codes "A1")) end), suc n);
  set_leverage = λ m s k n. (ok tt, n);
  cancel_all = λ m n. (ok tt, n);
}

-- One that refuses every order.
abbrev pub refusing : Venue ℤ ℕ
refusing = record {
  create_order = λ m args n. (err (codes "no funds"), n);
  set_leverage = λ m s k n. (ok tt, n);
  cancel_all = λ m n. (ok tt, n);
}

abbrev pub order : OrderRequest ℤ
order = record {
  market = binance;
  symbol = codes "BTC";
  side = buy;
  order_type = market_order;
  qty = some (pos 5000);
  price = none;
  amount = none;
  idempotency_key = codes "k1";
  exchange = none;
  leverage = 3;
  is_futures = true;
}

abbrev pub queue : OrderQueue ℤ
queue = record { blocked = false; exchanges = binance ∷ []; config = default_risk_config fixed }

abbrev pub start : World (Server ℤ) ℕ
start = record { redis = empty_server; venue = 0 }

abbrev pub uuid : Str
uuid = codes "u1"

abbrev pub accepted : OrderResult ℤ
accepted = record {
  order_id = str (codes "A1");
  status = str (codes "submitted");
  symbol = codes "BTC";
  market = binance;
}

-- The operator's inbox counts the messages.
abbrev pub tell : Notice ℤ → ℕ → ℕ
tell n t = suc t

abbrev pub holding : Position ℤ
holding = record {
  market = codes "binance";
  symbol = codes "BTC";
  qty = pos 5000;
  avg_price = pos 1000000;
  side = codes "buy";
  leverage = 3;
  mark_price = some (pos 1100000);
}

-- A server with one position.
abbrev pub trading : World (Server ℤ) ℕ
trading = record { redis = update (memory fixed) fixed empty_server holding; venue = 0 }
