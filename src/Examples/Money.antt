-- ===== src/Examples/Money.antt =====
-- Runs of the trackers, and of the request model.
use hydra_engine.Base.{◌≡◌, ◌≢◌, refl, some, [], ◌∷◌, ◌||◌, ◌&&◌, ltb, ◌≤◌, arith}
use hydra_engine.Text.{Str, codes, str_eq}
use hydra_engine.Dict.{Dict}
use hydra_engine.Float.Fixed.{ℤ, pos, fixed}
use hydra_engine.Json.{Json, num, int}
use hydra_engine.Redis.Memory.{Server, empty_server, memory, memory-RedisLaws}
use hydra_engine.Core.Types.{market_name}
use hydra_engine.Core.Orders.{make_order, post_init}
use hydra_engine.Core.Validation.{IsUsable, make_order-valid}
use hydra_engine.Redis.{stored_float, stored_count}
use hydra_engine.Exec.{ok}
use hydra_engine.Core.PnlTracker.{
  record_trade, realized_key, daily_key, trade_count_key, symbol_key, get_realized_total,
  get_daily_realized, get_trade_count, get_symbol_realized,
}
use hydra_engine.Core.PnlTracker.Recording.{record_trade-adds}
use hydra_engine.Examples.Data.{order, uuid}

abbrev day : Str
day = codes "2026-03-01"

abbrev after : Server ℤ
after = record_trade fixed (memory fixed) empty_server day (codes "kr") (codes "005930") (pos 70000)

abbrev state : Dict (Json ℤ)
state = (codes "mode", int 1) ∷ (codes "level", num (pos 5)) ∷ []

has_uuid : uuid ≢ []
has_uuid = λ e. ground arith

made_order : make_order fixed uuid order ≡ some (post_init uuid order)
unfolding make_order
made_order = refl

make_order-valid_example :
    IsUsable fixed (post_init uuid order).qty
    × ((post_init uuid order).qty ≡ order.qty)
    × (1 ≤ (post_init uuid order).leverage)
    × ((post_init uuid order).leverage ≤ 125)
    × ((post_init uuid order).leverage ≡ order.leverage)
    × ((post_init uuid order).idempotency_key ≢ [])
    × ((post_init uuid order).is_futures ≡ (
        order.is_futures
        || (ltb 1 order.leverage
            && (str_eq (market_name order.market) (codes "binance")
                || str_eq (market_name order.market) (codes "hl")))))
make_order-valid_example = make_order-valid fixed uuid order has_uuid made_order

total_gain : stored_float fixed ((memory fixed).get after realized_key) ≡ some (pos 70000)
unfolding memory record_trade realized_key daily_key trade_count_key symbol_key
total_gain = refl

daily_gain : stored_float fixed ((memory fixed).get after (daily_key day)) ≡ some (pos 70000)
unfolding memory record_trade realized_key daily_key trade_count_key symbol_key
daily_gain = refl

one_trade : stored_count ((memory fixed).get after trade_count_key) ≡ some 1
unfolding memory record_trade realized_key daily_key trade_count_key symbol_key
one_trade = refl

symbol_gain :
    stored_float fixed ((memory fixed).get after (symbol_key (codes "kr") (codes "005930")))
    ≡ some (pos 70000)
unfolding memory record_trade realized_key daily_key trade_count_key symbol_key
symbol_gain = refl

-- The server after a second trade of the symbol.
abbrev later : Server ℤ
later = record_trade fixed (memory fixed) after day (codes "kr") (codes "005930") (pos 30000)

record_trade-adds_example :
    (get_realized_total fixed (memory fixed) later ≡ ok (fixed.add (pos 70000) (pos 30000)))
    × (get_daily_realized fixed (memory fixed) later day ≡ ok (fixed.add (pos 70000) (pos 30000)))
    × (get_trade_count fixed (memory fixed) later ≡ ok 2)
    × (get_symbol_realized fixed (memory fixed) later (codes "kr") (codes "005930")
        ≡ ok (fixed.add (pos 70000) (pos 30000)))
record_trade-adds_example =
    record_trade-adds fixed (memory fixed) (memory-RedisLaws fixed) after day (codes "kr")
      (codes "005930") (pos 30000) (pos 70000) (pos 70000) (pos 70000) 1 total_gain daily_gain
      one_trade symbol_gain
