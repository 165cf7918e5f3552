-- ===== src/Examples/Orders.antt =====
-- Runs of the order queue and of the kill switch.
use hydra_engine.Base.{ℕ, ◌≡◌, refl, true, false, none, List, [], ◌∷◌, ◌++◌, ◌==◌, length}
use hydra_engine.Text.{codes, str_eq}
use hydra_engine.Float.{zero_float}
use hydra_engine.Float.Fixed.{ℤ, pos, fixed}
use hydra_engine.Json.{str, member?, present, text}
use hydra_engine.Redis.Memory.{Server, memory, memory-RedisLaws}
use hydra_engine.Exec.{ok, err}
use hydra_engine.Core.Types.{
  binance, hl, market_name, within_limits, order_lock, market_disabled, exchange_error,
}
use hydra_engine.Core.Keys.{idem_key, lock_key, kill_blocked_key, position_key, daily_pnl_key}
use hydra_engine.Core.RiskEngine.{check_order_allowed, get_daily_pnl_pct, judge}
use hydra_engine.Core.PositionTracker.{get_all, position_json, update}
use hydra_engine.Core.Orders.{OrderRequest}
use hydra_engine.Core.OrderQueue.{
  World, submit, submit_new, with_lock, place, result_of, is_blocked, has_exchange,
  block_new_orders, lock_timeout,
}
use hydra_engine.Core.OrderQueue.Guards.{blocked_answer, submit_refused, submit_accepted}
use hydra_engine.Core.OrderQueue.Retry.{submit_again, submit_keeps, submit_failed}
use hydra_engine.Core.KillSwitch.{
  Failure, execute, block_orders, cancel_orders, is_active, KillSwitchResult, close_positions,
  close_position, find_exchange, close_args, kill_result,
}
use hydra_engine.Core.KillSwitch.Blocking.{submit-after_kill}
use hydra_engine.Core.KillSwitch.Trace.{Cancelled, Closed}
use hydra_engine.Core.KillSwitch.Accounting.{kill_accounting, kill_success_closes_all}
use hydra_engine.Examples.Data.{
  counting, refusing, order, queue, start, trading, holding, uuid, accepted, tell,
}

abbrev after : World (Server ℤ) ℕ
after = (submit fixed (memory fixed) counting uuid queue order start).1

first_submit : submit fixed (memory fixed) counting uuid queue order start ≡ (ok accepted, after)
unfolding submit memory submit_new is_blocked with_lock place check_order_allowed get_daily_pnl_pct
    lock_key daily_pnl_key judge has_exchange result_of member?
first_submit = refl

submit_again_example :
    submit fixed (memory fixed) counting (codes "u2") (block_new_orders queue) order after
    ≡ (ok accepted, after)
submit_again_example =
    submit_again fixed (memory fixed) (memory-RedisLaws fixed) counting uuid (codes "u2") queue
      (block_new_orders queue) order start after accepted first_submit

lock_free :
    str_eq (idem_key order.idempotency_key) (lock_key order.market order.symbol order.side) ≡ false
unfolding idem_key lock_key str_eq
lock_free = refl

-- The lock is free again after an order that the exchange refused.
submit_keeps_example :
    (memory fixed).get
      (submit fixed (memory fixed) refusing uuid queue order start).1.redis
      (lock_key order.market order.symbol order.side)
    ≡ (memory fixed).get start.redis (lock_key order.market order.symbol order.side)
submit_keeps_example =
    submit_keeps fixed (memory fixed) (memory-RedisLaws fixed) refusing uuid queue order start
      (lock_key order.market order.symbol order.side) lock_free

abbrev rejected : World (Server ℤ) ℕ
rejected = (submit fixed (memory fixed) refusing uuid queue order start).1

refused_submit :
    submit fixed (memory fixed) refusing uuid queue order start
    ≡ (err (exchange_error (codes "no funds")), rejected)
unfolding submit memory submit_new is_blocked with_lock place check_order_allowed get_daily_pnl_pct
    lock_key daily_pnl_key judge has_exchange
refused_submit = refl

submit_failed_example :
    (memory fixed).get rejected.redis (idem_key order.idempotency_key)
    ≡ (memory fixed).get start.redis (idem_key order.idempotency_key)
submit_failed_example =
    submit_failed fixed (memory fixed) (memory-RedisLaws fixed) refusing uuid queue order start
      (idem_key order.idempotency_key) refused_submit

not_cached : present ((memory fixed).get start.redis (idem_key order.idempotency_key)) ≡ none
unfolding memory
not_cached = refl

submit_accepted_example :
    (is_blocked (memory fixed) queue start.redis ≡ false)
    × (((memory fixed).set_nx_ex start.redis
          (lock_key order.market order.symbol order.side)
          (text (codes "1"))
          lock_timeout).0
        ≡ true)
    × (check_order_allowed fixed
          (memory fixed)
          queue.config
          ((memory fixed).set_nx_ex start.redis
            (lock_key order.market order.symbol order.side)
            (text (codes "1"))
            lock_timeout).1
          (market_name order.market)
          order.symbol
          (zero_float fixed)
        ≡ ok (true, within_limits))
    × (has_exchange order.market queue.exchanges ≡ true)
submit_accepted_example =
    submit_accepted fixed (memory fixed) counting uuid queue order start not_cached first_submit

-- A market with no connector.
abbrev stray : OrderRequest ℤ
stray = record order { market = hl }

abbrev after_stray : World (Server ℤ) ℕ
after_stray = (submit fixed (memory fixed) counting uuid queue stray start).1

submit-stray :
    submit fixed (memory fixed) counting uuid queue stray start
    ≡ (err (order_lock (market_disabled hl)), after_stray)
unfolding submit memory submit_new is_blocked with_lock place check_order_allowed get_daily_pnl_pct
    lock_key daily_pnl_key judge has_exchange
submit-stray = refl

submit_refused_example : after_stray.venue ≡ start.venue
submit_refused_example =
    submit_refused fixed (memory fixed) counting uuid queue stray start submit-stray

abbrev killed : World (Server ℤ) ℕ
killed =
    (execute (memory fixed) counting tell (binance ∷ []) (codes "loss") (codes "cli") (pos 10)
      (trading, 0)).1

submit-after_kill_example :
    (is_active (memory fixed) killed.redis ≡ true)
    × (submit fixed (memory fixed) counting uuid queue order killed ≡ (
      blocked_answer order
          (present ((memory fixed).get trading.redis (idem_key order.idempotency_key))),
      killed,
    ))
submit-after_kill_example =
    submit-after_kill fixed (memory fixed) (memory-RedisLaws fixed) counting tell (binance ∷ [])
      (codes "loss") (codes "cli") (pos 10) trading 0 uuid queue order

one_position :
    get_all (memory fixed) (block_orders (memory fixed) trading.redis)
    ≡ ok (position_json fixed holding ∷ [])
unfolding get_all block_orders memory update position_key kill_blocked_key
one_position = refl

abbrev kill_report : KillSwitchResult ℤ
kill_report = record {
  success = true;
  source = codes "cli";
  reason = codes "loss";
  duration_ms = pos 10;
  closed_positions = str (codes "BTC") ∷ [];
  errors = [];
}

kill_run :
    execute
      (memory fixed)
      counting
      tell
      (binance ∷ [])
      (codes "loss")
      (codes "cli")
      (pos 10)
      (trading, 0)
    ≡ (ok kill_report, killed, 1)
unfolding execute memory get_all block_orders update position_key kill_blocked_key close_positions
    close_position position_json member? find_exchange close_args kill_result cancel_orders
kill_run = refl

kill_accounting_example :
    (x : ℕ) × (es es' : List (Failure ℤ)) × Cancelled counting (binance ∷ []) trading.venue es x
    × Closed counting
        (binance ∷ [])
        (position_json fixed holding ∷ [])
        x
        kill_report.closed_positions
        es'
        killed.venue
    × (kill_report.errors ≡ es ++ es')
    × (kill_report.success ≡ (length (es ++ es') == 0))
    × (1
        ≡ tell
            (record {
              reason = codes "loss";
              source = codes "cli";
              closed = length kill_report.closed_positions;
              duration_ms = pos 10;
            })
            0)
kill_accounting_example =
    kill_accounting (memory fixed) counting tell (binance ∷ []) (codes "loss") (codes "cli")
      (pos 10) trading 0 (position_json fixed holding ∷ []) one_position kill_run

kill_success_closes_all_example :
    (x : ℕ) × Cancelled counting (binance ∷ []) trading.venue [] x
    × Closed counting
        (binance ∷ [])
        (position_json fixed holding ∷ [])
        x
        kill_report.closed_positions
        []
        killed.venue
kill_success_closes_all_example =
    kill_success_closes_all (memory fixed) counting tell (binance ∷ []) (codes "loss") (codes "cli")
      (pos 10) trading 0 (position_json fixed holding ∷ []) one_position kill_run refl
