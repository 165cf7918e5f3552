-- ===== src/Examples/Locks.antt =====
-- Submissions that overlap.
use hydra_engine.Base.{ℕ, ◌≡◌, refl, true, false, none, [], ◌∷◌, All}
use hydra_engine.Text.{codes}
use hydra_engine.Float.{zero_float}
use hydra_engine.Float.Fixed.{ℤ, fixed}
use hydra_engine.Json.{member?, present}
use hydra_engine.Redis.Memory.{Server, empty_server, memory, memory-RedisLaws}
use hydra_engine.Exec.{ok}
use hydra_engine.Core.Types.{market_name, within_limits}
use hydra_engine.Core.Keys.{idem_key, lock_key, daily_pnl_key}
use hydra_engine.Core.RiskEngine.{check_order_allowed, get_daily_pnl_pct, judge}
use hydra_engine.Core.Orders.{OrderRequest}
use hydra_engine.Core.OrderQueue.{
  World, submit, submit_new, with_lock, place, result_of, is_blocked, has_exchange,
}
use hydra_engine.Core.OrderQueue.Interleaving.{
  Traffic, lock_of, Step, begin, here, next, try_lock, unlock, Exclusive, IsHeld,
}
use hydra_engine.Core.OrderQueue.Exclusion.{mutual_exclusion, submit-Step}
use hydra_engine.Core.OrderQueue.Expiry.{expired_lock}
use hydra_engine.Examples.Data.{counting, queue, order, start, uuid, accepted}

abbrev quiet : Traffic ℤ (Server ℤ)
quiet = record { redis = empty_server; waiting = [] }

-- The order waits for the exchange.
abbrev busy : Traffic ℤ (Server ℤ)
busy = record { redis = (try_lock fixed (memory fixed) empty_server order).1; waiting = order ∷ [] }

begins : Step fixed (memory fixed) quiet busy
unfolding memory is_blocked check_order_allowed get_daily_pnl_pct judge has_exchange daily_pnl_key
    lock_key idem_key
begins = begin queue order busy.redis refl refl refl refl refl refl

mutual_exclusion_example :
    Exclusive busy.waiting
    × All (IsHeld fixed (memory fixed) (memory-RedisLaws fixed) busy.redis) busy.waiting
mutual_exclusion_example =
    mutual_exclusion fixed (memory fixed) (memory-RedisLaws fixed) {s = quiet} {t = busy} refl
      (next here begins)

abbrev after : World (Server ℤ) ℕ
after = (submit fixed (memory fixed) counting uuid queue order start).1

first_submit : submit fixed (memory fixed) counting uuid queue order start ≡ (ok accepted, after)
unfolding submit memory submit_new is_blocked with_lock place check_order_allowed get_daily_pnl_pct
    lock_key daily_pnl_key judge has_exchange result_of member?
first_submit = refl

nothing_cached : present ((memory fixed).get empty_server (idem_key order.idempotency_key)) ≡ none
unfolding memory
nothing_cached = refl

submit-Step_example :
    Step fixed
      (memory fixed)
      (record { redis = start.redis; waiting = [] })
      (record { redis = (try_lock fixed (memory fixed) start.redis order).1; waiting = order ∷ [] })
    × Step fixed
        (memory fixed)
        (record {
          redis = (try_lock fixed (memory fixed) start.redis order).1;
          waiting = order ∷ [];
        })
        (record { redis = after.redis; waiting = [] })
submit-Step_example =
    submit-Step fixed (memory fixed) counting uuid queue order start [] {r = accepted} {w' = after}
      nothing_cached first_submit

-- Another order for the same market, symbol and side.
abbrev later_order : OrderRequest ℤ
later_order = record order { idempotency_key = codes "k2" }

-- The lock of the first order has expired.
abbrev expired : Traffic ℤ (Server ℤ)
expired = record { redis = empty_server; waiting = order ∷ [] }

unlocked : (memory fixed).get empty_server (lock_of order) ≡ none
unfolding memory
unlocked = refl

later_fresh :
    present ((memory fixed).get empty_server (idem_key later_order.idempotency_key)) ≡ none
unfolding memory
later_fresh = refl

later_free : is_blocked (memory fixed) queue empty_server ≡ false
unfolding is_blocked memory
later_free = refl

later_allowed :
    check_order_allowed fixed
      (memory fixed)
      queue.config
      (try_lock fixed (memory fixed) empty_server later_order).1
      (market_name later_order.market)
      later_order.symbol
      (zero_float fixed)
    ≡ ok (true, within_limits)
unfolding check_order_allowed memory get_daily_pnl_pct judge daily_pnl_key lock_key
later_allowed = refl

later_has : has_exchange later_order.market queue.exchanges ≡ true
unfolding has_exchange
later_has = refl

expired_lock_example :
    Step fixed (memory fixed) expired (record {
      redis = (try_lock fixed (memory fixed) empty_server later_order).1;
      waiting = later_order ∷ order ∷ [];
    })
    × Step fixed
        (memory fixed)
        (record {
          redis = (try_lock fixed (memory fixed) empty_server later_order).1;
          waiting = later_order ∷ order ∷ [];
        })
        (record {
          redis =
              unlock fixed
                (memory fixed)
                (try_lock fixed (memory fixed) empty_server later_order).1
                order;
          waiting = later_order ∷ [];
        })
    × ((memory fixed).get
          (unlock fixed
            (memory fixed)
            (try_lock fixed (memory fixed) empty_server later_order).1
            order)
          (lock_of later_order)
        ≡ none)
expired_lock_example =
    expired_lock fixed (memory fixed) (memory-RedisLaws fixed) expired order later_order [] queue
      refl refl unlocked later_fresh later_free later_allowed later_has
