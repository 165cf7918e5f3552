-- ===== src/Core/OrderQueue/Guards.antt =====
-- The guards of `submit`: what has to hold for an order to reach the exchange.
use hydra_engine.Base.{◌≡◌, inl, inr, Bool, true, false, Option, none, some, arith}
use hydra_engine.Text.{Str, codes}
use hydra_engine.Float.{Float, zero_float}
use hydra_engine.Json.{Payload, text, present}
use hydra_engine.Redis.{Redis}
use hydra_engine.Exec.{Result, ok, err, outcome_cases}
use hydra_engine.Core.Types.{
  Error, LockReason, within_limits, order_lock, kill_switch_active, market_name,
}
use hydra_engine.Core.Keys.{idem_key, lock_key}
use hydra_engine.Core.RiskEngine.{check_order_allowed}
use hydra_engine.Core.Orders.{OrderRequest, Venue}
use hydra_engine.Core.OrderQueue.{
  OrderQueue, OrderResult, World, place, with_lock, submit_new, submit, cached_result, is_blocked,
  has_exchange, lock_timeout,
}
use hydra_engine.Core.OrderQueue.Placing.{venue-place_locked, checks-place_ok}

-- The answer of a blocked queue, by what the cache holds for the key.
abbrev pub blocked_answer :
    {F : Type 0} → OrderRequest F → Option (Payload F) → Result (Error F) (OrderResult F)
blocked_answer o none = err (order_lock kill_switch_active)
blocked_answer o (some raw) = cached_result o raw

module _ {F R X : Type 0} (f : Float F) (redis : Redis F R) (venue : Venue F X) where
  module _ (uuid : Str) (q : OrderQueue F) (o : OrderRequest F) (w : World R X) where
    -- While the queue's flag or the Redis key blocks, a submission changes nothing; it raises the kill
    -- switch error, unless an answer for the key of the request is cached, which it returns.
    pub submit_blocked :
        is_blocked redis q w.redis ≡ true
        → submit f redis venue uuid q o w
          ≡ (blocked_answer o (present (redis.get w.redis (idem_key o.idempotency_key))), w)
    unfolding submit submit_new
    submit_blocked h = ground arith

    abbrev lock : Str
    lock = lock_key o.market o.symbol o.side

    abbrev attempt : R → Bool × R
    attempt r = redis.set_nx_ex r lock (text (codes "1")) lock_timeout

    abbrev locked : World R X
    locked = record w { redis = (attempt w.redis).1 }

    -- An exception of the queue itself, whichever guard raised it, has sent nothing to the exchange.
    pub submit_refused :
        {reason : LockReason F} {w' : World R X}
        → submit f redis venue uuid q o w ≡ (err (order_lock reason), w')
        → w'.venue ≡ w.venue
    unfolding submit submit_new with_lock cached_result
    submit_refused {reason = reason} h =
        elim (outcome_cases (place f redis venue uuid q o locked)) [
          | inl (e, p) ↦ ground (
            arith,
            venue-place_locked f redis venue uuid q o locked {reason = reason}
                {w' = (place f redis venue uuid q o locked).1},
          )
          | inr (r, p) ↦ ground arith
        ]

    -- A new order that succeeds passed every guard: nothing blocked, the lock was free, the risk
    -- engine allowed it on the world under the lock, and the market has a connector.
    pub submit_accepted :
        {r : OrderResult F} {w' : World R X}
        → present (redis.get w.redis (idem_key o.idempotency_key)) ≡ none
        → submit f redis venue uuid q o w ≡ (ok r, w')
        → (is_blocked redis q w.redis ≡ false)
          × ((attempt w.redis).0 ≡ true)
          × (check_order_allowed f redis q.config locked.redis
                (market_name o.market)
                o.symbol
                (zero_float f)
              ≡ ok (true, within_limits))
          × (has_exchange o.market q.exchanges ≡ true)
    unfolding submit submit_new with_lock
    submit_accepted fresh h = elim (outcome_cases (place f redis venue uuid q o locked)) [
      | inl (e, p) ↦ ground arith
      | inr (r, p) ↦ let c = checks-place_ok f redis venue uuid q o locked p in ground arith
    ]
