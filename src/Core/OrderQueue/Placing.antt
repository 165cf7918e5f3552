-- ===== src/Core/OrderQueue/Placing.antt =====
-- What `place`, the body of the `try` statement of `submit`, does to the world.
use hydra_engine.Base.{◌≡◌, true, false, inl, inr, arith}
use hydra_engine.Text.{Str, str_eq}
use hydra_engine.Float.{Float, zero_float}
use hydra_engine.Json.{dumped}
use hydra_engine.Redis.{Redis, RedisLaws}
use hydra_engine.Exec.{ok, err, outcome_cases}
use hydra_engine.Core.Types.{Error, LockReason, within_limits, order_lock, market_name}
use hydra_engine.Core.Keys.{idem_key}
use hydra_engine.Core.RiskEngine.{check_order_allowed, judge}
use hydra_engine.Core.Orders.{OrderRequest, Venue}
use hydra_engine.Core.OrderQueue.{
  OrderQueue, OrderResult, World, place, cache_json, result_of, has_exchange,
}

module _ {F R X : Type 0} (f : Float F) (redis : Redis F R) (venue : Venue F X) where
  module _ (uuid : Str) (q : OrderQueue F) (o : OrderRequest F) (w : World R X) where
    -- A failure writes nothing to Redis.
    pub redis-place_err :
        {e : Error F} {w' : World R X}
        → place f redis venue uuid q o w ≡ (err e, w')
        → w'.redis ≡ w.redis
    unfolding place
    redis-place_err h = ground arith

    -- An exception of the queue itself comes before the calls of the exchange.
    pub venue-place_locked :
        {reason : LockReason F} {w' : World R X}
        → place f redis venue uuid q o w ≡ (err (order_lock reason), w')
        → w'.venue ≡ w.venue
    unfolding place check_order_allowed
    venue-place_locked h = ground arith

    -- A success has written the result under the key of the request, and nothing else.
    pub redis-place_ok :
        {r : OrderResult F} {w' : World R X}
        → place f redis venue uuid q o w ≡ (ok r, w')
        → w'.redis ≡ redis.set_ex w.redis (idem_key o.idempotency_key) (dumped (cache_json r)) 86400
    unfolding place
    redis-place_ok h = ground arith

    pub request-place_ok :
        {r : OrderResult F} {w' : World R X}
        → place f redis venue uuid q o w ≡ (ok r, w')
        → (r.symbol ≡ o.symbol) × (r.market ≡ o.market)
    unfolding place result_of
    request-place_ok h = ground arith

    pub checks-place_ok :
        {r : OrderResult F} {w' : World R X}
        → place f redis venue uuid q o w ≡ (ok r, w')
        → (check_order_allowed f redis q.config w.redis
              (market_name o.market)
              o.symbol
              (zero_float f)
            ≡ ok (true, within_limits))
          × (has_exchange o.market q.exchanges ≡ true)
    unfolding place check_order_allowed judge
    checks-place_ok h = ground arith

  -- A key other than the cache key of the request is left alone, whatever the outcome.
  pub get-place :
      (laws : RedisLaws f redis) (uuid : Str) (q : OrderQueue F) (o : OrderRequest F)
      (w : World R X) (j : Str)
      → str_eq (idem_key o.idempotency_key) j ≡ false
      → redis.get (place f redis venue uuid q o w).1.redis j ≡ redis.get w.redis j
  get-place laws uuid q o w j h = elim (outcome_cases (place f redis venue uuid q o w)) [
    | inl (e, p) ↦ rw (redis-place_err uuid q o w p)
    | inr (r, p) ↦ rw (redis-place_ok uuid q o w p) (
        rw (laws.get-set_ex w.redis (idem_key o.idempotency_key) j (dumped (cache_json r)) 86400)
          (rw h))
  ]
