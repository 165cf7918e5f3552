-- ===== src/Core/OrderQueue/Retry.antt =====
-- What a call of `submit` leaves in Redis, and what a second call with the same key does.
use hydra_engine.Base.{◌≡◌, Bool, false, inl, inr, some, arith, Option-cases}
use hydra_engine.Text.{Str, str_eq, str_eq_refl, str_eq_iff, codes}
use hydra_engine.Float.{Float}
use hydra_engine.Json.{Payload, dumped, text, present}
use hydra_engine.Redis.{Redis, RedisLaws}
use hydra_engine.Exec.{ok, err, outcome_cases}
use hydra_engine.Core.Types.{Error}
use hydra_engine.Core.Keys.{idem_key, lock_key, lock_key-ne-idem_key}
use hydra_engine.Core.Orders.{OrderRequest, Venue}
use hydra_engine.Core.OrderQueue.{
  OrderQueue, OrderResult, World, place, with_lock, submit_new, submit, cache_json, cached_result,
  lock_timeout,
}
use hydra_engine.Core.OrderQueue.Placing.{
  redis-place_err, redis-place_ok, get-place, request-place_ok,
}

-- The text of the cache describes the result that it was made of.
cached_result-cache_json :
    {F : Type 0} (o : OrderRequest F) (r : OrderResult F)
    → r.symbol ≡ o.symbol
    → r.market ≡ o.market
    → cached_result o (dumped (cache_json r)) ≡ ok r
unfolding cached_result cache_json
cached_result-cache_json o r hs hm = ground arith

-- The result does not depend on the text of the request but for the symbol and the market.
request-cached_result :
    {F : Type 0} (o : OrderRequest F) (raw : Payload F) (r : OrderResult F)
    → cached_result o raw ≡ ok r
    → (r.symbol ≡ o.symbol) × (r.market ≡ o.market)
unfolding cached_result
request-cached_result o raw r h = ground arith

module _ {F R X : Type 0} (f : Float F) (redis : Redis F R) (laws : RedisLaws f redis)
    (venue : Venue F X) where
  module _ (uuid : Str) (q : OrderQueue F) (o : OrderRequest F) where
    abbrev key : Str
    key = idem_key o.idempotency_key

    abbrev lock : Str
    lock = lock_key o.market o.symbol o.side

    abbrev attempt : R → Bool × R
    attempt r = redis.set_nx_ex r lock (text (codes "1")) lock_timeout

    -- The world under the lock.
    abbrev locked : World R X → World R X
    locked w = record w { redis = redis.set_ex w.redis lock (text (codes "1")) lock_timeout }

    -- Under the lock, every key but that of the request ends as it began, whatever the outcome.
    with_lock-keeps :
        (w : World R X) (j : Str)
        → str_eq key j ≡ false
        → redis.get (with_lock f redis venue uuid q o w.venue (attempt w.redis)).1.redis j
          ≡ redis.get w.redis j
    unfolding with_lock
    with_lock-keeps w j h = ground (
      arith,
      laws.set_nx_ex_lem w.redis lock (text (codes "1")) lock_timeout,
      laws.get-delete (place f redis venue uuid q o (locked w)).1.redis lock j,
      laws.get-set_ex w.redis lock j (text (codes "1")) lock_timeout,
      get-place f redis venue laws uuid q o (locked w) j h,
      str_eq_iff lock j,
    )

    with_lock-err :
        (w : World R X) (j : Str) {e : Error F} {w' : World R X}
        → with_lock f redis venue uuid q o w.venue (attempt w.redis) ≡ (err e, w')
        → redis.get w'.redis j ≡ redis.get w.redis j
    unfolding with_lock
    with_lock-err w j h = elim (outcome_cases (place f redis venue uuid q o (locked w))) [
      | inl (e, p) ↦ ground (
        arith,
        laws.set_nx_ex_lem w.redis lock (text (codes "1")) lock_timeout,
        laws.get-delete (place f redis venue uuid q o (locked w)).1.redis lock j,
        laws.get-set_ex w.redis lock j (text (codes "1")) lock_timeout,
        redis-place_err f redis venue uuid q o (locked w) p,
        str_eq_iff lock j,
      )
      | inr (r, p) ↦ ground (arith, laws.set_nx_ex_lem w.redis lock (text (codes "1")) lock_timeout)
    ]

    with_lock-ok :
        (w : World R X) {r : OrderResult F} {w' : World R X}
        → with_lock f redis venue uuid q o w.venue (attempt w.redis) ≡ (ok r, w')
        → (redis.get w'.redis key ≡ some (dumped (cache_json r)))
          × (r.symbol ≡ o.symbol)
          × (r.market ≡ o.market)
    unfolding with_lock
    with_lock-ok w h = elim (outcome_cases (place f redis venue uuid q o (locked w))) [
      | inl (e, p) ↦ ground (arith, laws.set_nx_ex_lem w.redis lock (text (codes "1")) lock_timeout)
      | inr (r, p) ↦ ground (
        arith,
        laws.set_nx_ex_lem w.redis lock (text (codes "1")) lock_timeout,
        laws.get-delete (place f redis venue uuid q o (locked w)).1.redis lock key,
        laws.get-set_ex (locked w).redis key key (dumped (cache_json r)) 86400,
        redis-place_ok f redis venue uuid q o (locked w) p,
        request-place_ok f redis venue uuid q o (locked w) p,
        lock_key-ne-idem_key o.idempotency_key o.market o.symbol o.side,
        str_eq_refl key,
      )
    ]

    -- Whatever the outcome, submission changes no Redis key but the cache key of the request. In
    -- particular the lock is released on every path, exceptions included, and a lock that somebody
    -- else holds stays held.
    pub submit_keeps :
        (w : World R X) (j : Str)
        → str_eq (idem_key o.idempotency_key) j ≡ false
        → redis.get (submit f redis venue uuid q o w).1.redis j ≡ redis.get w.redis j
    unfolding submit submit_new
    submit_keeps w j h = ground (arith, with_lock-keeps w j h)

    -- A submission that raises leaves every Redis key as it was, the cache key included.
    pub submit_failed :
        (w : World R X) (j : Str) {e : Error F} {w' : World R X}
        → submit f redis venue uuid q o w ≡ (err e, w')
        → redis.get w'.redis j ≡ redis.get w.redis j
    unfolding submit submit_new
    submit_failed w j {e} {w'} h = ground (arith, with_lock-err w j {e = e} {w' = w'})

    -- What a successful submission leaves in the cache.
    submit-ok :
        (w : World R X) {r : OrderResult F} {w' : World R X}
        → submit f redis venue uuid q o w ≡ (ok r, w')
        → (raw : Payload F) × (present (redis.get w'.redis key) ≡ some raw)
          × (cached_result o raw ≡ ok r)
    unfolding submit submit_new
    submit-ok w {r} {w'} h = elim (Option-cases (present (redis.get w.redis key))) [
      | inl fresh ↦
          let done = with_lock-ok w {r = r} {w' = w'} (ground arith) in
          (dumped (cache_json r), rw done.0, cached_result-cache_json o r done.1 done.2)
      | inr (raw, old) ↦ (raw, ground arith, ground arith)
    ]

  -- A submission that succeeded can be repeated: the second one returns the same result and changes
  -- neither Redis nor the venue, so the exchange sees one order. It does so in whatever state the
  -- queue is by then, blocked or with other connectors, and whatever `uuid4` returns.
  pub submit_again :
      (uuid again : Str) (q later : OrderQueue F) (o : OrderRequest F) (w w' : World R X)
      (r : OrderResult F)
      → submit f redis venue uuid q o w ≡ (ok r, w')
      → submit f redis venue again later o w' ≡ (ok r, w')
  unfolding submit
  submit_again uuid again q later o w w' r h =
      let (raw, cached, same) = submit-ok uuid q o w h in ground arith
