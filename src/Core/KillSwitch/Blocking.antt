-- ===== src/Core/KillSwitch/Blocking.antt =====
-- After the kill switch no new order goes out.
use hydra_engine.Base.{◌≡◌, true, List, arith}
use hydra_engine.Text.{Str, codes, str_eq_refl}
use hydra_engine.Float.{Float}
use hydra_engine.Json.{text, present}
use hydra_engine.Redis.{Redis, RedisLaws}
use hydra_engine.Core.Types.{Market}
use hydra_engine.Core.Keys.{idem_key, kill_blocked_key, kill_blocked_key-ne-idem_key}
use hydra_engine.Core.Orders.{OrderRequest, Venue}
use hydra_engine.Core.OrderQueue.{OrderQueue, World, submit, is_blocked}
use hydra_engine.Core.OrderQueue.Guards.{blocked_answer, submit_blocked}
use hydra_engine.Core.KillSwitch.{Notice, execute, block_orders, is_active}

module _ {F R X T : Type 0} (f : Float F) (redis : Redis F R) (laws : RedisLaws f redis)
    (venue : Venue F X) (send : Notice F → T → T) where
  module _ (exchanges : List Market) (reason source : Str) (duration_ms : F) (w : World R X)
      (t : T) where
    abbrev after : World R X
    after = (execute redis venue send exchanges reason source duration_ms (w, t)).1

    redis-execute : after.redis ≡ block_orders redis w.redis
    unfolding execute
    redis-execute = ground arith

    pub is_active-execute : is_active redis after.redis ≡ true
    unfolding is_active block_orders
    is_active-execute = ground (
      arith,
      redis-execute,
      str_eq_refl kill_blocked_key,
      laws.get-set w.redis kill_blocked_key kill_blocked_key (text (codes "1")),
    )

    -- Whatever the kill switch met on its way, exceptions included, afterwards it is active, and a
    -- submission to any queue on that server changes nothing: it raises the kill switch error, or
    -- returns the answer that was cached before for the key of the request.
    pub submit-after_kill :
        (uuid : Str) (q : OrderQueue F) (o : OrderRequest F)
        → (is_active redis after.redis ≡ true)
          × (submit f redis venue uuid q o after ≡ (
            blocked_answer o (present (redis.get w.redis (idem_key o.idempotency_key))),
            after,
          ))
    unfolding is_active block_orders is_blocked
    submit-after_kill uuid q o = ground (
      arith,
      redis-execute,
      str_eq_refl kill_blocked_key,
      kill_blocked_key-ne-idem_key o.idempotency_key,
      laws.get-set w.redis kill_blocked_key kill_blocked_key (text (codes "1")),
      laws.get-set w.redis kill_blocked_key (idem_key o.idempotency_key) (text (codes "1")),
      submit_blocked f redis venue uuid q o after,
    )
