-- ===== src/Api/Halting.antt =====
-- The kill switch over HTTP.
use hydra_engine.Base.{◌≡◌, true, Option, get_or, arith}
use hydra_engine.Text.{Str, codes}
use hydra_engine.Float.{Float}
use hydra_engine.Json.{present}
use hydra_engine.Redis.{Redis, RedisLaws}
use hydra_engine.Core.Keys.{idem_key}
use hydra_engine.Core.Orders.{OrderRequest, Venue}
use hydra_engine.Core.OrderQueue.Guards.{blocked_answer}
use hydra_engine.Core.KillSwitch.{Notice, is_active}
use hydra_engine.Core.KillSwitch.Blocking.{submit-after_kill, is_active-execute}
use hydra_engine.Storage.Contract.{OhlcvStore}
use hydra_engine.Api.Types.{create_order, killswitch, App, Moment, Site}
use hydra_engine.Api.Control.{order_response}
use hydra_engine.Api.Control
use hydra_engine.Api.Guard.{handle, key_accepted, auth_guard}
use hydra_engine.Api.Reading.{auth_guard-handle}

module _ {F R X T S : Type 0} (f : Float F) (redis : Redis F R) (venue : Venue F X)
    (send : Notice F → T → T) (store : OhlcvStore F S) (app : App F) where
  -- What a request to the kill switch leaves.
  abbrev pub halted : Moment F → Option Str → Option Str → Site R X T S → Site R X T S
  halted m header reason s =
      (auth_guard f redis venue send store app m header (killswitch reason) s).1

  module _ (laws : RedisLaws f redis) where
    pub is_active-halted :
        (m : Moment F) (header reason : Option Str) (s : Site R X T S)
        → s.started ≡ true
        → key_accepted app header ≡ true
        → is_active redis (halted m header reason s).world.redis ≡ true
    unfolding handle Control.killswitch
    is_active-halted m header reason s on key = ground (
      arith,
      auth_guard-handle f redis venue send store app m header (killswitch reason) s,
      is_active-execute f redis laws venue send app.queue.exchanges (get_or reason (codes "manual"))
          (codes "api") m.duration_ms s.world s.inbox,
    )

    pub started-halted :
        (m : Moment F) (header reason : Option Str) (s : Site R X T S)
        → s.started ≡ true
        → key_accepted app header ≡ true
        → (halted m header reason s).started ≡ true
    unfolding handle Control.killswitch
    started-halted m header reason s on key =
        ground
          (arith, auth_guard-handle f redis venue send store app m header (killswitch reason) s)

    -- After a request to the kill switch that carries the key, however the switch fared, a request for an
    -- order that carries the key leaves the process as it is, and no exchange is called: its answer is the
    -- one that was cached before for the key of the order, and a failure where there is none.
    pub order-after_killswitch :
        (m : Moment F) (header reason : Option Str) (s : Site R X T S) (later : Moment F)
        (o : OrderRequest F)
        → s.started ≡ true
        → key_accepted app header ≡ true
        → auth_guard f redis venue send store app later header
            (create_order o)
            (halted m header reason s)
          ≡ (
            order_response
                (blocked_answer o (present (redis.get s.world.redis (idem_key o.idempotency_key)))),
            halted m header reason s,
          )
    unfolding handle Control.create_order Control.killswitch
    order-after_killswitch m header reason s later o on key = ground (
      arith,
      auth_guard-handle f redis venue send store app m header (killswitch reason) s,
      auth_guard-handle f redis venue send store app later header (create_order o)
          (halted m header reason s),
      submit-after_kill f redis laws venue send app.queue.exchanges (get_or reason (codes "manual"))
          (codes "api") m.duration_ms s.world s.inbox later.uuid app.queue o,
    )
