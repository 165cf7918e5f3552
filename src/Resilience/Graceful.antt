-- ===== src/Resilience/Graceful.antt =====
-- hydra/resilience/graceful.py. Taking the snapshot never suspends, so the timeout around it does not
-- fire; an exception of the snapshot leaves `shutdown`.
use hydra_engine.Base.{◌≡◌, inl, inr, Bool, true, false, List, arith, if◌then◌else◌}
use hydra_engine.Text.{Str}
use hydra_engine.Float.{Float}
use hydra_engine.Json.{Json, text, present}
use hydra_engine.Redis.{Redis, RedisLaws}
use hydra_engine.Exec.{Result, ok, err, Result-cases}
use hydra_engine.Core.Types.{Error}
use hydra_engine.Core.Keys.{idem_key, last_snapshot_key, idem_key-ne-last_snapshot_key}
use hydra_engine.Core.PositionTracker.{snapshot}
use hydra_engine.Core.Orders.{OrderRequest, Venue}
use hydra_engine.Core.OrderQueue.{OrderQueue, World, block_new_orders, submit, is_blocked}
use hydra_engine.Core.OrderQueue.Guards.{blocked_answer, submit_blocked}

-- The process: the flag of the manager and the queue that it blocks.
pub record Process (F : Type 0) : Type 0 where
  pub shutting_down : Bool
  pub queue : OrderQueue F

-- `repr` is the text that `str` makes of the snapshot.
module _ {F R : Type 0} (redis : Redis F R) (repr : List (Json F) → Str) where
  abbrev pub store_snapshot : Result (Error F) (List (Json F)) → R → Result (Error F) (Unit {0}) × R
  store_snapshot (ok positions) r = (ok tt, redis.set r last_snapshot_key (text (repr positions)))
  store_snapshot (err e) r = (err e, r)

  unfoldable pub shutdown : Process F → R → Result (Error F) (Unit {0}) × Process F × R
  shutdown p r =
      if p.shutting_down
      then (ok tt, p, r)
      else (let (result, r') = store_snapshot (snapshot redis r) r in
          (result, record { shutting_down = true; queue = block_new_orders p.queue }, r'))

module _ {F R X : Type 0} (f : Float F) (redis : Redis F R) (laws : RedisLaws f redis)
    (venue : Venue F X) (repr : List (Json F) → Str) where
  -- After the first call of `shutdown`, whether the snapshot could be taken or not, a second call does
  -- nothing, and a submission changes nothing: it raises the kill switch error, or returns the answer
  -- that was cached before for the key of the request.
  pub submit_after_shutdown :
      (p : Process F) (w : World R X) (uuid : Str) (o : OrderRequest F)
      → p.shutting_down ≡ false
      → (shutdown redis repr (shutdown redis repr p w.redis).1 (shutdown redis repr p w.redis).2
          ≡ (ok tt, (shutdown redis repr p w.redis).1, (shutdown redis repr p w.redis).2))
        × (submit f redis venue uuid
              (shutdown redis repr p w.redis).1.queue
              o
              (record { redis = (shutdown redis repr p w.redis).2; venue = w.venue })
            ≡ (
              blocked_answer o (present (redis.get w.redis (idem_key o.idempotency_key))),
              record { redis = (shutdown redis repr p w.redis).2; venue = w.venue },
            ))
  unfolding shutdown is_blocked block_new_orders
  submit_after_shutdown p w uuid o h = elim (Result-cases (snapshot redis w.redis)) [
    | inl (e, q) ↦ ground (
      arith,
      submit_blocked f redis venue uuid (block_new_orders p.queue) o
          (record { redis = w.redis; venue = w.venue }),
    )
    | inr (a, q) ↦ ground (
      arith,
      submit_blocked f redis venue uuid (block_new_orders p.queue) o
          (record { redis = redis.set w.redis last_snapshot_key (text (repr a)); venue = w.venue }),
      laws.get-set w.redis last_snapshot_key (idem_key o.idempotency_key) (text (repr a)),
      idem_key-ne-last_snapshot_key o.idempotency_key,
    )
  ]
