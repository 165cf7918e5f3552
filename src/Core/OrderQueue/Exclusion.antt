-- ===== src/Core/OrderQueue/Exclusion.antt =====
-- At most one submission per lock waits for the exchange, as long as no lock expires.
use hydra_engine.Base.{◌≡◌, refl, sym, none, List, [], ◌∷◌, arith, inl, inr, All}
use mathlib.Core.Path.{subst}
use hydra_engine.Text.{Str}
use hydra_engine.Float.{Float}
use hydra_engine.Json.{dumped, present}
use hydra_engine.Redis.{Redis, RedisLaws}
use hydra_engine.Exec.{ok, outcome_cases}
use hydra_engine.Core.Keys.{idem_key}
use hydra_engine.Core.Orders.{OrderRequest, Venue}
use hydra_engine.Core.OrderQueue.{
  OrderQueue, OrderResult, World, cache_json, idempotency_ttl, submit, submit_new, with_lock, place,
  release_lock,
}
use hydra_engine.Core.OrderQueue.Guards.{submit_accepted}
use hydra_engine.Core.OrderQueue.Placing.{redis-place_ok}
use hydra_engine.Core.OrderQueue.Interleaving.{
  Traffic, first, Step, begin, answered, failed, elsewhere, Reach, here, next, try_lock, unlock,
  Exclusive, Takes-All, Takes-Exclusive, IsHeld, IsLocked, IsHeld-elsewhere, IsHeld-unlock,
  IsHeld-cache, IsHeld-lock,
}

module _ {F R : Type 0} (f : Float F) (redis : Redis F R) (laws : RedisLaws f redis) where
  Step-IsLocked :
      (s t : Traffic F R) → Step f redis s t → IsLocked f redis laws s → IsLocked f redis laws t
  Step-IsLocked s t (begin q o r fresh free taken allowed has e) v =
      let locked = IsHeld-lock f redis laws s.redis r o s.waiting taken v.held in
      subst (IsLocked f redis laws) (sym e)
        (record { held = (locked.0, locked.1.0); exclusive = (locked.1.1, v.exclusive) })
  Step-IsLocked s t (answered o result rest k e) v =
      let left = Takes-All (IsHeld f redis laws s.redis) k v.held in
      let apart = Takes-Exclusive k v.exclusive in
      let cached =
        redis.set_ex s.redis (idem_key o.idempotency_key) (dumped (cache_json result))
          idempotency_ttl in
      subst (IsLocked f redis laws) (sym e) (record {
        held =
            IsHeld-unlock f redis laws cached o rest apart.0
              (IsHeld-cache f redis laws s.redis o.idempotency_key (cache_json result) rest left.1);
        exclusive = apart.1;
      })
  Step-IsLocked s t (failed o rest k e) v =
      let left = Takes-All (IsHeld f redis laws s.redis) k v.held in
      let apart = Takes-Exclusive k v.exclusive in
      subst (IsLocked f redis laws) (sym e) (record {
        held = IsHeld-unlock f redis laws s.redis o rest apart.0 left.1;
        exclusive = apart.1;
      })
  Step-IsLocked s t (elsewhere r same e) v = subst (IsLocked f redis laws) (sym e) (record {
    held = IsHeld-elsewhere f redis laws s.redis r s.waiting same v.held;
    exclusive = v.exclusive;
  })

  Reach-IsLocked :
      {s t : Traffic F R} → IsLocked f redis laws s → Reach f redis s t → IsLocked f redis laws t
  Reach-IsLocked v here = v
  Reach-IsLocked v (next {t} {u} r st) = Step-IsLocked t u st (Reach-IsLocked v r)

  -- However submissions overlap, and whatever else runs that leaves the locks alone: when no lock
  -- expires, no two submissions for the same market, symbol and side wait for the exchange at once,
  -- and each one that waits holds its lock.
  pub mutual_exclusion :
      {s t : Traffic F R}
      → s.waiting ≡ []
      → Reach f redis s t
      → Exclusive t.waiting × All (IsHeld f redis laws t.redis) t.waiting
  mutual_exclusion {s} quiet r =
      let start : IsLocked f redis laws s = record {
        held = subst (All (IsHeld f redis laws s.redis)) (sym quiet) tt;
        exclusive = subst Exclusive (sym quiet) tt;
      } in
      let v = Reach-IsLocked start r in (v.exclusive, v.held)

module _ {F R X : Type 0} (f : Float F) (redis : Redis F R) (venue : Venue F X) where
  redis-submit_ok :
      (uuid : Str) (q : OrderQueue F) (o : OrderRequest F) (w : World R X) {r : OrderResult F}
      {w' : World R X}
      → present (redis.get w.redis (idem_key o.idempotency_key)) ≡ none
      → submit f redis venue uuid q o w ≡ (ok r, w')
      → w'.redis
        ≡ unlock f redis
            (redis.set_ex
              (try_lock f redis w.redis o).1
              (idem_key o.idempotency_key)
              (dumped (cache_json r))
              idempotency_ttl)
            o
  unfolding submit submit_new with_lock release_lock
  redis-submit_ok uuid q o w fresh h =
      let locked = record w { redis = (try_lock f redis w.redis o).1 } in
      elim (outcome_cases (place f redis venue uuid q o locked)) [
        | inl (e, p) ↦ ground arith
        | inr (r, p) ↦ ground (arith, redis-place_ok f redis venue uuid q o locked p)
      ]

  -- The steps are those of the code: a new order that succeeds, among whatever submissions wait, takes
  -- its lock in one step and gives it back with the answer in another.
  pub submit-Step :
      (uuid : Str) (q : OrderQueue F) (o : OrderRequest F) (w : World R X)
      (waiting : List (OrderRequest F)) {r : OrderResult F} {w' : World R X}
      → present (redis.get w.redis (idem_key o.idempotency_key)) ≡ none
      → submit f redis venue uuid q o w ≡ (ok r, w')
      → Step f redis
          (record { redis = w.redis; waiting = waiting })
          (record { redis = (try_lock f redis w.redis o).1; waiting = o ∷ waiting })
        × Step f redis
            (record { redis = (try_lock f redis w.redis o).1; waiting = o ∷ waiting })
            (record { redis = w'.redis; waiting = waiting })
  submit-Step uuid q o w waiting {r} {w'} fresh h =
      let c = submit_accepted f redis venue uuid q o w fresh h in
      let u = redis-submit_ok uuid q o w fresh h in
      (
        begin q o (try_lock f redis w.redis o).1 fresh c.0 (ground arith) c.2 c.3 refl,
        answered o r waiting first (ground arith),
      )
