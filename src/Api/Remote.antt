-- ===== src/Api/Remote.antt =====
-- The route of the kill switch, as its clients reach it over HTTP: hydra/cli/kill.py and
-- scripts/dr_watchdog.py.
use hydra_engine.Base.{ℕ, ◌≡◌, sym, ap, Bool, true, Option, none, some, arith, if◌then◌else◌}
use mathlib.Core.Path.{subst}
use hydra_engine.Text.{Str, codes}
use hydra_engine.Float.{Float}
use hydra_engine.Json.{Fields, field, end, str, present}
use hydra_engine.Redis.{Redis, RedisLaws}
use hydra_engine.Core.Keys.{idem_key}
use hydra_engine.Core.Orders.{OrderRequest, Venue}
use hydra_engine.Core.OrderQueue.Guards.{blocked_answer}
use hydra_engine.Core.KillSwitch.{Notice}
use hydra_engine.Storage.Contract.{OhlcvStore}
use hydra_engine.Api.Types.{create_order, killswitch, Response, reply, crash, App, Moment, Site}
use hydra_engine.Api.Control.{order_response}
use hydra_engine.Api.Guard.{key_accepted, auth_guard}
use hydra_engine.Api.Halting.{halted, order-after_killswitch}
use hydra_engine.Api.Paths.{Router, serve_path}

abbrev pub killswitch_path : Str
killswitch_path = codes "/killswitch"

-- `params={"reason": reason}`
abbrev pub kill_params : {F : Type 0} → Str → Fields F
kill_params reason = field (codes "reason") (str reason) end

-- FastAPI finds the route of the kill switch by its path, and its parameter by its name.
abbrev pub KillRoute : {F : Type 0} → Router F → Type 0
KillRoute router =
    (reason : Str) → router killswitch_path (kill_params reason) ≡ some (killswitch (some reason))

-- The status of an answer; an exception that nobody catches is answered with 500.
abbrev pub status_of : {F : Type 0} → Response F → ℕ
status_of (reply n b) = n
status_of crash = 500

module _ {F R X T S : Type 0} (f : Float F) (redis : Redis F R) (venue : Venue F X)
    (send : Notice F → T → T) (store : OhlcvStore F S) (app : App F) (router : Router F) where
  -- A request of a client; none if the process is not reached.
  abbrev pub request :
      Bool
      → Moment F
      → Option Str
      → Str
      → Fields F
      → Site R X T S
      → Option (Response F) × Site R X T S
  request reached m header path params s =
      if reached
      then (let (r, s') = serve_path f redis venue send store app router m header path params s in
          (some r, s'))
      else (none, s)

  abbrev pub post_kill :
      Bool → Moment F → Str → Str → Site R X T S → Option (Response F) × Site R X T S
  post_kill reached m key reason = request reached m (some key) killswitch_path (kill_params reason)

  module _ (laws : RedisLaws f redis) (route : KillRoute router) where
    -- A client that reaches the process is served by the kill switch.
    pub post_kill-halted :
        (m : Moment F) (key reason : Str) (s : Site R X T S)
        → post_kill true m key reason s ≡ (
          some
              (auth_guard f redis venue send store app m (some key) (killswitch (some reason)) s).0,
          halted f redis venue send store app m (some key) (some reason) s,
        )
    unfolding serve_path
    post_kill-halted m key reason s = ground (arith, route reason)

    -- What a client that reached the process with the key has stopped.
    pub order-after_post_kill :
        (m : Moment F) (key reason : Str) (s : Site R X T S) (later : Moment F) (o : OrderRequest F)
        → s.started ≡ true
        → key_accepted app (some key) ≡ true
        → auth_guard f redis venue send store app later
            (some key)
            (create_order o)
            (post_kill true m key reason s).1
          ≡ (
            order_response
                (blocked_answer o (present (redis.get s.world.redis (idem_key o.idempotency_key)))),
            (post_kill true m key reason s).1,
          )
    order-after_post_kill m key reason s later o on accepted =
        subst
          (λ s'. auth_guard f redis venue send store app later (some key) (create_order o) s' ≡ (
            order_response
                (blocked_answer o (present (redis.get s.world.redis (idem_key o.idempotency_key)))),
            s',
          ))
          (sym (ap (λ p. p.1) (post_kill-halted m key reason s)))
          (order-after_killswitch f redis venue send store app laws m (some key) (some reason) s
            later o on accepted)
