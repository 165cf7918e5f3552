-- ===== src/Cli/Kill.antt =====
-- hydra/cli/kill.py: the command that closes all positions, over the HTTP interface of the process.
use hydra_engine.Base.{
  ℕ, ◌≡◌, Bool, true, ◌&&◌, Option, none, some, length, ltb, leb, if◌then◌else◌,
}
use hydra_engine.Text.{Str}
use hydra_engine.Float.{Float}
use hydra_engine.Json.{present}
use hydra_engine.Redis.{Redis, RedisLaws}
use hydra_engine.Core.Keys.{idem_key}
use hydra_engine.Core.Orders.{OrderRequest, Venue}
use hydra_engine.Core.OrderQueue.Guards.{blocked_answer}
use hydra_engine.Core.KillSwitch.{Notice}
use hydra_engine.Storage.Contract.{OhlcvStore}
use hydra_engine.Api.Types.{kill_answer, create_order, Response, reply, App, Moment, Site}
use hydra_engine.Api.Control.{order_response}
use hydra_engine.Api.Guard.{key_accepted, auth_guard}
use hydra_engine.Api.Paths.{Router}
use hydra_engine.Api.Remote.{KillRoute, status_of, post_kill, order-after_post_kill}

-- How the command ends: with the number of positions that it prints, or not.
pub data KillEnding : Type 0 where
  cancelled : KillEnding
  offline : KillEnding
  -- the HTTPStatusError of `raise_for_status`, which nobody catches
  refused_with : ℕ → KillEnding
  closed : ℕ → KillEnding

-- `len(data.get("closed", []))`
abbrev pub closed_count : {F : Type 0} → Response F → ℕ
closed_count (reply n (kill_answer k)) = length k.closed_positions
closed_count _ = 0

module _ {F : Type 0} where
  abbrev pub kill_ending : Option (Response F) → KillEnding
  kill_ending none = offline
  kill_ending (some r) =
      if leb 200 (status_of r) && ltb (status_of r) 300
      then closed (closed_count r)
      else refused_with (status_of r)

module _ {F R X T S : Type 0} (f : Float F) (redis : Redis F R) (venue : Venue F X)
    (send : Notice F → T → T) (store : OhlcvStore F S) (app : App F) (router : Router F) where
  -- `confirm` is the answer to the question, `key` the key of the settings of the operator's shell, and
  -- `reached` whether the connection is made.
  unfoldable pub kill :
      Bool → Bool → Moment F → Str → Str → Site R X T S → KillEnding × Site R X T S
  kill confirm reached m key reason s =
      if confirm
      then (let (r, s') = post_kill f redis venue send store app router reached m key reason s in
          (kill_ending r, s'))
      else (cancelled, s)

  -- An operator who confirms the command, with the key and the process running, has stopped the
  -- trading, whatever the command prints: a later order over HTTP leaves the process as it is.
  pub order-after_cli_kill :
      RedisLaws f redis
      → KillRoute router
      → (m : Moment F) (key reason : Str) (s : Site R X T S) (later : Moment F)
      → (o : OrderRequest F) → s.started ≡ true
      → key_accepted app (some key) ≡ true
      → auth_guard f redis venue send store app later
          (some key)
          (create_order o)
          (kill true true m key reason s).1
        ≡ (
          order_response
              (blocked_answer o (present (redis.get s.world.redis (idem_key o.idempotency_key)))),
          (kill true true m key reason s).1,
        )
  unfolding kill
  order-after_cli_kill laws route m key reason s later o on accepted =
      order-after_post_kill f redis venue send store app router laws route m key reason s later o on
        accepted
