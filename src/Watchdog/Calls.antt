-- ===== src/Watchdog/Calls.antt =====
-- scripts/dr_watchdog.py: its calls of the process and of its table. Telegram and the network are parameters.
use hydra_engine.Base.{
  ℕ, ◌≡◌, ◌≤◌, sym, Bool, true, false, ◌||◌, Option, none, some, [], get_or, leb, arith,
  if◌then◌else◌,
}
use mathlib.Core.Path.{subst}
use hydra_engine.Text.{Str, codes, str_eq}
use hydra_engine.Float.{Float}
use hydra_engine.Json.{end, present}
use hydra_engine.Redis.{Redis, RedisLaws}
use hydra_engine.Core.Keys.{idem_key}
use hydra_engine.Core.Orders.{OrderRequest, Venue}
use hydra_engine.Core.OrderQueue.Guards.{blocked_answer}
use hydra_engine.Core.KillSwitch.{Notice}
use hydra_engine.Storage.Contract.{OhlcvStore}
use hydra_engine.Api.Types.{health, create_order, Response, reply, App, Moment, Site}
use hydra_engine.Api.Control.{order_response}
use hydra_engine.Api.Guard.{handle, key_accepted, auth_guard}
use hydra_engine.Api.Health.{get_health}
use hydra_engine.Api.Paths.{Router, serve_path}
use hydra_engine.Api.Reading.{auth_guard-handle}
use hydra_engine.Api.Remote.{KillRoute, status_of, request, post_kill, order-after_post_kill}
use hydra_engine.Watchdog.{Probe, Report, is_healthy, lambda_handler}

-- `resp.get("Item", {}).get("count", 0)`; the table holds an item once a count was stored.
abbrev pub get_failure_count : Option ℕ → ℕ
get_failure_count item = get_or item 0

abbrev pub set_failure_count : ℕ → Option ℕ
set_failure_count count = some count

-- The environment of the function.
pub record Lambda : Type 0 where
  pub api_key : Str
  pub bot_token : Str
  pub chat_id : Str

-- Which of the calls of one run reach their server.
pub record Network : Type 0 where
  pub health_reached : Bool
  pub kill_reached : Bool
  pub telegram_reached : Bool

-- The call of the kill switch comes back with a JSON text; the answer 500 has none.
abbrev pub kill_returns : {F : Type 0} → Option (Response F) → Bool
kill_returns (some (reply n b)) = true
kill_returns _ = false

-- `send_telegram_alert` comes back: without a token or a chat it does nothing.
abbrev pub alert_returns : Lambda → Network → Bool
alert_returns env net = str_eq env.bot_token [] || str_eq env.chat_id [] || net.telegram_reached

abbrev pub health_status : {F : Type 0} → Option (Response F) → Option ℕ
health_status none = none
health_status (some r) = some (status_of r)

-- `GET /health` has no parameters.
abbrev pub HealthRoute : {F : Type 0} → Router F → Type 0
HealthRoute router = router (codes "/health") end ≡ some health

-- The item of the table, and the process that is watched.
pub record Watched (P : Type 0) : Type 0 where
  pub item : Option ℕ
  pub process : P

killed-lambda_handler :
    (count : ℕ) (p : Probe)
    → is_healthy p ≡ false
    → 2 ≤ count
    → (lambda_handler count p).killed ≡ true
unfolding lambda_handler
killed-lambda_handler count p down third = ground arith

module _ {F R X T S : Type 0} (f : Float F) (redis : Redis F R) (venue : Venue F X)
    (send : Notice F → T → T) (store : OhlcvStore F S) (app : App F) (router : Router F)
    (env : Lambda) where
  abbrev pub emergency_close_all :
      Network → Moment F → Site R X T S → Option (Response F) × Site R X T S
  emergency_close_all net m =
      post_kill f redis venue send store app router net.kill_reached m env.api_key
        (codes "dr_l2_watchdog")

  abbrev pub probe_of : Network → Moment F → Site R X T S → Probe
  probe_of net m s = record {
    health =
        health_status
          (request f redis venue send store app router net.health_reached m none (codes "/health")
            end s).0;
    kill_returns = kill_returns (emergency_close_all net m s).0;
    alert_returns = alert_returns env net;
  }

  -- One run of the function.
  unfoldable pub run : Network → Moment F → Watched (Site R X T S) → Report × Watched (Site R X T S)
  unfolding lambda_handler
  run net m w =
      let report = lambda_handler (get_failure_count w.item) (probe_of net m w.process) in
      (
        report,
        record {
          item = set_failure_count report.stored;
          process = if report.killed then (emergency_close_all net m w.process).1 else w.process;
        },
      )

  process-run :
      (net : Network) (m : Moment F) (w : Watched (Site R X T S))
      → net.health_reached ≡ false
      → net.kill_reached ≡ true
      → 2 ≤ get_failure_count w.item
      → (run net m w).1.process
        ≡ (post_kill f redis venue send store app router true m env.api_key
            (codes "dr_l2_watchdog")
            w.process).1
  unfolding run is_healthy
  process-run net m w down up third =
      ground (arith, killed-lambda_handler (get_failure_count w.item) (probe_of net m w.process))

  -- A running process that the health check reaches, while Redis does not answer it, counts as failed
  -- although it answers: the watchdog calls the kill switch exactly if at least two failures were counted
  -- before.
  pub watchdog_outage :
      (net : Network) (m : Moment F) (w : Watched (Site R X T S))
      → HealthRoute router
      → net.health_reached ≡ true
      → w.process.started ≡ true
      → m.health_reads ≡ false
      → (run net m w).0.killed ≡ leb 2 (get_failure_count w.item)
  unfolding run lambda_handler serve_path handle get_health is_healthy
  watchdog_outage net m w route up on silent =
      ground (arith, auth_guard-handle f redis venue send store app m none health w.process)

  -- When the health check does not reach the process, at least two failures are counted, and the call of
  -- the kill switch reaches the process with an accepted key, the trading is stopped: a later order over HTTP
  -- leaves the process as it is, whether or not the alert came through.
  pub watchdog_halts :
      RedisLaws f redis
      → KillRoute router
      → (net : Network) (m : Moment F) (w : Watched (Site R X T S)) (later : Moment F)
        (o : OrderRequest F)
      → net.health_reached ≡ false
      → net.kill_reached ≡ true
      → 2 ≤ get_failure_count w.item
      → w.process.started ≡ true
      → key_accepted app (some env.api_key) ≡ true
      → (let s = (run net m w).1.process in
          auth_guard f redis venue send store app later (some env.api_key) (create_order o) s ≡ (
            order_response (
                blocked_answer o
                  (present (redis.get w.process.world.redis (idem_key o.idempotency_key)))),
            s,
          ))
  unfolding run
  watchdog_halts laws route net m w later o down up third on accepted =
      subst
        (λ s.
          auth_guard f redis venue send store app later (some env.api_key) (create_order o) s ≡ (
            order_response (
                blocked_answer o
                  (present (redis.get w.process.world.redis (idem_key o.idempotency_key)))),
            s,
          ))
        (sym (process-run net m w down up third))
        (order-after_post_kill f redis venue send store app router laws route m env.api_key
          (codes "dr_l2_watchdog") w.process later o on accepted)
