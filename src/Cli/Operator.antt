-- ===== src/Cli/Operator.antt =====
-- The commands of the operator, one after the other.
use hydra_engine.Base.{
  ℕ, ◌≡◌, refl, sym, ap, ◌∙◌, Bool, true, Option, none, some, List, ◌∷◌, ◌++◌, arith,
}
use mathlib.Core.Path.{subst}
use hydra_engine.Text.{Str, codes, str_eq}
use hydra_engine.Float.{Float}
use hydra_engine.Json.{end, member?}
use hydra_engine.Redis.{Redis, RedisLaws}
use hydra_engine.Exec.{ok}
use hydra_engine.Core.Orders.{Venue}
use hydra_engine.Core.KillSwitch.{Notice, is_active}
use hydra_engine.Core.RiskEngine.{get_daily_pnl_pct}
use hydra_engine.Storage.Contract.{OhlcvStore}
use hydra_engine.Core.PnlTracker.Summary.{Summary}
use hydra_engine.Api.Types.{Route, health, status, get_risk, App, Moment, Site}
use hydra_engine.Api.Control
use hydra_engine.Api.Guard.{handle, key_accepted}
use hydra_engine.Api.Halting.{halted, is_active-halted, started-halted}
use hydra_engine.Api.Health.{get_health}
use hydra_engine.Api.Paths.{Router, serve_path}
use hydra_engine.Api.Reading.{auth_guard-handle}
use hydra_engine.Api.Remote.{KillRoute, post_kill, post_kill-halted}
use hydra_engine.Cli.Kill.{kill}
use hydra_engine.Cli.Output.{Output}
use hydra_engine.Cli.Status
use hydra_engine.Cli.Status.{
  Format, switch_text, profile_of, uptime_of, risk_of, pnl_summary_of, server_output,
}

-- FastAPI finds the routes of the status command by their paths.
pub record StatusRoutes {F : Type 0} (router : Router F) : Type 0 where
  pub status_route : router (codes "/status") end ≡ some status
  pub health_route : router (codes "/health") end ≡ some health
  pub risk_route : router (codes "/risk") end ≡ some get_risk

-- The line of the kill switch, up to the loss behind it.
abbrev pub switch_line : Bool → Str → Str
switch_line active rest = codes "Kill Switch: " ++ (switch_text active ++ rest)

module _ {F R X T S : Type 0} (f : Float F) (redis : Redis F R) (venue : Venue F X)
    (send : Notice F → T → T) (store : OhlcvStore F S) (app : App F) (router : Router F)
    (format : Format F) where
  routed :
      (m : Moment F) (key path : Str) (route : Route F) (s : Site R X T S)
      → router path end ≡ some route
      → key_accepted app (some key) ≡ true
      → (serve_path f redis venue send store app router m (some key) path end s).0
        ≡ (handle f redis venue send store app m route s).0
  unfolding serve_path
  routed m key path route s found accepted =
      ground (arith, found, auth_guard-handle f redis venue send store app m (some key) route s)

  profile_served :
      StatusRoutes router
      → (m : Moment F) (key : Str) (s : Site R X T S) → key_accepted app (some key) ≡ true
      → profile_of
          (serve_path f redis venue send store app router m (some key) (codes "/status") end s).0
        ≡ some app.hydra_profile
  unfolding handle Control.status member? str_eq
  profile_served routes m key s accepted =
      ap profile_of (routed m key (codes "/status") status s routes.status_route accepted)

  uptime_served :
      StatusRoutes router
      → (m : Moment F) (s : Site R X T S) → s.started ≡ true
      → m.health_reads ≡ true
      → uptime_of (serve_path f redis venue send store app router m none (codes "/health") end s).0
        ≡ some m.uptime_seconds
  unfolding serve_path handle get_health
  uptime_served routes m s on reads =
      ground
        (arith, routes.health_route, auth_guard-handle f redis venue send store app m none health s)

  risk_served :
      StatusRoutes router
      → (m : Moment F) (key : Str) (s : Site R X T S) (loss : F) → s.started ≡ true
      → key_accepted app (some key) ≡ true
      → get_daily_pnl_pct f redis s.world.redis ≡ ok loss
      → risk_of
          (serve_path f redis venue send store app router m (some key) (codes "/risk") end s).0
        ≡ some (loss, is_active redis s.world.redis)
  unfolding handle Control.get_risk
  risk_served routes m key s loss on accepted read =
      ap risk_of (routed m key (codes "/risk") get_risk s routes.risk_route accepted) ∙ ground arith

  abbrev Tells : Output → Bool → Type 0
  Tells out active =
      (first rest : Str) × (more : List Str) × (out.lines
        ≡ first ∷ (switch_line active rest ∷ more))

  second_line :
      (profile : Str) (uptime : ℕ) (loss : F) (active : Bool) (pnl : Option (Summary F))
      → Tells (server_output f format (some profile) (some uptime) (some (loss, active)) pnl) active
  second_line profile uptime loss active pnl = (_, _, _, refl)

  -- The second line of the status tells whether the kill switch is active.
  status_lem :
      StatusRoutes router
      → (m : Moment F) (key : Str) (s : Site R X T S) (loss : F) → s.started ≡ true
      → m.health_reads ≡ true
      → key_accepted app (some key) ≡ true
      → get_daily_pnl_pct f redis s.world.redis ≡ ok loss
      → (first rest : Str) × (more : List Str) × ((Status.status f redis venue send store app router
            format true m key s).lines
          ≡ first ∷ (switch_line (is_active redis s.world.redis) rest ∷ more))
  unfolding Status.status
  status_lem routes m key s loss on reads accepted read =
      let pnl =
        pnl_summary_of
          (serve_path f redis venue send store app router m (some key) (codes "/pnl") end s).0 in
      let active = is_active redis s.world.redis in
      let out =
        server_output f format (some app.hydra_profile) (some m.uptime_seconds)
          (some (loss, active)) pnl in
      let printed = Status.status f redis venue send store app router format true m key s in
      let same : printed ≡ out = cc (
        profile_served routes m key s accepted,
        uptime_served routes m s on reads,
        risk_served routes m key s loss on accepted read,
      ) in
      subst (λ o. Tells o active) (sym same)
        (second_line app.hydra_profile m.uptime_seconds loss active pnl)

  -- After the operator has confirmed the kill command, with the key and the process running, the status
  -- command starts its second line with "Kill Switch: ACTIVE", as long as Redis
  -- answers the health check and the daily loss that the same line prints can be read.
  pub status-after_kill :
      RedisLaws f redis
      → KillRoute router
      → StatusRoutes router
      → (m later : Moment F) (key reason : Str) (s : Site R X T S) (loss : F) → s.started ≡ true
      → later.health_reads ≡ true
      → key_accepted app (some key) ≡ true
      → get_daily_pnl_pct f redis
          (kill f redis venue send store app router true true m key reason s).1.world.redis
        ≡ ok loss
      → (first rest : Str) × (more : List Str) × ((Status.status f redis venue send store app router
            format true later key
            (kill f redis venue send store app router true true m key reason s).1).lines
          ≡ first ∷ ((codes "Kill Switch: ACTIVE" ++ rest) ∷ more))
  unfolding kill
  status-after_kill laws route routes m later key reason s loss on reads accepted read =
      let after = (post_kill f redis venue send store app router true m key reason s).1 in
      let e : after ≡ halted f redis venue send store app m (some key) (some reason) s =
        ap (λ p. p.1)
          (post_kill-halted f redis venue send store app router laws route m key reason s) in
      let on' =
        ap (λ x. x.started) e
        ∙ started-halted f redis venue send store app laws m (some key) (some reason) s on
            accepted in
      let active =
        ap (λ x. is_active redis x.world.redis) e
        ∙ is_active-halted f redis venue send store app laws m (some key) (some reason) s on
            accepted in
      let (first, rest, more, lines) =
        status_lem routes later key after loss on' reads accepted read in
      (first, rest, more, lines ∙ ap (λ b. first ∷ (switch_line b rest ∷ more)) active)
