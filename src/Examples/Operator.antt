-- ===== src/Examples/Operator.antt =====
-- Runs of the command line, of the start of the process and of the watchdog.
use hydra_engine.Base.{
  leb, ◌++◌, is_some, ℕ, ◌≡◌, refl, true, false, Option, none, some, List, [], ◌∷◌, if◌then◌else◌,
  arith,
}
use hydra_engine.Text.{Str, codes, str_eq, member}
use hydra_engine.Dict.{Dict, lookup, insert}
use hydra_engine.Float.Fixed.{ℤ, pos, fixed}
use hydra_engine.Json.{Json, str, member?, present, count}
use hydra_engine.Redis.Memory.{memory, memory-RedisLaws}
use hydra_engine.Exec.{ok}
use hydra_engine.Redis.{starts_with}
use hydra_engine.Storage.Create.{create_store}
use hydra_engine.Core.Types.{Market, kr, market_name}
use hydra_engine.Core.Keys.{idem_key, position_key, kill_blocked_key, daily_pnl_key}
use hydra_engine.Core.OrderQueue.{has_exchange}
use hydra_engine.Core.OrderQueue.Guards.{blocked_answer}
use hydra_engine.Core.RiskEngine.{get_daily_pnl_pct}
use hydra_engine.Config.Markets.{
  MarketManager, Entry, no_file, open_file, entries, is_active, get_mode, enable, save, paper,
  valid_markets,
}
use hydra_engine.Api.Types.{Moment, status, health, get_risk, killswitch, create_order}
use hydra_engine.Core.KillSwitch.{execute, block_orders, cancel_orders, close_positions}
use hydra_engine.Core.PositionTracker.{update, get_all}
use hydra_engine.Api.Control
use hydra_engine.Api.Control.{order_response}
use hydra_engine.Api.Guard.{handle, key_accepted, auth_guard}
use hydra_engine.Api.Paths.{Router, serve_path}
use hydra_engine.Api.Remote.{kill_params}
use hydra_engine.Api.Lifespan.{Machine, Returns, Started, start_up}
use hydra_engine.Cli.Kill.{kill}
use hydra_engine.Cli.Market.{enable_command, overwritten, enable_overwrites}
use hydra_engine.Cli.Status
use hydra_engine.Cli.Status.{Format}
use hydra_engine.Cli.Operator.{StatusRoutes, status-after_kill}
use hydra_engine.Cli.Setup.{
  Choice, Disk, Answers, Hardware, finished, recommend_profile, setup_rest, run_setup,
}
use hydra_engine.Cli.Connected.{connector_for}
use hydra_engine.Cli.Launch.{host_of, launched, launch_connects}
use hydra_engine.Watchdog.Calls.{
  Lambda, Network, Watched, run, get_failure_count, watchdog_outage, watchdog_halts,
}
use hydra_engine.Examples.Data.{counting, order, tell}
use hydra_engine.Examples.Stores.{store}
use hydra_engine.Examples.Http.{app, moment, Process, site, key, accepted_key}
use hydra_engine.Examples.Outside.{Token, fernet, fernet-law, empty_dir}

-- The reason of a request for the kill switch.
abbrev reason_of : Option (Json ℤ) → Option Str
reason_of (some (str s)) = some s
reason_of _ = none

-- A router that knows the routes of the clients.
abbrev router : Router ℤ
router path body =
    if str_eq path (codes "/killswitch")
    then some (killswitch (reason_of (member? (codes "reason") body)))
    else if str_eq path (codes "/status")
    then some status
    else if str_eq path (codes "/health")
    then some health
    else if str_eq path (codes "/risk")
    then some get_risk
    else none

kill_route :
    (reason : Str)
    → router (codes "/killswitch") (kill_params reason) ≡ some (killswitch (some reason))
unfolding str_eq member?
kill_route reason = refl

status_routes : StatusRoutes router
unfolding str_eq
status_routes = record { status_route = refl; health_route = refl; risk_route = refl }

abbrev format : Format ℤ
format = record {
  shown = λ j. [];
  decimal = λ n. [];
  grouped = λ n x. [];
  fixed = λ n x. [];
  upper = λ s. s;
}

abbrev killed : Process
killed =
    (kill fixed (memory fixed) counting tell store app router true true moment (codes "secret")
      (codes "drill") site).1

no_loss : get_daily_pnl_pct fixed (memory fixed) killed.world.redis ≡ ok (pos 0)
unfolding kill serve_path auth_guard handle Control.killswitch execute block_orders memory
    get_daily_pnl_pct str_eq member? key_accepted update position_key kill_blocked_key daily_pnl_key
    cancel_orders close_positions get_all
no_loss = refl

status-after_kill_example :
    (first rest : Str) × (more : List Str) × ((Status.status fixed
        (memory fixed)
        counting
        tell
        store
        app
        router
        format
        true
        moment
        (codes "secret")
        killed).lines
      ≡ first ∷ ((codes "Kill Switch: ACTIVE" ++ rest) ∷ more))
status-after_kill_example =
    status-after_kill fixed (memory fixed) counting tell store app router format
      (memory-RedisLaws fixed) kill_route status_routes moment moment (codes "secret")
      (codes "drill") site (pos 0) refl refl accepted_key no_loss

abbrev env : Lambda
env = record { api_key = codes "secret"; bot_token = []; chat_id = [] }

abbrev down : Network
down = record { health_reached = false; kill_reached = true; telegram_reached = false }

abbrev up : Network
up = record { health_reached = true; kill_reached = true; telegram_reached = true }

abbrev watched : Watched Process
watched = record { item = some 2; process = site }

-- Redis does not answer.
abbrev outage : Moment ℤ
outage = record moment { health_reads = false }

watchdog_outage_example :
    (run fixed (memory fixed) counting tell store app router env up outage watched).0.killed
    ≡ leb 2 (get_failure_count watched.item)
watchdog_outage_example =
    watchdog_outage fixed (memory fixed) counting tell store app router env up outage watched
      status_routes.health_route refl refl refl

watchdog_halts_example :
    (let s =
        (run fixed
          (memory fixed)
          counting
          tell
          store
          app
          router
          env
          down
          moment
          watched).1.process in
      auth_guard fixed (memory fixed) counting tell store app moment key (create_order order) s ≡ (
        order_response (
            blocked_answer order
              (present ((memory fixed).get site.world.redis (idem_key order.idempotency_key)))),
        s,
      ))
watchdog_halts_example =
    watchdog_halts fixed (memory fixed) counting tell store app router env (memory-RedisLaws fixed)
      kill_route down moment watched moment order refl refl (ground arith) refl accepted_key

-- The server knows no enabled market when it enables the Korean one; the operator has enabled the other.
abbrev idle_server : MarketManager
idle_server = open_file no_file

abbrev kr_entries : Option (Dict Entry)
kr_entries =
    some (
      insert (codes "kr") (record { enabled = some true; mode = some paper }) (entries idle_server))

abbrev kr_enabled : MarketManager
kr_enabled = record { markets = kr_entries; saved = kr_entries }

kr_known : enable idle_server (codes "kr") paper ≡ some kr_enabled
unfolding enable str_eq save open_file
kr_known = refl

kr_not_us : str_eq (codes "kr") (codes "us") ≡ false
unfolding str_eq
kr_not_us = refl

us_known : member (codes "us") valid_markets ≡ true
unfolding str_eq
us_known = refl

enable_overwrites_example :
    (is_active (open_file (enable_command (codes "us") (codes "live") no_file).1) (codes "us")
      ≡ true)
    × (get_mode (open_file (enable_command (codes "us") (codes "live") no_file).1) (codes "us")
        ≡ codes "live")
    × (is_active
          (open_file
            (overwritten kr_enabled (enable_command (codes "us") (codes "live") no_file).1))
          (codes "us")
        ≡ is_active idle_server (codes "us"))
    × (get_mode
          (open_file
            (overwritten kr_enabled (enable_command (codes "us") (codes "live") no_file).1))
          (codes "us")
        ≡ get_mode idle_server (codes "us"))
enable_overwrites_example =
    enable_overwrites idle_server kr_enabled no_file (codes "kr") (codes "us") (codes "live")
      us_known kr_known kr_not_us

abbrev kis_choice : Choice
kis_choice = record {
  chosen = true;
  mode = codes "live";
  first = codes "app";
  second = codes "secret";
  account_no = codes "50123456-01";
}

abbrev skipped : Choice
skipped = record kis_choice { chosen = false }

abbrev only_kr : Market → Choice
only_kr kr = kis_choice
only_kr m = skipped

abbrev pub answers : Answers
answers = record { profile = none; accepted = true; choice = only_kr }

abbrev pub seed : Str → Token
seed name = (0, count 0)

abbrev pub blank : Disk ℕ Token
blank = record { markets = open_file no_file; keys = empty_dir; env = none }

abbrev pub laptop : Hardware
laptop = record { cpu_cores = some 4; ram_gb = 16 }

abbrev pub installed : Disk ℕ Token
installed = setup_rest fernet 7 seed (codes "k") (codes "lite") only_kr blank

pub wizard_done : run_setup fernet 7 seed (codes "k") laptop answers blank ≡ (finished, installed)
unfolding run_setup recommend_profile str_eq
wizard_done = refl

abbrev returns : Returns
returns = record { redis_from_url = true; store_init = true; register_signals = true }

abbrev host : Machine ℕ Token
host = host_of fixed fernet fernet-law 7 8 seed (codes "k") (codes "sqlite:///h.db") installed none

store_known : is_some (create_store (codes "sqlite:///h.db")) ≡ true
unfolding create_store starts_with str_eq
store_known = refl

abbrev running : Started ℤ
running = launched fixed fernet fernet-law 7 8 seed (codes "k") (codes "sqlite:///h.db") installed

launch_connects_example :
    ((start_up fixed fernet 8 (codes "sqlite:///h.db") returns host).0 ≡ some running)
    × (lookup (market_name kr) running.exchanges ≡ some (connector_for only_kr kr))
    × (has_exchange kr running.queue.exchanges ≡ true)
launch_connects_example =
    launch_connects fixed fernet fernet-law 7 8 seed (codes "k") (codes "sqlite:///h.db") laptop
      answers blank installed kr returns none wizard_done refl (refl, refl, refl) store_known
