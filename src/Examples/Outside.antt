-- ===== src/Examples/Outside.antt =====
-- The bot, the agent, the pollers and the keys.
use hydra_engine.Base.{
  ℕ, ◌≡◌, refl, true, false, Option, none, some, [], ◌∷◌, ◌++◌, ◌==◌, ==_iff, All, if◌then◌else◌,
  arith, Bool-cases, inl, inr,
}
use hydra_engine.Text.{Str, codes, str_eq, str_eq_sound}
use hydra_engine.Float.Fixed.{ℤ, fixed}
use hydra_engine.Json.{Json, str, arr, obj, cons, nil, field, end, Payload}
use hydra_engine.Redis.{starts_with}
use hydra_engine.Redis.Memory.{Server, memory, memory-RedisLaws}
use hydra_engine.Exec.{Result, ok}
use hydra_engine.Core.Types.{Error}
use hydra_engine.Core.Keys.{kill_blocked_key}
use hydra_engine.Config.KeyManager.{Fernet, FernetLaw, KeyDir}
use hydra_engine.Api.Types.{killswitch}
use hydra_engine.Api.Paths.{path_of, Router, RouterLaw}
use hydra_engine.Notify.Telegram.{
  Chat, kill_started, kill_done, post_to, handle_killswitch, handle_killswitch_lem,
}
use hydra_engine.Agent.State.{HydraState}
use hydra_engine.Agent.Bridge.{Desk, run_once}
use hydra_engine.Agent.Alarms.{IsAlarm}
use hydra_engine.Agent.ReadOnly.{agent_prefix, run_once_lem}
use hydra_engine.Examples.Data.{counting, trading, tell}
use hydra_engine.Examples.Stores.{store as candle_store}
use hydra_engine.Examples.Http.{app, moment, Process, site}

-- A router that knows one route.
abbrev router : Router ℤ
router path body = if str_eq path (codes "/killswitch") then some (killswitch none) else none

router-law : RouterLaw router
unfolding path_of
router-law path body r h = elim (Bool-cases (str_eq path (codes "/killswitch"))) [
  | inl same ↦ ground (arith, str_eq_sound path (codes "/killswitch"))
  | inr other ↦ absurd (ground arith)
]

abbrev chat : Chat Process
chat = record { replies = []; process = site }

handle_killswitch_lem_example :
    handle_killswitch
      (post_to fixed (memory fixed) counting tell candle_store app router true moment)
      (codes "secret")
      chat
    ≡ record {
      replies = (chat.replies ++ kill_started ∷ []) ++ kill_done ∷ [];
      process = chat.process;
    }
handle_killswitch_lem_example =
    handle_killswitch_lem fixed (memory fixed) counting tell candle_store app router router-law true
      moment (codes "secret") chat

abbrev expire : Server ℤ → Str → ℕ → Server ℤ
expire r k t = r

-- The agent answers with an alert.
abbrev ask : HydraState ℤ → Result (Error ℤ) (Option (Json ℤ))
ask s = ok (
    some (
      obj (
        field (codes "alerts")
          (arr (cons (obj (field (codes "level") (str (codes "WARN")) end)) nil)) end)))

abbrev desk : Desk ℤ (Server ℤ)
desk = record { redis = trading.redis; reports = []; alerts = [] }

outside_key : starts_with agent_prefix kill_blocked_key ≡ false
unfolding starts_with kill_blocked_key str_eq
outside_key = refl

run_once_lem_example :
    ((memory fixed).get (run_once (memory fixed) expire ask 5 desk).1.redis kill_blocked_key
      ≡ (memory fixed).get desk.redis kill_blocked_key)
    × All IsAlarm (run_once (memory fixed) expire ask 5 desk).1.alerts
run_once_lem_example =
    run_once_lem fixed (memory fixed) (memory-RedisLaws fixed) expire (λ r k j t. refl) ask 5 desk
      kill_blocked_key outside_key tt

abbrev pub Token : Type 0
Token = ℕ × Payload ℤ

-- A toy cipher: the token carries its key.
abbrev pub fernet : Fernet ℤ ℕ Token
fernet = record {
  encrypt = λ k seed p. (k, p);
  decrypt = λ k token. if token.0 == k then some token.1 else none;
}

pub fernet-law : FernetLaw fernet
fernet-law k seed p = ground (arith, ==_iff k k)

abbrev pub empty_dir : KeyDir ℕ Token
empty_dir = record { master_key = none; files = [] }
