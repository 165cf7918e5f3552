-- ===== src/Examples/Http.antt =====
-- Requests to the HTTP interface.
use hydra_engine.Base.{ℕ, ◌≡◌, refl, true, false, ◌⊎◌, Option, some, [], ◌∷◌}
use hydra_engine.Text.{Str, codes, str_eq}
use hydra_engine.Float.Fixed.{ℤ, pos, fixed}
use hydra_engine.Json.{str, num, int}
use hydra_engine.Redis.Memory.{Server, memory, memory-RedisLaws}
use hydra_engine.Strategy.Indicators.{close_of}
use hydra_engine.Strategy.Generator.{generate}
use hydra_engine.Engines.Indicator
use hydra_engine.Engines.Regime
use hydra_engine.Engines.Strategy
use hydra_engine.Engines.Strategy.{advice_name}
use hydra_engine.Engines.Pipeline.{regime_for}
use hydra_engine.Api.Types.{get_signal, reset_daily_pnl, signal_answer, reply, App, Moment, Site}
use hydra_engine.Api.Guard.{key_accepted, auth_guard}
use hydra_engine.Api.Reading.{changes, auth_guard-changes}
use hydra_engine.Api.Serving.{served_signal}
use hydra_engine.Examples.Data.{counting, queue, trading, tell}
use hydra_engine.Examples.Live.{candles, study, made, stamp, computed, event, dry, ids, settings}
use hydra_engine.Examples.Stores.{Table, store, two_rows}

abbrev pub app : App ℤ
app = record {
  hydra_api_key = codes "secret";
  hydra_profile = codes "lite";
  version = codes "0.1.0";
  queue = queue;
  study = study;
}

abbrev pub moment : Moment ℤ
moment = record {
  uuid = codes "u1";
  duration_ms = pos 10000;
  day = codes "2026-01-01";
  uptime_seconds = 5;
  health_reads = true;
  now = λ i. i;
}

abbrev pub Process : Type 0
Process = Site (Server ℤ) ℕ ℕ (Option Table)

abbrev pub site : Process
site = record { started = true; world = trading; inbox = 0; markets = settings; store = two_rows }

abbrev pub key : Option Str
key = some (codes "secret")

pub accepted_key : key_accepted app key ≡ true
unfolding key_accepted str_eq
accepted_key = refl

auth_guard-changes_example :
    ((auth_guard fixed (memory fixed) counting tell store app moment key reset_daily_pnl site).1
      ≡ site)
    ⊎ ((changes {F = ℤ} reset_daily_pnl ≡ true)
        × (key ≡ some app.hydra_api_key)
        × (str_eq app.hydra_api_key [] ≡ false))
auth_guard-changes_example =
    auth_guard-changes fixed (memory fixed) counting tell store app moment key reset_daily_pnl site

-- The process after the engines have handled an event.
abbrev fed : Process
fed = record site {
  world = Strategy.handle_event fixed (memory fixed) counting 9 ids dry event (record trading {
    redis =
        Regime.handle_event fixed (memory fixed) 8 event
          (Indicator.handle_event fixed (memory fixed) study 7 candles event trading.redis);
  });
}

served_signal_example :
    auth_guard fixed (memory fixed) counting tell store app moment key (get_signal event) fed ≡ (
      (let made' =
            generate fixed 9
              (made ∷ stamp)
              (regime_for fixed (made ∷ stamp))
              (close_of fixed (made ∷ stamp)) in
          reply 200 (
            signal_answer event
              (str (advice_name made'.signal))
              (str made'.reason)
              (num made'.price)
              (int made'.ts))),
      fed,
    )
served_signal_example =
    served_signal fixed (memory fixed) (memory-RedisLaws fixed) counting tell store app study
      candles 7 8 9 ids dry event trading made stamp moment key fed refl computed refl accepted_key
      refl
