-- ===== src/Agent/Bridge.antt =====
-- hydra/agent/openclaw_bridge.py and report_writer.py: one run of the bridge, from the state it collects to
-- the results it stores and the alerts it sends.
use hydra_engine.Base.{
  ℕ, Bool, true, false, Option, none, some, List, [], ◌∷◌, ◌++◌, if◌then◌else◌, get_or,
}
use hydra_engine.Text.{Str, codes, str_eq, member}
use hydra_engine.Json.{
  Json, int, str, arr, obj, Items, nil, cons, Fields, field, end, member?, dumped,
}
use hydra_engine.Redis.{Redis}
use hydra_engine.Exec.{Result, ok, err, continue}
use hydra_engine.Core.Types.{Error, value_error}
use hydra_engine.Core.OrderQueue.{fields_of}
use hydra_engine.Api.Cached.{set_field}
use hydra_engine.Agent.State.{HydraState, collect_hydra_state}

abbrev pub result_key : Str
result_key = codes "hydra:openclaw:analysis:latest"

abbrev pub sentiment_key : Str → Str
sentiment_key key = codes "hydra:openclaw:sentiment:" ++ key

-- The server, the report files, and the messages on the channel "hydra:telegram:alert".
pub record Desk (F R : Type 0) : Type 0 where
  pub redis : R
  pub reports : List (Json F)
  pub alerts : List (Json F)

module _ {F : Type 0} where
  -- `for … in alerts`: an empty text or object has no parts; those of another one have no `get`.
  abbrev pub list_of : Json F → Result (Error F) (Items F)
  list_of (arr xs) = ok xs
  list_of (str []) = ok nil
  list_of (obj end) = ok nil
  list_of _ = err value_error

  -- `alert.get("level") in ("WARN", "CRITICAL")`
  unfoldable pub is_alarm : Fields F → Bool
  unfolding str_eq
  is_alarm alert = elim (member? (codes "level") alert) [
    | none ↦ false
    | some v ↦ elim v [ str s ↦ member s (codes "WARN" ∷ codes "CRITICAL" ∷ []) | _ ↦ false ]
  ]

module _ {F R : Type 0} (redis : Redis F R) (expire : R → Str → ℕ → R) where
  -- The loop over the sentiment of the symbols.
  unfoldable pub store_sentiment : Fields F → R → R
  store_sentiment end r = r
  store_sentiment (field key val rest) r =
      store_sentiment rest (redis.set r (sentiment_key key) (dumped val))

  -- `write_report`
  abbrev pub write_report : Json F → Desk F R → Desk F R
  write_report report d = record d { reports = d.reports ++ report ∷ [] }

  abbrev pub store_rest :
      Json F → Result (Error F) (Fields F) → Desk F R → Result (Error F) (Unit {0}) × Desk F R
  store_rest report (err e) d = (err e, d)
  store_rest report (ok sentiment) d =
      (ok tt, write_report report (record d { redis = store_sentiment sentiment d.redis }))

  unfoldable pub store_results : ℕ → Fields F → Desk F R → Result (Error F) (Unit {0}) × Desk F R
  unfolding store_sentiment set_field
  store_results now answer d =
      let analysis = set_field (codes "ts") (int now) answer in
      let r = expire (redis.set d.redis result_key (dumped (obj analysis))) result_key 3600 in
      store_rest (obj analysis)
        (fields_of (get_or (member? (codes "sentiment") analysis) (obj end)))
        (record d { redis = r })

module _ {F R : Type 0} where
  abbrev pub send_alert : Json F → Fields F → Desk F R → Desk F R
  send_alert alert fields d =
      if is_alarm fields then record d { alerts = d.alerts ++ alert ∷ [] } else d

  abbrev pub alert_at :
      Json F → Result (Error F) (Fields F) → Desk F R → Result (Error F) (Unit {0}) × Desk F R
  alert_at alert (err e) d = (err e, d)
  alert_at alert (ok fields) d = (ok tt, send_alert alert fields d)

  unfoldable pub send_telegram_alerts : Items F → Desk F R → Result (Error F) (Unit {0}) × Desk F R
  unfolding is_alarm
  send_telegram_alerts nil d = (ok tt, d)
  send_telegram_alerts (cons alert rest) d =
      let (r, d') = alert_at alert (fields_of alert) d in
      continue r (λ done d''. send_telegram_alerts rest d'') d'

  abbrev pub send_all :
      Result (Error F) (Items F) → Desk F R → Result (Error F) (Unit {0}) × Desk F R
  send_all (err e) d = (err e, d)
  send_all (ok alerts) d = send_telegram_alerts alerts d

module _ {F R : Type 0} (redis : Redis F R) (expire : R → Str → ℕ → R) where
  abbrev pub nothing_to_say : HydraState F → Bool
  nothing_to_say s = elim s.signals [
    | [] ↦ elim s.regimes [ [] ↦ true | x ∷ xs ↦ false ]
    | x ∷ xs ↦ false
  ]

  -- The results of an answer that is an object; `analysis["ts"]` of another one raises.
  abbrev pub after_answer :
      ℕ → Result (Error F) (Fields F) → Desk F R → Result (Error F) (Unit {0}) × Desk F R
  after_answer now (err e) d = (err e, d)
  after_answer now (ok analysis) d =
      let (r, d') = store_results redis expire now analysis d in
      continue r (λ done. send_all (list_of (get_or (member? (codes "alerts") analysis) (arr nil))))
        d'

  abbrev pub after_call :
      ℕ → Result (Error F) (Option (Json F)) → Desk F R → Result (Error F) (Unit {0}) × Desk F R
  after_call now (err e) d = (err e, d)
  after_call now (ok none) d = (ok tt, d)
  after_call now (ok (some analysis)) d = after_answer now (fields_of analysis) d

  abbrev pub after_collect :
      (HydraState F → Result (Error F) (Option (Json F)))
      → ℕ
      → Result (Error F) (HydraState F)
      → Desk F R
      → Result (Error F) (Unit {0}) × Desk F R
  after_collect ask now (err e) d = (err e, d)
  after_collect ask now (ok s) d = if nothing_to_say s then (ok tt, d) else after_call now (ask s) d

  -- `ask` formats the prompt and calls the agent. `main` logs an exception and goes on. The line that is
  -- printed at the end is left out.
  unfoldable pub run_once :
      (HydraState F → Result (Error F) (Option (Json F)))
      → ℕ
      → Desk F R
      → Result (Error F) (Unit {0}) × Desk F R
  unfolding store_results send_telegram_alerts
  run_once ask now d = after_collect ask now (collect_hydra_state redis d.redis now) d
