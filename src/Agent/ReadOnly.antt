-- ===== src/Agent/ReadOnly.antt =====
-- The agent cannot touch the trading.
use hydra_engine.Base.{
  ℕ, ◌≡◌, refl, sym, ap, ◌∙◌, false, Option, none, some, ◌++◌, All, get_or, arith, inl, inr,
  Bool-cases,
}
use mathlib.Core.Path.{subst}
use hydra_engine.Text.{Str, codes}
use hydra_engine.Float.{Float}
use hydra_engine.Json.{
  Json, int, arr, obj, Items, nil, cons, Fields, field, end, member?, dumped, Payload,
}
use hydra_engine.Redis.{Redis, RedisLaws, starts_with, starts_with-other}
use hydra_engine.Exec.{Result, ok, err, continue, Result-cases}
use hydra_engine.Core.Types.{Error}
use hydra_engine.Core.OrderQueue.{fields_of}
use hydra_engine.Api.Cached.{set_field}
use hydra_engine.Agent.Alarms.{IsAlarm, send_telegram_alerts-IsAlarm}
use hydra_engine.Agent.State.{HydraState, collect_hydra_state}
use hydra_engine.Agent.Bridge.{
  Desk, result_key, sentiment_key, list_of, store_sentiment, store_rest, store_results, send_alert,
  send_telegram_alerts, send_all, nothing_to_say, after_answer, after_call, after_collect, run_once,
}

abbrev pub agent_prefix : Str
agent_prefix = codes "hydra:openclaw:"

module _ {F R : Type 0} (f : Float F) (redis : Redis F R) (laws : RedisLaws f redis)
    (expire : R → Str → ℕ → R)
    (get-expire : (r : R) (k j : Str) (t : ℕ) → redis.get (expire r k t) j ≡ redis.get r j)
    (k : Str) (outside : starts_with agent_prefix k ≡ false) where
  get-sentiment :
      (d : Fields F) (r : R) → redis.get (store_sentiment redis expire d r) k ≡ redis.get r k
  unfolding store_sentiment
  get-sentiment end r = refl
  get-sentiment (field key val rest) r =
      get-sentiment rest (redis.set r (sentiment_key key) (dumped val))
      ∙ ground (
        arith,
        laws.get-set r (sentiment_key key) k (dumped val),
        starts_with-other agent_prefix (codes "sentiment:" ++ key) k outside,
      )

  get-store_rest :
      (report : Json F) (sentiment : Result (Error F) (Fields F)) (d : Desk F R)
      → redis.get (store_rest redis expire report sentiment d).1.redis k ≡ redis.get d.redis k
  get-store_rest report (err e) d = refl
  get-store_rest report (ok sentiment) d = get-sentiment sentiment d.redis

  get-store_results :
      (now : ℕ) (answer : Fields F) (d : Desk F R)
      → redis.get (store_results redis expire now answer d).1.redis k ≡ redis.get d.redis k
  unfolding store_results
  get-store_results now answer d =
      let analysis = set_field (codes "ts") (int now) answer in
      let r = redis.set d.redis result_key (dumped (obj analysis)) in
      get-store_rest (obj analysis)
        (fields_of (get_or (member? (codes "sentiment") analysis) (obj end)))
        (record d { redis = expire r result_key 3600 })
      ∙ (get-expire r result_key k 3600
          ∙ ground (
            arith,
            laws.get-set d.redis result_key k (dumped (obj analysis)),
            starts_with-other agent_prefix (codes "analysis:latest") k outside,
          ))

  redis-send_telegram_alerts :
      (alerts : Items F) (d : Desk F R) → (send_telegram_alerts alerts d).1.redis ≡ d.redis
  unfolding send_telegram_alerts
  redis-send_telegram_alerts nil d = refl
  redis-send_telegram_alerts (cons alert rest) d = elim (Result-cases (fields_of alert)) [
    | inl (e, p) ↦ ground arith
    | inr (fields, p) ↦ ground (arith, redis-send_telegram_alerts rest (send_alert alert fields d))
  ]

module _ {F R : Type 0} (f : Float F) (redis : Redis F R) (laws : RedisLaws f redis)
    (expire : R → Str → ℕ → R)
    (get-expire : (r : R) (k j : Str) (t : ℕ) → redis.get (expire r k t) j ≡ redis.get r j)
    (k : Str) (outside : starts_with agent_prefix k ≡ false) (old : Option (Payload F)) where
  -- The key holds what it held, and only alarms were sent.
  abbrev Kept : Desk F R → Type 0
  Kept d = (redis.get d.redis k ≡ old) × All IsAlarm d.alerts

  send_all-Kept :
      (alerts : Result (Error F) (Items F)) (d : Desk F R) → Kept d → Kept (send_all alerts d).1
  send_all-Kept (err e) d h = h
  send_all-Kept (ok alerts) d h = (
    ap (λ r. redis.get r k)
          (redis-send_telegram_alerts f redis laws expire get-expire k outside alerts d)
        ∙ h.0,
    send_telegram_alerts-IsAlarm alerts d h.1,
  )

  alerts-store_rest :
      (report : Json F) (sentiment : Result (Error F) (Fields F)) (d : Desk F R)
      → (store_rest redis expire report sentiment d).1.alerts ≡ d.alerts
  alerts-store_rest report (err e) d = refl
  alerts-store_rest report (ok sentiment) d = refl

  store_results-Kept :
      (now : ℕ) (answer : Fields F) (d : Desk F R)
      → Kept d
      → Kept (store_results redis expire now answer d).1
  unfolding store_results
  store_results-Kept now answer d h =
      let analysis = set_field (codes "ts") (int now) answer in
      let r = expire (redis.set d.redis result_key (dumped (obj analysis))) result_key 3600 in
      (
        get-store_results f redis laws expire get-expire k outside now answer d ∙ h.0,
        subst (All IsAlarm)
            (sym (
              alerts-store_rest (obj analysis)
                (fields_of (get_or (member? (codes "sentiment") analysis) (obj end)))
                (record d { redis = r })))
            h.1,
      )

  continue-Kept :
      (r : Result (Error F) (Unit {0})) (alerts : Result (Error F) (Items F)) (d : Desk F R)
      → Kept d
      → Kept (continue r (λ done. send_all alerts) d).1
  continue-Kept (err e) alerts d h = h
  continue-Kept (ok done) alerts d h = send_all-Kept alerts d h

  after_answer-Kept :
      (now : ℕ) (answer : Result (Error F) (Fields F)) (d : Desk F R)
      → Kept d
      → Kept (after_answer redis expire now answer d).1
  after_answer-Kept now (err e) d h = h
  after_answer-Kept now (ok answer) d h =
      let (r, d') = store_results redis expire now answer d in
      continue-Kept r (list_of (get_or (member? (codes "alerts") answer) (arr nil))) d'
        (store_results-Kept now answer d h)

  after_call-Kept :
      (now : ℕ) (answer : Result (Error F) (Option (Json F))) (d : Desk F R)
      → Kept d
      → Kept (after_call redis expire now answer d).1
  after_call-Kept now (err e) d h = h
  after_call-Kept now (ok none) d h = h
  after_call-Kept now (ok (some analysis)) d h = after_answer-Kept now (fields_of analysis) d h

  after_collect-Kept :
      (ask : HydraState F → Result (Error F) (Option (Json F))) (now : ℕ)
      (state : Result (Error F) (HydraState F)) (d : Desk F R)
      → Kept d
      → Kept (after_collect redis expire ask now state d).1
  after_collect-Kept ask now (err e) d h = h
  after_collect-Kept ask now (ok s) d h = elim (Bool-cases (nothing_to_say redis expire s)) [
    | inl quiet ↦ rw quiet h
    | inr speaks ↦ rw speaks (after_call-Kept now (ask s) d h)
  ]

-- A run of the bridge writes keys of its own only, whatever the agent answers and whatever goes wrong on
-- the way: every key outside "hydra:openclaw:" holds what it held, so orders, positions, the kill switch
-- and the signals are out of reach; and of the alerts only those of level WARN or CRITICAL are sent.
pub run_once_lem :
    {F R : Type 0} (f : Float F) (redis : Redis F R) (laws : RedisLaws f redis)
    (expire : R → Str → ℕ → R)
    (get-expire : (r : R) (k j : Str) (t : ℕ) → redis.get (expire r k t) j ≡ redis.get r j)
    (ask : HydraState F → Result (Error F) (Option (Json F))) (now : ℕ) (d : Desk F R) (k : Str)
    → starts_with agent_prefix k ≡ false
    → All IsAlarm d.alerts
    → (redis.get (run_once redis expire ask now d).1.redis k ≡ redis.get d.redis k)
      × All IsAlarm (run_once redis expire ask now d).1.alerts
unfolding run_once
run_once_lem f redis laws expire get-expire ask now d k outside sent =
    after_collect-Kept f redis laws expire get-expire k outside (redis.get d.redis k) ask now
      (collect_hydra_state redis d.redis now) d (refl, sent)
